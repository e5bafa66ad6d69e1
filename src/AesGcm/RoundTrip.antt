-- ===== src/AesGcm/RoundTrip.antt =====
-- The two directions of src/backends/SoftAesGcm.cpp against each other.
use arduino_nrf_crypto.Base.{ℕ, zero, suc, ◌≤◌, List, [], ◌∷◌, ◌++◌, ◌≡◌, refl, sym, ap, ap₂}
use arduino_nrf_crypto.Base.{◌∙◌, ◌↔◌, arith, length, take, drop, write_at, IsBytes, true, false}
use arduino_nrf_crypto.Base.{some, Slice, bytes, contents, diff_loop}
use arduino_nrf_crypto.Base.{diff_loop-zero, diff_loop_self, xor_bytes}
use arduino_nrf_crypto.Base.{take-write_at, take-all, length-write_at}
use arduino_nrf_crypto.Keystream
use arduino_nrf_crypto.Aes128.{encrypt_block}
use arduino_nrf_crypto.Aes128.Shape.{encrypt_block_lem}
use arduino_nrf_crypto.Aead.{bad_pointers_given}
use arduino_nrf_crypto.AesGcm.Ghash.{compute_tag_lem}
use arduino_nrf_crypto.AesGcm.{
  inc_counter, gctr_loop, gctr, compute_tag, seal, open_sealed, encrypt,
}
use arduino_nrf_crypto.AesGcm.{decrypt, make_j0}

module _ (key : List ℕ) (sized : length key ≡ 16) (byte : IsBytes key) where
  gctr_loop-run :
      (fuel : ℕ) (ctr input : List ℕ)
      → gctr_loop fuel key ctr input
        ≡ Keystream.run 16 (λ c. encrypt_block key (inc_counter c)) inc_counter fuel ctr input
  unfolding gctr_loop Keystream.run
  gctr_loop-run zero ctr input = refl
  gctr_loop-run (suc fuel) ctr [] = refl
  gctr_loop-run (suc fuel) ctr (x ∷ input) =
      ap (λ t. xor_bytes (take 16 (x ∷ input)) (encrypt_block key (inc_counter ctr)) ++ t)
        (gctr_loop-run fuel (inc_counter ctr) (drop 16 (x ∷ input)))

  pub length-gctr : (ctr input : List ℕ) → length (gctr key ctr input) ≡ length input
  unfolding gctr
  length-gctr ctr input =
      ap length (gctr_loop-run (length input) ctr input)
      ∙ Keystream.length-run 16 (λ c. encrypt_block key (inc_counter c)) inc_counter (omega arith)
          (λ c. (encrypt_block_lem key (inc_counter c) sized byte).0) (length input) ctr input
          (omega arith)

  -- The counter mode is its own inverse.
  pub gctr_cancel : (ctr input : List ℕ) → IsBytes input → gctr key ctr (gctr key ctr input) ≡ input
  gctr_cancel ctr input b =
      let block = λ (c : List ℕ). encrypt_block key (inc_counter c) in
      let one : gctr key ctr input ≡ Keystream.run 16 block inc_counter (length input) ctr input =
        unfold gctr in gctr_loop-run (length input) ctr input in
      let out = gctr key ctr input in
      let two : gctr key ctr out ≡ Keystream.run 16 block inc_counter (length out) ctr out =
        unfold gctr in gctr_loop-run (length out) ctr out in
      two
      ∙ ap₂ (λ n t. Keystream.run 16 block inc_counter n ctr t) (length-gctr ctr input) one
      ∙ Keystream.run_cancel 16 block inc_counter (omega arith)
          (λ c. (encrypt_block_lem key (inc_counter c) sized byte).0)
          (λ c. (encrypt_block_lem key (inc_counter c) sized byte).1) (length input) ctr input
          (omega arith) b

  -- With a key of 16 bytes, a tag of at least 16 bytes and every pointer given, `decrypt` answers true
  -- exactly if the first 16 bytes of the tag are the computed tag; if it answers false, `out` is as
  -- it was.
  pub gcm_decrypt-ok_iff :
      (iv ct out tag : List ℕ) (aad : Slice)
      → 16 ≤ length tag
      → IsBytes tag
      → let r = decrypt (some key) (some iv) aad (bytes ct) (some out) (some tag) in
        ((r.ok ≡ true) ↔ (take 16 tag ≡ compute_tag key iv (contents aad) ct))
        × (r.ok ≡ false → r.out ≡ some out)
  unfolding decrypt open_sealed
  gcm_decrypt-ok_iff iv ct out tag aad long b =
      let expected = compute_tag key iv (contents aad) ct in
      let shape = compute_tag_lem key iv (contents aad) ct sized byte in
      let given = bad_pointers_given key iv tag ct out in
      let whole : take 16 expected ≡ expected = take-all 16 expected (omega (arith, shape.0)) in
      let sound = diff_loop-zero 16 tag expected 0 long (omega (arith, shape.0)) b shape.1 in
      let complete = diff_loop_self 16 tag expected long in
      rw given (
        (λ ok. (sound (ground arith)).1 ∙ whole, λ e. ground (arith, complete (e ∙ sym whole))),
        λ no. ground arith,
      )

  -- With a key of 16 bytes, a tag buffer of 16 bytes and buffers with room for the bytes of the plain
  -- text, `encrypt` succeeds, and `decrypt` of what it wrote, with the tag that it wrote, succeeds
  -- and recovers the plain text.
  pub gcm_decrypt-encrypt :
      (iv plain out out2 tag : List ℕ) (aad : Slice)
      → IsBytes plain
      → length plain ≤ length out
      → length plain ≤ length out2
      → length tag ≡ 16
      → (c t out' : List ℕ) × (encrypt (some key) (some iv) aad (bytes plain) (some out) (some tag)
          ≡ record { ok = true; out = some c; tag = some t })
        × (decrypt (some key) (some iv) aad (bytes (take (length plain) c)) (some out2) (some t)
            ≡ record { ok = true; out = some out'; tag = some t })
        × (take (length plain) out' ≡ plain)
  unfolding encrypt decrypt seal open_sealed
  gcm_decrypt-encrypt iv plain out out2 tag aad b room room2 tag_size =
      let text = gctr key (make_j0 iv) plain in
      let size = length-gctr (make_j0 iv) plain in
      let c = write_at out 0 text in
      let front : take (length plain) c ≡ text =
        take-write_at out 0 text (length plain) (omega (arith, size)) (omega (arith, size)) in
      let expected = compute_tag key iv (contents aad) text in
      let shape = compute_tag_lem key iv (contents aad) text sized byte in
      let t = write_at tag 0 expected in
      let kept : t ≡ expected =
        sym (take-all 16 t (omega (arith, length-write_at tag 0 expected)))
        ∙ take-write_at tag 0 expected 16 (omega (arith, shape.0)) (omega (arith, shape.0)) in
      let back : gctr key (make_j0 iv) text ≡ plain = gctr_cancel (make_j0 iv) plain b in
      let same : diff_loop 16 t expected 0 ≡ 0 =
        rw kept (diff_loop_self 16 expected expected (omega (arith, shape.0)) refl) in
      (
        c,
        t,
        write_at out2 0 plain,
        rw (bad_pointers_given key iv tag plain out) (rw front refl),
        rw (bad_pointers_given key iv t (take (length plain) c) out2)
            (rw front (rw same (rw back refl))),
        take-write_at out2 0 plain (length plain) (omega arith) (omega arith),
      )
