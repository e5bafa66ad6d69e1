-- ===== src/ChaChaPoly/RoundTrip.antt =====
-- The two directions of src/backends/SoftChaChaPoly.cpp against each other, and its stack buffer.
use arduino_nrf_crypto.Base.{ℕ, ◌≤◌, ◌<◌, List, ◌≡◌, refl, sym}
use arduino_nrf_crypto.Base.{◌∙◌, ◌↔◌, arith, length, take, write_at, IsBytes, true, false}
use arduino_nrf_crypto.Base.{some, Slice, bytes, contents, diff_loop}
use arduino_nrf_crypto.Base.{
  diff_loop-zero, diff_loop_self, take-write_at, take-all, length-write_at,
}
use arduino_nrf_crypto.Base.{ltb}
use arduino_nrf_crypto.ChaCha.{chacha_block, chacha_xor}
use arduino_nrf_crypto.ChaCha.Stream.{length-chacha_xor, chacha_xor_cancel}
use arduino_nrf_crypto.Poly1305.{auth}
use arduino_nrf_crypto.Poly1305.Shape.{auth_lem}
use arduino_nrf_crypto.Aead.{bad_pointers_given}
use arduino_nrf_crypto.ChaChaPoly.{
  buf_len, mac_data, aead_poly1305, seal, open_sealed, encrypt, decrypt,
}

-- The tag that the code computes: its Poly1305 of its data under the first half of block 0.
unfoldable pub tag_of : List ℕ → List ℕ → List ℕ → List ℕ → List ℕ
tag_of key nonce aad ct = auth (mac_data aad ct) (take 32 (chacha_block key nonce 0))

pub tag_of_lem :
    (key nonce aad ct : List ℕ)
    → (length (tag_of key nonce aad ct) ≡ 16) × IsBytes (tag_of key nonce aad ct)
unfolding tag_of
tag_of_lem key nonce aad ct = auth_lem (mac_data aad ct) (take 32 (chacha_block key nonce 0))

module _ (key nonce : List ℕ) where
  -- Data that fit the stack buffer are given their tag, over whatever stood there.
  fits_tag :
      (tag aad ct : List ℕ)
      → length tag ≡ 16
      → buf_len (length aad) (length ct) ≤ 512
      → aead_poly1305 tag key nonce aad ct ≡ tag_of key nonce aad ct
  unfolding aead_poly1305 tag_of
  fits_tag tag aad ct e h =
      let expected = auth (mac_data aad ct) (take 32 (chacha_block key nonce 0)) in
      let size = (auth_lem (mac_data aad ct) (take 32 (chacha_block key nonce 0))).0 in
      let small : ltb 512 (buf_len (length aad) (length ct)) ≡ false = ground arith in
      let t = write_at tag 0 expected in
      rw small (
        sym (take-all 16 t (omega (arith, length-write_at tag 0 expected)))
        ∙ take-write_at tag 0 expected 16 (omega (arith, size)) (omega (arith, size)))

  -- For data whose authenticated form fits the stack buffer of 512 bytes, with a tag of at least 16
  -- bytes and every pointer given, `decrypt` answers true exactly if the first 16 bytes of the tag
  -- are Poly1305 of that form under the first half of block 0; if it answers false, `out` is as it
  -- was.
  pub chacha_poly_decrypt-ok_iff :
      (stack ct out tag : List ℕ) (aad : Slice)
      → length stack ≡ 16
      → 16 ≤ length tag
      → IsBytes tag
      → buf_len (length (contents aad)) (length ct) ≤ 512
      → let r = decrypt stack (some key) (some nonce) aad (bytes ct) (some out) (some tag) in
        ((r.ok ≡ true) ↔ (take 16 tag ≡ tag_of key nonce (contents aad) ct))
        × (r.ok ≡ false → r.out ≡ some out)
  unfolding decrypt open_sealed
  chacha_poly_decrypt-ok_iff stack ct out tag aad stack_size long b small =
      let expected = tag_of key nonce (contents aad) ct in
      let shape = tag_of_lem key nonce (contents aad) ct in
      let whole : take 16 expected ≡ expected = take-all 16 expected (omega (arith, shape.0)) in
      let sound = diff_loop-zero 16 tag expected 0 long (omega (arith, shape.0)) b shape.1 in
      let complete = diff_loop_self 16 tag expected long in
      rw (bad_pointers_given key nonce tag ct out) (
        rw (fits_tag stack (contents aad) ct stack_size small) (
          (λ ok. (sound (ground arith)).1 ∙ whole, λ e. ground (arith, complete (e ∙ sym whole))),
          λ no. ground arith,
        ))

  -- For data whose authenticated form fits the stack buffer of 512 bytes, with a tag buffer of 16 bytes
  -- and buffers with room for the plain text, `encrypt` succeeds, and `decrypt` of what it wrote,
  -- with the tag that it wrote, succeeds and recovers the plain text, whatever the stack held.
  pub chacha_poly_decrypt-encrypt :
      (stack plain out out2 tag : List ℕ) (aad : Slice)
      → IsBytes plain
      → length plain ≤ length out
      → length plain ≤ length out2
      → length tag ≡ 16
      → length stack ≡ 16
      → buf_len (length (contents aad)) (length plain) ≤ 512
      → (c t out' : List ℕ) × (encrypt
            (some key)
            (some nonce)
            aad
            (bytes plain)
            (some out)
            (some tag)
          ≡ record { ok = true; out = some c; tag = some t })
        × (decrypt stack
              (some key)
              (some nonce)
              aad
              (bytes (take (length plain) c))
              (some out2)
              (some t)
            ≡ record { ok = true; out = some out'; tag = some t })
        × (take (length plain) out' ≡ plain)
  unfolding encrypt decrypt seal open_sealed
  chacha_poly_decrypt-encrypt stack plain out out2 tag aad b room room2 tag_size stack_size small =
      let text = chacha_xor key nonce 1 plain in
      let size = length-chacha_xor key nonce 1 plain in
      let c = write_at out 0 text in
      let front : take (length plain) c ≡ text =
        take-write_at out 0 text (length plain) (omega (arith, size)) (omega (arith, size)) in
      let expected = tag_of key nonce (contents aad) text in
      let shape = tag_of_lem key nonce (contents aad) text in
      let small' : buf_len (length (contents aad)) (length text) ≤ 512 = rw size small in
      let back : chacha_xor key nonce 1 text ≡ plain = chacha_xor_cancel key nonce 1 plain b in
      let same : diff_loop 16 expected expected 0 ≡ 0 =
        diff_loop_self 16 expected expected (omega (arith, shape.0)) refl in
      (
        c,
        expected,
        write_at out2 0 plain,
        rw (bad_pointers_given key nonce tag plain out)
            (rw front (rw (fits_tag tag (contents aad) text tag_size small') refl)),
        rw (bad_pointers_given key nonce expected (take (length plain) c) out2) (
            rw front
              (rw (fits_tag stack (contents aad) text stack_size small') (rw same (rw back refl)))),
        take-write_at out2 0 plain (length plain) (omega arith) (omega arith),
      )

  -- For data whose authenticated form is longer than 512 bytes, with room in `out` and at least 16 bytes
  -- of tag and of stack, `encrypt` answers true and leaves `tag` as it was, and `decrypt` answers
  -- true exactly if the tag agrees with what the stack happens to hold.
  pub oversized :
      (stack plain out tag : List ℕ) (aad : Slice)
      → length plain ≤ length out
      → 512 < buf_len (length (contents aad)) (length plain)
      → 16 ≤ length tag
      → 16 ≤ length stack
      → IsBytes tag
      → IsBytes stack
      → ((encrypt (some key) (some nonce) aad (bytes plain) (some out) (some tag)).ok ≡ true)
        × ((encrypt (some key) (some nonce) aad (bytes plain) (some out) (some tag)).tag ≡ some tag)
        × (((decrypt stack (some key) (some nonce) aad (bytes plain) (some out) (some tag)).ok
              ≡ true)
            ↔ (take 16 tag ≡ take 16 stack))
  unfolding encrypt decrypt seal open_sealed aead_poly1305
  oversized stack plain out tag aad room big long long2 b b2 =
      let text = chacha_xor key nonce 1 plain in
      let size = length-chacha_xor key nonce 1 plain in
      let front : take (length plain) (write_at out 0 text) ≡ text =
        take-write_at out 0 text (length plain) (omega (arith, size)) (omega (arith, size)) in
      let large : ltb 512 (buf_len (length (contents aad)) (length plain)) ≡ true = ground arith in
      let large' : ltb 512 (buf_len (length (contents aad)) (length text)) ≡ true = rw size large in
      let sound = diff_loop-zero 16 tag stack 0 long long2 b b2 in
      let complete = diff_loop_self 16 tag stack long in
      rw (bad_pointers_given key nonce tag plain out) (
        refl,
        rw front (rw large' refl),
        rw large (λ ok. (sound (ground arith)).1, λ e. ground (arith, complete e)),
      )
