-- ===== src/OnChip/Ctr.antt =====
-- `aes128Ctr` of src/backends/OnChipBackend.cpp.
use arduino_nrf_crypto.Base.{ℕ, zero, suc, ◌+◌, ◌≤◌, List, [], ◌∷◌, ◌++◌, ◌≡◌, refl, sym, ap, ◌∙◌}
use arduino_nrf_crypto.Base.{
  arith, length, take, drop, write_at, take-write_at, IsBytes, some, append-nil,
}
use arduino_nrf_crypto.Base.{append_assoc, xor_bytes, length-set, u8, get_or, set}
use arduino_nrf_crypto.Base.{◌==◌, Bool-cases, inl, inr}
use arduino_nrf_crypto.Keystream
use arduino_nrf_crypto.Aes128.{encrypt_block}
use arduino_nrf_crypto.Aes128.Shape.{encrypt_block_lem}
use arduino_nrf_crypto.Types.{ok}
use arduino_nrf_crypto.OnChip.{
  Peripherals, Board, Memory, increment_loop, increment_counter, ctr_loop,
}
use arduino_nrf_crypto.OnChip.{aes128_ctr}

-- The ECB peripheral succeeds, whatever its state, and puts out the AES-128 of FIPS 197.
abbrev pub Encrypts : {W : Type 0} → Peripherals W → Type 0
Encrypts {W} p =
    (w : W) (key block : List ℕ)
    → length key ≡ 16
    → length block ≡ 16
    → (p.ecb w key block).0 ≡ some (encrypt_block key block)

pub length-increment_loop : (i : ℕ) (ctr : List ℕ) → length (increment_loop i ctr) ≡ length ctr
unfolding increment_loop
length-increment_loop zero ctr = refl
length-increment_loop (suc i) ctr =
    let v = u8 (get_or ctr i 0 + 1) in
    let size = length-set ctr i v in
    let ih = length-increment_loop i (set ctr i v) in
    elim (Bool-cases (v == 0)) [ inl e ↦ rw e (ih ∙ size) | inr e ↦ rw e size ]

module _ {W : Type 0} (p : Peripherals W) (m : Memory) (works : Encrypts p) (key : List ℕ)
    (sized : length key ≡ 16) (byte : IsBytes key) where
  ctr_loop-run :
      (fuel : ℕ) (w : W) (ctr input written : List ℕ)
      → length ctr ≡ 16
      → ((ctr_loop p m fuel w key ctr input written).0 ≡ ok)
        × ((ctr_loop p m fuel w key ctr input written).1.0
            ≡ written ++ Keystream.run 16 (encrypt_block key) increment_counter fuel ctr input)
  unfolding ctr_loop Keystream.run
  ctr_loop-run zero w ctr input written e = (refl, sym (append-nil written))
  ctr_loop-run (suc fuel) w ctr [] written e = (refl, sym (append-nil written))
  ctr_loop-run (suc fuel) w ctr (x ∷ input) written e =
      let ks = encrypt_block key ctr in
      let chunk = xor_bytes (take 16 (x ∷ input)) ks in
      let later = drop 16 (x ∷ input) in
      let ih =
        ctr_loop-run fuel (p.ecb w key ctr).1 (increment_counter ctr) later (written ++ chunk)
          (length-increment_loop 16 ctr ∙ e) in
      rw (ctr_loop, works w key ctr sized e)
        (
          ih.0,
          ih.1
              ∙ append_assoc written chunk (
                  Keystream.run 16 (encrypt_block key) increment_counter fuel
                    (increment_counter ctr) later),
        )

  -- The key stream of CTR: AES of the counter block, counted up by one for each block.
  abbrev pub stream_of : List ℕ → List ℕ → List ℕ
  stream_of iv input =
      Keystream.run 16 (encrypt_block key) increment_counter (length input) iv input

  pub aes128_ctr_lem :
      (d : Board W) (iv input out : List ℕ)
      → length iv ≡ 16
      → ((aes128_ctr p m d key iv input out).status ≡ ok)
        × ((aes128_ctr p m d key iv input out).out ≡ some (write_at out 0 (stream_of iv input)))
  unfolding aes128_ctr
  aes128_ctr_lem d iv input out e =
      let r = ctr_loop-run (length input) d.hardware iv input [] e in
      (r.0, ap (λ t. some (write_at out 0 t)) r.1)

  length-stream_of : (iv input : List ℕ) → length (stream_of iv input) ≡ length input
  length-stream_of iv input =
      Keystream.length-run 16 (encrypt_block key) increment_counter (omega arith)
        (λ c. (encrypt_block_lem key c sized byte).0) (length input) iv input (omega arith)

  -- With an ECB peripheral that computes AES-128, a key and a counter block of 16 bytes and buffers with
  -- room, CTR answers Ok, and a second call with the same key and counter block answers Ok and
  -- recovers the data, at every length.
  pub aes128_ctr_cancel :
      (d d2 : Board W) (iv input out out2 : List ℕ)
      → length iv ≡ 16
      → IsBytes input
      → length input ≤ length out
      → length input ≤ length out2
      → (c back : List ℕ) × ((aes128_ctr p m d key iv input out).status ≡ ok)
        × ((aes128_ctr p m d key iv input out).out ≡ some c)
        × ((aes128_ctr p m d2 key iv (take (length input) c) out2).status ≡ ok)
        × ((aes128_ctr p m d2 key iv (take (length input) c) out2).out ≡ some back)
        × (take (length input) back ≡ input)
  aes128_ctr_cancel d d2 iv input out out2 e b room room2 =
      let text = stream_of iv input in
      let size = length-stream_of iv input in
      let c = write_at out 0 text in
      let front : take (length input) c ≡ text =
        take-write_at out 0 text (length input) (omega (arith, size)) (omega (arith, size)) in
      let once = aes128_ctr_lem d iv input out e in
      let again = aes128_ctr_lem d2 iv text out2 e in
      let back : stream_of iv text ≡ input =
        ap (λ n. Keystream.run 16 (encrypt_block key) increment_counter n iv text) size
        ∙ Keystream.run_cancel 16 (encrypt_block key) increment_counter (omega arith)
            (λ c. (encrypt_block_lem key c sized byte).0)
            (λ c. (encrypt_block_lem key c sized byte).1) (length input) iv input (omega arith) b in
      (
        c,
        write_at out2 0 input,
        once.0,
        once.1,
        rw front again.0,
        rw front (again.1 ∙ ap (λ t. some (write_at out2 0 t)) back),
        take-write_at out2 0 input (length input) (omega arith) (omega arith),
      )
