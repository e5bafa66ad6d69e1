-- ===== src/OnChip/Cbc.antt =====
-- `aes128CbcEncrypt` and `aes128CbcDecrypt` of src/backends/OnChipBackend.cpp.
use arduino_nrf_crypto.Base.{
  ℕ, zero, suc, ◌+◌, ◌*◌, ◌/◌, ◌≤◌, List, [], ◌∷◌, ◌++◌, ◌≡◌, refl, sym, ap, ap₂, ◌∙◌,
}
use arduino_nrf_crypto.Base.{arith, length, take, drop, write_at, take-write_at, IsBytes, some}
use arduino_nrf_crypto.Base.{
  append-nil, append_assoc, xor_bytes, xor_bytes_cancel, length-xor_bytes,
}
use arduino_nrf_crypto.Base.{
  IsBytes-xor_bytes, length-take, length-drop, IsBytes-take, IsBytes-drop,
}
use arduino_nrf_crypto.Base.{take-append, drop-append, take-append-drop, length-append, take-all}
use arduino_nrf_crypto.Aes128.{encrypt_block, decrypt_block}
use arduino_nrf_crypto.Aes128.Shape.{encrypt_block_lem}
use arduino_nrf_crypto.Aes128.Inverse.{decrypt_block-encrypt_block}
use arduino_nrf_crypto.Types.{ok}
use arduino_nrf_crypto.OnChip.{Peripherals, Board, Memory, cbc_encrypt_loop, cbc_decrypt_loop}
use arduino_nrf_crypto.OnChip.{aes128_cbc_encrypt, aes128_cbc_decrypt, xor_block}
use arduino_nrf_crypto.OnChip.Ctr.{Encrypts}

-- CBC of NIST SP 800-38A: a block is encrypted after its sum with the cipher text before it.
abbrev pub chain : ℕ → List ℕ → List ℕ → List ℕ → List ℕ
chain zero key prev input = []
chain (suc blocks) key prev input =
    let c = encrypt_block key (xor_block input prev) in c ++ chain blocks key c (drop 16 input)

length-xor_block : (a b : List ℕ) → 16 ≤ length a → 16 ≤ length b → length (xor_block a b) ≡ 16
length-xor_block a b h k =
    length-xor_bytes (take 16 a) (take 16 b) (omega (arith, length-take 16 a, length-take 16 b))
    ∙ omega (arith, length-take 16 a)

-- The sum with the same block twice gives back the front of the data.
xor_block_cancel :
    (a b : List ℕ)
    → 16 ≤ length a
    → length b ≡ 16
    → IsBytes a
    → IsBytes b
    → xor_block (xor_block a b) b ≡ take 16 a
xor_block_cancel a b h k p q =
    ap (λ t. xor_bytes t (take 16 b))
      (take-all 16 (xor_block a b) (omega (arith, length-xor_block a b h (omega arith))))
    ∙ xor_bytes_cancel (take 16 a) (take 16 b) (omega (arith, length-take 16 a, length-take 16 b))
        (IsBytes-take 16 a p) (IsBytes-take 16 b q)

module _ (key : List ℕ) (sized : length key ≡ 16) (byte : IsBytes key) where
  length-chain : (n : ℕ) (prev input : List ℕ) → length (chain n key prev input) ≡ n * 16
  length-chain zero prev input = refl
  length-chain (suc n) prev input =
      let c = encrypt_block key (xor_block input prev) in
      let rest = length-chain n c (drop 16 input) in
      length-append c (chain n key c (drop 16 input))
      ∙ omega (arith, rest, (encrypt_block_lem key (xor_block input prev) sized byte).0)

module _ {W : Type 0} (p : Peripherals W) (m : Memory) (key : List ℕ) (sized : length key ≡ 16)
    (byte : IsBytes key) where
  cbc_decrypt_loop-chain :
      (n : ℕ) (prev input : List ℕ)
      → length prev ≡ 16
      → IsBytes prev
      → length input ≡ n * 16
      → IsBytes input
      → cbc_decrypt_loop p m n key prev (chain n key prev input) ≡ input
  unfolding cbc_decrypt_loop
  cbc_decrypt_loop-chain zero prev [] ps pb e b = refl
  cbc_decrypt_loop-chain zero prev (x ∷ input) ps pb e b = absurd (omega arith)
  cbc_decrypt_loop-chain (suc n) prev input ps pb e b =
      let x = xor_block input prev in
      let c = encrypt_block key x in
      let c_h = encrypt_block_lem key x sized byte in
      let rest = chain n key c (drop 16 input) in
      let x_size = length-xor_block input prev (omega arith) (omega arith) in
      let front : take 16 (c ++ rest) ≡ c = take-append c rest 16 (sym c_h.0) in
      let back : drop 16 (c ++ rest) ≡ rest = drop-append c rest 16 (sym c_h.0) in
      ap₂ ◌++◌
        (ap (λ t. xor_block (decrypt_block key t) prev) front
          ∙ ap (λ t. xor_block t prev)
              (decrypt_block-encrypt_block key x sized byte x_size
                (IsBytes-xor_bytes (take 16 input) (take 16 prev)))
          ∙ xor_block_cancel input prev (omega arith) (omega arith) b pb)
        (ap₂ (cbc_decrypt_loop p m n key) front back
          ∙ cbc_decrypt_loop-chain n c (drop 16 input) c_h.0 c_h.1
              (omega (arith, length-drop 16 input)) (IsBytes-drop 16 input b))
      ∙ take-append-drop 16 input

module _ {W : Type 0} (p : Peripherals W) (m : Memory) (works : Encrypts p) (key : List ℕ)
    (sized : length key ≡ 16) (byte : IsBytes key) where
  cbc_encrypt_loop-chain :
      (n : ℕ) (w : W) (prev input written : List ℕ)
      → length prev ≡ 16
      → length input ≡ n * 16
      → ((cbc_encrypt_loop p m n w key prev input written).0 ≡ ok)
        × ((cbc_encrypt_loop p m n w key prev input written).1.0
            ≡ written ++ chain n key prev input)
  unfolding cbc_encrypt_loop
  cbc_encrypt_loop-chain zero w prev input written e h = (refl, sym (append-nil written))
  cbc_encrypt_loop-chain (suc n) w prev input written e h =
      let x = xor_block input prev in
      let c = encrypt_block key x in
      let size = length-xor_block input prev (omega arith) (omega arith) in
      let ih =
        cbc_encrypt_loop-chain n (p.ecb w key x).1 c (drop 16 input) (written ++ c)
          (encrypt_block_lem key x sized byte).0 (omega (arith, length-drop 16 input)) in
      rw (cbc_encrypt_loop, works w key x sized size)
        (ih.0, ih.1 ∙ append_assoc written c (chain n key c (drop 16 input)))

  -- With an ECB peripheral that computes AES-128, a key and an initial vector of 16 bytes, data of whole
  -- blocks and buffers with room, CBC encrypt answers Ok, and CBC decrypt of what it wrote answers
  -- Ok and recovers the data.
  pub aes128_cbc_decrypt-aes128_cbc_encrypt :
      (d d2 : Board W) (n : ℕ) (iv input out out2 : List ℕ)
      → length iv ≡ 16
      → IsBytes iv
      → length input ≡ n * 16
      → IsBytes input
      → length input ≤ length out
      → length input ≤ length out2
      → (c back : List ℕ) × ((aes128_cbc_encrypt p m d key iv input out).status ≡ ok)
        × ((aes128_cbc_encrypt p m d key iv input out).out ≡ some c)
        × ((aes128_cbc_decrypt p m d2 key iv (take (length input) c) out2).status ≡ ok)
        × ((aes128_cbc_decrypt p m d2 key iv (take (length input) c) out2).out ≡ some back)
        × (take (length input) back ≡ input)
  unfolding aes128_cbc_encrypt aes128_cbc_decrypt
  aes128_cbc_decrypt-aes128_cbc_encrypt d d2 n iv input out out2 e eb h b room room2 =
      let text = chain n key iv input in
      let size = length-chain key sized byte n iv input in
      let blocks : (length input + 15) / 16 ≡ n = omega arith in
      let blocks' : (length text + 15) / 16 ≡ n = omega (arith, size) in
      let c = write_at out 0 text in
      let front : take (length input) c ≡ text =
        take-write_at out 0 text (length input) (omega (arith, size)) (omega (arith, size)) in
      let run = cbc_encrypt_loop-chain n d.hardware iv input [] e h in
      let back = cbc_decrypt_loop-chain p m key sized byte n iv input e eb h b in
      (
        c,
        write_at out2 0 input,
        rw blocks run.0,
        rw blocks (ap (λ t. some (write_at out 0 t)) run.1),
        refl,
        rw (front, blocks', back) refl,
        take-write_at out2 0 input (length input) (omega arith) (omega arith),
      )
