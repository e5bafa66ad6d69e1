-- ===== src/AesGcm/Ghash.antt =====
-- The sizes of GHASH values and of the tag.
use arduino_nrf_crypto.Base.{ℕ, zero, suc, ◌^◌, List, [], ◌∷◌, ◌≡◌, refl, ap, ◌∙◌}
use arduino_nrf_crypto.Base.{arith, length, get_or, replicate, xor_bytes, IsBytes}
use arduino_nrf_crypto.Base.{length-xor_bytes, IsBytes-xor_bytes, bit_and, bit_xor}
use arduino_nrf_crypto.Base.{length-set}
use arduino_nrf_crypto.Aes128.{encrypt_block}
use arduino_nrf_crypto.Aes128.Shape.{encrypt_block_lem}
use arduino_nrf_crypto.AesGcm.{
  shift_tail, shift_right, gf_step, gf_bits, gf_bytes, gf128_mul, ghash_block,
}
use arduino_nrf_crypto.AesGcm.{ghash_padded, compute_tag, len_block, make_j0}

length-shift_tail : (before : ℕ) (v : List ℕ) → length (shift_tail before v) ≡ length v
unfolding shift_tail
length-shift_tail before [] = refl
length-shift_tail before (x ∷ xs) = ap suc (length-shift_tail x xs)

length-shift_right : (v : List ℕ) → length (shift_right v) ≡ length v
unfolding shift_right
length-shift_right [] = refl
length-shift_right (x ∷ xs) = ap suc (length-shift_tail x xs)

-- `z` and `v` are blocks.
abbrev AreBlocks : List ℕ × List ℕ → Type 0
AreBlocks s = (length s.0 ≡ 16) × (length s.1 ≡ 16)

gf_step-AreBlocks : (bit : ℕ) (s : List ℕ × List ℕ) → AreBlocks s → AreBlocks (gf_step bit s)
unfolding gf_step
gf_step-AreBlocks bit (z, v) h =
    let w = shift_right v in
    let same = length-shift_right v in
    (
      ground (arith, length-xor_bytes z v),
      ground (arith, same, length-set w 0 (bit_xor (get_or w 0 0) 0xe1)),
    )

gf_bits-AreBlocks : (bit x : ℕ) (s : List ℕ × List ℕ) → AreBlocks s → AreBlocks (gf_bits bit x s)
unfolding gf_bits
gf_bits-AreBlocks zero x s h = h
gf_bits-AreBlocks (suc bit) x s h =
    gf_bits-AreBlocks bit x (gf_step (bit_and x (2 ^ bit)) s) (gf_step-AreBlocks _ s h)

gf_bytes-AreBlocks : (xs : List ℕ) (s : List ℕ × List ℕ) → AreBlocks s → AreBlocks (gf_bytes xs s)
unfolding gf_bytes
gf_bytes-AreBlocks [] s h = h
gf_bytes-AreBlocks (x ∷ xs) s h = gf_bytes-AreBlocks xs (gf_bits 8 x s) (gf_bits-AreBlocks 8 x s h)

pub length-ghash_block : (y h block : List ℕ) → length h ≡ 16 → length (ghash_block y h block) ≡ 16
unfolding ghash_block gf128_mul
length-ghash_block y h block e =
    (gf_bytes-AreBlocks (xor_bytes y block) (replicate 16 0, h) (refl, e)).0

-- The tag is 16 bytes.
pub compute_tag_lem :
    (key iv aad ct : List ℕ)
    → length key ≡ 16
    → IsBytes key
    → (length (compute_tag key iv aad ct) ≡ 16) × IsBytes (compute_tag key iv aad ct)
unfolding compute_tag
compute_tag_lem key iv aad ct e b =
    let h = encrypt_block key (replicate 16 0) in
    let y = ghash_padded (ghash_padded (replicate 16 0) h aad) h ct in
    let last = ghash_block y h (len_block (length aad) (length ct)) in
    let mask = encrypt_block key (make_j0 iv) in
    let size =
      length-ghash_block y h (len_block (length aad) (length ct))
        (encrypt_block_lem key (replicate 16 0) e b).0 in
    let wide = (encrypt_block_lem key (make_j0 iv) e b).0 in
    (length-xor_bytes last mask (omega (arith, size, wide)) ∙ size, IsBytes-xor_bytes last mask)
