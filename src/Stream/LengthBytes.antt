-- ===== src/Stream/LengthBytes.antt =====
-- The length field of `finish` (src/backends/SoftSha256.cpp, SoftSha512.cpp) as a number.
use arduino_nrf_crypto.Base.{ℕ, zero, suc, ◌+◌, ◌*◌, ◌/◌, ◌%◌, ◌^◌, ◌<◌, List, [], ◌∷◌, ◌≡◌, refl}
use arduino_nrf_crypto.Base.{
  sym, ap, ◌∙◌, arith, length, length-append, foldl, foldl-append, bit_and,
}
use arduino_nrf_crypto.Base.{bit_and_mask, u8, ◌>>>◌}
use native.Mathlib.Nat.{
  pow-suc, one-le-pow, mod-lt, mod-eq_of_lt, div-add-mod, mul-add-mod_self_left,
}
use arduino_nrf_crypto.Stream.{length_bytes}

pub length-length_bytes : (n bits : ℕ) → length (length_bytes n bits) ≡ n
unfolding length_bytes
length-length_bytes zero bits = refl
length-length_bytes (suc n) bits = omega (
  arith,
  length-append (length_bytes n (bits >>> 8)) (u8 (bit_and bits 0xff) ∷ []),
  length-length_bytes n (bits >>> 8),
)

-- The number that bytes stand for, the first one the most significant.
abbrev pub big_endian : List ℕ → ℕ
big_endian input = foldl (λ n b. n * 256 + b) 0 input

mod_split : (m bits : ℕ) → 0 < m → (bits >>> 8) % m * 256 + u8 (bits % 2 ^ 8) ≡ bits % (m * 256)
mod_split m bits pos =
    let q = bits / 256 in
    let low = q % m * 256 + bits % 256 in
    let parts : bits ≡ m * 256 * (q / m) + low =
      omega (arith, ap (λ (t : ℕ). t * 256) (div-add-mod q m)) in
    let small : low < m * 256 = omega (arith, mod-lt q pos) in
    sym (
      ap (λ t. t % (m * 256)) parts
      ∙ mul-add-mod_self_left (m * 256) (q / m) low
      ∙ mod-eq_of_lt small
      ∙ omega arith)

-- The field holds the bit count modulo its width.
pub big_endian-length_bytes : (n bits : ℕ) → big_endian (length_bytes n bits) ≡ bits % 256 ^ n
unfolding length_bytes
big_endian-length_bytes zero bits = omega arith
big_endian-length_bytes (suc n) bits =
    foldl-append (λ m b. m * 256 + b) 0 (length_bytes n (bits >>> 8)) (u8 (bit_and bits 0xff) ∷ [])
    ∙ ap (λ t. t * 256 + u8 (bit_and bits 0xff)) (big_endian-length_bytes n (bits >>> 8))
    ∙ ap (λ t. (bits >>> 8) % 256 ^ n * 256 + u8 t) (bit_and_mask 8 bits)
    ∙ mod_split (256 ^ n) bits (one-le-pow n 256 (omega arith))
    ∙ ap (λ t. bits % t) (sym (pow-suc 256 n))
