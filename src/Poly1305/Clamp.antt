-- ===== src/Poly1305/Clamp.antt =====
-- `poly1305Init` of src/backends/SoftChaChaPoly.cpp against the clamp of RFC 8439, section 2.5.
use arduino_nrf_crypto.Base.{ℕ, ◌+◌, ◌-◌, ◌*◌, ◌/◌, ◌%◌, ◌^◌, ◌<◌, ◌≡◌, ap, ◌∙◌, arith}
use arduino_nrf_crypto.Base.{u32, List, get_or, get_or-lt, IsBytes, bit_and, bit_or}
use arduino_nrf_crypto.Base.{bit_and_mask, bit_or_apart, bit_and_apart}
use native.Mathlib.Nat.{mod-eq_of_lt}
use arduino_nrf_crypto.Poly1305.{init_r}
use arduino_nrf_crypto.Poly1305.Product.{value}

-- The first 16 bytes of the key, with the four high bits of the bytes 3, 7, 11 and 15 and the two low
-- bits of the bytes 4, 8 and 12 cleared, as a little-endian number.
abbrev pub clamped : List ℕ → ℕ
clamped key =
    let k = λ (i : ℕ). get_or key i 0 in
    let high_clear = λ (i : ℕ). k i % 2 ^ 4 in
    let low_clear = λ (i : ℕ). k i / 2 ^ 2 * 2 ^ 2 in
    (k 0 + k 1 * 2 ^ 8 + k 2 * 2 ^ 16 + high_clear 3 * 2 ^ 24)
    + (low_clear 4 + k 5 * 2 ^ 8 + k 6 * 2 ^ 16 + high_clear 7 * 2 ^ 24) * 2 ^ 32
    + (low_clear 8 + k 9 * 2 ^ 8 + k 10 * 2 ^ 16 + high_clear 11 * 2 ^ 24) * 2 ^ 64
    + (low_clear 12 + k 13 * 2 ^ 8 + k 14 * 2 ^ 16 + high_clear 15 * 2 ^ 24) * 2 ^ 96

-- Four numbers that are apart, joined by `|`; the shifts keep all their bits.
joined :
    (a b c d p q r : ℕ)
    → a < 2 ^ p
    → a + b * 2 ^ p < 2 ^ q
    → a + b * 2 ^ p + c * 2 ^ q < 2 ^ r
    → b * 2 ^ p < 2 ^ 32
    → c * 2 ^ q < 2 ^ 32
    → d * 2 ^ r < 2 ^ 32
    → bit_or (bit_or (bit_or a (u32 (b * 2 ^ p))) (u32 (c * 2 ^ q))) (u32 (d * 2 ^ r))
      ≡ a + b * 2 ^ p + c * 2 ^ q + d * 2 ^ r
joined a b c d p q r ha hb hc kb kc kd =
    rw (mod-eq_of_lt kb, mod-eq_of_lt kc, mod-eq_of_lt kd)
      (ap (λ (n : ℕ). bit_or (bit_or n (c * 2 ^ q)) (d * 2 ^ r)) (bit_or_apart p a b ha)
        ∙ ap (λ (n : ℕ). bit_or n (d * 2 ^ r)) (bit_or_apart q (a + b * 2 ^ p) c hb)
        ∙ bit_or_apart r (a + b * 2 ^ p + c * 2 ^ q) d hc)

-- Masks with a gap.
mask_1 : (x : ℕ) → bit_and x 0x3ffff03 ≡ x % 2 ^ 2 + x / 2 ^ 8 % 2 ^ 18 * 2 ^ 8
mask_1 x = omega (
  arith,
  bit_and_apart 8 x 3 (2 ^ 18 - 1) (omega arith),
  bit_and_mask 2 x,
  bit_and_mask 18 (x / 2 ^ 8),
)

mask_2 : (x : ℕ) → bit_and x 0x3ffc0ff ≡ x % 2 ^ 8 + x / 2 ^ 14 % 2 ^ 12 * 2 ^ 14
mask_2 x = omega (
  arith,
  bit_and_apart 14 x 0xff (2 ^ 12 - 1) (omega arith),
  bit_and_mask 8 x,
  bit_and_mask 12 (x / 2 ^ 14),
)

mask_3 : (x : ℕ) → bit_and x 0x3f03fff ≡ x % 2 ^ 14 + x / 2 ^ 20 % 2 ^ 6 * 2 ^ 20
mask_3 x = omega (
  arith,
  bit_and_apart 20 x 0x3fff (2 ^ 6 - 1) (omega arith),
  bit_and_mask 14 x,
  bit_and_mask 6 (x / 2 ^ 20),
)

-- The limbs of `poly1305Init` stand for the clamped key.
pub value-init_r : (key : List ℕ) → IsBytes key → value (init_r key) ≡ clamped key
unfolding init_r
value-init_r key bytes =
    let k = λ (i : ℕ). get_or key i 0 in
    let b0 = get_or-lt key 0 bytes in
    let b1 = get_or-lt key 1 bytes in
    let b2 = get_or-lt key 2 bytes in
    let b3 = get_or-lt key 3 bytes in
    let b4 = get_or-lt key 4 bytes in
    let b5 = get_or-lt key 5 bytes in
    let b6 = get_or-lt key 6 bytes in
    let b7 = get_or-lt key 7 bytes in
    let b8 = get_or-lt key 8 bytes in
    let b9 = get_or-lt key 9 bytes in
    let b10 = get_or-lt key 10 bytes in
    let b11 = get_or-lt key 11 bytes in
    let b12 = get_or-lt key 12 bytes in
    let b13 = get_or-lt key 13 bytes in
    let b14 = get_or-lt key 14 bytes in
    let b15 = get_or-lt key 15 bytes in
    let b16 = get_or-lt key 16 bytes in
    let j0 =
      joined (k 0) (k 1) (k 2) (k 3) 8 16 24 (omega arith) (omega arith) (omega arith) (omega arith)
        (omega arith) (omega arith) in
    let j1 =
      joined (k 3 / 2 ^ 2) (k 4) (k 5) (k 6) 6 14 22 (omega arith) (omega arith) (omega arith)
        (omega arith) (omega arith) (omega arith) in
    let j2 =
      joined (k 6 / 2 ^ 4) (k 7) (k 8) (k 9) 4 12 20 (omega arith) (omega arith) (omega arith)
        (omega arith) (omega arith) (omega arith) in
    let j3 =
      joined (k 9 / 2 ^ 6) (k 10) (k 11) (k 12) 2 10 18 (omega arith) (omega arith) (omega arith)
        (omega arith) (omega arith) (omega arith) in
    let j4 =
      joined (k 13) (k 14) (k 15) (k 16) 8 16 24 (omega arith) (omega arith) (omega arith)
        (omega arith) (omega arith) (omega arith) in
    rw
      (
        j0,
        j1,
        j2,
        j3,
        j4,
        bit_and_mask 26 (k 0 + k 1 * 2 ^ 8 + k 2 * 2 ^ 16 + k 3 * 2 ^ 24),
        mask_1 (k 3 / 2 ^ 2 + k 4 * 2 ^ 6 + k 5 * 2 ^ 14 + k 6 * 2 ^ 22),
        mask_2 (k 6 / 2 ^ 4 + k 7 * 2 ^ 4 + k 8 * 2 ^ 12 + k 9 * 2 ^ 20),
        mask_3 (k 9 / 2 ^ 6 + k 10 * 2 ^ 2 + k 11 * 2 ^ 10 + k 12 * 2 ^ 18),
        bit_and_mask 20 (k 13 + k 14 * 2 ^ 8 + k 15 * 2 ^ 16 + k 16 * 2 ^ 24),
      )
      (omega arith)
