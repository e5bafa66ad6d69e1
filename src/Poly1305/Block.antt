-- ===== src/Poly1305/Block.antt =====
-- A block of src/backends/SoftChaChaPoly.cpp (`poly1305Blocks`), split into limbs, as a number.
use arduino_nrf_crypto.Base.{ℕ, ◌+◌, ◌-◌, ◌*◌, ◌/◌, ◌%◌, ◌^◌, ◌<◌, ◌≡◌, ap, ◌∙◌, arith}
use arduino_nrf_crypto.Base.{
  u32, bit_and, bit_or, bit_and_mask, ◌>>>◌, ◌<<<◌, List, Bool, true, false,
}
use arduino_nrf_crypto.Base.{get_or, get_or-lt, IsBytes, if◌then◌else◌, bit_or_apart}
use arduino_nrf_crypto.ChaCha.{load32}
use arduino_nrf_crypto.Poly1305.{Limbs}
use arduino_nrf_crypto.Poly1305.Product.{value, UpTo, same_limbs}

-- Four bytes as a little-endian number, and a block of 16 with its padding bit.
abbrev pub word : List ℕ → ℕ → ℕ
word p i =
    get_or p i 0
    + get_or p (i + 1) 0 * 2 ^ 8
    + get_or p (i + 2) 0 * 2 ^ 16
    + get_or p (i + 3) 0 * 2 ^ 24

abbrev pub pad_value : Bool → ℕ
pad_value pad_bit = if pad_bit then 2 ^ 128 else 0

abbrev pub block_value : List ℕ → Bool → ℕ
block_value p pad_bit =
    word p 0 + word p 4 * 2 ^ 32 + word p 8 * 2 ^ 64 + word p 12 * 2 ^ 96 + pad_value pad_bit

pub load32-word : (p : List ℕ) (i : ℕ) → IsBytes p → load32 p i ≡ word p i
unfolding load32
load32-word p i b =
    let x0 = get_or p i 0 in
    let x1 = get_or p (i + 1) 0 in
    let x2 = get_or p (i + 2) 0 in
    let x3 = get_or p (i + 3) 0 in
    let h0 = get_or-lt p i b in
    let h1 = get_or-lt p (i + 1) b in
    let h2 = get_or-lt p (i + 2) b in
    let h3 = get_or-lt p (i + 3) b in
    let e1 = bit_or_apart 8 x0 x1 (omega arith) in
    let e2 = bit_or_apart 16 (x0 + x1 * 2 ^ 8) x2 (omega arith) in
    let e3 = bit_or_apart 24 (x0 + x1 * 2 ^ 8 + x2 * 2 ^ 16) x3 (omega arith) in
    ap (λ n. bit_or (bit_or n (x2 <<< 16)) (x3 <<< 24)) e1 ∙ ap (λ n. bit_or n (x3 <<< 24)) e2 ∙ e3

pub word-lt : (p : List ℕ) (i : ℕ) → IsBytes p → word p i < 2 ^ 32
word-lt p i b =
    let h0 = get_or-lt p i b in
    let h1 = get_or-lt p (i + 1) b in
    let h2 = get_or-lt p (i + 2) b in let h3 = get_or-lt p (i + 3) b in omega arith

-- The limbs of a block of four words.
abbrev pub split : ℕ → ℕ → ℕ → ℕ → Bool → Limbs
split t0 t1 t2 t3 pad_bit = record {
  l0 = t0 % 2 ^ 26;
  l1 = (t0 / 2 ^ 26 + t1 % 2 ^ 26 * 2 ^ 6) % 2 ^ 26;
  l2 = (t1 / 2 ^ 20 + t2 % 2 ^ 20 * 2 ^ 12) % 2 ^ 26;
  l3 = (t2 / 2 ^ 14 + t3 % 2 ^ 14 * 2 ^ 18) % 2 ^ 26;
  l4 = t3 / 2 ^ 8 + (if pad_bit then 1 else 0) * 2 ^ 24;
}

abbrev pub limbs_of : List ℕ → Bool → Limbs
limbs_of p pad_bit = split (word p 0) (word p 4) (word p 8) (word p 12) pad_bit

module _ (t0 t1 t2 t3 : ℕ) (pad_bit : Bool) (h0 : t0 < 2 ^ 32) (h1 : t1 < 2 ^ 32) (h2 : t2 < 2 ^ 32)
    (h3 : t3 < 2 ^ 32) where
  pub value-split :
      value (split t0 t1 t2 t3 pad_bit)
      ≡ t0 + t1 * 2 ^ 32 + t2 * 2 ^ 64 + t3 * 2 ^ 96 + pad_value pad_bit
  value-split = ground (arith)

  pub split-le : UpTo (2 ^ 26 - 1) (split t0 t1 t2 t3 pad_bit)
  split-le = (omega arith, omega arith, omega arith, omega arith, ground (arith))

  -- The limbs as the source takes them out of the words.
  abbrev taken : Limbs
  taken = record {
    l0 = bit_and t0 0x3ffffff;
    l1 = bit_and (bit_or (t0 >>> 26) (u32 (t1 <<< 6))) 0x3ffffff;
    l2 = bit_and (bit_or (t1 >>> 20) (u32 (t2 <<< 12))) 0x3ffffff;
    l3 = bit_and (bit_or (t2 >>> 14) (u32 (t3 <<< 18))) 0x3ffffff;
    l4 = bit_or (t3 >>> 8) (if pad_bit then 2 ^ 24 else 0);
  }

  pub taken-split : Path Limbs taken (split t0 t1 t2 t3 pad_bit)
  taken-split =
      let s1 : u32 (t1 <<< 6) ≡ t1 % 2 ^ 26 * 2 ^ 6 = omega arith in
      let s2 : u32 (t2 <<< 12) ≡ t2 % 2 ^ 20 * 2 ^ 12 = omega arith in
      let s3 : u32 (t3 <<< 18) ≡ t3 % 2 ^ 14 * 2 ^ 18 = omega arith in
      same_limbs (bit_and_mask 26 t0)
        (bit_and_mask 26 _
          ∙ ap (λ (n : ℕ). n % 2 ^ 26)
              (ap (bit_or (t0 >>> 26)) s1
                ∙ bit_or_apart 6 (t0 / 2 ^ 26) (t1 % 2 ^ 26) (omega arith)))
        (bit_and_mask 26 _
          ∙ ap (λ (n : ℕ). n % 2 ^ 26)
              (ap (bit_or (t1 >>> 20)) s2
                ∙ bit_or_apart 12 (t1 / 2 ^ 20) (t2 % 2 ^ 20) (omega arith)))
        (bit_and_mask 26 _
          ∙ ap (λ (n : ℕ). n % 2 ^ 26)
              (ap (bit_or (t2 >>> 14)) s3
                ∙ bit_or_apart 18 (t2 / 2 ^ 14) (t3 % 2 ^ 14) (omega arith)))
        (padded pad_bit)
    where
      padded :
          (b : Bool)
          → bit_or (t3 >>> 8) (if b then 2 ^ 24 else 0) ≡ t3 / 2 ^ 8 + (if b then 1 else 0) * 2 ^ 24
      padded true = bit_or_apart 24 (t3 / 2 ^ 8) 1 (omega arith)
      padded false = bit_or_apart 24 (t3 / 2 ^ 8) 0 (omega arith)
