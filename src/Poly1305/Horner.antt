-- ===== src/Poly1305/Horner.antt =====
-- `poly1305Blocks` of src/backends/SoftChaChaPoly.cpp against the polynomial of the blocks.
use arduino_nrf_crypto.Base.{
  ℕ, zero, suc, ◌+◌, ◌-◌, ◌*◌, ◌%◌, ◌^◌, ◌≤◌, ◌≡◌, refl, ap, ◌∙◌, arith, subst⁻¹,
}
use arduino_nrf_crypto.Base.{List, Bool, take, drop, IsBytes, IsBytes-take, IsBytes-drop}
use native.Mathlib.Nat.{mod-eq_of_lt}
use arduino_nrf_crypto.ChaCha.{add32}
use arduino_nrf_crypto.Poly1305.{Limbs, init_r, add_block, products, carry, blocks}
use arduino_nrf_crypto.Poly1305.Product.{value, UpTo, same_limbs}
use arduino_nrf_crypto.Poly1305.Block.{
  word, block_value, limbs_of, load32-word, word-lt, value-split, split-le, taken-split,
}
use arduino_nrf_crypto.Poly1305.Step.{Settled, init_r_lem, step-Settled, value-step}

-- The sum of two numbers in limbs.
abbrev sum : Limbs → Limbs → Limbs
sum h b = record {
  l0 = h.l0 + b.l0;
  l1 = h.l1 + b.l1;
  l2 = h.l2 + b.l2;
  l3 = h.l3 + b.l3;
  l4 = h.l4 + b.l4;
}

module _ (h : Limbs) (p : List ℕ) (pad_bit : Bool) (s : Settled h) (bytes : IsBytes p) where
  block_limbs-le : UpTo (2 ^ 26 - 1) (limbs_of p pad_bit)
  block_limbs-le =
      split-le (word p 0) (word p 4) (word p 8) (word p 12) pad_bit (word-lt p 0 bytes)
        (word-lt p 4 bytes) (word-lt p 8 bytes) (word-lt p 12 bytes)

  add32-fits : (x y : ℕ) → x ≤ 2 ^ 26 + 63 → y ≤ 2 ^ 26 - 1 → add32 x y ≡ x + y
  add32-fits x y a b = mod-eq_of_lt (omega arith)

  -- Adding a block adds its limbs, and no addition wraps around.
  add_block-sum : add_block h p pad_bit ≡ sum h (limbs_of p pad_bit)
  unfolding add_block
  add_block-sum =
      let t =
        taken-split (word p 0) (word p 4) (word p 8) (word p 12) pad_bit (word-lt p 0 bytes)
          (word-lt p 4 bytes) (word-lt p 8 bytes) (word-lt p 12 bytes) in
      let b = block_limbs-le in
      rw
        (
          load32-word p 0 bytes,
          load32-word p 4 bytes,
          load32-word p 8 bytes,
          load32-word p 12 bytes,
        )
        (same_limbs (ap (λ (k : Limbs). add32 h.l0 k.l0) t ∙ add32-fits _ _ (omega (arith, s)) b.0)
          (ap (λ (k : Limbs). add32 h.l1 k.l1) t ∙ add32-fits _ _ s.1 b.1)
          (ap (λ (k : Limbs). add32 h.l2 k.l2) t ∙ add32-fits _ _ (omega (arith, s)) b.2)
          (ap (λ (k : Limbs). add32 h.l3 k.l3) t ∙ add32-fits _ _ (omega (arith, s)) b.3)
          (ap (λ (k : Limbs). add32 h.l4 k.l4) t ∙ add32-fits _ _ (omega (arith, s)) b.4))

  add_block-le : UpTo (2 ^ 27 + 127) (add_block h p pad_bit)
  add_block-le =
      let b = block_limbs-le in
      subst⁻¹ (UpTo (2 ^ 27 + 127)) add_block-sum (
        omega (arith, s, b),
        omega (arith, s, b),
        omega (arith, s, b),
        omega (arith, s, b),
        omega (arith, s, b),
      )

  value-add_block : value (add_block h p pad_bit) ≡ value h + block_value p pad_bit
  value-add_block =
      let v =
        value-split (word p 0) (word p 4) (word p 8) (word p 12) pad_bit (word-lt p 0 bytes)
          (word-lt p 4 bytes) (word-lt p 8 bytes) (word-lt p 12 bytes) in
      ap value add_block-sum ∙ omega (arith, v)

-- The blocks of an input as a polynomial by Horner's rule, on numbers of any size.
unfoldable pub horner : ℕ → ℕ → ℕ → List ℕ → Bool → ℕ
horner zero acc x input pad_bit = acc
horner (suc count) acc x input pad_bit =
    horner count ((acc + block_value (take 16 input) pad_bit) * x) x (drop 16 input) pad_bit

-- A multiple of the modulus in the number it starts from stays one.
pub horner-shift :
    (count acc k x : ℕ) (input : List ℕ) (pad_bit : Bool)
    → (q : ℕ) × (horner count (acc + (2 ^ 130 - 5) * k) x input pad_bit
        ≡ horner count acc x input pad_bit + (2 ^ 130 - 5) * q)
unfolding horner
horner-shift zero acc k x input pad_bit = (k, refl)
horner-shift (suc count) acc k x input pad_bit =
    let b = block_value (take 16 input) pad_bit in
    let rest = horner-shift count ((acc + b) * x) (k * x) x (drop 16 input) pad_bit in
    let moved : (acc + (2 ^ 130 - 5) * k + b) * x ≡ (acc + b) * x + (2 ^ 130 - 5) * (k * x) =
      omega arith in
    (rest.0, ap (λ (n : ℕ). horner count n x (drop 16 input) pad_bit) moved ∙ rest.1)

-- The state after the blocks is settled, and differs from the polynomial by a multiple of the modulus.
pub blocks-horner :
    (count : ℕ) (h r : Limbs) (input : List ℕ) (pad_bit : Bool)
    → Settled h
    → UpTo (2 ^ 26 - 1) r
    → IsBytes input
    → (q : ℕ) × (Settled (blocks count h r input pad_bit)
        × (value (blocks count h r input pad_bit) + (2 ^ 130 - 5) * q
            ≡ horner count (value h) (value r) input pad_bit))
unfolding horner blocks
blocks-horner zero h r input pad_bit s small b = (0, (s, omega arith))
blocks-horner (suc count) h r input pad_bit s small b =
    let p = take 16 input in
    let bytes = IsBytes-take 16 input b in
    let g = add_block h p pad_bit in
    let room = add_block-le h p pad_bit s bytes in
    let next = carry (products g r) in
    let step = value-step g r room small in
    let rest =
      blocks-horner count next r (drop 16 input) pad_bit (step-Settled g r room small) small
        (IsBytes-drop 16 input b) in
    let shift = horner-shift count (value next) step.0 (value r) (drop 16 input) pad_bit in
    let same =
      ap (λ (n : ℕ). horner count n (value r) (drop 16 input) pad_bit)
        (step.1 ∙ ap (λ (n : ℕ). n * value r) (value-add_block h p pad_bit s bytes)) in
    (shift.0 + rest.0, (rest.1.0, omega (arith, rest.1.1, shift.1, same)))

-- With the key of `init_r`, a state of limbs within their 26 bits (the second one may hold a carry of
-- six bits more) and an input of bytes, whole blocks leave such a state again, whose number is the
-- polynomial of the blocks at the key modulo 2 ^ 130 - 5.
blocks_polynomial :
    (count : ℕ) (h : Limbs) (key input : List ℕ) (pad_bit : Bool)
    → Settled h
    → IsBytes input
    → Settled (blocks count h (init_r key) input pad_bit)
      × (value (blocks count h (init_r key) input pad_bit) % (2 ^ 130 - 5)
          ≡ horner count (value h) (value (init_r key)) input pad_bit % (2 ^ 130 - 5))
blocks_polynomial count h key input pad_bit s b =
    let all = blocks-horner count h (init_r key) input pad_bit s (init_r_lem key) b in
    (all.1.0, omega (arith, all.1.1))
