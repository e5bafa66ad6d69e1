-- ===== src/Poly1305/Step.antt =====
-- The multiplication step of src/backends/SoftChaChaPoly.cpp (`poly1305Blocks`), modulo 2 ^ 130 - 5.
use arduino_nrf_crypto.Base.{ℕ, ◌+◌, ◌-◌, ◌*◌, ◌^◌, ◌≤◌, ◌≡◌, ap, ◌∙◌, arith, subst⁻¹}
use arduino_nrf_crypto.Base.{List, bit_and_le}
use native.Mathlib.Nat.{le_trans}
use arduino_nrf_crypto.Poly1305.{Limbs, init_r, products, carry}
use arduino_nrf_crypto.Poly1305.Product.{
  value, UpTo, exact_products, folded, value-exact_products, products-exact, exact_products-le,
  term-le,
}
use arduino_nrf_crypto.Poly1305.Carry.{
  exact_carry, carried_out, value-exact_carry, carry-exact, exact_carry-lt, high_bound,
}

-- Limbs after a step: all within 26 bits, but for the second one, which holds a carry of six bits.
abbrev pub Settled : Limbs → Type 0
Settled h =
    (h.l0 ≤ 2 ^ 26 - 1)
    × (h.l1 ≤ 2 ^ 26 + 63)
    × (h.l2 ≤ 2 ^ 26 - 1)
    × (h.l3 ≤ 2 ^ 26 - 1)
    × (h.l4 ≤ 2 ^ 26 - 1)

-- The masks of the key keep its limbs within 26 bits.
pub init_r_lem : (key : List ℕ) → UpTo (2 ^ 26 - 1) (init_r key)
unfolding init_r
init_r_lem key = (
  le_trans (bit_and_le _ 0x3ffffff) (omega arith),
  le_trans (bit_and_le _ 0x3ffff03) (omega arith),
  le_trans (bit_and_le _ 0x3ffc0ff) (omega arith),
  le_trans (bit_and_le _ 0x3f03fff) (omega arith),
  le_trans (bit_and_le _ 0x00fffff) (omega arith),
)

module _ (h r : Limbs) (small_h : UpTo (2 ^ 27 + 127) h) (small_r : UpTo (2 ^ 26 - 1) r) where
  high_limb : (exact_products h r).l4 ≤ high_bound
  high_limb = omega (
    arith,
    term-le h.l0 r.l4 small_h.0 small_r.4,
    term-le h.l1 r.l3 small_h.1 small_r.3,
    term-le h.l2 r.l2 small_h.2 small_r.2,
    term-le h.l3 r.l1 small_h.3 small_r.1,
    term-le h.l4 r.l0 small_h.4 small_r.0,
  )

  step-exact : carry (products h r) ≡ exact_carry (exact_products h r)
  step-exact =
      ap carry (products-exact h r small_h small_r)
      ∙ carry-exact (exact_products h r) (exact_products-le h r small_h small_r) high_limb

  pub step-Settled : Settled (carry (products h r))
  step-Settled =
      subst⁻¹ Settled step-exact
        (exact_carry-lt (exact_products h r) (exact_products-le h r small_h small_r) high_limb)

  pub value-step : (q : ℕ) × (value (carry (products h r)) + (2 ^ 130 - 5) * q ≡ value h * value r)
  value-step =
      let d = exact_products h r in
      let kept = ap value step-exact in
      let carried = value-exact_carry d in
      let multiplied = value-exact_products h r in
      (carried_out d + folded h r, omega (arith, kept, carried, multiplied))
