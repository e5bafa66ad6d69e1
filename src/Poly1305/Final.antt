-- ===== src/Poly1305/Final.antt =====
-- `poly1305Finish` of src/backends/SoftChaChaPoly.cpp: the last carries and the choice of the remainder.
use arduino_nrf_crypto.Base.{ℕ, ◌+◌, ◌-◌, ◌*◌, ◌/◌, ◌%◌, ◌^◌, ◌<◌, ◌≡◌, refl, arith}
use arduino_nrf_crypto.Base.{u32, bit_and_mask}
use native.Mathlib.Nat.{mod-eq_of_lt}
use arduino_nrf_crypto.Poly1305.{Limbs, settle}
use arduino_nrf_crypto.Poly1305.Product.{value, UpTo}
use arduino_nrf_crypto.Poly1305.Step.{Settled}

-- The last carries, on numbers of any size.
abbrev pub exact_settle : Limbs → Limbs
exact_settle h =
    let h2 = h.l2 + h.l1 / 2 ^ 26 in
    let h3 = h.l3 + h2 / 2 ^ 26 in
    let h4 = h.l4 + h3 / 2 ^ 26 in
    let h0 = h.l0 + h4 / 2 ^ 26 * 5 in
    record {
      l0 = h0 % 2 ^ 26;
      l1 = h.l1 % 2 ^ 26 + h0 / 2 ^ 26;
      l2 = h2 % 2 ^ 26;
      l3 = h3 % 2 ^ 26;
      l4 = h4 % 2 ^ 26;
    }

abbrev pub carried_over : Limbs → ℕ
carried_over h = (h.l4 + (h.l3 + (h.l2 + h.l1 / 2 ^ 26) / 2 ^ 26) / 2 ^ 26) / 2 ^ 26

pub value-exact_settle :
    (h : Limbs) → value (exact_settle h) + (2 ^ 130 - 5) * carried_over h ≡ value h
value-exact_settle h = omega arith

pub fits : (x : ℕ) → x < 2 ^ 32 → u32 x ≡ x
fits x h = mod-eq_of_lt h

module _ (h : Limbs) (s : Settled h) where
  pub settle-exact : settle h ≡ exact_settle h
  unfolding settle
  settle-exact =
      let h2 = h.l2 + h.l1 / 2 ^ 26 in
      let h3 = h.l3 + h2 / 2 ^ 26 in
      let h4 = h.l4 + h3 / 2 ^ 26 in
      let h0 = h.l0 + h4 / 2 ^ 26 * 5 in
      rw
        (
          fits h2 (omega (arith, s)),
          fits h3 (omega (arith, s)),
          fits h4 (omega (arith, s)),
          fits (h4 / 2 ^ 26 * 5) (omega (arith, s)),
          fits h0 (omega (arith, s)),
          bit_and_mask 26 h0,
          bit_and_mask 26 h.l1,
          bit_and_mask 26 h2,
          bit_and_mask 26 h3,
          bit_and_mask 26 h4,
          fits (h.l1 % 2 ^ 26 + h0 / 2 ^ 26) (omega (arith, s)),
        )
        refl

  -- A carry out of the top leaves little in the second limb, so that all are within 26 bits.
  pub exact_settle-le : UpTo (2 ^ 26 - 1) (exact_settle h)
  exact_settle-le =
      (omega (arith, s), omega (arith, s), omega (arith, s), omega (arith, s), omega (arith, s))
