-- ===== src/Poly1305/Carry.antt =====
-- The carries of src/backends/SoftChaChaPoly.cpp (`poly1305Blocks`) without wrap-around.
use arduino_nrf_crypto.Base.{ℕ, ◌+◌, ◌-◌, ◌*◌, ◌/◌, ◌%◌, ◌^◌, ◌<◌, ◌≤◌, ◌≡◌, refl, ◌∙◌, arith}
use arduino_nrf_crypto.Base.{u32, u64, bit_and, bit_and_mask}
use native.Mathlib.Nat.{mod-eq_of_lt}
use arduino_nrf_crypto.Poly1305.{Limbs, carry}
use arduino_nrf_crypto.Poly1305.Product.{value, UpTo}

-- The carries, on numbers of any size.
abbrev pub exact_carry : Limbs → Limbs
exact_carry d =
    let d1 = d.l1 + d.l0 / 2 ^ 26 in
    let d2 = d.l2 + d1 / 2 ^ 26 in
    let d3 = d.l3 + d2 / 2 ^ 26 in
    let d4 = d.l4 + d3 / 2 ^ 26 in
    let h0 = d.l0 % 2 ^ 26 + d4 / 2 ^ 26 * 5 in
    record {
      l0 = h0 % 2 ^ 26;
      l1 = d1 % 2 ^ 26 + h0 / 2 ^ 26;
      l2 = d2 % 2 ^ 26;
      l3 = d3 % 2 ^ 26;
      l4 = d4 % 2 ^ 26;
    }

-- The carry out of the highest limb.
abbrev pub carried_out : Limbs → ℕ
carried_out d =
    let d1 = d.l1 + d.l0 / 2 ^ 26 in
    let d2 = d.l2 + d1 / 2 ^ 26 in let d3 = d.l3 + d2 / 2 ^ 26 in (d.l4 + d3 / 2 ^ 26) / 2 ^ 26

-- The carries keep the number, but for multiples of 2 ^ 130 - 5.
pub value-exact_carry :
    (d : Limbs) → value (exact_carry d) + (2 ^ 130 - 5) * carried_out d ≡ value d
value-exact_carry d = omega arith

-- The bounds of the sums of products: all five, and the highest.
abbrev pub sum_bound : ℕ
sum_bound = 21 * ((2 ^ 27 + 127) * (2 ^ 26 - 1))

abbrev pub high_bound : ℕ
high_bound = 5 * ((2 ^ 27 + 127) * (2 ^ 26 - 1))

low_bits : (x : ℕ) → bit_and (u32 x) 0x3ffffff ≡ x % 2 ^ 26
low_bits x = let m = bit_and_mask 26 (u32 x) in m ∙ omega arith

low_bits_of_word : (x : ℕ) → bit_and x 0x3ffffff ≡ x % 2 ^ 26
low_bits_of_word x = bit_and_mask 26 x

fits32 : (x : ℕ) → x < 2 ^ 32 → u32 x ≡ x
fits32 x h = mod-eq_of_lt h

fits64 : (x : ℕ) → x < 2 ^ 64 → u64 x ≡ x
fits64 x h = mod-eq_of_lt h

module _ (d : Limbs) (small : UpTo sum_bound d) (high : d.l4 ≤ high_bound) where
  -- For sums within the bounds, every carry fits its word of 32 bits, and no addition wraps around.
  pub carry-exact : carry d ≡ exact_carry d
  unfolding carry
  carry-exact =
      let c0 = d.l0 / 2 ^ 26 in
      let d1 = d.l1 + c0 in
      let c1 = d1 / 2 ^ 26 in
      let d2 = d.l2 + c1 in
      let c2 = d2 / 2 ^ 26 in
      let d3 = d.l3 + c2 in
      let c3 = d3 / 2 ^ 26 in
      let d4 = d.l4 + c3 in
      let c4 = d4 / 2 ^ 26 in
      let h0 = d.l0 % 2 ^ 26 + c4 * 5 in
      let b = small in
      rw
        (
          fits32 c0 (omega arith),
          fits64 d1 (omega arith),
          fits32 c1 (omega arith),
          fits64 d2 (omega arith),
          fits32 c2 (omega arith),
          fits64 d3 (omega arith),
          fits32 c3 (omega arith),
          fits64 d4 (omega arith),
          fits32 c4 (omega arith),
          fits32 (c4 * 5) (omega arith),
          low_bits d.l0,
          low_bits d1,
          low_bits d2,
          low_bits d3,
          low_bits d4,
          fits32 h0 (omega arith),
          low_bits_of_word h0,
          fits32 (d1 % 2 ^ 26 + h0 / 2 ^ 26) (omega arith),
        )
        refl

  -- After the carries the limbs are in range again, the second one but for a carry of six bits.
  pub exact_carry-lt :
      let h = exact_carry d in
      (h.l0 ≤ 2 ^ 26 - 1)
      × (h.l1 ≤ 2 ^ 26 + 63)
      × (h.l2 ≤ 2 ^ 26 - 1)
      × (h.l3 ≤ 2 ^ 26 - 1)
      × (h.l4 ≤ 2 ^ 26 - 1)
  exact_carry-lt = (omega arith, omega arith, omega arith, omega arith, omega arith)
