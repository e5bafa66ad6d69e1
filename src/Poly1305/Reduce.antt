-- ===== src/Poly1305/Reduce.antt =====
-- The choice without a branch in src/backends/SoftChaChaPoly.cpp (`poly1305Finish`).
use arduino_nrf_crypto.Base.{ℕ, ◌+◌, ◌-◌, ◌/◌, ◌%◌, ◌^◌, ◌<◌, ◌≤◌, ◌≡◌, ap, ◌∙◌, arith, subst⁻¹}
use arduino_nrf_crypto.Base.{
  u32, not32, bit_and, bit_or, bit_and_mask, bit_and-nothing, bit_or-zero, bit_or_apart, ◌>>>◌,
}
use arduino_nrf_crypto.Base.{inl, inr, Bool-cases, ltb}
use arduino_nrf_crypto.ChaCha.{add32}
use arduino_nrf_crypto.Poly1305.{Limbs, reduce}
use arduino_nrf_crypto.Poly1305.Product.{value, UpTo, same_limbs}

keep_first : (x g : ℕ) → x < 2 ^ 32 → bit_or (bit_and x (not32 0)) (bit_and g 0) ≡ x
keep_first x g h =
    ap (bit_or (bit_and x (not32 0))) (bit_and-nothing g g (omega arith))
    ∙ bit_or_apart 32 (bit_and x (2 ^ 32 - 1)) 0 (omega (arith, bit_and_mask 32 x))
    ∙ omega (arith, bit_and_mask 32 x)

keep_second :
    (x g : ℕ) → g < 2 ^ 32 → bit_or (bit_and x (not32 (2 ^ 32 - 1))) (bit_and g (2 ^ 32 - 1)) ≡ g
keep_second x g h =
    ap (λ (n : ℕ). bit_or n (bit_and g (2 ^ 32 - 1))) (bit_and-nothing x x (omega arith))
    ∙ bit_or-zero (bit_and g (2 ^ 32 - 1))
    ∙ bit_and_mask 32 g
    ∙ omega arith

low_second :
    (x g : ℕ)
    → bit_or (bit_and x (not32 (2 ^ 32 - 1))) (bit_and (bit_and g 0x3ffffff) (2 ^ 32 - 1))
      ≡ g % 2 ^ 26
low_second x g =
    keep_second x (bit_and g 0x3ffffff) (omega (arith, bit_and_mask 26 g)) ∙ bit_and_mask 26 g

-- The carries of `h + 5`, and `h + 5` in limbs, without its bit 130.
abbrev plus_five : Limbs → Limbs
plus_five h =
    let g0 = h.l0 + 5 in
    let g1 = h.l1 + g0 / 2 ^ 26 in
    let g2 = h.l2 + g1 / 2 ^ 26 in
    let g3 = h.l3 + g2 / 2 ^ 26 in
    record {
      l0 = g0 % 2 ^ 26;
      l1 = g1 % 2 ^ 26;
      l2 = g2 % 2 ^ 26;
      l3 = g3 % 2 ^ 26;
      l4 = h.l4 + g3 / 2 ^ 26 - 2 ^ 26;
    }

module _ (h : Limbs) (s : UpTo (2 ^ 26 - 1) h) where
  abbrev g3 : ℕ
  g3 = h.l3 + (h.l2 + (h.l1 + (h.l0 + 5) / 2 ^ 26) / 2 ^ 26) / 2 ^ 26

  carries : (add32 h.l3 (add32 h.l2 (add32 h.l1 (add32 h.l0 5 >>> 26) >>> 26) >>> 26) ≡ g3)
  carries = omega (arith, s)

  -- Below 2 ^ 130 - 5 the limbs are kept.
  reduce-small : value h < 2 ^ 130 - 5 → reduce h ≡ h
  unfolding reduce
  reduce-small low =
      let none : u32 ((u32 (h.l4 + (g3 >>> 26) + 2 ^ 32 - 2 ^ 26) >>> 31) + 2 ^ 32 - 1) ≡ 0 =
        omega (arith, s, low) in
      rw (carries, none)
        (same_limbs (keep_first _ _ (omega (arith, s))) (keep_first _ _ (omega (arith, s)))
          (keep_first _ _ (omega (arith, s))) (keep_first _ _ (omega (arith, s)))
          (keep_first _ _ (omega (arith, s))))

  -- From 2 ^ 130 - 5 on they are replaced.
  reduce-large : 2 ^ 130 - 5 ≤ value h → reduce h ≡ plus_five h
  unfolding reduce
  reduce-large high =
      let all : u32 ((u32 (h.l4 + (g3 >>> 26) + 2 ^ 32 - 2 ^ 26) >>> 31) + 2 ^ 32 - 1)
          ≡ 2 ^ 32 - 1 =
        omega (arith, s, high) in
      rw (carries, all)
        (same_limbs (low_second _ _ ∙ omega (arith, s)) (low_second _ _ ∙ omega (arith, s))
          (low_second _ _ ∙ omega (arith, s)) (low_second _ _ ∙ omega (arith, s))
          (keep_second _ _ (omega (arith, s)) ∙ omega (arith, s)))

  -- The number is the remainder modulo 2 ^ 130 - 5, in limbs of 26 bits.
  pub value-reduce : (value (reduce h) ≡ value h % (2 ^ 130 - 5)) × UpTo (2 ^ 26 - 1) (reduce h)
  value-reduce = elim (Bool-cases (ltb (value h) (2 ^ 130 - 5))) [
    | inl test ↦
        let low : value h < 2 ^ 130 - 5 = ground (arith, test) in
        let e = reduce-small low in
        (ap value e ∙ omega (arith, s, low), subst⁻¹ (UpTo (2 ^ 26 - 1)) e s)
    | inr test ↦
        let high : 2 ^ 130 - 5 ≤ value h = ground (arith, test) in
        let e = reduce-large high in
        (
          ap value e ∙ omega (arith, s, high),
          subst⁻¹ (UpTo (2 ^ 26 - 1)) e (
            omega (arith, s, high),
            omega (arith, s, high),
            omega (arith, s, high),
            omega (arith, s, high),
            omega (arith, s, high),
          ),
        )
  ]
