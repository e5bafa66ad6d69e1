-- ===== src/Aes128/Columns.antt =====
-- `invMixColumns` against `mixColumns` (src/backends/SoftAes128.cpp).
use arduino_nrf_crypto.Base.{IsBytes-append}
use arduino_nrf_crypto.Base.{
  ℕ, ◌<◌, List, [], ◌∷◌, ◌++◌, ◌≡◌, refl, sym, ap, ap₂, ◌∙◌, bit_xor, u8, get_or, length,
}
use arduino_nrf_crypto.Base.{IsBytes, get_or-lt, tabulate}
use native.Mathlib.Nat.{mod-eq_of_lt}
use arduino_nrf_crypto.Aes128.{
  xtime, mul, inv_sum, mix_column, inv_mix_column, mix_columns, inv_mix_columns,
}
use arduino_nrf_crypto.Aes128.Layers.{same_bytes, tabulate-get_or}
use arduino_nrf_crypto.Aes128.Field.{
  Column, Term, first, second, third, fourth, plus, twice, value, value-lt, value-normal,
}
use arduino_nrf_crypto.Aes128.Field.{only_first, only_second, only_third, only_fourth}

abbrev thrice : Term → Term
thrice t = twice (twice (twice t))

-- `mul` by the constants of the inverse, as sums of doublings.
abbrev by_9 : Term → Term
by_9 t = plus (thrice t) t

abbrev by_11 : Term → Term
by_11 t = plus (plus (thrice t) (twice t)) t

abbrev by_13 : Term → Term
by_13 t = plus (plus (thrice t) (twice (twice t))) t

abbrev by_14 : Term → Term
by_14 t = plus (plus (thrice t) (twice (twice t))) (twice t)

mul-9 : (x : ℕ) → x < 256 → mul x 9 ≡ bit_xor (xtime (xtime (xtime x))) x
unfolding mul xtime
mul-9 = same_bytes (λ x. mul x 9) (λ x. bit_xor (xtime (xtime (xtime x))) x) refl

mul-11 : (x : ℕ) → x < 256 → mul x 11 ≡ bit_xor (bit_xor (xtime (xtime (xtime x))) (xtime x)) x
unfolding mul xtime
mul-11 =
    same_bytes (λ x. mul x 11) (λ x. bit_xor (bit_xor (xtime (xtime (xtime x))) (xtime x)) x) refl

mul-13 :
    (x : ℕ) → x < 256 → mul x 13 ≡ bit_xor (bit_xor (xtime (xtime (xtime x))) (xtime (xtime x))) x
unfolding mul xtime
mul-13 =
    same_bytes (λ x. mul x 13)
      (λ x. bit_xor (bit_xor (xtime (xtime (xtime x))) (xtime (xtime x))) x) refl

mul-14 :
    (x : ℕ)
    → x < 256
    → mul x 14 ≡ bit_xor (bit_xor (xtime (xtime (xtime x))) (xtime (xtime x))) (xtime x)
unfolding mul xtime
mul-14 =
    same_bytes (λ x. mul x 14)
      (λ x. bit_xor (bit_xor (xtime (xtime (xtime x))) (xtime (xtime x))) (xtime x)) refl

-- The four sums of `mixColumns`.
abbrev mixed_0 : Term
mixed_0 = plus (plus (plus (plus (twice first) (twice second)) second) third) fourth

abbrev mixed_1 : Term
mixed_1 = plus (plus (plus (plus first (twice second)) (twice third)) third) fourth

abbrev mixed_2 : Term
mixed_2 = plus (plus (plus (plus first second) (twice third)) (twice fourth)) fourth

abbrev mixed_3 : Term
mixed_3 = plus (plus (plus (plus (twice first) first) second) third) (twice fourth)

abbrev sum : Term → Term → Term → Term → Term
sum p q r s = plus (plus (plus p q) r) s

four_bytes :
    {a b c d a' b' c' d' : ℕ}
    → a ≡ a'
    → b ≡ b'
    → c ≡ c'
    → d ≡ d'
    → a ∷ b ∷ c ∷ d ∷ [] ≡ a' ∷ b' ∷ c' ∷ d' ∷ []
four_bytes p q r s = ap₂ (λ x t. x ∷ t) p (ap₂ (λ x t. x ∷ t) q (ap₂ (λ x y. x ∷ y ∷ []) r s))

module _ (v : Column) where
  u8-value : (t : Term) → u8 (value v t) ≡ value v t
  u8-value t = mod-eq_of_lt (value-lt v t)

  mix_column_lem :
      mix_column v.a v.b v.c v.d
      ≡ value v mixed_0 ∷ value v mixed_1 ∷ value v mixed_2 ∷ value v mixed_3 ∷ []
  unfolding mix_column
  mix_column_lem =
      four_bytes (u8-value mixed_0) (u8-value mixed_1) (u8-value mixed_2) (u8-value mixed_3)

  product_9 : (t : Term) → mul (value v t) 9 ≡ value v (by_9 t)
  product_9 t = mul-9 (value v t) (value-lt v t)

  product_11 : (t : Term) → mul (value v t) 11 ≡ value v (by_11 t)
  product_11 t = mul-11 (value v t) (value-lt v t)

  product_13 : (t : Term) → mul (value v t) 13 ≡ value v (by_13 t)
  product_13 t = mul-13 (value v t) (value-lt v t)

  product_14 : (t : Term) → mul (value v t) 14 ≡ value v (by_14 t)
  product_14 t = mul-14 (value v t) (value-lt v t)

  -- A sum of `invMixColumns`, of products that are given as terms.
  inv_sum_lem :
      {p q r s : ℕ} (tp tq tr ts : Term)
      → p ≡ value v tp
      → q ≡ value v tq
      → r ≡ value v tr
      → s ≡ value v ts
      → inv_sum p q r s ≡ value v (sum tp tq tr ts)
  inv_sum_lem tp tq tr ts ep eq er es =
      ap u8 (ap₂ bit_xor (ap₂ bit_xor (ap₂ bit_xor ep eq) er) es) ∙ u8-value (sum tp tq tr ts)

  -- On bytes, the sums of the inverse are those of the original column.
  inv_mix_column_lem :
      inv_mix_column (value v mixed_0) (value v mixed_1) (value v mixed_2) (value v mixed_3)
      ≡ v.a ∷ v.b ∷ v.c ∷ v.d ∷ []
  unfolding inv_mix_column xtime
  inv_mix_column_lem =
      four_bytes
        (inv_sum_lem (by_14 mixed_0) (by_11 mixed_1) (by_13 mixed_2) (by_9 mixed_3)
            (product_14 mixed_0) (product_11 mixed_1) (product_13 mixed_2) (product_9 mixed_3)
          ∙ value-normal v (sum (by_14 mixed_0) (by_11 mixed_1) (by_13 mixed_2) (by_9 mixed_3))
          ∙ only_first v.a)
        (inv_sum_lem (by_9 mixed_0) (by_14 mixed_1) (by_11 mixed_2) (by_13 mixed_3)
            (product_9 mixed_0) (product_14 mixed_1) (product_11 mixed_2) (product_13 mixed_3)
          ∙ value-normal v (sum (by_9 mixed_0) (by_14 mixed_1) (by_11 mixed_2) (by_13 mixed_3))
          ∙ only_second v.b)
        (inv_sum_lem (by_13 mixed_0) (by_9 mixed_1) (by_14 mixed_2) (by_11 mixed_3)
            (product_13 mixed_0) (product_9 mixed_1) (product_14 mixed_2) (product_11 mixed_3)
          ∙ value-normal v (sum (by_13 mixed_0) (by_9 mixed_1) (by_14 mixed_2) (by_11 mixed_3))
          ∙ only_third v.c)
        (inv_sum_lem (by_11 mixed_0) (by_13 mixed_1) (by_9 mixed_2) (by_14 mixed_3)
            (product_11 mixed_0) (product_13 mixed_1) (product_9 mixed_2) (product_14 mixed_3)
          ∙ value-normal v (sum (by_11 mixed_0) (by_13 mixed_1) (by_9 mixed_2) (by_14 mixed_3))
          ∙ only_fourth v.d)

-- A column of four bytes of a state.
column : (s : List ℕ) → IsBytes s → ℕ → ℕ → ℕ → ℕ → Column
column s b i j k l = record {
  a = get_or s i 0;
  b = get_or s j 0;
  c = get_or s k 0;
  d = get_or s l 0;
  a_lt = get_or-lt s i b;
  b_lt = get_or-lt s j b;
  c_lt = get_or-lt s k b;
  d_lt = get_or-lt s l b;
}

-- The mixed bytes of a column as sums of its own.
abbrev mixed : Column → List ℕ
mixed v = value v mixed_0 ∷ value v mixed_1 ∷ value v mixed_2 ∷ value v mixed_3 ∷ []

IsBytes-mixed : (v : Column) → IsBytes (mixed v)
IsBytes-mixed v =
    (value-lt v mixed_0, (value-lt v mixed_1, (value-lt v mixed_2, (value-lt v mixed_3, tt))))

mix_columns_lem :
    (s : List ℕ) (b : IsBytes s)
    → mix_columns s
      ≡ mixed (column s b 0 1 2 3)
        ++ (mixed (column s b 4 5 6 7)
            ++ (mixed (column s b 8 9 10 11) ++ mixed (column s b 12 13 14 15)))
unfolding mix_columns column
mix_columns_lem s b = ap₂ ◌++◌ (mix_column_lem (column s b 0 1 2 3)) (
    ap₂ ◌++◌ (mix_column_lem (column s b 4 5 6 7))
      (ap₂ ◌++◌ (mix_column_lem (column s b 8 9 10 11)) (mix_column_lem (column s b 12 13 14 15))))

-- `invMixColumns` undoes `mixColumns` on 16 bytes.
pub inv_mix_columns-mix_columns :
    (s : List ℕ) → length s ≡ 16 → IsBytes s → inv_mix_columns (mix_columns s) ≡ s
unfolding inv_mix_columns column
inv_mix_columns-mix_columns s sized b =
    ap inv_mix_columns (mix_columns_lem s b)
    ∙ ap₂ ◌++◌ (inv_mix_column_lem (column s b 0 1 2 3)) (
        ap₂ ◌++◌ (inv_mix_column_lem (column s b 4 5 6 7)) (
          ap₂ ◌++◌ (inv_mix_column_lem (column s b 8 9 10 11))
            (inv_mix_column_lem (column s b 12 13 14 15))))
    ∙ ap (λ n. tabulate n 0 (λ i. get_or s i 0)) (sym sized)
    ∙ tabulate-get_or s

-- `mixColumns` leaves 16 bytes.
pub length-mix_columns : (s : List ℕ) → length (mix_columns s) ≡ 16
unfolding mix_columns mix_column
length-mix_columns s = refl

pub IsBytes-mix_columns : (s : List ℕ) → IsBytes s → IsBytes (mix_columns s)
IsBytes-mix_columns s b = rw (mix_columns_lem s b) (
    IsBytes-append (mixed (column s b 0 1 2 3))
      (mixed (column s b 4 5 6 7)
        ++ (mixed (column s b 8 9 10 11) ++ mixed (column s b 12 13 14 15)))
      (IsBytes-mixed (column s b 0 1 2 3))
      (IsBytes-append (mixed (column s b 4 5 6 7))
        (mixed (column s b 8 9 10 11) ++ mixed (column s b 12 13 14 15))
        (IsBytes-mixed (column s b 4 5 6 7))
        (IsBytes-append (mixed (column s b 8 9 10 11)) (mixed (column s b 12 13 14 15))
          (IsBytes-mixed (column s b 8 9 10 11)) (IsBytes-mixed (column s b 12 13 14 15)))))
