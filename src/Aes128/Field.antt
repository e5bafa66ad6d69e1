-- ===== src/Aes128/Field.antt =====
-- The bytes as a vector space over two elements: `xtime` and `mul` of src/backends/SoftAes128.cpp are
-- linear, and a sum of multiples is read off the coefficients.
use arduino_nrf_crypto.Base.{ℕ, ◌*◌, ◌/◌, ◌<◌, List, [], ◌∷◌, ◌≡◌, refl, sym, ap, ap₂, ◌∙◌}
use arduino_nrf_crypto.Base.{
  bit_xor, bit_xor-nothing, bit_xor-double, bit_xor-shift, bit_xor-mod, bit_xor_interchange,
}
use arduino_nrf_crypto.Base.{
  bit_xor-lt, bit_xor-zero, bit_xor_self, arith, u8, Bool, true, false, if◌then◌else◌,
}
use arduino_nrf_crypto.Base.{◌⊎◌, inl, inr, Bool-cases, ltb, not}
use arduino_nrf_crypto.Aes128.{xtime}

xtime-lt : (x : ℕ) → xtime x < 256
unfolding xtime
xtime-lt x = omega arith

bit_cases : (x : ℕ) → x < 256 → (x / 128 ≡ 0) ⊎ (x / 128 ≡ 1)
bit_cases x small = elim (Bool-cases (ltb x 128)) [
  | inl low ↦ inl (ground arith)
  | inr high ↦ inr (ground arith)
]

-- The reduction polynomial, taken or not, is linear.
reduction-linear :
    (h k : ℕ)
    → (h ≡ 0) ⊎ (h ≡ 1)
    → (k ≡ 0) ⊎ (k ≡ 1)
    → bit_xor h k * 0x1b ≡ bit_xor (h * 0x1b) (k * 0x1b)
reduction-linear h k (inl p) (inl q) = rw (p, q) refl
reduction-linear h k (inl p) (inr q) = rw (p, q) refl
reduction-linear h k (inr p) (inl q) = rw (p, q) refl
reduction-linear h k (inr p) (inr q) = rw (p, q) refl

pub xtime-linear : (x y : ℕ) → x < 256 → y < 256 → xtime (bit_xor x y) ≡ bit_xor (xtime x) (xtime y)
unfolding xtime
xtime-linear x y p q =
    let top = bit_xor-shift 7 x y in
    let whole : bit_xor (bit_xor x y * 2) (bit_xor x y / 128 * 0x1b)
        ≡ bit_xor (bit_xor (x * 2) (x / 128 * 0x1b)) (bit_xor (y * 2) (y / 128 * 0x1b)) =
      ap₂ bit_xor (sym (bit_xor-double x y)) (
        ap (λ t. t * 0x1b) top
        ∙ reduction-linear (x / 128) (y / 128) (bit_cases x p) (bit_cases y q))
      ∙ bit_xor_interchange (x * 2) (y * 2) (x / 128 * 0x1b) (y / 128 * 0x1b) in
    ap u8 whole
    ∙ bit_xor-mod 8 (bit_xor (x * 2) (x / 128 * 0x1b)) (bit_xor (y * 2) (y / 128 * 0x1b))

-- A polynomial in `x`, with the constant coefficient first, times a byte.
abbrev pub scale : List Bool → ℕ → ℕ
scale [] v = 0
scale (c ∷ p) v = bit_xor (if c then v else 0) (xtime (scale p v))

abbrev differs : Bool → Bool → Bool
differs true c = not c
differs false c = c

abbrev pub add : List Bool → List Bool → List Bool
add [] q = q
add (b ∷ p) [] = b ∷ p
add (b ∷ p) (c ∷ q) = differs b c ∷ add p q

scale-lt : (p : List Bool) (v : ℕ) → v < 256 → scale p v < 256
scale-lt [] v small = omega arith
scale-lt (true ∷ p) v small = bit_xor-lt 8 v (xtime (scale p v)) small (xtime-lt (scale p v))
scale-lt (false ∷ p) v small =
    bit_xor-lt 8 0 (xtime (scale p v)) (omega arith) (xtime-lt (scale p v))

differs_lem :
    (b c : Bool) (v : ℕ)
    → (if differs b c then v else 0) ≡ bit_xor (if b then v else 0) (if c then v else 0)
differs_lem true true v = sym (bit_xor_self v)
differs_lem true false v = sym (bit_xor-nothing v)
differs_lem false true v = sym (bit_xor-zero v)
differs_lem false false v = refl

scale-add :
    (p q : List Bool) (v : ℕ) → v < 256 → scale (add p q) v ≡ bit_xor (scale p v) (scale q v)
scale-add [] q v small = sym (bit_xor-zero (scale q v))
scale-add (b ∷ p) [] v small = sym (bit_xor-nothing (scale (b ∷ p) v))
scale-add (b ∷ p) (c ∷ q) v small =
    ap₂ bit_xor (differs_lem b c v) (
      ap xtime (scale-add p q v small)
      ∙ xtime-linear (scale p v) (scale q v) (scale-lt p v small) (scale-lt q v small))
    ∙ bit_xor_interchange (if b then v else 0) (if c then v else 0) (xtime (scale p v))
        (xtime (scale q v))

-- The four bytes of a column.
pub record Column : Type 0 where
  pub a : ℕ
  pub b : ℕ
  pub c : ℕ
  pub d : ℕ
  pub a_lt : a < 256
  pub b_lt : b < 256
  pub c_lt : c < 256
  pub d_lt : d < 256

-- A sum of multiples of the bytes of a column, by its coefficients.
pub record Coefficients : Type 0 where
  pub of_a : List Bool
  pub of_b : List Bool
  pub of_c : List Bool
  pub of_d : List Bool

abbrev pub total : Column → Coefficients → ℕ
total v k =
    bit_xor (bit_xor (scale k.of_a v.a) (scale k.of_b v.b))
      (bit_xor (scale k.of_c v.c) (scale k.of_d v.d))

-- What `mixColumns` and `invMixColumns` compute with.
pub data Term : Type 0 where
  first : Term
  second : Term
  third : Term
  fourth : Term
  plus : Term → Term → Term
  twice : Term → Term

abbrev pub value : Column → Term → ℕ
value v first = v.a
value v second = v.b
value v third = v.c
value v fourth = v.d
value v (plus s t) = bit_xor (value v s) (value v t)
value v (twice t) = xtime (value v t)

abbrev pub normal : Term → Coefficients
normal first = record { of_a = true ∷ []; of_b = []; of_c = []; of_d = [] }
normal second = record { of_a = []; of_b = true ∷ []; of_c = []; of_d = [] }
normal third = record { of_a = []; of_b = []; of_c = true ∷ []; of_d = [] }
normal fourth = record { of_a = []; of_b = []; of_c = []; of_d = true ∷ [] }
normal (plus s t) =
    let p = normal s in
    let q = normal t in
    record {
      of_a = add p.of_a q.of_a;
      of_b = add p.of_b q.of_b;
      of_c = add p.of_c q.of_c;
      of_d = add p.of_d q.of_d;
    }
normal (twice t) =
    let p = normal t in
    record {
      of_a = false ∷ p.of_a;
      of_b = false ∷ p.of_b;
      of_c = false ∷ p.of_c;
      of_d = false ∷ p.of_d;
    }

pub value-lt : (v : Column) (t : Term) → value v t < 256
value-lt v first = v.a_lt
value-lt v second = v.b_lt
value-lt v third = v.c_lt
value-lt v fourth = v.d_lt
value-lt v (plus s t) = bit_xor-lt 8 (value v s) (value v t) (value-lt v s) (value-lt v t)
value-lt v (twice t) = xtime-lt (value v t)

-- A sum of which one part is not 0.
pub only_first : (x : ℕ) → bit_xor (bit_xor (bit_xor x 0) 0) (bit_xor 0 0) ≡ x
only_first x = rw (bit_xor-nothing x, bit_xor-nothing x, bit_xor-nothing x) refl

pub only_second : (x : ℕ) → bit_xor (bit_xor 0 (bit_xor x 0)) (bit_xor 0 0) ≡ x
only_second x = rw (bit_xor-nothing x, bit_xor-zero x, bit_xor-nothing x) refl

pub only_third : (x : ℕ) → bit_xor (bit_xor 0 0) (bit_xor (bit_xor x 0) 0) ≡ x
only_third x = rw (bit_xor-nothing x, bit_xor-nothing x, bit_xor-zero x) refl

pub only_fourth : (x : ℕ) → bit_xor (bit_xor 0 0) (bit_xor 0 (bit_xor x 0)) ≡ x
only_fourth x = rw (bit_xor-nothing x, bit_xor-zero x, bit_xor-zero x) refl

-- The value of a term depends on its coefficients only.
pub value-normal : (v : Column) (t : Term) → value v t ≡ total v (normal t)
unfolding xtime
value-normal v first = sym (only_first v.a)
value-normal v second = sym (only_second v.b)
value-normal v third = sym (only_third v.c)
value-normal v fourth = sym (only_fourth v.d)
value-normal v (plus s t) =
    let p = normal s in
    let q = normal t in
    ap₂ bit_xor (value-normal v s) (value-normal v t)
    ∙ bit_xor_interchange (bit_xor (scale p.of_a v.a) (scale p.of_b v.b))
        (bit_xor (scale p.of_c v.c) (scale p.of_d v.d))
        (bit_xor (scale q.of_a v.a) (scale q.of_b v.b))
        (bit_xor (scale q.of_c v.c) (scale q.of_d v.d))
    ∙ ap₂ bit_xor
        (bit_xor_interchange (scale p.of_a v.a) (scale p.of_b v.b) (scale q.of_a v.a)
            (scale q.of_b v.b)
          ∙ sym (
              ap₂ bit_xor (scale-add p.of_a q.of_a v.a v.a_lt)
                (scale-add p.of_b q.of_b v.b v.b_lt)))
        (bit_xor_interchange (scale p.of_c v.c) (scale p.of_d v.d) (scale q.of_c v.c)
            (scale q.of_d v.d)
          ∙ sym (
              ap₂ bit_xor (scale-add p.of_c q.of_c v.c v.c_lt)
                (scale-add p.of_d q.of_d v.d v.d_lt)))
value-normal v (twice t) =
    let p = normal t in
    let sa = scale p.of_a v.a in
    let sb = scale p.of_b v.b in
    let sc = scale p.of_c v.c in
    let sd = scale p.of_d v.d in
    let la = scale-lt p.of_a v.a v.a_lt in
    let lb = scale-lt p.of_b v.b v.b_lt in
    let lc = scale-lt p.of_c v.c v.c_lt in
    let ld = scale-lt p.of_d v.d v.d_lt in
    ap xtime (value-normal v t)
    ∙ xtime-linear (bit_xor sa sb) (bit_xor sc sd) (bit_xor-lt 8 sa sb la lb)
        (bit_xor-lt 8 sc sd lc ld)
    ∙ ap₂ bit_xor (xtime-linear sa sb la lb) (xtime-linear sc sd lc ld)
    ∙ sym (
        ap₂ bit_xor (ap₂ bit_xor (bit_xor-zero (xtime sa)) (bit_xor-zero (xtime sb)))
          (ap₂ bit_xor (bit_xor-zero (xtime sc)) (bit_xor-zero (xtime sd))))
