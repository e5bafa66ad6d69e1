-- ===== src/Poly1305/Product.antt =====
-- The multiplication of src/backends/SoftChaChaPoly.cpp (`poly1305Blocks`) without wrap-around.
use arduino_nrf_crypto.Base.{ℕ, ◌+◌, ◌-◌, ◌*◌, ◌^◌, ◌≤◌, ◌≡◌, arith}
use arduino_nrf_crypto.Base.{u32, u64}
use native.Mathlib.Nat.{mul-le-mul, mod-eq_of_lt}
use arduino_nrf_crypto.Poly1305.{Limbs, products}

-- The number that five limbs of 26 bits stand for.
abbrev pub value : Limbs → ℕ
value h = h.l0 + h.l1 * 2 ^ 26 + h.l2 * 2 ^ 52 + h.l3 * 2 ^ 78 + h.l4 * 2 ^ 104

-- Limbs up to a bound.
abbrev pub UpTo : ℕ → Limbs → Type 0
UpTo n h = (h.l0 ≤ n) × (h.l1 ≤ n) × (h.l2 ≤ n) × (h.l3 ≤ n) × (h.l4 ≤ n)

-- The sums of products, as numbers of any size.
abbrev pub exact_products : Limbs → Limbs → Limbs
exact_products h r = record {
  l0 = h.l0 * r.l0 + h.l1 * (r.l4 * 5) + h.l2 * (r.l3 * 5) + h.l3 * (r.l2 * 5) + h.l4 * (r.l1 * 5);
  l1 = h.l0 * r.l1 + h.l1 * r.l0 + h.l2 * (r.l4 * 5) + h.l3 * (r.l3 * 5) + h.l4 * (r.l2 * 5);
  l2 = h.l0 * r.l2 + h.l1 * r.l1 + h.l2 * r.l0 + h.l3 * (r.l4 * 5) + h.l4 * (r.l3 * 5);
  l3 = h.l0 * r.l3 + h.l1 * r.l2 + h.l2 * r.l1 + h.l3 * r.l0 + h.l4 * (r.l4 * 5);
  l4 = h.l0 * r.l4 + h.l1 * r.l3 + h.l2 * r.l2 + h.l3 * r.l1 + h.l4 * r.l0;
}

-- The multiples of 2 ^ 130 that are folded in by 5.
abbrev pub folded : Limbs → Limbs → ℕ
folded h r =
    h.l1 * r.l4
    + h.l2 * r.l3
    + h.l3 * r.l2
    + h.l4 * r.l1
    + (h.l2 * r.l4 + h.l3 * r.l3 + h.l4 * r.l2) * 2 ^ 26
    + (h.l3 * r.l4 + h.l4 * r.l3) * 2 ^ 52
    + h.l4 * r.l4 * 2 ^ 78

-- The sums of products stand for the product, less multiples of 2 ^ 130 - 5.
pub value-exact_products :
    (h r : Limbs) → value h * value r ≡ value (exact_products h r) + (2 ^ 130 - 5) * folded h r
value-exact_products h r = omega arith

pub term-le : (x y : ℕ) → x ≤ 2 ^ 27 + 127 → y ≤ 2 ^ 26 - 1 → x * y ≤ (2 ^ 27 + 127) * (2 ^ 26 - 1)
term-le x y h k = mul-le-mul h k

pub same_limbs :
    {a a' b b' c c' d d' e e' : ℕ}
    → a ≡ a'
    → b ≡ b'
    → c ≡ c'
    → d ≡ d'
    → e ≡ e'
    → Path Limbs
        (record { l0 = a; l1 = b; l2 = c; l3 = d; l4 = e })
        (record { l0 = a'; l1 = b'; l2 = c'; l3 = d'; l4 = e' })
same_limbs p q r s t i = record { l0 = p i; l1 = q i; l2 = r i; l3 = s i; l4 = t i }

-- Where the limbs have room, no product and no sum wraps around.
module _ (h r : Limbs) (small_h : UpTo (2 ^ 27 + 127) h) (small_r : UpTo (2 ^ 26 - 1) r) where
  five_times : (x : ℕ) → x ≤ 2 ^ 26 - 1 → u32 (x * 5) ≡ x * 5
  five_times x k = mod-eq_of_lt (omega arith)

  abbrev pub sum_bound : ℕ
  sum_bound = 21 * ((2 ^ 27 + 127) * (2 ^ 26 - 1))

  pub exact_products-le : UpTo sum_bound (exact_products h r)
  exact_products-le = (
    omega (
      arith,
      term-le h.l0 r.l0 small_h.0 small_r.0,
      term-le h.l1 r.l4 small_h.1 small_r.4,
      term-le h.l2 r.l3 small_h.2 small_r.3,
      term-le h.l3 r.l2 small_h.3 small_r.2,
      term-le h.l4 r.l1 small_h.4 small_r.1,
    ),
    omega (
      arith,
      term-le h.l0 r.l1 small_h.0 small_r.1,
      term-le h.l1 r.l0 small_h.1 small_r.0,
      term-le h.l2 r.l4 small_h.2 small_r.4,
      term-le h.l3 r.l3 small_h.3 small_r.3,
      term-le h.l4 r.l2 small_h.4 small_r.2,
    ),
    omega (
      arith,
      term-le h.l0 r.l2 small_h.0 small_r.2,
      term-le h.l1 r.l1 small_h.1 small_r.1,
      term-le h.l2 r.l0 small_h.2 small_r.0,
      term-le h.l3 r.l4 small_h.3 small_r.4,
      term-le h.l4 r.l3 small_h.4 small_r.3,
    ),
    omega (
      arith,
      term-le h.l0 r.l3 small_h.0 small_r.3,
      term-le h.l1 r.l2 small_h.1 small_r.2,
      term-le h.l2 r.l1 small_h.2 small_r.1,
      term-le h.l3 r.l0 small_h.3 small_r.0,
      term-le h.l4 r.l4 small_h.4 small_r.4,
    ),
    omega (
      arith,
      term-le h.l0 r.l4 small_h.0 small_r.4,
      term-le h.l1 r.l3 small_h.1 small_r.3,
      term-le h.l2 r.l2 small_h.2 small_r.2,
      term-le h.l3 r.l1 small_h.3 small_r.1,
      term-le h.l4 r.l0 small_h.4 small_r.0,
    ),
  )

  no_wrap : (x : ℕ) → x ≤ sum_bound → u64 x ≡ x
  no_wrap x k = mod-eq_of_lt (omega arith)

  pub products-exact : products h r ≡ exact_products h r
  unfolding products
  products-exact =
      let f1 = five_times r.l1 small_r.1 in
      let f2 = five_times r.l2 small_r.2 in
      let f3 = five_times r.l3 small_r.3 in
      let f4 = five_times r.l4 small_r.4 in
      let b = exact_products-le in
      rw (f1, f2, f3, f4)
        (same_limbs (no_wrap _ b.0) (no_wrap _ b.1) (no_wrap _ b.2) (no_wrap _ b.3) (no_wrap _ b.4))
