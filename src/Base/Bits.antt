-- ===== src/Base/Bits.antt =====
-- The laws of the bit operations at every width, from one equation for the lowest digit.
use Prim.Native.Nat.{ℕ, zero, suc, ◌+◌, ◌-◌, ◌*◌, ◌/◌, ◌%◌, ◌^◌, ◌≤◌, ◌<◌}
use Prim.Native.Nat.{min, max, digits, bitwise, differ, bit_and, bit_or, bit_xor}
use Prim.Native.Nat.{bit_and-bitwise, bit_or-bitwise, bit_xor-bitwise}
use mathlib.Core.Path.{◌≡◌, refl, sym, ap, ◌∙◌}
use native.Mathlib.Nat.{le_refl, pow-suc, one-le-pow, div-div-eq-div-mul}
use native.Mathlib.Omega.{arith}

-- A digitwise operation whose value at 0 agrees with its digits there.
module _ (at_zero : ℕ → ℕ) (digit : ℕ → ℕ → ℕ)
    (agree : (y : ℕ) → at_zero y ≡ at_zero (y / 2) * 2 + digit 0 (y % 2)) where
  -- Fuel past the value is not used.
  spare_fuel :
      (full fuel x y : ℕ)
      → x ≤ fuel
      → fuel ≤ full
      → digits at_zero digit full x y ≡ digits at_zero digit fuel x y
  spare_fuel zero fuel (suc x) y enough more = absurd (omega arith)
  spare_fuel (suc full) zero (suc x) y enough more = absurd (omega arith)
  spare_fuel zero zero zero y enough more = refl
  spare_fuel zero (suc fuel) zero y enough more = refl
  spare_fuel (suc full) zero zero y enough more = refl
  spare_fuel (suc full) (suc fuel) zero y enough more = refl
  spare_fuel (suc full) (suc fuel) (suc x) y enough more =
      ap (λ t. t * 2 + digit (suc x % 2) (y % 2))
        (spare_fuel full fuel (suc x / 2) (y / 2) (omega arith) (omega arith))

  lowest_digit :
      (x y : ℕ)
      → bitwise at_zero digit x y
        ≡ bitwise at_zero digit (x / 2) (y / 2) * 2 + digit (x % 2) (y % 2)
  lowest_digit zero y = agree y
  lowest_digit (suc x) y =
      let half = suc x / 2 in
      ap (λ t. t * 2 + digit (suc x % 2) (y % 2))
        (spare_fuel x half half (y / 2) (le_refl half) (omega arith))

differ_digits : (x y : ℕ) → x < 2 → y < 2 → differ x y ≡ (x + y) % 2
differ_digits zero y p q = omega arith
differ_digits (suc zero) zero p q = refl
differ_digits (suc zero) (suc zero) p q = refl
differ_digits (suc zero) (suc (suc y)) p q = absurd (omega arith)
differ_digits (suc (suc x)) y p q = absurd (omega arith)

pub bit_or_step : (x y : ℕ) → bit_or x y ≡ bit_or (x / 2) (y / 2) * 2 + max (x % 2) (y % 2)
bit_or_step x y = simp bit_or-bitwise (lowest_digit (λ n. n) max (λ n. omega arith) x y)

pub bit_and_step : (x y : ℕ) → bit_and x y ≡ bit_and (x / 2) (y / 2) * 2 + min (x % 2) (y % 2)
bit_and_step x y = simp bit_and-bitwise (lowest_digit (λ n. 0) min (λ n. omega arith) x y)

pub bit_xor_step : (x y : ℕ) → bit_xor x y ≡ bit_xor (x / 2) (y / 2) * 2 + (x % 2 + y % 2) % 2
bit_xor_step x y =
    let raw : bit_xor x y ≡ bit_xor (x / 2) (y / 2) * 2 + differ (x % 2) (y % 2) =
      simp bit_xor-bitwise (lowest_digit (λ n. n) differ (λ n. omega arith) x y) in
    omega (arith, raw, differ_digits (x % 2) (y % 2) (omega arith) (omega arith))

pub bit_xor-zero : (b : ℕ) → bit_xor 0 b ≡ b
bit_xor-zero b = simp bit_xor-bitwise

pub bit_or-zero : (b : ℕ) → bit_or 0 b ≡ b
bit_or-zero b = simp bit_or-bitwise

pub bit_and-zero : (b : ℕ) → bit_and 0 b ≡ 0
bit_and-zero b = simp bit_and-bitwise

bit_xor_comm_fuel : (n a b : ℕ) → a ≤ n → b ≤ n → bit_xor a b ≡ bit_xor b a
bit_xor_comm_fuel zero zero zero p q = refl
bit_xor_comm_fuel zero zero (suc b) p q = absurd (omega arith)
bit_xor_comm_fuel zero (suc a) b p q = absurd (omega arith)
bit_xor_comm_fuel (suc n) a b p q = omega (
  arith,
  bit_xor_step a b,
  bit_xor_step b a,
  bit_xor_comm_fuel n (a / 2) (b / 2) (omega arith) (omega arith),
)

pub bit_xor_comm : (a b : ℕ) → bit_xor a b ≡ bit_xor b a
bit_xor_comm a b = bit_xor_comm_fuel (a + b) a b (omega arith) (omega arith)

bit_xor_self_fuel : (n a : ℕ) → a ≤ n → bit_xor a a ≡ 0
bit_xor_self_fuel zero zero p = refl
bit_xor_self_fuel zero (suc a) p = absurd (omega arith)
bit_xor_self_fuel (suc n) a p =
    omega (arith, bit_xor_step a a, bit_xor_self_fuel n (a / 2) (omega arith))

pub bit_xor_self : (a : ℕ) → bit_xor a a ≡ 0
bit_xor_self a = bit_xor_self_fuel a a (omega arith)

bit_xor_halves :
    (a b : ℕ)
    → (bit_xor a b / 2 ≡ bit_xor (a / 2) (b / 2)) × (bit_xor a b % 2 ≡ (a % 2 + b % 2) % 2)
bit_xor_halves a b = omega (arith, bit_xor_step a b)

bit_xor_assoc_fuel :
    (n a b c : ℕ) → a ≤ n → b ≤ n → c ≤ n → bit_xor (bit_xor a b) c ≡ bit_xor a (bit_xor b c)
bit_xor_assoc_fuel zero zero zero zero p q r = refl
bit_xor_assoc_fuel zero zero zero (suc c) p q r = absurd (omega arith)
bit_xor_assoc_fuel zero zero (suc b) c p q r = absurd (omega arith)
bit_xor_assoc_fuel zero (suc a) b c p q r = absurd (omega arith)
bit_xor_assoc_fuel (suc n) a b c p q r =
    let left = bit_xor_step (bit_xor a b) c in
    let right = bit_xor_step a (bit_xor b c) in
    let ab = bit_xor_halves a b in
    let bc = bit_xor_halves b c in
    let ih =
      bit_xor_assoc_fuel n (a / 2) (b / 2) (c / 2) (omega arith) (omega arith) (omega arith) in
    let left' : bit_xor (bit_xor a b) c
        ≡ bit_xor (bit_xor (a / 2) (b / 2)) (c / 2) * 2 + (bit_xor a b % 2 + c % 2) % 2 =
      rw (ab.0) at left in
    let right' : bit_xor a (bit_xor b c)
        ≡ bit_xor (a / 2) (bit_xor (b / 2) (c / 2)) * 2 + (a % 2 + bit_xor b c % 2) % 2 =
      rw (bc.0) at right in
    omega (arith, left', right', ab.1, bc.1, ih)

pub bit_xor_assoc : (a b c : ℕ) → bit_xor (bit_xor a b) c ≡ bit_xor a (bit_xor b c)
bit_xor_assoc a b c = bit_xor_assoc_fuel (a + b + c) a b c (omega arith) (omega arith) (omega arith)

-- Adding the same mask twice gives the value back.
pub bit_xor_cancel : (a b : ℕ) → bit_xor (bit_xor a b) b ≡ a
bit_xor_cancel a b = bit_xor_assoc a b b ∙ (rw (bit_xor_self b) (bit_xor_comm a 0 ∙ bit_xor-zero a))

pub bit_xor-eq-zero : (a b : ℕ) → bit_xor a b ≡ 0 → a ≡ b
bit_xor-eq-zero a b h = sym (bit_xor_cancel a b) ∙ (rw h (bit_xor-zero b))

bit_or-eq-zero_fuel : (n a b : ℕ) → a ≤ n → b ≤ n → bit_or a b ≡ 0 → (a ≡ 0) × (b ≡ 0)
bit_or-eq-zero_fuel zero a b p q h = omega arith
bit_or-eq-zero_fuel (suc n) a b p q h =
    let e = bit_or_step a b in
    let ih = bit_or-eq-zero_fuel n (a / 2) (b / 2) (omega arith) (omega arith) (omega (arith, e)) in
    omega (arith, e, ih)

-- An accumulated difference is zero exactly when both parts are.
pub bit_or-eq-zero : (a b : ℕ) → bit_or a b ≡ 0 → (a ≡ 0) × (b ≡ 0)
bit_or-eq-zero a b = bit_or-eq-zero_fuel (a + b) a b (omega arith) (omega arith)

pub bit_xor-lt : (k a b : ℕ) → a < 2 ^ k → b < 2 ^ k → bit_xor a b < 2 ^ k
bit_xor-lt zero a b p q = ground (arith, bit_xor_self 0)
bit_xor-lt (suc k) a b p q =
    let e = pow-suc 2 k in
    let ih = bit_xor-lt k (a / 2) (b / 2) (omega arith) (omega arith) in
    omega (arith, bit_xor_step a b, e, ih)

pub bit_or-lt : (k a b : ℕ) → a < 2 ^ k → b < 2 ^ k → bit_or a b < 2 ^ k
bit_or-lt zero a b p q = ground (arith, bit_or-zero 0)
bit_or-lt (suc k) a b p q =
    let e = pow-suc 2 k in
    let ih = bit_or-lt k (a / 2) (b / 2) (omega arith) (omega arith) in
    omega (arith, bit_or_step a b, e, ih)

pub bit_and-nothing : (bound x : ℕ) → x ≤ bound → bit_and x 0 ≡ 0
bit_and-nothing zero x small = ap (λ n. bit_and n 0) {x = x} {y = 0} (omega arith)
bit_and-nothing (suc bound) zero small = bit_and-zero 0
bit_and-nothing (suc bound) (suc x) small =
    let half = suc x / 2 in
    let rest = bit_and-nothing bound half (omega arith) in
    omega (arith, bit_and_step (suc x) 0, rest)

-- The low digits of a number whose other digits start at `2 ^ width`.
bit_and_low :
    (width high low : ℕ) → low < 2 ^ width → bit_and (high * 2 ^ width + low) (2 ^ width - 1) ≡ low
bit_and_low zero high low small =
    let all = high * 2 ^ 0 + low in omega (arith, bit_and-nothing all all (omega arith))
bit_and_low (suc width) high low small =
    let wide : 2 ^ suc width ≡ 2 * 2 ^ width = omega (arith, pow-suc 2 width) in
    let split : high * 2 ^ suc width ≡ 2 * (high * 2 ^ width) =
      ap (λ (t : ℕ). high * t) wide ∙ omega arith in
    let rest = bit_and_low width high (low / 2) (omega (arith, wide)) in
    let all = high * 2 ^ suc width + low in
    ground (arith, bit_and_step all (2 ^ suc width - 1), wide, split, rest, one-le-pow width 2)

-- A mask of low bits takes the remainder.
pub bit_and_mask : (width x : ℕ) → bit_and x (2 ^ width - 1) ≡ x % 2 ^ width
bit_and_mask width x =
    let pos = one-le-pow width 2 in
    let low = bit_and_low width (x / 2 ^ width) (x % 2 ^ width) (omega (arith, pos)) in
    ground (arith, pos, low)

-- Bits that are apart are joined by a sum.
pub bit_or_apart : (k a b : ℕ) → a < 2 ^ k → bit_or a (b * 2 ^ k) ≡ a + b * 2 ^ k
bit_or_apart zero a b h =
    ap (λ n. bit_or n (b * 2 ^ 0)) {x = a} {y = 0} (omega arith)
    ∙ bit_or-zero (b * 2 ^ 0)
    ∙ omega arith
bit_or_apart (suc k) a b h =
    let double = pow-suc 2 k in
    let wide : b * 2 ^ suc k ≡ b * 2 ^ k * 2 = ap (λ (n : ℕ). b * n) double ∙ omega arith in
    let half : b * 2 ^ suc k / 2 ≡ b * 2 ^ k = omega (arith, wide) in
    let even : (b * 2 ^ suc k) % 2 ≡ 0 = omega (arith, wide) in
    let rest : bit_or (a / 2) (b * 2 ^ suc k / 2) ≡ a / 2 + b * 2 ^ k =
      ap (bit_or (a / 2)) half ∙ bit_or_apart k (a / 2) b (omega (arith, double)) in
    ground (arith, bit_or_step a (b * 2 ^ suc k), rest, wide, even)

-- A bit-wise and is no more than its mask; the number of steps is the mask at most.
bit_and_le_steps : (steps x k : ℕ) → k ≤ steps → bit_and x k ≤ k
bit_and_le_steps zero x k h =
    let none = ap (bit_and x) {x = k} {y = 0} (omega arith) in
    omega (arith, none, bit_and-nothing x x (le_refl x))
bit_and_le_steps (suc steps) x k h =
    let rest = bit_and_le_steps steps (x / 2) (k / 2) (omega arith) in
    omega (arith, bit_and_step x k, rest)

pub bit_and_le : (x k : ℕ) → bit_and x k ≤ k
bit_and_le x k = bit_and_le_steps k x k (le_refl k)

-- A mask of two parts that are apart takes the two parts.
pub bit_and_apart :
    (k x m n : ℕ)
    → m < 2 ^ k
    → bit_and x (m + n * 2 ^ k) ≡ bit_and x m + bit_and (x / 2 ^ k) n * 2 ^ k
bit_and_apart zero x m n h =
    let whole = ap (bit_and x) {x = m + n * 2 ^ 0} {y = n} (omega arith) in
    let same = ap (λ (t : ℕ). bit_and t n) {x = x / 2 ^ 0} {y = x} (omega arith) in
    let none = ap (bit_and x) {x = m} {y = 0} (omega arith) in
    omega (arith, whole, same, none, bit_and-nothing x x (le_refl x))
bit_and_apart (suc k) x m n h =
    let double = pow-suc 2 k in
    let wide : n * 2 ^ suc k ≡ n * 2 ^ k * 2 = ap (λ (t : ℕ). n * t) double ∙ omega arith in
    let half : (m + n * 2 ^ suc k) / 2 ≡ m / 2 + n * 2 ^ k = omega (arith, wide) in
    let low : (m + n * 2 ^ suc k) % 2 ≡ m % 2 = omega (arith, wide) in
    let rest =
      ap (bit_and (x / 2)) half ∙ bit_and_apart k (x / 2) (m / 2) n (omega (arith, double)) in
    let deep : x / 2 / 2 ^ k ≡ x / 2 ^ suc k =
      div-div-eq-div-mul x 2 (2 ^ k) ∙ ap (λ (t : ℕ). x / t) (omega (arith, double)) in
    let top = ap (λ (t : ℕ). bit_and t n) deep in
    let high = bit_and (x / 2 ^ suc k) n in
    let wide2 : high * 2 ^ suc k ≡ high * 2 ^ k * 2 =
      ap (λ (t : ℕ). high * t) double ∙ omega arith in
    let joined = rest ∙ ap (λ (t : ℕ). bit_and (x / 2) (m / 2) + t * 2 ^ k) top in
    ground (arith, bit_and_step x (m + n * 2 ^ suc k), bit_and_step x m, joined, low, wide2)

bit_or_comm_steps : (n x y : ℕ) → x ≤ n → y ≤ n → bit_or x y ≡ bit_or y x
bit_or_comm_steps zero x y p q =
    let none = ap (λ (t : ℕ). bit_or t y) {x = x} {y = y} (omega arith) in
    let back = ap (bit_or y) {x = y} {y = x} (omega arith) in none ∙ back
bit_or_comm_steps (suc n) x y p q =
    let rest = bit_or_comm_steps n (x / 2) (y / 2) (omega arith) (omega arith) in
    omega (arith, bit_or_step x y, bit_or_step y x, rest)

pub bit_or_comm : (x y : ℕ) → bit_or x y ≡ bit_or y x
bit_or_comm x y = bit_or_comm_steps (x + y) x y (omega arith) (omega arith)

-- A number of more significant bits is joined to a smaller one by a sum.
pub bit_or_onto : (k x high low : ℕ) → x ≡ high * 2 ^ k → low < 2 ^ k → bit_or x low ≡ x + low
bit_or_onto k x high low e h =
    bit_or_comm x low ∙ ap (bit_or low) e ∙ bit_or_apart k low high h ∙ omega (arith, e)
