-- ===== src/Base/Xor.antt =====
-- Exclusive or as addition without carries: halves, doubles, remainders and rearrangement.
use Prim.Native.Nat.{ℕ, zero, suc, ◌+◌, ◌*◌, ◌/◌, ◌%◌, ◌^◌, ◌<◌, bit_xor}
use mathlib.Core.Path.{◌≡◌, sym, ap, ap₂, ◌∙◌}
use native.Mathlib.Nat.{
  pow-suc, one-le-pow, mod-eq_of_lt, mod-lt, div-one, div-add-mod, div-div-eq-div-mul,
}
use native.Mathlib.Nat.{mul-add-mod_self_left}
use native.Mathlib.Omega.{arith}
use arduino_nrf_crypto.Base.Bits.{bit_xor_step, bit_xor_comm, bit_xor_assoc, bit_xor-zero}

pub bit_xor-nothing : (x : ℕ) → bit_xor x 0 ≡ x
bit_xor-nothing x = bit_xor_comm x 0 ∙ bit_xor-zero x

pub bit_xor-half : (x y : ℕ) → bit_xor x y / 2 ≡ bit_xor (x / 2) (y / 2)
bit_xor-half x y = omega (arith, bit_xor_step x y)

pub bit_xor-double : (x y : ℕ) → bit_xor (x * 2) (y * 2) ≡ bit_xor x y * 2
bit_xor-double x y =
    let halves : bit_xor (x * 2 / 2) (y * 2 / 2) ≡ bit_xor x y =
      ap (λ n. bit_xor n (y * 2 / 2)) {x = x * 2 / 2} {y = x} (omega arith)
      ∙ ap (λ n. bit_xor x n) {x = y * 2 / 2} {y = y} (omega arith) in
    omega (arith, bit_xor_step (x * 2) (y * 2), halves)

-- A shift to the right, one place at a time.
div-two-pow : (k x : ℕ) → x / 2 ^ suc k ≡ x / 2 / 2 ^ k
div-two-pow k x =
    ap (λ n. x / n) {x = 2 ^ suc k} {y = 2 * 2 ^ k} (omega (arith, pow-suc 2 k))
    ∙ sym (div-div-eq-div-mul x 2 (2 ^ k))

pub bit_xor-shift : (k x y : ℕ) → bit_xor x y / 2 ^ k ≡ bit_xor (x / 2 ^ k) (y / 2 ^ k)
bit_xor-shift zero x y = div-one (bit_xor x y) ∙ sym (ap₂ bit_xor (div-one x) (div-one y))
bit_xor-shift (suc k) x y =
    div-two-pow k (bit_xor x y)
    ∙ ap (λ n. n / 2 ^ k) (bit_xor-half x y)
    ∙ bit_xor-shift k (x / 2) (y / 2)
    ∙ sym (ap₂ bit_xor (div-two-pow k x) (div-two-pow k y))

-- A remainder, split at its lowest digit.
mod-two-pow : (k x : ℕ) → x % 2 ^ suc k ≡ x / 2 % 2 ^ k * 2 + x % 2
mod-two-pow k x =
    let m = 2 ^ k in
    let q = x / 2 in
    let wide : 2 ^ suc k ≡ m * 2 = omega (arith, pow-suc 2 k) in
    let low = q % m * 2 + x % 2 in
    let pos = one-le-pow k 2 (omega arith) in
    let parts : x ≡ m * 2 * (q / m) + low =
      omega (arith, ap (λ (t : ℕ). t * 2) (div-add-mod q m)) in
    let small : low < m * 2 = omega (arith, mod-lt q pos) in
    ap (λ n. x % n) wide
    ∙ ap (λ t. t % (m * 2)) parts
    ∙ mul-add-mod_self_left (m * 2) (q / m) low
    ∙ mod-eq_of_lt small

pub bit_xor-mod : (k x y : ℕ) → bit_xor x y % 2 ^ k ≡ bit_xor (x % 2 ^ k) (y % 2 ^ k)
bit_xor-mod zero x y =
    let none : bit_xor (x % 2 ^ 0) (y % 2 ^ 0) ≡ 0 =
      ap (λ t. bit_xor t (y % 2 ^ 0)) {x = x % 2 ^ 0} {y = 0} (omega arith)
      ∙ bit_xor-zero (y % 2 ^ 0)
      ∙ omega arith in
    omega (arith, none)
bit_xor-mod (suc k) x y =
    let a = x / 2 % 2 ^ k * 2 + x % 2 in
    let b = y / 2 % 2 ^ k * 2 + y % 2 in
    let upper : bit_xor (a / 2) (b / 2) ≡ bit_xor (x / 2 % 2 ^ k) (y / 2 % 2 ^ k) =
      ap (λ t. bit_xor t (b / 2)) {x = a / 2} {y = x / 2 % 2 ^ k} (omega arith)
      ∙ ap (bit_xor (x / 2 % 2 ^ k)) {x = b / 2} {y = y / 2 % 2 ^ k} (omega arith) in
    let whole : bit_xor x y % 2 ^ suc k ≡ bit_xor a b = omega (
      arith,
      mod-two-pow k (bit_xor x y),
      ap (λ t. t % 2 ^ k) (bit_xor-half x y),
      bit_xor-mod k (x / 2) (y / 2),
      bit_xor_step x y,
      bit_xor_step a b,
      upper,
    ) in
    whole ∙ sym (ap₂ bit_xor (mod-two-pow k x) (mod-two-pow k y))

-- The middle two of four are exchanged.
pub bit_xor_interchange :
    (a b c d : ℕ) → bit_xor (bit_xor a b) (bit_xor c d) ≡ bit_xor (bit_xor a c) (bit_xor b d)
bit_xor_interchange a b c d =
    bit_xor_assoc a b (bit_xor c d)
    ∙ ap (bit_xor a)
        (sym (bit_xor_assoc b c d) ∙ ap (λ t. bit_xor t d) (bit_xor_comm b c) ∙ bit_xor_assoc c b d)
    ∙ sym (bit_xor_assoc a c (bit_xor b d))
