-- ===== src/OnChip/Counter.antt =====
-- `incrementCounter` of src/backends/OnChipBackend.cpp as arithmetic.
use arduino_nrf_crypto.Base.{
  ℕ, zero, suc, ◌+◌, ◌*◌, ◌/◌, ◌%◌, ◌^◌, ◌<◌, List, [], ◌∷◌, ◌++◌, ◌≡◌, refl, sym, ap,
}
use arduino_nrf_crypto.Base.{
  ◌∙◌, arith, length, get_or, set, IsBytes, foldl-append, append_assoc, append-nil, u8,
}
use arduino_nrf_crypto.Base.{length-append, ◌==◌, if◌then◌else◌, Bool-cases, inl, inr}
use arduino_nrf_crypto.Stream.LengthBytes.{big_endian}
use native.Mathlib.Nat.{pow-suc, mod-lt, mod-eq_of_lt, div-add-mod, mul-add-mod_self_left}
use arduino_nrf_crypto.OnChip.{increment_loop, increment_counter}

get_or-middle : (zs ys : List ℕ) (v : ℕ) → get_or (zs ++ (v ∷ ys)) (length zs) 0 ≡ v
get_or-middle [] ys v = refl
get_or-middle (z ∷ zs) ys v = get_or-middle zs ys v

set-middle : (zs ys : List ℕ) (v w : ℕ) → set (zs ++ (v ∷ ys)) (length zs) w ≡ zs ++ (w ∷ ys)
set-middle [] ys v w = refl
set-middle (z ∷ zs) ys v w = ap (λ t. z ∷ t) (set-middle zs ys v w)

-- A list that is not empty, from its last element.
snoc-cases :
    (i : ℕ) (xs : List ℕ)
    → length xs ≡ suc i
    → (zs : List ℕ) × (v : ℕ) × (xs ≡ zs ++ (v ∷ [])) × (length zs ≡ i)
snoc-cases i [] e = absurd (omega arith)
snoc-cases zero (x ∷ []) e = ([], x, refl, refl)
snoc-cases zero (x ∷ y ∷ xs) e = absurd (omega arith)
snoc-cases (suc i) (x ∷ xs) e =
    let r = snoc-cases i xs (omega arith) in (x ∷ r.0, r.1, ap (λ t. x ∷ t) r.2, omega (arith, r.3))

IsBytes-split : (xs ys : List ℕ) → IsBytes (xs ++ ys) → IsBytes xs × IsBytes ys
IsBytes-split [] ys b = (tt, b)
IsBytes-split (x ∷ xs) ys b = let r = IsBytes-split xs ys b.1 in ((b.0, r.0), r.1)

big_endian-snoc : (zs : List ℕ) (v : ℕ) → big_endian (zs ++ (v ∷ [])) ≡ big_endian zs * 256 + v
big_endian-snoc zs v = foldl-append (λ n b. n * 256 + b) 0 zs (v ∷ [])

mod-mul : (a m : ℕ) → 0 < m → a % m * 256 ≡ (a * 256) % (m * 256)
mod-mul a m pos =
    let q = a / m in
    let parts : a * 256 ≡ m * 256 * q + a % m * 256 =
      omega (arith, ap (λ (t : ℕ). t * 256) (div-add-mod a m)) in
    let small : a % m * 256 < m * 256 = omega (arith, mod-lt a pos) in
    sym (
      ap (λ t. t % (m * 256)) parts
      ∙ mul-add-mod_self_left (m * 256) q (a % m * 256)
      ∙ mod-eq_of_lt small)

big_endian-lt : (i : ℕ) (xs : List ℕ) → length xs ≡ i → IsBytes xs → big_endian xs < 256 ^ i
big_endian-lt zero [] e b = omega arith
big_endian-lt zero (x ∷ xs) e b = absurd (omega arith)
big_endian-lt (suc i) xs e b =
    let (zs, v, whole, size) = snoc-cases i xs e in
    let parts = IsBytes-split zs (v ∷ []) (rw (sym whole) b) in
    let ih = big_endian-lt i zs size parts.0 in
    let last : v < 256 = parts.1.0 in rw (whole, big_endian-snoc zs v, pow-suc 256 i) (omega arith)

-- One step of the loop at the byte `v`, the last of the counter's first part.
increment_loop_step :
    (i : ℕ) (zs ys : List ℕ) (v : ℕ)
    → length zs ≡ i
    → increment_loop (suc i) (zs ++ (v ∷ ys)) ≡ (
        if u8 (v + 1) == 0
        then increment_loop i (zs ++ (u8 (v + 1) ∷ ys))
        else zs ++ (u8 (v + 1) ∷ ys))
unfolding increment_loop
increment_loop_step i zs ys v e =
    let got : get_or (zs ++ (v ∷ ys)) i 0 ≡ v = rw (sym e) (get_or-middle zs ys v) in
    let put : set (zs ++ (v ∷ ys)) i (u8 (v + 1)) ≡ zs ++ (u8 (v + 1) ∷ ys) =
      rw (sym e) (set-middle zs ys v (u8 (v + 1))) in
    rw (got, put) refl

-- The first `i` bytes count up modulo `256 ^ i`; the bytes behind them stay.
increment_loop_lem :
    (i : ℕ) (xs ys : List ℕ)
    → length xs ≡ i
    → IsBytes xs
    → (xs' : List ℕ) × (increment_loop i (xs ++ ys) ≡ xs' ++ ys)
      × (length xs' ≡ i)
      × (big_endian xs' ≡ (big_endian xs + 1) % 256 ^ i)
increment_loop_lem zero [] ys e b = ([], unfold increment_loop in refl, refl, omega arith)
increment_loop_lem zero (x ∷ xs) ys e b = absurd (omega arith)
increment_loop_lem (suc i) xs ys e b =
    let (zs, v, whole, size) = snoc-cases i xs e in
    let parts = IsBytes-split zs (v ∷ []) (rw (sym whole) b) in
    let small : v < 256 = parts.1.0 in
    let bound = big_endian-lt i zs size parts.0 in
    let step = increment_loop_step i zs ys v size in
    let w = u8 (v + 1) in
    let value : big_endian xs ≡ big_endian zs * 256 + v =
      ap big_endian whole ∙ big_endian-snoc zs v in
    let joined : xs ++ ys ≡ zs ++ (v ∷ ys) =
      ap (λ t. t ++ ys) whole ∙ append_assoc zs (v ∷ []) ys in
    elim (Bool-cases (w == 0)) [
      | inl wraps ↦
          let full : v ≡ 255 = ground arith in
          let (zs', e', size', value') = increment_loop_lem i zs (w ∷ ys) size parts.0 in
          (
            zs' ++ (w ∷ []),
            rw joined (step ∙ rw wraps (e' ∙ sym (append_assoc zs' (w ∷ []) ys))),
            omega (arith, length-append zs' (w ∷ [])),
            big_endian-snoc zs' w
                ∙ ap (λ t. t * 256 + w) value'
                ∙ omega (arith, full)
                ∙ mod-mul (big_endian zs + 1) (256 ^ i) (omega arith)
                ∙ ap (λ a. a % (256 ^ i * 256)) {x = (big_endian zs + 1) * 256}
                    {y = big_endian xs + 1} (omega (arith, value, full))
                ∙ ap (λ n. (big_endian xs + 1) % n) (sym (pow-suc 256 i)),
          )
      | inr stops ↦ (
        zs ++ (w ∷ []),
        rw joined (step ∙ rw stops (sym (append_assoc zs (w ∷ []) ys))),
        omega (arith, length-append zs (w ∷ [])),
        big_endian-snoc zs w
            ∙ ground (arith, value)
            ∙ sym (mod-eq_of_lt (ground (arith, value, pow-suc 256 i))),
      )
    ]

-- The counter block, read as a big-endian number of 128 bits, counts up by one modulo 2 ^ 128.
pub increment_counter_lem :
    (ctr : List ℕ)
    → length ctr ≡ 16
    → IsBytes ctr
    → (length (increment_counter ctr) ≡ 16)
      × (big_endian (increment_counter ctr) ≡ (big_endian ctr + 1) % 2 ^ 128)
increment_counter_lem ctr e b =
    let (next, whole, size, value) = increment_loop_lem 16 ctr [] e b in
    let same : increment_counter ctr ≡ next =
      ap (increment_loop 16) (sym (append-nil ctr)) ∙ whole ∙ append-nil next in
    (ap length same ∙ size, ap big_endian same ∙ value)
