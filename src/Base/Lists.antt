-- ===== src/Base/Lists.antt =====
-- C arrays as lists, measured and indexed by native numbers.
use Prim.Native.Nat.{ℕ, zero, suc, ◌+◌, ◌-◌, ◌≤◌, min}
use mathlib.Core.Path.{◌≡◌, refl, ap}
use mathlib.Core.List.{List, [], ◌∷◌, ◌++◌, map, foldl}
use native.Mathlib.Omega.{arith}

module _ {ℓ} {A : Type ℓ} where
  abbrev pub length : List A → ℕ
  length [] = 0
  length (x ∷ xs) = suc (length xs)

  abbrev pub get_or : List A → ℕ → A → A
  get_or [] i d = d
  get_or (x ∷ xs) zero d = x
  get_or (x ∷ xs) (suc i) d = get_or xs i d

  -- A write out of bounds changes nothing.
  abbrev pub set : List A → ℕ → A → List A
  set [] i v = []
  set (x ∷ xs) zero v = v ∷ xs
  set (x ∷ xs) (suc i) v = x ∷ set xs i v

  abbrev pub take : ℕ → List A → List A
  take zero xs = []
  take (suc n) [] = []
  take (suc n) (x ∷ xs) = x ∷ take n xs

  abbrev pub drop : ℕ → List A → List A
  drop zero xs = xs
  drop (suc n) [] = []
  drop (suc n) (x ∷ xs) = drop n xs

  abbrev pub replicate : ℕ → A → List A
  replicate zero a = []
  replicate (suc n) a = a ∷ replicate n a

  pub length-append : (xs ys : List A) → length (xs ++ ys) ≡ length xs + length ys
  length-append [] ys = omega arith
  length-append (x ∷ xs) ys = omega (arith, length-append xs ys)

  pub length-set : (xs : List A) (i : ℕ) (v : A) → length (set xs i v) ≡ length xs
  length-set [] i v = refl
  length-set (x ∷ xs) zero v = refl
  length-set (x ∷ xs) (suc i) v = ap suc (length-set xs i v)

  pub take-append-drop : (n : ℕ) (xs : List A) → take n xs ++ drop n xs ≡ xs
  take-append-drop zero xs = refl
  take-append-drop (suc n) [] = refl
  take-append-drop (suc n) (x ∷ xs) = ap (λ t. x ∷ t) (take-append-drop n xs)

  pub length-take : (n : ℕ) (xs : List A) → length (take n xs) ≡ min n (length xs)
  length-take zero xs = omega arith
  length-take (suc n) [] = omega arith
  length-take (suc n) (x ∷ xs) = omega (arith, length-take n xs)

  pub length-drop : (n : ℕ) (xs : List A) → length (drop n xs) ≡ length xs - n
  length-drop zero xs = omega arith
  length-drop (suc n) [] = omega arith
  length-drop (suc n) (x ∷ xs) = omega (arith, length-drop n xs)

  pub length-replicate : (n : ℕ) (a : A) → length (replicate n a) ≡ n
  length-replicate zero a = refl
  length-replicate (suc n) a = ap suc (length-replicate n a)

  pub take-all : (n : ℕ) (xs : List A) → length xs ≤ n → take n xs ≡ xs
  take-all zero [] h = refl
  take-all zero (x ∷ xs) h = absurd (omega arith)
  take-all (suc n) [] h = refl
  take-all (suc n) (x ∷ xs) h = ap (λ t. x ∷ t) (take-all n xs (omega arith))

  pub drop-all : (n : ℕ) (xs : List A) → length xs ≤ n → drop n xs ≡ []
  drop-all zero [] h = refl
  drop-all zero (x ∷ xs) h = absurd (omega arith)
  drop-all (suc n) [] h = refl
  drop-all (suc n) (x ∷ xs) h = drop-all n xs (omega arith)

  pub take-take : (xs : List A) (n m : ℕ) → n ≤ m → take n (take m xs) ≡ take n xs
  take-take xs zero m h = refl
  take-take [] (suc n) zero h = absurd (omega arith)
  take-take (x ∷ xs) (suc n) zero h = absurd (omega arith)
  take-take [] (suc n) (suc m) h = refl
  take-take (x ∷ xs) (suc n) (suc m) h = ap (λ t. x ∷ t) (take-take xs n m (omega arith))

  pub take-append : (xs ys : List A) (n : ℕ) → n ≡ length xs → take n (xs ++ ys) ≡ xs
  take-append [] ys zero h = refl
  take-append [] ys (suc n) h = absurd (omega arith)
  take-append (x ∷ xs) ys zero h = absurd (omega arith)
  take-append (x ∷ xs) ys (suc n) h = ap (λ t. x ∷ t) (take-append xs ys n (omega arith))

  pub drop-append : (xs ys : List A) (n : ℕ) → n ≡ length xs → drop n (xs ++ ys) ≡ ys
  drop-append [] ys zero h = refl
  drop-append [] ys (suc n) h = absurd (omega arith)
  drop-append (x ∷ xs) ys zero h = absurd (omega arith)
  drop-append (x ∷ xs) ys (suc n) h = drop-append xs ys n (omega arith)

  pub take-append_front : (xs ys : List A) (n : ℕ) → n ≤ length xs → take n (xs ++ ys) ≡ take n xs
  take-append_front xs ys zero h = refl
  take-append_front [] ys (suc n) h = absurd (omega arith)
  take-append_front (x ∷ xs) ys (suc n) h =
      ap (λ t. x ∷ t) (take-append_front xs ys n (omega arith))

  pub take-append_more :
      (xs ys : List A) (n m : ℕ) → n ≡ length xs + m → take n (xs ++ ys) ≡ xs ++ take m ys
  take-append_more [] ys n m h = ap (λ k. take k ys) {x = n} {y = m} (omega arith)
  take-append_more (x ∷ xs) ys zero m h = absurd (omega arith)
  take-append_more (x ∷ xs) ys (suc n) m h =
      ap (λ t. x ∷ t) (take-append_more xs ys n m (omega arith))

  -- `memcpy` into an array: the bytes `src` at index `off`; what would fall outside is dropped.
  abbrev pub write_at : List A → ℕ → List A → List A
  write_at [] off src = []
  write_at (x ∷ xs) zero [] = x ∷ xs
  write_at (x ∷ xs) zero (v ∷ src) = v ∷ write_at xs zero src
  write_at (x ∷ xs) (suc off) src = x ∷ write_at xs off src

  pub length-write_at :
      (xs : List A) (off : ℕ) (src : List A) → length (write_at xs off src) ≡ length xs
  length-write_at [] off src = refl
  length-write_at (x ∷ xs) zero [] = refl
  length-write_at (x ∷ xs) zero (v ∷ src) = ap suc (length-write_at xs zero src)
  length-write_at (x ∷ xs) (suc off) src = ap suc (length-write_at xs off src)

  -- The bytes before the end of a copy that fits: the old ones, then the copied ones.
  pub take-write_at :
      (xs : List A) (off : ℕ) (src : List A) (n : ℕ)
      → off + length src ≤ length xs
      → n ≡ off + length src
      → take n (write_at xs off src) ≡ take off xs ++ src
  take-write_at [] zero [] zero h e = refl
  take-write_at [] zero [] (suc n) h e = refl
  take-write_at [] zero (v ∷ src) n h e = absurd (omega arith)
  take-write_at [] (suc off) src n h e = absurd (omega arith)
  take-write_at (x ∷ xs) zero [] zero h e = refl
  take-write_at (x ∷ xs) zero [] (suc n) h e = absurd (omega arith)
  take-write_at (x ∷ xs) zero (v ∷ src) zero h e = absurd (omega arith)
  take-write_at (x ∷ xs) zero (v ∷ src) (suc n) h e =
      ap (λ t. v ∷ t) (take-write_at xs zero src n (omega arith) (omega arith))
  take-write_at (x ∷ xs) (suc off) src zero h e = absurd (omega arith)
  take-write_at (x ∷ xs) (suc off) src (suc n) h e =
      ap (λ t. x ∷ t) (take-write_at xs off src n (omega arith) (omega arith))

  -- Indices `i, i + 1, …` of a counted loop `for (i = 0; i < n; ++i)`, as the list of its results.
  abbrev pub tabulate : ℕ → ℕ → (ℕ → A) → List A
  tabulate zero i f = []
  tabulate (suc n) i f = f i ∷ tabulate n (suc i) f

  pub length-tabulate : (n i : ℕ) (f : ℕ → A) → length (tabulate n i f) ≡ n
  length-tabulate zero i f = refl
  length-tabulate (suc n) i f = ap suc (length-tabulate n (suc i) f)

pub foldl-append {ℓ κ} :
    {A : Type ℓ} {B : Type κ} (f : B → A → B) (b : B) (xs ys : List A)
    → foldl f b (xs ++ ys) ≡ foldl f (foldl f b xs) ys
foldl-append f b [] ys = refl
foldl-append f b (x ∷ xs) ys = foldl-append f (f b x) xs ys

pub length-map {ℓ κ} :
    {A : Type ℓ} {B : Type κ} (f : A → B) (xs : List A) → length (map f xs) ≡ length xs
length-map f [] = refl
length-map f (x ∷ xs) = ap suc (length-map f xs)
