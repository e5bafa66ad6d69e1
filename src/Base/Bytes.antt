-- ===== src/Base/Bytes.antt =====
-- Byte strings, pointers with a length, and the loops over bytes that several files share.
use Prim.Native.Nat.{ℕ, zero, suc, ◌^◌, ◌≤◌, ◌<◌, bit_or, bit_xor}
use mathlib.Core.Path.{◌≡◌, refl, ap, ap₂}
use mathlib.Core.List.{List, [], ◌∷◌, ◌++◌}
use native.Mathlib.Omega.{arith}
use arduino_nrf_crypto.Base.Lists.{length, get_or, take, drop, replicate, set, write_at}
use arduino_nrf_crypto.Base.Words.{u8}
use arduino_nrf_crypto.Base.Bits.{bit_xor_cancel, bit_xor-lt, bit_or-eq-zero, bit_xor-eq-zero}
use arduino_nrf_crypto.Base.Bits.{bit_xor_self}

abbrev pub IsBytes : List ℕ → Type 0
IsBytes [] = Unit {0}
IsBytes (x ∷ xs) = (x < 256) × IsBytes xs

-- A `const uint8_t*` with its length: null, or a pointer to exactly that many bytes.
pub data Slice : Type 0 where
  null : ℕ → Slice
  bytes : List ℕ → Slice

abbrev pub slice_len : Slice → ℕ
slice_len (null n) = n
slice_len (bytes l) = length l

-- What a loop over the slice reads; a null pointer is read by no caller, or has length 0.
abbrev pub contents : Slice → List ℕ
contents (null n) = []
contents (bytes l) = l

-- `for (i = 0; i < n; ++i) dst[i] = uint8_t(a[i] ^ b[i])`, for as long as both have bytes.
abbrev pub xor_bytes : List ℕ → List ℕ → List ℕ
xor_bytes [] ys = []
xor_bytes (x ∷ xs) [] = []
xor_bytes (x ∷ xs) (y ∷ ys) = u8 (bit_xor x y) ∷ xor_bytes xs ys

-- `for (i = 0; i < n; ++i) diff |= uint8_t(a[i] ^ b[i])`; both arrays hold `n` bytes.
abbrev pub diff_loop : ℕ → List ℕ → List ℕ → ℕ → ℕ
diff_loop zero a b diff = diff
diff_loop (suc n) [] b diff = diff
diff_loop (suc n) (x ∷ a) [] diff = diff
diff_loop (suc n) (x ∷ a) (y ∷ b) diff = diff_loop n a b (bit_or diff (u8 (bit_xor x y)))

pub IsBytes-append : (xs ys : List ℕ) → IsBytes xs → IsBytes ys → IsBytes (xs ++ ys)
IsBytes-append [] ys h k = k
IsBytes-append (x ∷ xs) ys h k = (h.0, IsBytes-append xs ys h.1 k)

pub IsBytes-take : (n : ℕ) (xs : List ℕ) → IsBytes xs → IsBytes (take n xs)
IsBytes-take zero xs h = tt
IsBytes-take (suc n) [] h = tt
IsBytes-take (suc n) (x ∷ xs) h = (h.0, IsBytes-take n xs h.1)

pub IsBytes-drop : (n : ℕ) (xs : List ℕ) → IsBytes xs → IsBytes (drop n xs)
IsBytes-drop zero xs h = h
IsBytes-drop (suc n) [] h = tt
IsBytes-drop (suc n) (x ∷ xs) h = IsBytes-drop n xs h.1

pub get_or-lt : (xs : List ℕ) (i : ℕ) → IsBytes xs → get_or xs i 0 < 256
get_or-lt [] i h = omega arith
get_or-lt (x ∷ xs) zero h = h.0
get_or-lt (x ∷ xs) (suc i) h = get_or-lt xs i h.1

pub IsBytes-xor_bytes : (xs ys : List ℕ) → IsBytes (xor_bytes xs ys)
IsBytes-xor_bytes [] ys = tt
IsBytes-xor_bytes (x ∷ xs) [] = tt
IsBytes-xor_bytes (x ∷ xs) (y ∷ ys) = (omega arith, IsBytes-xor_bytes xs ys)

pub length-xor_bytes :
    (xs ys : List ℕ) → length xs ≤ length ys → length (xor_bytes xs ys) ≡ length xs
length-xor_bytes [] ys h = refl
length-xor_bytes (x ∷ xs) [] h = absurd (omega arith)
length-xor_bytes (x ∷ xs) (y ∷ ys) h = ap suc (length-xor_bytes xs ys (omega arith))

pub u8_xor_cancel : (x y : ℕ) → x < 256 → y < 256 → u8 (bit_xor (u8 (bit_xor x y)) y) ≡ x
u8_xor_cancel x y p q =
    let small : bit_xor x y < 2 ^ 8 = bit_xor-lt 8 x y (omega arith) (omega arith) in
    let inner : u8 (bit_xor x y) ≡ bit_xor x y = omega arith in
    rw inner (rw (bit_xor_cancel x y) (omega arith))

-- A key stream at least as long as the text is taken off by the same operation.
pub xor_bytes_cancel :
    (xs ys : List ℕ)
    → length xs ≤ length ys
    → IsBytes xs
    → IsBytes ys
    → xor_bytes (xor_bytes xs ys) ys ≡ xs
xor_bytes_cancel [] ys h p q = refl
xor_bytes_cancel (x ∷ xs) [] h p q = absurd (omega arith)
xor_bytes_cancel (x ∷ xs) (y ∷ ys) h p q =
    ap₂ ◌∷◌ (u8_xor_cancel x y p.0 q.0) (xor_bytes_cancel xs ys (omega arith) p.1 q.1)

u8_xor-eq-zero : (x y : ℕ) → x < 256 → y < 256 → u8 (bit_xor x y) ≡ 0 → x ≡ y
u8_xor-eq-zero x y p q h =
    bit_xor-eq-zero x y
      (let small = bit_xor-lt 8 x y (omega arith) (omega arith) in omega (arith, small))

-- A difference of 0 means that nothing differed, before the loop or in it.
pub diff_loop-zero :
    (n : ℕ) (a b : List ℕ) (diff : ℕ)
    → n ≤ length a
    → n ≤ length b
    → IsBytes a
    → IsBytes b
    → diff_loop n a b diff ≡ 0
    → (diff ≡ 0) × (take n a ≡ take n b)
diff_loop-zero zero a b diff p q ha hb h = (h, refl)
diff_loop-zero (suc n) [] b diff p q ha hb h = absurd (omega arith)
diff_loop-zero (suc n) (x ∷ a) [] diff p q ha hb h = absurd (omega arith)
diff_loop-zero (suc n) (x ∷ a) (y ∷ b) diff p q ha hb h =
    let rest =
      diff_loop-zero n a b (bit_or diff (u8 (bit_xor x y))) (omega arith) (omega arith) ha.1 hb.1
        h in
    let parts = bit_or-eq-zero diff (u8 (bit_xor x y)) rest.0 in
    (parts.0, ap₂ ◌∷◌ (u8_xor-eq-zero x y ha.0 hb.0 parts.1) rest.1)

pub diff_loop_self :
    (n : ℕ) (a b : List ℕ) → n ≤ length a → take n a ≡ take n b → diff_loop n a b 0 ≡ 0
diff_loop_self zero a b h e = refl
diff_loop_self (suc n) [] b h e = refl
diff_loop_self (suc n) (x ∷ a) [] h e = refl
diff_loop_self (suc n) (x ∷ a) (y ∷ b) h e =
    let heads : x ≡ y = cc in
    let tails : take n a ≡ take n b = cc in
    let same : u8 (bit_xor x y) ≡ 0 = rw heads (rw (bit_xor_self y)) in
    rw same (diff_loop_self n a b (omega arith) tails)

pub IsBytes-replicate : (n v : ℕ) → v < 256 → IsBytes (replicate n v)
IsBytes-replicate zero v h = tt
IsBytes-replicate (suc n) v h = (h, IsBytes-replicate n v h)

pub IsBytes-set : (xs : List ℕ) (i v : ℕ) → v < 256 → IsBytes xs → IsBytes (set xs i v)
IsBytes-set [] i v small h = tt
IsBytes-set (x ∷ xs) zero v small h = (small, h.1)
IsBytes-set (x ∷ xs) (suc i) v small h = (h.0, IsBytes-set xs i v small h.1)

pub IsBytes-write_at :
    (xs : List ℕ) (off : ℕ) (src : List ℕ)
    → IsBytes xs
    → IsBytes src
    → IsBytes (write_at xs off src)
IsBytes-write_at [] off src h k = tt
IsBytes-write_at (x ∷ xs) zero [] h k = h
IsBytes-write_at (x ∷ xs) zero (v ∷ src) h k = (k.0, IsBytes-write_at xs zero src h.1 k.1)
IsBytes-write_at (x ∷ xs) (suc off) src h k = (h.0, IsBytes-write_at xs off src h.1 k)
