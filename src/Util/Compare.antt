-- ===== src/Util/Compare.antt =====
-- `secureEqual` and `wipe` of src/crypto/CryptoUtil.cpp.
use arduino_nrf_crypto.Base.{ℕ, zero, suc, ◌≤◌, ◌<◌, ◌≡◌, refl, ap, ◌∙◌, ◌↔◌, true, some, List}
use arduino_nrf_crypto.Base.{[], ◌∷◌, ◌++◌, arith, length, take, drop, set, replicate, IsBytes}
use arduino_nrf_crypto.Base.{==_iff, diff_loop, diff_loop-zero, diff_loop_self}
use arduino_nrf_crypto.Util.{secure_equal, wipe, wipe_loop}

-- On two arrays of at least `len` bytes the answer is true exactly when the first `len` bytes agree.
pub secure_equal_iff :
    (a b : List ℕ) (len : ℕ)
    → len ≤ length a
    → len ≤ length b
    → IsBytes a
    → IsBytes b
    → (secure_equal (some a) (some b) len ≡ true) ↔ (take len a ≡ take len b)
unfolding secure_equal
secure_equal_iff a b len p q ha hb = (
  λ h. (diff_loop-zero len a b 0 p q ha hb ((==_iff (diff_loop len a b 0) 0).0 h)).1,
  λ e. (==_iff (diff_loop len a b 0) 0).1 (diff_loop_self len a b p e),
)

-- A write at the last index that the loop has left.
take-set : (n : ℕ) (buf : List ℕ) → n < length buf → drop n (set buf n 0) ≡ 0 ∷ drop (suc n) buf
take-set zero [] h = absurd (omega arith)
take-set zero (x ∷ buf) h = refl
take-set (suc n) [] h = absurd (omega arith)
take-set (suc n) (x ∷ buf) h = take-set n buf (omega arith)

replicate-cons : (n : ℕ) (xs : List ℕ) → replicate n 0 ++ (0 ∷ xs) ≡ replicate (suc n) 0 ++ xs
replicate-cons zero xs = refl
replicate-cons (suc n) xs = ap (λ t. 0 ∷ t) (replicate-cons n xs)

drop-set_self : (n : ℕ) (buf : List ℕ) → n < length buf → length (set buf n 0) ≡ length buf
drop-set_self zero [] h = refl
drop-set_self zero (x ∷ buf) h = refl
drop-set_self (suc n) [] h = refl
drop-set_self (suc n) (x ∷ buf) h = ap suc (drop-set_self n buf (omega arith))

wipe_loop_lem :
    (n : ℕ) (buf : List ℕ) → n ≤ length buf → wipe_loop n buf ≡ replicate n 0 ++ drop n buf
unfolding wipe_loop
wipe_loop_lem zero buf h = refl
wipe_loop_lem (suc n) buf h =
    wipe_loop_lem n (set buf n 0) (omega (arith, drop-set_self n buf (omega arith)))
    ∙ rw (take-set n buf (omega arith)) (replicate-cons n (drop (suc n) buf))

-- The first `len` bytes become 0 and the bytes behind them stay.
pub wipe_lem :
    (buf : List ℕ) (len : ℕ)
    → len ≤ length buf
    → wipe (some buf) len ≡ some (replicate len 0 ++ drop len buf)
unfolding wipe
wipe_lem buf len h = ap some (wipe_loop_lem len buf h)
