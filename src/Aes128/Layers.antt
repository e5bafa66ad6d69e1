-- ===== src/Aes128/Layers.antt =====
-- The byte and row layers of the cipher of src/backends/SoftAes128.cpp against their inverses.
use arduino_nrf_crypto.Base.{
  ℕ, zero, suc, ◌<◌, List, [], ◌∷◌, ◌≡◌, refl, sym, ap, ap₂, ◌∙◌, arith, length, get_or,
}
use arduino_nrf_crypto.Base.{IsBytes, Bool, true, ◌&&◌, ◌==◌, ==_iff, tabulate}
use arduino_nrf_crypto.Aes128.{sbox, rsbox_table, sub_bytes, inv_sub_bytes, shift_rows}
use arduino_nrf_crypto.Aes128.{inv_shift_rows}

-- A test that holds of every number below `n`.
abbrev pub every_below : (ℕ → Bool) → ℕ → Bool
every_below test zero = true
every_below test (suc n) = every_below test n && test n

pub every_below_sound :
    (test : ℕ → Bool) (n x : ℕ) → every_below test n ≡ true → x < n → test x ≡ true
every_below_sound test zero x all small = absurd (omega arith)
every_below_sound test (suc n) x all small = ground (arith, every_below_sound test n x)

-- Two functions that agree on every byte by evaluation.
pub same_bytes :
    (f g : ℕ → ℕ) → every_below (λ x. f x == g x) 256 ≡ true → (x : ℕ) → x < 256 → f x ≡ g x
same_bytes f g all x small =
    (==_iff (f x) (g x)).0 (every_below_sound (λ n. f n == g n) 256 x all small)

-- The table that `initRsbox` fills sends each entry of `sbox` back to its index.
sbox_table_inverse : every_below (λ x. get_or rsbox_table (sbox x) 0 == x) 256 ≡ true
unfolding sbox rsbox_table
sbox_table_inverse = refl

rsbox-sbox : (x : ℕ) → x < 256 → get_or rsbox_table (sbox x) 0 ≡ x
rsbox-sbox x small =
    same_bytes (λ n. get_or rsbox_table (sbox n) 0) (λ n. n) sbox_table_inverse x small

-- `invSubBytes`, with the table that `initRsbox` fills, undoes `subBytes` on bytes.
pub inv_sub_bytes-sub_bytes : (s : List ℕ) → IsBytes s → inv_sub_bytes rsbox_table (sub_bytes s) ≡ s
unfolding inv_sub_bytes sub_bytes
inv_sub_bytes-sub_bytes [] b = refl
inv_sub_bytes-sub_bytes (x ∷ s) b =
    ap₂ (λ y t. y ∷ t) (rsbox-sbox x b.0) (inv_sub_bytes-sub_bytes s b.1)

tabulate_later : (n i : ℕ) (f : ℕ → ℕ) → tabulate n (suc i) f ≡ tabulate n i (λ j. f (suc j))
tabulate_later zero i f = refl
tabulate_later (suc n) i f = ap (λ t. f (suc i) ∷ t) (tabulate_later n (suc i) f)

-- A list is the values at its indices.
pub tabulate-get_or : (s : List ℕ) → tabulate (length s) 0 (λ i. get_or s i 0) ≡ s
tabulate-get_or [] = refl
tabulate-get_or (x ∷ s) =
    ap (λ t. x ∷ t) (tabulate_later (length s) 0 (λ i. get_or (x ∷ s) i 0) ∙ tabulate-get_or s)

-- `invShiftRows` undoes `shiftRows` on 16 bytes.
pub inv_shift_rows-shift_rows : (s : List ℕ) → length s ≡ 16 → inv_shift_rows (shift_rows s) ≡ s
unfolding inv_shift_rows shift_rows
inv_shift_rows-shift_rows s sized =
    ap (λ n. tabulate n 0 (λ i. get_or s i 0)) (sym sized) ∙ tabulate-get_or s
