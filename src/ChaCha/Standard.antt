-- ===== src/ChaCha/Standard.antt =====
-- The ChaCha20 block function as RFC 8439, sections 2.1 to 2.3, defines it, against
-- src/backends/SoftChaChaPoly.cpp (`chachaBlock`).
use arduino_nrf_crypto.Base.{
  ℕ, zero, suc, ◌+◌, ◌-◌, ◌*◌, ◌/◌, ◌%◌, ◌^◌, List, [], ◌∷◌, ◌++◌, ◌≡◌, refl, ap, ap₂, ◌∙◌, arith,
}
use arduino_nrf_crypto.Base.{bit_or, bit_xor, get_or, set, tabulate, IsBytes}
use arduino_nrf_crypto.ChaCha.{
  rotl32, load32, quarter_round, double_round, double_rounds, initial_words, store_sums,
  chacha_block,
}
use arduino_nrf_crypto.Poly1305.Block.{word, load32-word}
use arduino_nrf_crypto.Poly1305.Store.{little_endian, cons}

-- A word rotated to the left.
abbrev pub rotate : ℕ → ℕ → ℕ
rotate n x = bit_or (x * 2 ^ n % 2 ^ 32) (x / 2 ^ (32 - n))

-- Section 2.1, on the words of the state at four indices.
unfoldable pub standard_quarter : ℕ → ℕ → ℕ → ℕ → List ℕ → List ℕ
standard_quarter x y z w s =
    let a = (get_or s x 0 + get_or s y 0) % 2 ^ 32 in
    let d = rotate 16 (bit_xor (get_or s w 0) a) in
    let c = (get_or s z 0 + d) % 2 ^ 32 in
    let b = rotate 12 (bit_xor (get_or s y 0) c) in
    let a' = (a + b) % 2 ^ 32 in
    let d' = rotate 8 (bit_xor d a') in
    let c' = (c + d') % 2 ^ 32 in
    let b' = rotate 7 (bit_xor b c') in set (set (set (set s x a') y b') z c') w d'

-- Section 2.3: four column rounds, then four diagonal rounds.
abbrev pub both_rounds : (ℕ → ℕ → ℕ → ℕ → List ℕ → List ℕ) → List ℕ → List ℕ
both_rounds quarter s = quarter 3 4 9 14 (
    quarter 2 7 8 13 (
      quarter 1 6 11 12 (
        quarter 0 5 10 15
          (quarter 3 7 11 15 (quarter 2 6 10 14 (quarter 1 5 9 13 (quarter 0 4 8 12 s)))))))

unfoldable pub standard_rounds : ℕ → List ℕ → List ℕ
standard_rounds zero s = s
standard_rounds (suc n) s = standard_rounds n (both_rounds standard_quarter s)

-- The text "expand 32-byte k", the key, the block count and the nonce, in little-endian words.
abbrev pub constant_text : List ℕ
constant_text =
    0x65 ∷ 0x78 ∷ 0x70 ∷ 0x61 ∷ 0x6e ∷ 0x64 ∷ 0x20 ∷ 0x33 ∷ 0x32 ∷ 0x2d ∷ 0x62 ∷ 0x79 ∷ 0x74 ∷ 0x65
    ∷ 0x20 ∷ 0x6b ∷ []

abbrev pub standard_state : List ℕ → List ℕ → ℕ → List ℕ
standard_state key nonce counter =
    tabulate 4 0 (λ i. word constant_text (i * 4))
    ++ (tabulate 8 0 (λ i. word key (i * 4)) ++ (counter ∷ tabulate 3 0 (λ i. word nonce (i * 4))))

-- The sums of the words of two states, each in four bytes.
unfoldable pub sums : List ℕ → List ℕ → List ℕ
sums [] ys = []
sums (x ∷ xs) [] = []
sums (x ∷ xs) (y ∷ ys) = little_endian 4 ((x + y) % 2 ^ 32) ++ sums xs ys

unfoldable pub standard_block : List ℕ → List ℕ → ℕ → List ℕ
standard_block key nonce counter =
    let s = standard_state key nonce counter in sums (standard_rounds 10 s) s

quarter_round-standard_quarter : quarter_round ≡ standard_quarter
unfolding quarter_round standard_quarter rotl32
quarter_round-standard_quarter = refl

double_rounds-standard_rounds : (n : ℕ) (s : List ℕ) → double_rounds n s ≡ standard_rounds n s
unfolding double_rounds double_round standard_rounds
double_rounds-standard_rounds zero s = refl
double_rounds-standard_rounds (suc n) s =
    double_rounds-standard_rounds n (both_rounds quarter_round s)
    ∙ ap (λ (q : ℕ → ℕ → ℕ → ℕ → List ℕ → List ℕ). standard_rounds n (both_rounds q s))
        quarter_round-standard_quarter

store_sums-sums : (xs ys : List ℕ) → store_sums xs ys ≡ sums xs ys
unfolding store_sums sums
store_sums-sums [] ys = refl
store_sums-sums (x ∷ xs) [] = refl
store_sums-sums (x ∷ xs) (y ∷ ys) =
    cons (omega arith)
      (cons (omega arith) (cons (omega arith) (cons (omega arith) (store_sums-sums xs ys))))

words :
    (n i : ℕ) (p : List ℕ)
    → IsBytes p
    → tabulate n i (λ j. load32 p (j * 4)) ≡ tabulate n i (λ j. word p (j * 4))
words zero i p b = refl
words (suc n) i p b = cons (load32-word p (i * 4) b) (words n (suc i) p b)

initial_words-standard_state :
    (key nonce : List ℕ) (counter : ℕ)
    → IsBytes key
    → IsBytes nonce
    → initial_words key nonce counter ≡ standard_state key nonce counter
unfolding initial_words
initial_words-standard_state key nonce counter bk bn =
    ap₂ (λ (k n : List ℕ). tabulate 4 0 (λ i. word constant_text (i * 4)) ++ (k ++ (counter ∷ n)))
      (words 8 0 key bk) (words 3 0 nonce bn)

-- For a key and a nonce of bytes, the code's block is the standard's.
pub chacha_block-standard_block :
    (key nonce : List ℕ) (counter : ℕ)
    → IsBytes key
    → IsBytes nonce
    → chacha_block key nonce counter ≡ standard_block key nonce counter
unfolding chacha_block standard_block
chacha_block-standard_block key nonce counter bk bn =
    let s = initial_words key nonce counter in
    store_sums-sums (double_rounds 10 s) s
    ∙ ap (λ (t : List ℕ). sums t s) (double_rounds-standard_rounds 10 s)
    ∙ ap (λ (t : List ℕ). sums (standard_rounds 10 t) t)
        (initial_words-standard_state key nonce counter bk bn)
