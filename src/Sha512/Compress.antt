-- ===== src/Sha512/Compress.antt =====
-- `processBlock` of src/backends/SoftSha512.cpp against the hash computation of FIPS 180-4.
use arduino_nrf_crypto.Base.{
  ℕ, zero, suc, ◌+◌, ◌*◌, ◌%◌, ◌^◌, List, [], ◌∷◌, ◌++◌, ◌≡◌, refl, ap, ap₂, ◌∙◌, arith,
}
use arduino_nrf_crypto.Base.{bit_or, bit_or_onto, get_or, get_or-lt, tabulate, IsBytes}
use arduino_nrf_crypto.Base.{◌<<<◌}
use arduino_nrf_crypto.Sha512.{
  Regs, load_regs, k, load_word, next_word, extend, ror, round, rounds, process_block, store_words,
}
use arduino_nrf_crypto.Sha512.Standard.{
  message_word, schedule, standard_round, standard_rounds, compress, word_bytes,
}
use arduino_nrf_crypto.Stream.Standard.{big_endian_bytes}
use arduino_nrf_crypto.Sha512.Constants.{k-round_constants}

-- On bytes, a word of the block is its eight bytes as a number.
load_word-message_word :
    (block : List ℕ) (t : ℕ) → IsBytes block → load_word block t ≡ message_word block t
unfolding load_word
load_word-message_word block t b =
    let x = λ (i : ℕ). get_or block (t * 8 + i) 0 in
    let h0 = get_or-lt block (t * 8 + 0) b in
    let h1 = get_or-lt block (t * 8 + 1) b in
    let h2 = get_or-lt block (t * 8 + 2) b in
    let h3 = get_or-lt block (t * 8 + 3) b in
    let h4 = get_or-lt block (t * 8 + 4) b in
    let h5 = get_or-lt block (t * 8 + 5) b in
    let h6 = get_or-lt block (t * 8 + 6) b in
    let h7 = get_or-lt block (t * 8 + 7) b in
    let n1 = x 0 * 2 ^ 8 + x 1 in
    let n2 = n1 * 2 ^ 8 + x 2 in
    let n3 = n2 * 2 ^ 8 + x 3 in
    let n4 = n3 * 2 ^ 8 + x 4 in
    let n5 = n4 * 2 ^ 8 + x 5 in
    let n6 = n5 * 2 ^ 8 + x 6 in
    let n7 = n6 * 2 ^ 8 + x 7 in
    let e1 : bit_or (x 0 <<< 56) (x 1 <<< 48) ≡ n1 * 2 ^ 48 =
      bit_or_onto 56 (x 0 * 2 ^ 56) (x 0) (x 1 * 2 ^ 48) refl (omega arith) ∙ omega arith in
    let e2 =
      ap (λ (m : ℕ). bit_or m (x 2 * 2 ^ 40)) e1
      ∙ bit_or_onto 48 (n1 * 2 ^ 48) n1 (x 2 * 2 ^ 40) refl (omega arith)
      ∙ same (n1 * 2 ^ 48 + x 2 * 2 ^ 40) (n2 * 2 ^ 40) (omega arith) in
    let e3 =
      ap (λ (m : ℕ). bit_or m (x 3 * 2 ^ 32)) e2
      ∙ bit_or_onto 40 (n2 * 2 ^ 40) n2 (x 3 * 2 ^ 32) refl (omega arith)
      ∙ same (n2 * 2 ^ 40 + x 3 * 2 ^ 32) (n3 * 2 ^ 32) (omega arith) in
    let e4 =
      ap (λ (m : ℕ). bit_or m (x 4 * 2 ^ 24)) e3
      ∙ bit_or_onto 32 (n3 * 2 ^ 32) n3 (x 4 * 2 ^ 24) refl (omega arith)
      ∙ same (n3 * 2 ^ 32 + x 4 * 2 ^ 24) (n4 * 2 ^ 24) (omega arith) in
    let e5 =
      ap (λ (m : ℕ). bit_or m (x 5 * 2 ^ 16)) e4
      ∙ bit_or_onto 24 (n4 * 2 ^ 24) n4 (x 5 * 2 ^ 16) refl (omega arith)
      ∙ same (n4 * 2 ^ 24 + x 5 * 2 ^ 16) (n5 * 2 ^ 16) (omega arith) in
    let e6 =
      ap (λ (m : ℕ). bit_or m (x 6 * 2 ^ 8)) e5
      ∙ bit_or_onto 16 (n5 * 2 ^ 16) n5 (x 6 * 2 ^ 8) refl (omega arith)
      ∙ same (n5 * 2 ^ 16 + x 6 * 2 ^ 8) (n6 * 2 ^ 8) (omega arith) in
    let e7 =
      ap (λ (m : ℕ). bit_or m (x 7)) e6
      ∙ bit_or_onto 8 (n6 * 2 ^ 8) n6 (x 7) refl (omega arith)
      ∙ same (n6 * 2 ^ 8 + x 7) n7 (omega arith) in
    e7 ∙ omega arith
  where
    same : (m n : ℕ) → m ≡ n → m ≡ n
    same m n e = e

round-standard_round : (kt wt : ℕ) (v : Regs) → round kt wt v ≡ standard_round kt wt v
unfolding round standard_round ror
round-standard_round kt wt v = refl

rounds-standard_rounds :
    (left t : ℕ) (w : List ℕ) (v : Regs) → rounds left t w v ≡ standard_rounds left t w v
unfolding rounds standard_rounds
rounds-standard_rounds zero t w v = refl
rounds-standard_rounds (suc left) t w v =
    rounds-standard_rounds left (t + 1) w (round (get_or k t 0) (get_or w t 0) v)
    ∙ ap (standard_rounds left (t + 1) w) (
        round-standard_round (get_or k t 0) (get_or w t 0) v
        ∙ ap (λ (c : List ℕ). standard_round (get_or c t 0) (get_or w t 0) v) k-round_constants)

extend-schedule : (left t : ℕ) (w : List ℕ) → extend left t w ≡ schedule left t w
unfolding extend schedule next_word ror
extend-schedule zero t w = refl
extend-schedule (suc left) t w =
    extend-schedule left (t + 1) (w ++ (next_word w t ∷ []))
    ∙ ap (λ (n : ℕ). schedule left (t + 1) (w ++ (n ∷ [])))
        (ap (λ (n : ℕ). n % 2 ^ 64) (omega arith))

words :
    (n t : ℕ) (block : List ℕ)
    → IsBytes block
    → tabulate n t (load_word block) ≡ tabulate n t (message_word block)
words zero t block b = refl
words (suc n) t block b =
    ap₂ (λ (x : ℕ) (l : List ℕ). x ∷ l) (load_word-message_word block t b) (words n (suc t) block b)

-- The hash value with the working variables added.
abbrev added : List ℕ → Regs → List ℕ
added hash v =
    ((get_or hash 0 0 + v.a) % 2 ^ 64)
    ∷ ((get_or hash 1 0 + v.b) % 2 ^ 64)
    ∷ ((get_or hash 2 0 + v.c) % 2 ^ 64)
    ∷ ((get_or hash 3 0 + v.d) % 2 ^ 64)
    ∷ ((get_or hash 4 0 + v.e) % 2 ^ 64)
    ∷ ((get_or hash 5 0 + v.f) % 2 ^ 64)
    ∷ ((get_or hash 6 0 + v.g) % 2 ^ 64)
    ∷ ((get_or hash 7 0 + v.h) % 2 ^ 64)
    ∷ []

-- On blocks of bytes, `processBlock` is the hash computation of FIPS 180-4.
pub process_block-compress :
    (hash block : List ℕ) → IsBytes block → process_block hash block ≡ compress hash block
unfolding process_block compress
process_block-compress hash block b =
    let start = load_regs hash in
    let first = tabulate 16 0 (load_word block) in
    let scheduled = extend-schedule 64 16 first ∙ ap (schedule 64 16) (words 16 0 block b) in
    ap (added hash) (
      rounds-standard_rounds 80 0 (extend 64 16 first) start
      ∙ ap (λ (w : List ℕ). standard_rounds 80 0 w start) scheduled)

-- The bytes put out are those of the words.
pub store_words-word_bytes : (ws : List ℕ) → store_words ws ≡ word_bytes ws
unfolding store_words word_bytes big_endian_bytes
store_words-word_bytes [] = refl
store_words-word_bytes (w ∷ ws) = cons (omega arith) (
    cons (omega arith) (
      cons (omega arith) (
        cons (omega arith) (
          cons (omega arith)
            (cons (omega arith) (cons (omega arith) (cons refl (store_words-word_bytes ws))))))))
  where
    cons : {x y : ℕ} {xs ys : List ℕ} → x ≡ y → xs ≡ ys → Path (List ℕ) (x ∷ xs) (y ∷ ys)
    cons e f = ap₂ (λ (n : ℕ) (l : List ℕ). n ∷ l) e f
