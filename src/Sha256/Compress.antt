-- ===== src/Sha256/Compress.antt =====
-- `processBlock` of src/backends/SoftSha256.cpp against the hash computation of FIPS 180-4.
use arduino_nrf_crypto.Base.{
  ℕ, zero, suc, ◌+◌, ◌*◌, ◌%◌, ◌^◌, List, [], ◌∷◌, ◌++◌, ◌≡◌, refl, ap, ap₂, ◌∙◌, arith,
}
use arduino_nrf_crypto.Base.{bit_or, bit_or_onto, get_or, get_or-lt, tabulate, IsBytes}
use arduino_nrf_crypto.Base.{◌<<<◌}
use arduino_nrf_crypto.Sha256.{
  Regs, load_regs, k, load_word, next_word, extend, ror, round, rounds, process_block, store_words,
}
use arduino_nrf_crypto.Sha256.Standard.{
  message_word, schedule, standard_round, standard_rounds, compress, word_bytes,
}
use arduino_nrf_crypto.Stream.Standard.{big_endian_bytes}
use arduino_nrf_crypto.Sha256.Constants.{k-round_constants}

-- On bytes, a word of the block is its four bytes as a number.
load_word-message_word :
    (block : List ℕ) (t : ℕ) → IsBytes block → load_word block t ≡ message_word block t
unfolding load_word
load_word-message_word block t b =
    let x = λ (i : ℕ). get_or block (t * 4 + i) 0 in
    let h0 = get_or-lt block (t * 4 + 0) b in
    let h1 = get_or-lt block (t * 4 + 1) b in
    let h2 = get_or-lt block (t * 4 + 2) b in
    let h3 = get_or-lt block (t * 4 + 3) b in
    let n1 = x 0 * 2 ^ 8 + x 1 in
    let n2 = n1 * 2 ^ 8 + x 2 in
    let n3 = n2 * 2 ^ 8 + x 3 in
    let e1 : bit_or (x 0 <<< 24) (x 1 <<< 16) ≡ n1 * 2 ^ 16 =
      bit_or_onto 24 (x 0 * 2 ^ 24) (x 0) (x 1 * 2 ^ 16) refl (omega arith) ∙ omega arith in
    let e2 =
      ap (λ (m : ℕ). bit_or m (x 2 * 2 ^ 8)) e1
      ∙ bit_or_onto 16 (n1 * 2 ^ 16) n1 (x 2 * 2 ^ 8) refl (omega arith)
      ∙ same (n1 * 2 ^ 16 + x 2 * 2 ^ 8) (n2 * 2 ^ 8) (omega arith) in
    let e3 =
      ap (λ (m : ℕ). bit_or m (x 3)) e2 ∙ bit_or_onto 8 (n2 * 2 ^ 8) n2 (x 3) refl (omega arith) in
    zero_index ∙ e3 ∙ omega arith
  where
    same : (m n : ℕ) → m ≡ n → m ≡ n
    same m n e = e

    zero_index :
        bit_or
          (bit_or
            (bit_or (get_or block (t * 4) 0 * 2 ^ 24) (get_or block (t * 4 + 1) 0 * 2 ^ 16))
            (get_or block (t * 4 + 2) 0 * 2 ^ 8))
          (get_or block (t * 4 + 3) 0)
        ≡ bit_or
            (bit_or
              (bit_or (get_or block (t * 4 + 0) 0 * 2 ^ 24) (get_or block (t * 4 + 1) 0 * 2 ^ 16))
              (get_or block (t * 4 + 2) 0 * 2 ^ 8))
            (get_or block (t * 4 + 3) 0)
    zero_index =
        ap
          (λ (m : ℕ).
            bit_or
              (bit_or (bit_or (get_or block m 0 * 2 ^ 24) (get_or block (t * 4 + 1) 0 * 2 ^ 16))
                (get_or block (t * 4 + 2) 0 * 2 ^ 8))
              (get_or block (t * 4 + 3) 0))
          {x = t * 4} {y = t * 4 + 0} (omega arith)

round-standard_round : (kt wt : ℕ) (v : Regs) → round kt wt v ≡ standard_round kt wt v
unfolding round standard_round ror
round-standard_round kt wt v = refl

rounds-standard_rounds :
    (left t : ℕ) (w : List ℕ) (v : Regs) → rounds left t w v ≡ standard_rounds left t w v
unfolding rounds standard_rounds
rounds-standard_rounds zero t w v = refl
rounds-standard_rounds (suc left) t w v =
    rounds-standard_rounds left (t + 1) w (round (get_or k t 0) (get_or w t 0) v)
    ∙ ap (standard_rounds left (t + 1) w) (
        round-standard_round (get_or k t 0) (get_or w t 0) v
        ∙ ap (λ (c : List ℕ). standard_round (get_or c t 0) (get_or w t 0) v) k-round_constants)

extend-schedule : (left t : ℕ) (w : List ℕ) → extend left t w ≡ schedule left t w
unfolding extend schedule next_word ror
extend-schedule zero t w = refl
extend-schedule (suc left) t w =
    extend-schedule left (t + 1) (w ++ (next_word w t ∷ []))
    ∙ ap (λ (n : ℕ). schedule left (t + 1) (w ++ (n ∷ [])))
        (ap (λ (n : ℕ). n % 2 ^ 32) (omega arith))

words :
    (n t : ℕ) (block : List ℕ)
    → IsBytes block
    → tabulate n t (load_word block) ≡ tabulate n t (message_word block)
words zero t block b = refl
words (suc n) t block b =
    ap₂ (λ (x : ℕ) (l : List ℕ). x ∷ l) (load_word-message_word block t b) (words n (suc t) block b)

-- The hash value with the working variables added.
abbrev added : List ℕ → Regs → List ℕ
added hash v =
    ((get_or hash 0 0 + v.a) % 2 ^ 32)
    ∷ ((get_or hash 1 0 + v.b) % 2 ^ 32)
    ∷ ((get_or hash 2 0 + v.c) % 2 ^ 32)
    ∷ ((get_or hash 3 0 + v.d) % 2 ^ 32)
    ∷ ((get_or hash 4 0 + v.e) % 2 ^ 32)
    ∷ ((get_or hash 5 0 + v.f) % 2 ^ 32)
    ∷ ((get_or hash 6 0 + v.g) % 2 ^ 32)
    ∷ ((get_or hash 7 0 + v.h) % 2 ^ 32)
    ∷ []

-- On blocks of bytes, `processBlock` is the hash computation of FIPS 180-4.
pub process_block-compress :
    (hash block : List ℕ) → IsBytes block → process_block hash block ≡ compress hash block
unfolding process_block compress
process_block-compress hash block b =
    let start = load_regs hash in
    let first = tabulate 16 0 (load_word block) in
    let scheduled = extend-schedule 48 16 first ∙ ap (schedule 48 16) (words 16 0 block b) in
    ap (added hash) (
      rounds-standard_rounds 64 0 (extend 48 16 first) start
      ∙ ap (λ (w : List ℕ). standard_rounds 64 0 w start) scheduled)

-- The bytes put out are those of the words.
pub store_words-word_bytes : (ws : List ℕ) → store_words ws ≡ word_bytes ws
unfolding store_words word_bytes big_endian_bytes
store_words-word_bytes [] = refl
store_words-word_bytes (w ∷ ws) =
    cons (omega arith)
      (cons (omega arith) (cons (omega arith) (cons refl (store_words-word_bytes ws))))
  where
    cons : {x y : ℕ} {xs ys : List ℕ} → x ≡ y → xs ≡ ys → Path (List ℕ) (x ∷ xs) (y ∷ ys)
    cons e f = ap₂ (λ (n : ℕ) (l : List ℕ). n ∷ l) e f
