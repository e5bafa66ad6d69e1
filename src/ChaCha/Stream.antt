-- ===== src/ChaCha/Stream.antt =====
-- The key stream of ChaCha20 and the masking by it.
use arduino_nrf_crypto.Base.{ℕ, zero, suc, ◌+◌, ◌*◌, List, [], ◌∷◌, ◌++◌, ◌≡◌, refl, ap, ap₂, ◌∙◌}
use arduino_nrf_crypto.Base.{arith, length, take, drop, set, xor_bytes, IsBytes, length-set, u32}
use arduino_nrf_crypto.Keystream
use arduino_nrf_crypto.ChaCha.{
  quarter_round, double_round, double_rounds, initial_words, store_sums,
}
use arduino_nrf_crypto.ChaCha.{chacha_block, chacha_loop, chacha_xor}

length-quarter_round : (a b c d : ℕ) (s : List ℕ) → length (quarter_round a b c d s) ≡ length s
unfolding quarter_round
length-quarter_round a b c d s =
    length-set (set (set (set s a _) b _) c _) d _
    ∙ length-set (set (set s a _) b _) c _
    ∙ length-set (set s a _) b _
    ∙ length-set s a _

length-double_round : (s : List ℕ) → length (double_round s) ≡ length s
unfolding double_round
length-double_round s =
    let s1 = quarter_round 0 4 8 12 s in
    let s2 = quarter_round 1 5 9 13 s1 in
    let s3 = quarter_round 2 6 10 14 s2 in
    let s4 = quarter_round 3 7 11 15 s3 in
    let s5 = quarter_round 0 5 10 15 s4 in
    let s6 = quarter_round 1 6 11 12 s5 in
    let s7 = quarter_round 2 7 8 13 s6 in
    length-quarter_round 3 4 9 14 s7
    ∙ length-quarter_round 2 7 8 13 s6
    ∙ length-quarter_round 1 6 11 12 s5
    ∙ length-quarter_round 0 5 10 15 s4
    ∙ length-quarter_round 3 7 11 15 s3
    ∙ length-quarter_round 2 6 10 14 s2
    ∙ length-quarter_round 1 5 9 13 s1
    ∙ length-quarter_round 0 4 8 12 s

length-double_rounds : (n : ℕ) (s : List ℕ) → length (double_rounds n s) ≡ length s
unfolding double_rounds
length-double_rounds zero s = refl
length-double_rounds (suc n) s = length-double_rounds n (double_round s) ∙ length-double_round s

store_sums_lem :
    (xs state : List ℕ)
    → length xs ≡ length state
    → (length (store_sums xs state) ≡ length xs * 4) × IsBytes (store_sums xs state)
unfolding store_sums
store_sums_lem [] state e = (refl, tt)
store_sums_lem (x ∷ xs) [] e = absurd (omega arith)
store_sums_lem (x ∷ xs) (y ∷ state) e =
    let rest = store_sums_lem xs state (omega arith) in
    (omega (arith, rest.0), (omega arith, (omega arith, (omega arith, (omega arith, rest.1)))))

-- A block of the key stream is 64 bytes.
pub chacha_block_lem :
    (key nonce : List ℕ) (counter : ℕ)
    → (length (chacha_block key nonce counter) ≡ 64) × IsBytes (chacha_block key nonce counter)
unfolding chacha_block initial_words
chacha_block_lem key nonce counter =
    let state = initial_words key nonce counter in
    let sums = store_sums_lem (double_rounds 10 state) state (length-double_rounds 10 state) in
    (sums.0 ∙ ap (λ n. n * 4) (length-double_rounds 10 state), sums.1)

module _ (key nonce : List ℕ) where
  abbrev block : ℕ → List ℕ
  block c = chacha_block key nonce c

  abbrev next : ℕ → ℕ
  next c = u32 (c + 1)

  chacha_loop-run :
      (fuel counter : ℕ) (input : List ℕ)
      → chacha_loop fuel key nonce counter input ≡ Keystream.run 64 block next fuel counter input
  unfolding chacha_loop Keystream.run
  chacha_loop-run zero counter input = refl
  chacha_loop-run (suc fuel) counter [] = refl
  chacha_loop-run (suc fuel) counter (x ∷ input) =
      ap (λ t. xor_bytes (take 64 (x ∷ input)) (chacha_block key nonce counter) ++ t)
        (chacha_loop-run fuel (next counter) (drop 64 (x ∷ input)))

  pub length-chacha_xor :
      (counter : ℕ) (input : List ℕ) → length (chacha_xor key nonce counter input) ≡ length input
  unfolding chacha_xor
  length-chacha_xor counter input =
      ap length (chacha_loop-run (length input) counter input)
      ∙ Keystream.length-run 64 block next (omega arith) (λ c. (chacha_block_lem key nonce c).0)
          (length input) counter input (omega arith)

  -- Masking twice from the same counter gives the text back, at every length and across the wrap of
  -- the block counter.
  pub chacha_xor_cancel :
      (counter : ℕ) (input : List ℕ)
      → IsBytes input
      → chacha_xor key nonce counter (chacha_xor key nonce counter input) ≡ input
  chacha_xor_cancel counter input b =
      let out = chacha_xor key nonce counter input in
      let one : out ≡ Keystream.run 64 block next (length input) counter input =
        unfold chacha_xor in chacha_loop-run (length input) counter input in
      let two : chacha_xor key nonce counter out
          ≡ Keystream.run 64 block next (length out) counter out =
        unfold chacha_xor in chacha_loop-run (length out) counter out in
      two
      ∙ ap₂ (λ n t. Keystream.run 64 block next n counter t) (length-chacha_xor counter input) one
      ∙ Keystream.run_cancel 64 block next (omega arith) (λ c. (chacha_block_lem key nonce c).0)
          (λ c. (chacha_block_lem key nonce c).1) (length input) counter input (omega arith) b
