-- ===== src/Aes128/Shape.antt =====
-- The sizes of AES states and keys (src/backends/SoftAes128.cpp).
use arduino_nrf_crypto.Base.{ℕ, zero, suc, ◌+◌, ◌-◌, ◌*◌, ◌%◌, ◌≤◌, List, ◌++◌, ◌≡◌, refl}
use arduino_nrf_crypto.Base.{◌∙◌, arith, length, take, drop, xor_bytes, IsBytes, length-append}
use arduino_nrf_crypto.Base.{
  length-take, length-drop, length-xor_bytes, IsBytes-xor_bytes, IsBytes-append,
}
use arduino_nrf_crypto.Base.{IsBytes-take, ◌==◌, Bool-cases, inl, inr}
use arduino_nrf_crypto.Aes128.{
  schedule_word, expand_words, key_expansion, add_round_key, shift_rows,
}
use arduino_nrf_crypto.Aes128.{encrypt_state, encrypt_block, sub_bytes, encrypt_rounds}

length-schedule_word : (keys : List ℕ) (i : ℕ) → length (schedule_word keys i) ≡ 4
unfolding schedule_word
length-schedule_word keys i = elim (Bool-cases (i % 4 == 0)) [
  | inl e ↦ rw e refl
  | inr e ↦ rw e refl
]

expand_words_lem :
    (left i : ℕ) (keys : List ℕ)
    → 4 ≤ i
    → length keys ≡ i * 4
    → IsBytes keys
    → (length (expand_words left i keys) ≡ (i + left) * 4) × IsBytes (expand_words left i keys)
unfolding expand_words
expand_words_lem zero i keys h e b = (omega arith, b)
expand_words_lem (suc left) i keys h e b =
    let from = (i - 4) * 4 in
    let old = take 4 (drop from keys) in
    let size : length old ≡ 4 =
      omega (arith, length-take 4 (drop from keys), length-drop from keys) in
    let word = xor_bytes old (schedule_word keys i) in
    let more =
      length-xor_bytes old (schedule_word keys i) (omega (arith, length-schedule_word keys i)) in
    let rest =
      expand_words_lem left (i + 1) (keys ++ word) (omega arith)
        (omega (arith, length-append keys word))
        (IsBytes-append keys word b (IsBytes-xor_bytes old (schedule_word keys i))) in
    (rest.0 ∙ omega arith, rest.1)

-- The key schedule has a key of 16 bytes for each of the eleven rounds.
pub key_expansion_lem :
    (key : List ℕ)
    → length key ≡ 16
    → IsBytes key
    → (length (key_expansion key) ≡ 176) × IsBytes (key_expansion key)
unfolding key_expansion
key_expansion_lem key e b =
    expand_words_lem 40 4 (take 16 key) (omega arith) (omega (arith, length-take 16 key))
      (IsBytes-take 16 key b)

pub length-add_round_key :
    (keys : List ℕ) (round : ℕ) (s : List ℕ)
    → length keys ≡ 176
    → round ≤ 10
    → length s ≡ 16
    → length (add_round_key keys round s) ≡ 16
unfolding add_round_key
length-add_round_key keys round s k r e =
    length-xor_bytes s (drop (round * 16) keys) (omega (arith, length-drop (round * 16) keys)) ∙ e

pub IsBytes-add_round_key :
    (keys : List ℕ) (round : ℕ) (s : List ℕ) → IsBytes (add_round_key keys round s)
unfolding add_round_key
IsBytes-add_round_key keys round s = IsBytes-xor_bytes s (drop (round * 16) keys)

pub length-shift_rows : (s : List ℕ) → length (shift_rows s) ≡ 16
unfolding shift_rows
length-shift_rows s = refl

-- A block of the cipher is 16 bytes.
pub encrypt_block_lem :
    (key input : List ℕ)
    → length key ≡ 16
    → IsBytes key
    → (length (encrypt_block key input) ≡ 16) × IsBytes (encrypt_block key input)
unfolding encrypt_block encrypt_state
encrypt_block_lem key input e b =
    let keys = key_expansion key in
    let last =
      shift_rows (sub_bytes (encrypt_rounds keys 9 (add_round_key keys 0 (take 16 input)))) in
    (
      length-add_round_key keys 10 last (key_expansion_lem key e b).0 (omega arith) (
          length-shift_rows
            (sub_bytes (encrypt_rounds keys 9 (add_round_key keys 0 (take 16 input))))),
      IsBytes-add_round_key keys 10 last,
    )
