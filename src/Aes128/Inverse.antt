-- ===== src/Aes128/Inverse.antt =====
-- The inverse cipher of src/backends/SoftAes128.cpp against the cipher.
use arduino_nrf_crypto.Base.{ℕ, zero, suc, ◌*◌, ◌≤◌, List, [], ◌∷◌, ◌≡◌, refl, ap, ◌∙◌}
use arduino_nrf_crypto.Base.{arith, length, drop, map, IsBytes, xor_bytes_cancel}
use arduino_nrf_crypto.Base.{length-drop, IsBytes-drop, length-map}
use arduino_nrf_crypto.Base.{take-all, get_or-lt, get_or, Bool, true, ltb, ◌&&◌}
use arduino_nrf_crypto.Aes128.{sbox, rsbox_table, sub_bytes, inv_sub_bytes, shift_rows}
use arduino_nrf_crypto.Aes128.{inv_shift_rows, mix_columns, inv_mix_columns, add_round_key}
use arduino_nrf_crypto.Aes128.{encrypt_rounds, decrypt_rounds, encrypt_state, decrypt_state}
use arduino_nrf_crypto.Aes128.{encrypt_block, decrypt_block, key_expansion, sbox_table}
use arduino_nrf_crypto.Aes128.Shape.{length-add_round_key, IsBytes-add_round_key}
use arduino_nrf_crypto.Aes128.Shape.{key_expansion_lem, length-shift_rows, encrypt_block_lem}
use arduino_nrf_crypto.Aes128.Layers.{inv_sub_bytes-sub_bytes, inv_shift_rows-shift_rows}
use arduino_nrf_crypto.Aes128.Columns.{length-mix_columns, IsBytes-mix_columns}
use arduino_nrf_crypto.Aes128.Columns.{inv_mix_columns-mix_columns}

-- 16 bytes.
abbrev pub IsState : List ℕ → Type 0
IsState s = (length s ≡ 16) × IsBytes s

abbrev all_below : ℕ → List ℕ → Bool
all_below n [] = true
all_below n (x ∷ xs) = ltb x n && all_below n xs

all_below-IsBytes : (xs : List ℕ) → all_below 256 xs ≡ true → IsBytes xs
all_below-IsBytes [] e = tt
all_below-IsBytes (x ∷ xs) e = let rest = all_below-IsBytes xs in ground (arith, rest)

sbox_table-IsBytes : IsBytes sbox_table
sbox_table-IsBytes = all_below-IsBytes sbox_table refl

IsBytes-sub_bytes : (s : List ℕ) → IsBytes (sub_bytes s)
unfolding sub_bytes sbox
IsBytes-sub_bytes [] = tt
IsBytes-sub_bytes (x ∷ s) = (get_or-lt sbox_table x sbox_table-IsBytes, IsBytes-sub_bytes s)

sub_bytes-IsState : (s : List ℕ) → length s ≡ 16 → IsState (sub_bytes s)
unfolding sub_bytes
sub_bytes-IsState s e = (length-map sbox s ∙ e, IsBytes-sub_bytes s)

-- The bytes of a state at given places.
IsBytes-get_or :
    (s : List ℕ) → IsBytes s → (places : List ℕ) → IsBytes (map (λ i. get_or s i 0) places)
IsBytes-get_or s b [] = tt
IsBytes-get_or s b (i ∷ places) = (get_or-lt s i b, IsBytes-get_or s b places)

IsBytes-shift_rows : (s : List ℕ) → IsBytes s → IsBytes (shift_rows s)
unfolding shift_rows
IsBytes-shift_rows s b =
    IsBytes-get_or s b (0 ∷ 5 ∷ 10 ∷ 15 ∷ 4 ∷ 9 ∷ 14 ∷ 3 ∷ 8 ∷ 13 ∷ 2 ∷ 7 ∷ 12 ∷ 1 ∷ 6 ∷ 11 ∷ [])

shift_rows-IsState : (s : List ℕ) → IsState s → IsState (shift_rows s)
shift_rows-IsState s h = (length-shift_rows s, IsBytes-shift_rows s h.1)

mix_columns-IsState : (s : List ℕ) → IsState s → IsState (mix_columns s)
mix_columns-IsState s h = (length-mix_columns s, IsBytes-mix_columns s h.1)

-- The inverse layers undo the layers of the last round, before its key.
inv_layers :
    (s : List ℕ)
    → IsState s
    → inv_sub_bytes rsbox_table (inv_shift_rows (shift_rows (sub_bytes s))) ≡ s
inv_layers s h =
    ap (inv_sub_bytes rsbox_table)
      (inv_shift_rows-shift_rows (sub_bytes s) (sub_bytes-IsState s h.0).0)
    ∙ inv_sub_bytes-sub_bytes s h.1

module _ (keys : List ℕ) (sized : length keys ≡ 176) (small : IsBytes keys) where
  add_round_key-IsState :
      (n : ℕ) → n ≤ 10 → (s : List ℕ) → IsState s → IsState (add_round_key keys n s)
  add_round_key-IsState n r s h =
      (length-add_round_key keys n s sized r h.0, IsBytes-add_round_key keys n s)

  add_round_key_cancel :
      (n : ℕ)
      → n ≤ 10
      → (s : List ℕ) → IsState s
      → add_round_key keys n (add_round_key keys n s) ≡ s
  unfolding add_round_key
  add_round_key_cancel n r s h =
      xor_bytes_cancel s (drop (n * 16) keys) (omega (arith, length-drop (n * 16) keys)) h.1
        (IsBytes-drop (n * 16) keys small)

  -- A round before its key.
  mixed-IsState : (s : List ℕ) → IsState s → IsState (mix_columns (shift_rows (sub_bytes s)))
  mixed-IsState s h =
      mix_columns-IsState (shift_rows (sub_bytes s))
        (shift_rows-IsState (sub_bytes s) (sub_bytes-IsState s h.0))

  encrypt_rounds-IsState :
      (n : ℕ) → n ≤ 9 → (s : List ℕ) → IsState s → IsState (encrypt_rounds keys n s)
  unfolding encrypt_rounds
  encrypt_rounds-IsState zero r s h = h
  encrypt_rounds-IsState (suc n) r s h =
      add_round_key-IsState (suc n) (omega arith)
        (mix_columns (shift_rows (sub_bytes (encrypt_rounds keys n s))))
        (mixed-IsState (encrypt_rounds keys n s) (encrypt_rounds-IsState n (omega arith) s h))

  -- A round of the inverse cipher undoes the round of the same key.
  inv_round :
      (n : ℕ)
      → n ≤ 10
      → (s : List ℕ) → IsState s
      → inv_mix_columns (
          add_round_key keys n (
            inv_sub_bytes rsbox_table (
              inv_shift_rows (
                shift_rows
                  (sub_bytes (add_round_key keys n (mix_columns (shift_rows (sub_bytes s)))))))))
        ≡ shift_rows (sub_bytes s)
  inv_round n r s h =
      let rows = shift_rows (sub_bytes s) in
      let rows_h = shift_rows-IsState (sub_bytes s) (sub_bytes-IsState s h.0) in
      ap (λ t. inv_mix_columns (add_round_key keys n t))
        (inv_layers (add_round_key keys n (mix_columns rows))
          (add_round_key-IsState n r (mix_columns rows) (mixed-IsState s h)))
      ∙ ap inv_mix_columns (add_round_key_cancel n r (mix_columns rows) (mixed-IsState s h))
      ∙ inv_mix_columns-mix_columns rows rows_h.0 rows_h.1

  decrypt_rounds-encrypt_rounds :
      (n : ℕ)
      → n ≤ 9
      → (s : List ℕ) → IsState s
      → decrypt_rounds rsbox_table keys n (shift_rows (sub_bytes (encrypt_rounds keys n s)))
        ≡ shift_rows (sub_bytes s)
  unfolding decrypt_rounds encrypt_rounds
  decrypt_rounds-encrypt_rounds zero r s h = refl
  decrypt_rounds-encrypt_rounds (suc n) r s h =
      ap (decrypt_rounds rsbox_table keys n) (
        inv_round (suc n) (omega arith) (encrypt_rounds keys n s)
          (encrypt_rounds-IsState n (omega arith) s h))
      ∙ decrypt_rounds-encrypt_rounds n (omega arith) s h

  pub decrypt_state-encrypt_state :
      (s : List ℕ) → IsState s → decrypt_state rsbox_table keys (encrypt_state keys s) ≡ s
  unfolding decrypt_state encrypt_state
  decrypt_state-encrypt_state s h =
      let start = add_round_key keys 0 s in
      let start_h = add_round_key-IsState 0 (omega arith) s h in
      let rows = sub_bytes (encrypt_rounds keys 9 start) in
      let rows_h = shift_rows-IsState rows (
        sub_bytes-IsState (encrypt_rounds keys 9 start)
          (encrypt_rounds-IsState 9 (omega arith) start start_h).0) in
      ap
        (λ t.
          add_round_key keys 0
            (inv_sub_bytes rsbox_table (inv_shift_rows (decrypt_rounds rsbox_table keys 9 t))))
        (add_round_key_cancel 10 (omega arith) (shift_rows rows) rows_h)
      ∙ ap (λ t. add_round_key keys 0 (inv_sub_bytes rsbox_table (inv_shift_rows t)))
          (decrypt_rounds-encrypt_rounds 9 (omega arith) start start_h)
      ∙ ap (add_round_key keys 0) (inv_layers start start_h)
      ∙ add_round_key_cancel 0 (omega arith) s h

-- For a key and a block of 16 bytes each, `decryptBlock` of `encryptBlock` gives back the block.
pub decrypt_block-encrypt_block :
    (key input : List ℕ)
    → length key ≡ 16
    → IsBytes key
    → length input ≡ 16
    → IsBytes input
    → decrypt_block key (encrypt_block key input) ≡ input
unfolding decrypt_block encrypt_block
decrypt_block-encrypt_block key input k kb e b =
    let keys = key_expansion key in
    let keys_h = key_expansion_lem key k kb in
    let out = encrypt_block key input in
    ap (decrypt_state rsbox_table keys)
      (take-all 16 out (omega (arith, (encrypt_block_lem key input k kb).0)))
    ∙ ap (λ t. decrypt_state rsbox_table keys (encrypt_state keys t))
        (take-all 16 input (omega arith))
    ∙ decrypt_state-encrypt_state keys keys_h.0 keys_h.1 input (e, b)
