-- ===== src/Examples/Sealing.antt =====
-- The engine's AEAD theorems, applied on the OnChip backend.
use arduino_nrf_crypto.Base.{
  ℕ, List, [], ◌≡◌, ◌≢◌, refl, bytes, null, arith, take, ◌==◌, get_or, ap,
}
use arduino_nrf_crypto.Base.{some, false}
use arduino_nrf_crypto.Types.{ok, auth_failed}
use arduino_nrf_crypto.Backend.{reply}
use arduino_nrf_crypto.Aes128.{
  encrypt_block, key_expansion, encrypt_state, encrypt_rounds, add_round_key,
}
use arduino_nrf_crypto.Aes128.{mix_columns, shift_rows, sub_bytes}
use arduino_nrf_crypto.AesGcm.{compute_tag, ghash_padded, ghash_block, len_block, make_j0}
use arduino_nrf_crypto.OnChip.{on_chip}
use arduino_nrf_crypto.Engine.{running}
use arduino_nrf_crypto.Engine.Sealed.{
  SealedMessage, aes_gcm_seal, aes_gcm_open, chacha_poly_seal, chacha_poly_open,
}
use arduino_nrf_crypto.Engine.Protected.{
  board, aes_gcm_open-aes_gcm_seal, chacha_poly_open-chacha_poly_seal,
}
use arduino_nrf_crypto.Engine.Protected.{aes_gcm_open-AuthFailed}
use arduino_nrf_crypto.Examples.{
  abc, abc-IsBytes, key, key-IsBytes, iv, room, tag, tag-IsBytes, memory, peripherals,
}

abbrev message : List ℕ → List ℕ → List ℕ → SealedMessage
message input output its_tag = record {
  key = key;
  iv = iv;
  aad = null 0;
  input = bytes input;
  output = some output;
  tag = its_tag;
}

aes_gcm_open-aes_gcm_seal_example :
    (c t out' : List ℕ) × (aes_gcm_seal
        (running (on_chip peripherals memory) (board peripherals memory 0))
        (message abc room tag)
      ≡ reply ok (message abc c t) (board peripherals memory 0))
    × (aes_gcm_open
          (running (on_chip peripherals memory) (board peripherals memory 0))
          (message (take 3 c) room t)
        ≡ reply ok (message (take 3 c) out' t) (board peripherals memory 0))
    × (take 3 out' ≡ abc)
aes_gcm_open-aes_gcm_seal_example =
    aes_gcm_open-aes_gcm_seal peripherals memory 0 key iv abc room room tag (null 0) refl
      key-IsBytes refl abc-IsBytes (omega arith) (omega arith) refl

chacha_poly_open-chacha_poly_seal_example :
    (c t out' : List ℕ) × (chacha_poly_seal
        (running (on_chip peripherals memory) (board peripherals memory 0))
        (message abc room tag)
      ≡ reply ok (message abc c t) (board peripherals memory 0))
    × (chacha_poly_open
          (running (on_chip peripherals memory) (board peripherals memory 0))
          (message (take 3 c) room t)
        ≡ reply ok (message (take 3 c) out' t) (board peripherals memory 0))
    × (take 3 out' ≡ abc)
chacha_poly_open-chacha_poly_seal_example =
    chacha_poly_open-chacha_poly_seal peripherals memory 0 key iv abc room room tag (null 0) refl
      abc-IsBytes (omega arith) (omega arith) refl refl (omega arith)

differ : (a b : ℕ) → (a == b) ≡ false → a ≢ b
differ a b h = ground arith

forged : take 16 tag ≢ compute_tag key iv [] abc
unfolding compute_tag ghash_padded ghash_block len_block make_j0 encrypt_block key_expansion
    encrypt_state encrypt_rounds add_round_key mix_columns shift_rows sub_bytes
forged e = differ 0xdd (get_or (compute_tag key iv [] abc) 0 0) refl (ap (λ l. get_or l 0 0) e)

aes_gcm_open-AuthFailed_example :
    aes_gcm_open
      (running (on_chip peripherals memory) (board peripherals memory 0))
      (message abc room tag)
    ≡ reply auth_failed (message abc room tag) (board peripherals memory 0)
aes_gcm_open-AuthFailed_example =
    aes_gcm_open-AuthFailed peripherals memory 0 key iv abc room tag (null 0) refl key-IsBytes refl
      (omega arith) tag-IsBytes forged
