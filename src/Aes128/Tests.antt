-- ===== src/Aes128/Tests.antt =====
-- The example of FIPS 197, appendix C.1.
use arduino_nrf_crypto.Base.{ℕ, List, [], ◌∷◌, ◌≡◌, refl}
use arduino_nrf_crypto.Aes128.{
  encrypt_block, decrypt_block, key_expansion, encrypt_state, decrypt_state,
}
use arduino_nrf_crypto.Aes128.{
  rsbox_table, encrypt_rounds, decrypt_rounds, add_round_key, mix_columns,
}
use arduino_nrf_crypto.Aes128.{
  shift_rows, sub_bytes, inv_mix_columns, inv_shift_rows, inv_sub_bytes,
}

abbrev pub key : List ℕ
key =
    0x00 ∷ 0x01 ∷ 0x02 ∷ 0x03 ∷ 0x04 ∷ 0x05 ∷ 0x06 ∷ 0x07 ∷ 0x08 ∷ 0x09 ∷ 0x0a ∷ 0x0b ∷ 0x0c ∷ 0x0d
    ∷ 0x0e ∷ 0x0f ∷ []

abbrev pub plain : List ℕ
plain =
    0x00 ∷ 0x11 ∷ 0x22 ∷ 0x33 ∷ 0x44 ∷ 0x55 ∷ 0x66 ∷ 0x77 ∷ 0x88 ∷ 0x99 ∷ 0xaa ∷ 0xbb ∷ 0xcc ∷ 0xdd
    ∷ 0xee ∷ 0xff ∷ []

abbrev pub cipher : List ℕ
cipher =
    0x69 ∷ 0xc4 ∷ 0xe0 ∷ 0xd8 ∷ 0x6a ∷ 0x7b ∷ 0x04 ∷ 0x30 ∷ 0xd8 ∷ 0xcd ∷ 0xb7 ∷ 0x80 ∷ 0x70 ∷ 0xb4
    ∷ 0xc5 ∷ 0x5a ∷ []

encrypt_block-plain : encrypt_block key plain ≡ cipher
unfolding encrypt_block key_expansion encrypt_state encrypt_rounds add_round_key mix_columns
    shift_rows sub_bytes
encrypt_block-plain = refl

decrypt_block-cipher : decrypt_block key cipher ≡ plain
unfolding decrypt_block key_expansion decrypt_state rsbox_table decrypt_rounds add_round_key
    inv_mix_columns inv_shift_rows inv_sub_bytes
decrypt_block-cipher = refl
