-- ===== src/AesGcm/Tests.antt =====
-- Test case 2 of the GCM submission to NIST, and a changed tag.
use arduino_nrf_crypto.Base.{ℕ, List, [], ◌∷◌, ◌≡◌, refl, some, bytes, null, replicate, true, false}
use arduino_nrf_crypto.Aes128.{
  encrypt_block, key_expansion, encrypt_state, encrypt_rounds, add_round_key,
}
use arduino_nrf_crypto.Aes128.{mix_columns, shift_rows, sub_bytes}
use arduino_nrf_crypto.AesGcm.{
  encrypt, decrypt, seal, open_sealed, compute_tag, ghash_padded, ghash_block,
}
use arduino_nrf_crypto.AesGcm.{len_block, make_j0, gctr}

abbrev zeros : ℕ → List ℕ
zeros n = replicate n 0

abbrev cipher : List ℕ
cipher =
    0x03 ∷ 0x88 ∷ 0xda ∷ 0xce ∷ 0x60 ∷ 0xb6 ∷ 0xa3 ∷ 0x92 ∷ 0xf3 ∷ 0x28 ∷ 0xc2 ∷ 0xb9 ∷ 0x71 ∷ 0xb2
    ∷ 0xfe ∷ 0x78 ∷ []

abbrev tag : List ℕ
tag =
    0xab ∷ 0x6e ∷ 0x47 ∷ 0xd4 ∷ 0x2c ∷ 0xec ∷ 0x13 ∷ 0xbd ∷ 0xf5 ∷ 0x3a ∷ 0x67 ∷ 0xb2 ∷ 0x12 ∷ 0x57
    ∷ 0xbd ∷ 0xdf ∷ []

encrypt-zeros :
    encrypt
      (some (zeros 16))
      (some (zeros 12))
      (null 0)
      (bytes (zeros 16))
      (some (zeros 16))
      (some (zeros 16))
    ≡ record { ok = true; out = some cipher; tag = some tag }
unfolding encrypt seal compute_tag ghash_padded ghash_block len_block make_j0 gctr encrypt_block
    key_expansion encrypt_state encrypt_rounds add_round_key mix_columns shift_rows sub_bytes
encrypt-zeros = refl

decrypt_forged :
    decrypt
      (some (zeros 16))
      (some (zeros 12))
      (null 0)
      (bytes cipher)
      (some (zeros 16))
      (some (zeros 16))
    ≡ record { ok = false; out = some (zeros 16); tag = some (zeros 16) }
unfolding decrypt open_sealed compute_tag ghash_padded ghash_block len_block make_j0 gctr
    encrypt_block key_expansion encrypt_state encrypt_rounds add_round_key mix_columns shift_rows
    sub_bytes
decrypt_forged = refl
