-- ===== src/Examples/Ciphers.antt =====
-- The ciphers' theorems, applied.
use arduino_nrf_crypto.Aes128.{encrypt_block, decrypt_block}
use arduino_nrf_crypto.Aes128.Inverse.{decrypt_block-encrypt_block}
use arduino_nrf_crypto.OnChip.{aes128_cbc_encrypt, aes128_cbc_decrypt}
use arduino_nrf_crypto.OnChip.Cbc.{aes128_cbc_decrypt-aes128_cbc_encrypt}
use arduino_nrf_crypto.Base.{
  ℕ, ◌+◌, ◌%◌, ◌^◌, List, [], ◌≡◌, ◌↔◌, refl, bytes, null, arith, length, take,
}
use arduino_nrf_crypto.Base.{IsBytes-replicate, replicate, some, true, false}
use arduino_nrf_crypto.Stream.LengthBytes.{big_endian}
use arduino_nrf_crypto.AesGcm
use arduino_nrf_crypto.AesGcm.{compute_tag}
use arduino_nrf_crypto.AesGcm.RoundTrip.{gcm_decrypt-encrypt, gcm_decrypt-ok_iff}
use arduino_nrf_crypto.ChaChaPoly
use arduino_nrf_crypto.ChaChaPoly.RoundTrip.{chacha_poly_decrypt-encrypt, oversized}
use arduino_nrf_crypto.ChaChaPoly.Standard.{
  standard_tag, one_time_key, chacha_poly_decrypt-standard_tag,
}
use arduino_nrf_crypto.Poly1305.{auth}
use arduino_nrf_crypto.Poly1305.Store.{little_endian}
use arduino_nrf_crypto.Poly1305.Tag.{tag_number, auth-polynomial}
use arduino_nrf_crypto.Types.{ok}
use arduino_nrf_crypto.OnChip.{increment_counter, Board, aes128_ctr}
use arduino_nrf_crypto.OnChip.Counter.{increment_counter_lem}
use arduino_nrf_crypto.OnChip.Ctr.{aes128_ctr_cancel}
use arduino_nrf_crypto.Examples.{abc, abc-IsBytes, key, key-IsBytes, iv, room, tag, tag-IsBytes}
use arduino_nrf_crypto.Examples.{peripherals, peripherals-Encrypts, memory}

gcm_decrypt-encrypt_example :
    (c t out' : List ℕ) × (AesGcm.encrypt
        (some key)
        (some iv)
        (null 0)
        (bytes abc)
        (some room)
        (some tag)
      ≡ record { ok = true; out = some c; tag = some t })
    × (AesGcm.decrypt
          (some key)
          (some iv)
          (null 0)
          (bytes (take (length abc) c))
          (some room)
          (some t)
        ≡ record { ok = true; out = some out'; tag = some t })
    × (take (length abc) out' ≡ abc)
gcm_decrypt-encrypt_example =
    gcm_decrypt-encrypt key refl key-IsBytes iv abc room room tag (null 0) abc-IsBytes (omega arith)
      (omega arith) refl

gcm_decrypt-ok_iff_example :
    (((AesGcm.decrypt (some key) (some iv) (null 0) (bytes abc) (some room) (some tag)).ok ≡ true)
      ↔ (take 16 tag ≡ compute_tag key iv [] abc))
    × ((AesGcm.decrypt (some key) (some iv) (null 0) (bytes abc) (some room) (some tag)).ok ≡ false
        → (AesGcm.decrypt (some key) (some iv) (null 0) (bytes abc) (some room) (some tag)).out
          ≡ some room)
gcm_decrypt-ok_iff_example =
    gcm_decrypt-ok_iff key refl key-IsBytes iv abc room tag (null 0) (omega arith) tag-IsBytes

chacha_poly_decrypt-encrypt_example :
    (c t out' : List ℕ) × (ChaChaPoly.encrypt
        (some (replicate 32 5))
        (some iv)
        (null 0)
        (bytes abc)
        (some room)
        (some tag)
      ≡ record { ok = true; out = some c; tag = some t })
    × (ChaChaPoly.decrypt tag
          (some (replicate 32 5))
          (some iv)
          (null 0)
          (bytes (take (length abc) c))
          (some room)
          (some t)
        ≡ record { ok = true; out = some out'; tag = some t })
    × (take (length abc) out' ≡ abc)
chacha_poly_decrypt-encrypt_example =
    chacha_poly_decrypt-encrypt (replicate 32 5) iv tag abc room room tag (null 0) abc-IsBytes
      (omega arith) (omega arith) refl refl (omega arith)

abbrev long_key : List ℕ
long_key = replicate 32 5

chacha_poly_decrypt-standard_tag_example :
    (((ChaChaPoly.decrypt tag
          (some long_key)
          (some iv)
          (null 0)
          (bytes abc)
          (some room)
          (some tag)).ok
        ≡ true)
      ↔ (take 16 tag ≡ standard_tag (one_time_key long_key iv) [] abc))
    × ((ChaChaPoly.decrypt tag
            (some long_key)
            (some iv)
            (null 0)
            (bytes abc)
            (some room)
            (some tag)).ok
          ≡ false
        → (ChaChaPoly.decrypt tag
            (some long_key)
            (some iv)
            (null 0)
            (bytes abc)
            (some room)
            (some tag)).out
          ≡ some room)
chacha_poly_decrypt-standard_tag_example =
    chacha_poly_decrypt-standard_tag long_key iv tag abc room tag (null 0)
      (IsBytes-replicate 32 5 (omega arith)) (IsBytes-replicate 12 9 (omega arith)) refl
      (omega arith) tag-IsBytes tt abc-IsBytes (omega arith)

abbrev long : List ℕ
long = replicate 500 2

oversized_example :
    ((ChaChaPoly.encrypt (some key) (some iv) (null 0) (bytes long) (some long) (some tag)).ok
      ≡ true)
    × ((ChaChaPoly.encrypt (some key) (some iv) (null 0) (bytes long) (some long) (some tag)).tag
        ≡ some tag)
    × (((ChaChaPoly.decrypt tag
            (some key)
            (some iv)
            (null 0)
            (bytes long)
            (some long)
            (some tag)).ok
          ≡ true)
        ↔ (take 16 tag ≡ take 16 tag))
oversized_example =
    oversized key iv tag long long tag (null 0) (omega arith) (omega arith) (omega arith)
      (omega arith) tag-IsBytes tag-IsBytes

increment_counter_lem_example :
    (length (increment_counter tag) ≡ 16)
    × (big_endian (increment_counter tag) ≡ (big_endian tag + 1) % 2 ^ 128)
increment_counter_lem_example = increment_counter_lem tag refl tag-IsBytes

abbrev board : Board ℕ
board = record { hardware = 0; started = true }

aes128_ctr_cancel_example :
    (c back : List ℕ) × ((aes128_ctr peripherals memory board key tag abc room).status ≡ ok)
    × ((aes128_ctr peripherals memory board key tag abc room).out ≡ some c)
    × ((aes128_ctr peripherals memory board key tag (take (length abc) c) room).status ≡ ok)
    × ((aes128_ctr peripherals memory board key tag (take (length abc) c) room).out ≡ some back)
    × (take (length abc) back ≡ abc)
aes128_ctr_cancel_example =
    aes128_ctr_cancel peripherals memory peripherals-Encrypts key refl key-IsBytes board board tag
      abc room room refl abc-IsBytes (omega arith) (omega arith)

decrypt_block-encrypt_block_example : decrypt_block key (encrypt_block key tag) ≡ tag
decrypt_block-encrypt_block_example =
    decrypt_block-encrypt_block key tag refl key-IsBytes refl tag-IsBytes

aes128_cbc_decrypt-aes128_cbc_encrypt_example :
    (c back : List ℕ) × ((aes128_cbc_encrypt peripherals memory board key tag key tag).status ≡ ok)
    × ((aes128_cbc_encrypt peripherals memory board key tag key tag).out ≡ some c)
    × ((aes128_cbc_decrypt peripherals memory board key tag (take 16 c) tag).status ≡ ok)
    × ((aes128_cbc_decrypt peripherals memory board key tag (take 16 c) tag).out ≡ some back)
    × (take 16 back ≡ key)
aes128_cbc_decrypt-aes128_cbc_encrypt_example =
    aes128_cbc_decrypt-aes128_cbc_encrypt peripherals memory peripherals-Encrypts key refl
      key-IsBytes board board 1 tag key tag tag refl tag-IsBytes refl key-IsBytes (omega arith)
      (omega arith)

auth-polynomial_example :
    auth (replicate 20 200) (replicate 32 5)
    ≡ little_endian 16 (tag_number (replicate 20 200) (replicate 32 5))
auth-polynomial_example =
    auth-polynomial (replicate 20 200) (replicate 32 5) (IsBytes-replicate 20 200 (omega arith))
      (IsBytes-replicate 32 5 (omega arith))
