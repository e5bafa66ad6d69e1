-- ===== src/Engine/Cipher.antt =====
-- src/crypto/CryptoEngine.cpp: AES-CBC and AES-CTR; CryptoPackets.h: their packets.
use arduino_nrf_crypto.Base.{
  ℕ, ◌%◌, List, Bool, not, ◌&&◌, ◌||◌, some, Slice, slice_len, length, bit_and,
}
use arduino_nrf_crypto.Base.{◌==◌}
use arduino_nrf_crypto.Aead.{is_null, is_null_slice}
use arduino_nrf_crypto.Backend.{Reply, Pointer}
use arduino_nrf_crypto.Engine.{Engine, guarded, checked, with_out, ◌>>=◌, ◌>>◌, require, not_null}

-- `AesCbcMessage` and `AesCtrMessage`, which have the same fields.
pub record BlockMessage : Type 0 where
  pub key : List ℕ
  pub iv : List ℕ
  pub input : Slice
  pub output : Pointer

-- `inputLen != 0 && (input == nullptr || output == nullptr)`
abbrev pub is_unbuffered : Slice → Pointer → Bool
is_unbuffered input output = not (slice_len input == 0) && (is_null_slice input || is_null output)

module _ {D : Type 0} (e : Engine D) where
  unfoldable pub aes_cbc_encrypt : Pointer → Pointer → Slice → Pointer → Reply D Pointer
  aes_cbc_encrypt key iv input out = guarded e out (λ b d. checked out d (do
    k ← key
    v ← iv
    l ← not_null input
    p ← out
    require (bit_and (length l) 0xf == 0)
    some (b.aes128_cbc_encrypt d k v l p)))

  unfoldable pub aes_cbc_decrypt : Pointer → Pointer → Slice → Pointer → Reply D Pointer
  aes_cbc_decrypt key iv input out = guarded e out (λ b d. checked out d (do
    k ← key
    v ← iv
    l ← not_null input
    p ← out
    require (bit_and (length l) 0xf == 0)
    some (b.aes128_cbc_decrypt d k v l p)))

  unfoldable pub aes_ctr : Pointer → Pointer → Slice → Pointer → Reply D Pointer
  aes_ctr key iv input out = guarded e out (λ b d.
      checked out d
        (do k ← key; v ← iv; l ← not_null input; p ← out; some (b.aes128_ctr d k v l p)))

  unfoldable pub aes_cbc_seal : BlockMessage → Reply D BlockMessage
  aes_cbc_seal msg = guarded e msg (λ b d. checked msg d (do
    require (not (is_unbuffered msg.input msg.output))
    require (slice_len msg.input % 16 == 0)
    some (
        with_out (aes_cbc_encrypt (some msg.key) (some msg.iv) msg.input msg.output)
          (λ o. record msg { output = o }))))

  unfoldable pub aes_cbc_open : BlockMessage → Reply D BlockMessage
  aes_cbc_open msg = guarded e msg (λ b d. checked msg d (do
    require (not (is_unbuffered msg.input msg.output))
    require (slice_len msg.input % 16 == 0)
    some (
        with_out (aes_cbc_decrypt (some msg.key) (some msg.iv) msg.input msg.output)
          (λ o. record msg { output = o }))))

  unfoldable pub aes_ctr_transform : BlockMessage → Reply D BlockMessage
  aes_ctr_transform msg = guarded e msg (λ b d. checked msg d (do
    require (not (is_unbuffered msg.input msg.output))
    some (
        with_out (aes_ctr (some msg.key) (some msg.iv) msg.input msg.output)
          (λ o. record msg { output = o }))))
