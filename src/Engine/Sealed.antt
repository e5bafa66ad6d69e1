-- ===== src/Engine/Sealed.antt =====
-- src/crypto/CryptoEngine.cpp: AES-GCM and ChaCha20-Poly1305; CryptoPackets.h: their packets.
use arduino_nrf_crypto.Base.{ℕ, List, not, some, Slice}
use arduino_nrf_crypto.Util.{is_missing}
use arduino_nrf_crypto.Backend.{Reply, Pointer}
use arduino_nrf_crypto.Engine.{Engine, guarded, checked, with_out, ◌>>=◌, ◌>>◌, require}
use arduino_nrf_crypto.Engine.Hash.{array}
use arduino_nrf_crypto.Engine.Cipher.{is_unbuffered}

-- `AesGcmMessage` and `ChaChaPolyMessage`, which have the same fields.
pub record SealedMessage : Type 0 where
  pub key : List ℕ
  pub iv : List ℕ
  pub aad : Slice
  pub input : Slice
  pub output : Pointer
  pub tag : List ℕ

module _ {D : Type 0} (e : Engine D) where
  unfoldable pub aes_gcm_encrypt :
      Pointer → Pointer → Slice → Slice → Pointer → Pointer → Reply D (Pointer × Pointer)
  aes_gcm_encrypt key iv aad input out tag =
      guarded e (out, tag)
        (λ b d.
          checked (out, tag) d
            (do k ← key; v ← iv; t ← tag; some (b.aes128_gcm_encrypt d k v aad input out t)))

  unfoldable pub aes_gcm_decrypt :
      Pointer → Pointer → Slice → Slice → Pointer → Pointer → Reply D Pointer
  aes_gcm_decrypt key iv aad input out tag = guarded e out (λ b d.
      checked out d
        (do k ← key; v ← iv; t ← tag; some (b.aes128_gcm_decrypt d k v aad input out t)))

  unfoldable pub aes_gcm_seal : SealedMessage → Reply D SealedMessage
  aes_gcm_seal msg = guarded e msg (λ b d. checked msg d (do
    require (not (is_unbuffered msg.input msg.output))
    require (not (is_missing msg.aad))
    some (
        with_out
          (aes_gcm_encrypt (some msg.key) (some msg.iv) msg.aad msg.input msg.output (some msg.tag))
          (λ o. record msg { output = o.0; tag = array o.1 msg.tag }))))

  unfoldable pub aes_gcm_open : SealedMessage → Reply D SealedMessage
  aes_gcm_open msg = guarded e msg (λ b d. checked msg d (do
    require (not (is_unbuffered msg.input msg.output))
    require (not (is_missing msg.aad))
    some (
        with_out
          (aes_gcm_decrypt (some msg.key) (some msg.iv) msg.aad msg.input msg.output (some msg.tag))
          (λ o. record msg { output = o }))))

  unfoldable pub chacha_poly_encrypt :
      Pointer → Pointer → Slice → Slice → Pointer → Pointer → Reply D (Pointer × Pointer)
  chacha_poly_encrypt key iv aad input out tag =
      guarded e (out, tag)
        (λ b d.
          checked (out, tag) d
            (do
              k ← key
              v ← iv
              t ← tag
              require (not (is_unbuffered input out))
              require (not (is_missing aad))
              some (b.chacha_poly_encrypt d k v aad input out t)))

  unfoldable pub chacha_poly_decrypt :
      Pointer → Pointer → Slice → Slice → Pointer → Pointer → Reply D Pointer
  chacha_poly_decrypt key iv aad input out tag = guarded e out (λ b d. checked out d (do
    k ← key
    v ← iv
    t ← tag
    require (not (is_unbuffered input out))
    require (not (is_missing aad))
    some (b.chacha_poly_decrypt d k v aad input out t)))

  unfoldable pub chacha_poly_seal : SealedMessage → Reply D SealedMessage
  chacha_poly_seal msg = guarded e msg (λ b d. checked msg d (do
    require (not (is_unbuffered msg.input msg.output))
    require (not (is_missing msg.aad))
    some (
        with_out
          (chacha_poly_encrypt (some msg.key) (some msg.iv) msg.aad msg.input msg.output
            (some msg.tag))
          (λ o. record msg { output = o.0; tag = array o.1 msg.tag }))))

  unfoldable pub chacha_poly_open : SealedMessage → Reply D SealedMessage
  chacha_poly_open msg = guarded e msg (λ b d. checked msg d (do
    require (not (is_unbuffered msg.input msg.output))
    require (not (is_missing msg.aad))
    some (
        with_out
          (chacha_poly_decrypt (some msg.key) (some msg.iv) msg.aad msg.input msg.output
            (some msg.tag))
          (λ o. record msg { output = o }))))
