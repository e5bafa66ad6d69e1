-- ===== src/Engine/Hash.antt =====
-- src/crypto/CryptoEngine.cpp: random bytes, digests, HMAC and HKDF; CryptoPackets.h: their packets.
use arduino_nrf_crypto.Base.{ℕ, List, not, some, Slice, length, write_at, ◌==◌, none}
use arduino_nrf_crypto.Stream.{Stream}
use arduino_nrf_crypto.Sha256
use arduino_nrf_crypto.Sha512
use arduino_nrf_crypto.Hkdf
use arduino_nrf_crypto.Util.{is_missing}
use arduino_nrf_crypto.Backend.{Reply, Pointer}
use arduino_nrf_crypto.Engine.{
  Engine, guarded, checked, or_software, with_out, ◌>>=◌, ◌>>◌, require,
}

pub record DigestMessage : Type 0 where
  pub payload : Slice
  pub digest : List ℕ

pub record HmacMessage : Type 0 where
  pub key : Slice
  pub message : Slice
  pub mac : List ℕ

pub record HkdfMessage : Type 0 where
  pub ikm : Slice
  pub salt : Slice
  pub info : Slice
  pub okm : Pointer

-- An array of a message, after a call that was given its address.
abbrev pub array : Pointer → List ℕ → List ℕ
array none old = old
array (some p) old = p

module _ {D : Type 0} (e : Engine D) where
  unfoldable pub random : Pointer → Reply D Pointer
  random buf =
      guarded e buf (λ b d.
        checked buf d (do p ← buf; require (not (length p == 0)); some (b.random_bytes d p)))

  unfoldable pub sha256 : Slice → Pointer → Reply D Pointer
  sha256 input out = guarded e out (λ b d.
      checked out d (do p ← out; require (not (is_missing input)); some (b.sha256 d input p)))

  unfoldable pub sha256_message : DigestMessage → Reply D DigestMessage
  sha256_message msg =
      with_out (sha256 msg.payload (some msg.digest))
        (λ o. record msg { digest = array o msg.digest })

  module _ (memory : Stream) where
    unfoldable pub hkdf_sha256 : Slice → Slice → Slice → Pointer → Reply D Pointer
    hkdf_sha256 ikm salt info okm = guarded e okm (λ b d. checked okm d (do
      p ← okm
      require (not (length p == 0))
      require (not (is_missing ikm))
      require (not (is_missing salt))
      require (not (is_missing info))
      some (
          or_software (b.hkdf_sha256 d ikm salt info p)
            (λ q. Hkdf.hkdf_sha256 memory ikm salt info q))))

    unfoldable pub hmac_sha256 : Slice → Slice → Pointer → Reply D Pointer
    hmac_sha256 key msg out = guarded e out (λ b d. checked out d (do
      p ← out
      require (not (is_missing key))
      require (not (is_missing msg))
      some (
          or_software (b.hmac_sha256 d key msg p)
            (λ q. write_at q 0 (Sha256.hmac_sha256 memory key msg)))))

    unfoldable pub hkdf_message : HkdfMessage → Reply D HkdfMessage
    hkdf_message msg =
        with_out (hkdf_sha256 msg.ikm msg.salt msg.info msg.okm) (λ o. record msg { okm = o })

    unfoldable pub hmac_message : HmacMessage → Reply D HmacMessage
    hmac_message msg =
        with_out (hmac_sha256 msg.key msg.message (some msg.mac))
          (λ o. record msg { mac = array o msg.mac })

  module _ (memory : Sha512.Hasher) where
    unfoldable pub sha384 : Slice → Pointer → Reply D Pointer
    sha384 input out = guarded e out (λ b d. checked out d (do
      p ← out
      require (not (is_missing input))
      some (or_software (b.sha384 d input p) (λ q. write_at q 0 (Sha512.hash384 memory input)))))

    unfoldable pub sha512 : Slice → Pointer → Reply D Pointer
    sha512 input out = guarded e out (λ b d. checked out d (do
      p ← out
      require (not (is_missing input))
      some (or_software (b.sha512 d input p) (λ q. write_at q 0 (Sha512.hash512 memory input)))))

    unfoldable pub sha384_message : DigestMessage → Reply D DigestMessage
    sha384_message msg =
        with_out (sha384 msg.payload (some msg.digest))
          (λ o. record msg { digest = array o msg.digest })

    unfoldable pub sha512_message : DigestMessage → Reply D DigestMessage
    sha512_message msg =
        with_out (sha512 msg.payload (some msg.digest))
          (λ o. record msg { digest = array o msg.digest })
