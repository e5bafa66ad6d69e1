-- ===== src/Engine/Served.antt =====
-- The calls of src/crypto/CryptoEngine.cpp on the backend of src/backends/OnChipBackend.cpp.
use arduino_nrf_crypto.Base.{ℕ, List, false, some, Slice, ◌≡◌, refl}
use arduino_nrf_crypto.Base.{ap, length, write_at, contents, Bool-cases, inl, inr}
use arduino_nrf_crypto.Stream.{Stream}
use arduino_nrf_crypto.Sha256.Digest
use arduino_nrf_crypto.Sha256.Hmac.{hmac_reference, IsReadable}
use arduino_nrf_crypto.Sha512.Digest as Long
use arduino_nrf_crypto.Types.{
  ok, unsupported, Capability, RsaKeyPair, RsaPrivateKeyImport, clear_key,
}
use arduino_nrf_crypto.Util.{is_missing}
use arduino_nrf_crypto.Backend.{reply, default_backend}
use arduino_nrf_crypto.OnChip.{Peripherals, Memory, Board, on_chip}
use arduino_nrf_crypto.Engine.{running, supports}
use arduino_nrf_crypto.Engine.Hash
use arduino_nrf_crypto.Engine.Curve
use arduino_nrf_crypto.Engine.Rsa
use arduino_nrf_crypto.Engine.Fallback.{readable-is_missing, hmac_sha256-software}

module _ {W : Type 0} (p : Peripherals W) (m : Memory) (d : Board W) where
  -- The engine's digests on OnChip are the reference digests, and its HMAC, which OnChip leaves to
  -- the engine's software, is the reference HMAC, for readable slices and whatever the stack held.
  pub digests_lem :
      (memory : Stream) (key input : Slice) (out : List ℕ)
      → length memory.buffer ≡ 64
      → length m.sha256.buffer ≡ 64
      → length m.sha512.stream.buffer ≡ 128
      → IsReadable key
      → IsReadable input
      → let e = running (on_chip p m) d in
        (Hash.sha256 e input (some out)
          ≡ reply ok (some (write_at out 0 (Digest.reference (contents input)))) d)
        × (Hash.sha384 e m.sha512 input (some out)
            ≡ reply ok (some (write_at out 0 (Long.reference Long.sha384 (contents input)))) d)
        × (Hash.sha512 e m.sha512 input (some out)
            ≡ reply ok (some (write_at out 0 (Long.reference Long.sha512 (contents input)))) d)
        × (Hash.hmac_sha256 e memory key input (some out)
            ≡ reply ok (some (write_at out 0 (hmac_reference (contents key) (contents input)))) d)
  unfolding Hash.sha256 Hash.sha384 Hash.sha512 on_chip default_backend
  digests_lem memory key input out h h256 h512 rk r = (
    rw (readable-is_missing input r) (
        ap (λ t. reply ok (some (write_at out 0 t)) d) (Digest.hash-reference m.sha256 input h256)),
    rw (readable-is_missing input r) (
        ap (λ t. reply ok (some (write_at out 0 t)) d)
          (Long.hash384-reference m.sha512 input h512)),
    rw (readable-is_missing input r) (
        ap (λ t. reply ok (some (write_at out 0 t)) d)
          (Long.hash512-reference m.sha512 input h512)),
    hmac_sha256-software (on_chip p m) d d memory key input out h rk r refl,
  )

  -- OnChip declares no public-key capability, and these public-key calls of the engine on it, with every
  -- pointer given and a message that is not missing, answer Unsupported and change nothing but that generating and importing a key pair
  -- clear its handle.
  pub public_key_unsupported :
      (a b c : List ℕ) (key : RsaKeyPair) (material : RsaPrivateKeyImport) (msg : Slice)
      → is_missing msg ≡ false
      → let e = running (on_chip p m) d in
        ((supports e Capability.ecdsa ≡ false)
          × (supports e Capability.ecdh ≡ false)
          × (supports e Capability.x25519 ≡ false)
          × (supports e Capability.ed25519 ≡ false)
          × (supports e Capability.rsa_pkcs1 ≡ false)
          × (supports e Capability.rsa_pss ≡ false))
        × (Curve.ecdsa_generate_key e (some a) (some b) ≡ reply unsupported (some a, some b) d)
        × (Curve.ecdsa_sign e (some a) (some b) (some c) ≡ reply unsupported (some c) d)
        × (Curve.ecdsa_verify e (some a) (some b) (some c) ≡ reply unsupported tt d)
        × (Curve.ecdh_shared e (some a) (some b) (some c) ≡ reply unsupported (some c) d)
        × (Curve.x25519_shared e (some a) (some b) (some c) ≡ reply unsupported (some c) d)
        × (Curve.ed25519_sign e (some a) msg (some c) ≡ reply unsupported (some c) d)
        × (Curve.ed25519_verify e (some a) msg (some c) ≡ reply unsupported tt d)
        × (Rsa.rsa_generate_key_pair e (some key) ≡ reply unsupported (some (clear_key key)) d)
        × (Rsa.rsa_import_key_pair e (some key) (some material)
            ≡ reply unsupported (some (clear_key key)) d)
        × (Rsa.rsa_pss_sign e (some key) msg (some c) ≡ reply unsupported (some c) d)
  unfolding Curve.ecdsa_generate_key Curve.ecdsa_sign Curve.ecdsa_verify Curve.ecdh_shared
      Curve.x25519_shared Curve.ed25519_sign Curve.ed25519_verify Rsa.rsa_generate_key_pair
      Rsa.rsa_import_key_pair Rsa.rsa_pss_sign on_chip default_backend
  public_key_unsupported a b c key material msg r = elim (Bool-cases d.started) [
    | inl up ↦ (
      (rw up refl, rw up refl, rw up refl, rw up refl, rw up refl, rw up refl),
      refl,
      refl,
      refl,
      refl,
      refl,
      rw r refl,
      rw r refl,
      refl,
      refl,
      refl,
    )
    | inr down ↦ (
      (rw down refl, rw down refl, rw down refl, rw down refl, rw down refl, rw down refl),
      refl,
      refl,
      refl,
      refl,
      refl,
      rw r refl,
      rw r refl,
      refl,
      refl,
      refl,
    )
  ]
