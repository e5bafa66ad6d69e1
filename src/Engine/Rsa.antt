-- ===== src/Engine/Rsa.antt =====
-- src/crypto/CryptoEngine.cpp: the RSA calls, whose key pairs are handles of slots in the backend.
--
-- A key pair or a public key behind a pointer is none if the pointer is null.
use arduino_nrf_crypto.Base.{not, some, Option, Slice, ◌==◌}
use arduino_nrf_crypto.Util.{is_missing}
use arduino_nrf_crypto.Types.{
  RsaKeyPair, RsaPublicKey, RsaPrivateKeyImport, is_valid_key, clear_key,
}
use arduino_nrf_crypto.Backend.{Reply, Pointer}
use arduino_nrf_crypto.Engine.{Engine, guarded, checked, with_out, ◌>>=◌, ◌>>◌, require}

module _ {D : Type 0} (e : Engine D) where
  unfoldable pub rsa_generate_key_pair : Option RsaKeyPair → Reply D (Option RsaKeyPair)
  rsa_generate_key_pair key = guarded e key (λ b d.
      checked key d
        (do k ← key; some (with_out (b.rsa_generate_key_pair d (clear_key k)) (λ o. some o))))

  unfoldable pub rsa_sign_with_key_pair : Option RsaKeyPair → Slice → Pointer → Reply D Pointer
  rsa_sign_with_key_pair key msg sig = guarded e sig (λ b d. checked sig d (do
    k ← key
    require (is_valid_key k)
    s ← sig
    require (not (is_missing msg))
    some (b.rsa_sign_with_key_pair d k msg s)))

  unfoldable pub rsa_verify_with_key_pair : Option RsaKeyPair → Slice → Pointer → Reply D (Unit {0})
  rsa_verify_with_key_pair key msg sig = guarded e tt (λ b d. checked tt d (do
    k ← key
    require (is_valid_key k)
    s ← sig
    require (not (is_missing msg))
    some (b.rsa_verify_with_key_pair d k msg s)))

  unfoldable pub rsa_verify_with_public_key :
      Option RsaPublicKey → Slice → Pointer → Reply D (Unit {0})
  rsa_verify_with_public_key public msg sig = guarded e tt (λ b d. checked tt d (do
    k ← public
    s ← sig
    require (not (k.mod_len == 0))
    require (not (k.exp_len == 0))
    require (not (is_missing msg))
    some (b.rsa_verify_with_public_key d k msg s)))

  unfoldable pub rsa_export_public_key :
      Option RsaKeyPair → Option RsaPublicKey → Reply D (Option RsaPublicKey)
  rsa_export_public_key key out = guarded e out (λ b d. checked out d (do
    k ← key
    require (is_valid_key k)
    o ← out
    some (with_out (b.rsa_export_public_key d k o) (λ x. some x))))

  unfoldable pub rsa_release_key_pair : Option RsaKeyPair → Reply D (Option RsaKeyPair)
  rsa_release_key_pair key = guarded e key (λ b d. checked key d (do
    k ← key
    require (is_valid_key k)
    some (with_out (b.rsa_release_key_pair d k) (λ o. some o))))

  unfoldable pub rsa_import_key_pair :
      Option RsaKeyPair → Option RsaPrivateKeyImport → Reply D (Option RsaKeyPair)
  rsa_import_key_pair key material = guarded e key (λ b d. checked key d (do
    k ← key
    m ← material
    some (with_out (b.rsa_import_key_pair d (clear_key k) m) (λ o. some o))))

  -- The PSS calls leave every check to the backend.
  unfoldable pub rsa_pss_sign : Option RsaKeyPair → Slice → Pointer → Reply D Pointer
  rsa_pss_sign key msg sig = guarded e sig (λ b d. b.rsa_pss_sign_with_key_pair d key msg sig)

  unfoldable pub rsa_pss_verify : Option RsaKeyPair → Slice → Pointer → Reply D (Unit {0})
  rsa_pss_verify key msg sig = guarded e tt (λ b d. b.rsa_pss_verify_with_key_pair d key msg sig)

  unfoldable pub rsa_pss_verify_with_pub_key :
      Option RsaPublicKey → Slice → Pointer → Reply D (Unit {0})
  rsa_pss_verify_with_pub_key public msg sig =
      guarded e tt (λ b d. b.rsa_pss_verify_with_public_key d public msg sig)
