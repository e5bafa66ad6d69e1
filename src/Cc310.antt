-- ===== src/Cc310.antt =====
-- src/backends/CC310Backend.cpp and .h: the Arm CryptoCell 310, by Nordic's CRYS library and Oberon.
pub mod Blocks
pub mod Ciphers
pub mod Curves
pub mod Device
pub mod Digests
pub mod Handles
pub mod KeyStore
pub mod KeyInputs
pub mod OneShot
pub mod Random
pub mod Rsa
pub mod Slots
pub mod Store
pub mod Tests
pub mod Vendor
use arduino_nrf_crypto.Base.{false, true, some}
use arduino_nrf_crypto.Types.{hardware_missing, bad_param, is_valid_key, clear_key}
use arduino_nrf_crypto.Base.{if◌then◌else◌}
use arduino_nrf_crypto.Backend.{Backend, default_backend, reply}
use arduino_nrf_crypto.Cc310.Vendor.{Crys}
use arduino_nrf_crypto.Cc310.Device
use arduino_nrf_crypto.Cc310.Digests
use arduino_nrf_crypto.Cc310.Ciphers
use arduino_nrf_crypto.Cc310.Curves
use arduino_nrf_crypto.Cc310.Rsa

-- The class, where the vendor's archives are there.
unfoldable pub cc310 : {W C : Type 0} → Crys W C → Backend (Device.Device W C)
unfolding default_backend
cc310 crys = record (default_backend "CC310" (Device.begin crys) true) {
  end = Device.end_device crys;
  supports_capability = Device.supports_capability crys;
  random_bytes = Device.random_bytes crys;
  sha256 = Digests.sha256 crys;
  sha384 = Digests.sha384 crys;
  sha512 = Digests.sha512 crys;
  hkdf_sha256 = Digests.hkdf_sha256 crys;
  hmac_sha256 = Digests.hmac_sha256 crys;
  aes128_cbc_encrypt = Ciphers.aes128_cbc_encrypt crys;
  aes128_cbc_decrypt = Ciphers.aes128_cbc_decrypt crys;
  aes128_ctr = Ciphers.aes128_ctr crys;
  aes128_gcm_encrypt = Ciphers.aes128_gcm_encrypt crys;
  aes128_gcm_decrypt = Ciphers.aes128_gcm_decrypt crys;
  chacha_poly_encrypt = Ciphers.chacha_poly_encrypt crys;
  chacha_poly_decrypt = Ciphers.chacha_poly_decrypt crys;
  ecdsa_p256_generate_key = Curves.ecdsa_p256_generate_key crys;
  ecdsa_p256_sign = Curves.ecdsa_p256_sign crys;
  ecdsa_p256_verify = Curves.ecdsa_p256_verify crys;
  ecdh_p256_shared = Curves.ecdh_p256_shared crys;
  x25519_generate_key = Curves.x25519_generate_key crys;
  x25519_shared = Curves.x25519_shared crys;
  rsa_generate_key_pair = Rsa.rsa_generate_key_pair crys;
  rsa_sign_with_key_pair = Rsa.rsa_sign_with_key_pair crys;
  rsa_verify_with_key_pair = Rsa.rsa_verify_with_key_pair crys;
  rsa_verify_with_public_key = Rsa.rsa_verify_with_public_key crys;
  rsa_export_public_key = Rsa.rsa_export_public_key crys;
  rsa_release_key_pair = Rsa.rsa_release_key_pair crys;
  rsa_import_key_pair = Rsa.rsa_import_key_pair crys;
  rsa_pss_sign_with_key_pair = Rsa.rsa_pss_sign_with_key_pair crys;
  rsa_pss_verify_with_key_pair = Rsa.rsa_pss_verify_with_key_pair crys;
  rsa_pss_verify_with_public_key = Rsa.rsa_pss_verify_with_public_key crys;
  ed25519_generate_key = Curves.ed25519_generate_key crys;
  ed25519_derive_from_seed = Curves.ed25519_derive_from_seed crys;
  ed25519_sign = Curves.ed25519_sign crys;
  ed25519_verify = Curves.ed25519_verify crys;
}

-- The class, where they are not.
unfoldable pub cc310_stub : {D : Type 0} → Backend D
cc310_stub = record {
  name = "CC310";
  begin = λ d. (false, d);
  end = λ d. d;
  hardware_accelerated = true;
  supports_capability = λ d cap. false;
  random_bytes = λ d buf. reply hardware_missing (some buf) d;
  sha256 = λ d input out. reply hardware_missing (some out) d;
  sha384 = λ d input out. reply hardware_missing (some out) d;
  sha512 = λ d input out. reply hardware_missing (some out) d;
  hkdf_sha256 = λ d ikm salt info okm. reply hardware_missing (some okm) d;
  hmac_sha256 = λ d key msg out. reply hardware_missing (some out) d;
  aes128_cbc_encrypt = λ d key iv input out. reply hardware_missing (some out) d;
  aes128_cbc_decrypt = λ d key iv input out. reply hardware_missing (some out) d;
  aes128_ctr = λ d key iv input out. reply hardware_missing (some out) d;
  aes128_gcm_encrypt = λ d key iv aad input out tag. reply hardware_missing (out, some tag) d;
  aes128_gcm_decrypt = λ d key iv aad input out tag. reply hardware_missing out d;
  chacha_poly_encrypt = λ d key iv aad input out tag. reply hardware_missing (out, some tag) d;
  chacha_poly_decrypt = λ d key iv aad input out tag. reply hardware_missing out d;
  ecdsa_p256_sign = λ d priv hash sig. reply hardware_missing (some sig) d;
  ecdsa_p256_verify = λ d public hash sig. reply hardware_missing tt d;
  ecdh_p256_shared = λ d priv peer shared. reply hardware_missing (some shared) d;
  ecdsa_p256_generate_key = λ d priv public. reply hardware_missing (some priv, some public) d;
  x25519_generate_key = λ d priv public. reply hardware_missing (some priv, some public) d;
  x25519_shared = λ d priv peer shared. reply hardware_missing (some shared) d;
  rsa_generate_key_pair = λ d key. reply hardware_missing key d;
  rsa_sign_with_key_pair = λ d key msg sig. reply hardware_missing (some sig) d;
  rsa_verify_with_key_pair = λ d key msg sig. reply hardware_missing tt d;
  rsa_verify_with_public_key = λ d key msg sig. reply hardware_missing tt d;
  rsa_export_public_key = λ d key out. reply hardware_missing out d;
  rsa_release_key_pair = λ d key.
      if is_valid_key key then reply hardware_missing (clear_key key) d else reply bad_param key d;
  rsa_import_key_pair = λ d key material. reply hardware_missing key d;
  rsa_pss_sign_with_key_pair = λ d key msg sig. reply hardware_missing sig d;
  rsa_pss_verify_with_key_pair = λ d key msg sig. reply hardware_missing tt d;
  rsa_pss_verify_with_public_key = λ d key msg sig. reply hardware_missing tt d;
  ed25519_generate_key = λ d secret public. reply hardware_missing (some secret, some public) d;
  ed25519_derive_from_seed =
      λ d seed secret public. reply hardware_missing (some secret, some public) d;
  ed25519_sign = λ d secret msg sig. reply hardware_missing (some sig) d;
  ed25519_verify = λ d public msg sig. reply hardware_missing tt d;
}
