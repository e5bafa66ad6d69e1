-- ===== src/Types.antt =====
-- src/crypto/CryptoTypes.h and CryptoCapability.h: the statuses, the capabilities and the RSA handle.
use arduino_nrf_crypto.Base.{ℕ, List, Bool, not, ◌==◌}
use Prim.Native.String.{String}

pub data Status : Type 0 where
  ok : Status
  hardware_missing : Status
  not_started : Status
  bad_param : Status
  internal_error : Status
  unsupported : Status
  auth_failed : Status

-- The numbers of the enumeration are -code.
abbrev pub code : Status → ℕ
code ok = 0
code hardware_missing = 1
code not_started = 2
code bad_param = 3
code internal_error = 4
code unsupported = 5
code auth_failed = 6

abbrev pub status_name : Status → String
status_name ok = "Ok"
status_name hardware_missing = "HardwareMissing"
status_name not_started = "NotStarted"
status_name bad_param = "BadParam"
status_name internal_error = "InternalError"
status_name unsupported = "Unsupported"
status_name auth_failed = "AuthFailed"

-- `==` on statuses.
abbrev pub is_ok : Status → Bool
is_ok s = code s == 0

abbrev pub is_unsupported : Status → Bool
is_unsupported s = code s == 5

-- `Count`, the number of capabilities, is one of the constructors too.
pub data Capability : Type 0 where
  random : Capability
  sha256 : Capability
  sha384 : Capability
  sha512 : Capability
  hmac_sha256 : Capability
  hkdf_sha256 : Capability
  aes_cbc_encrypt : Capability
  aes_cbc_decrypt : Capability
  aes_ctr : Capability
  aes_gcm : Capability
  cha_cha_poly : Capability
  ecdsa : Capability
  ecdh : Capability
  x25519 : Capability
  ed25519 : Capability
  rsa_pkcs1 : Capability
  rsa_pss : Capability
  sha256_stream : Capability
  sha384_stream : Capability
  sha512_stream : Capability
  count : Capability

abbrev pub capability_name : Capability → String
capability_name random = "Random"
capability_name sha256 = "Sha256"
capability_name sha384 = "Sha384"
capability_name sha512 = "Sha512"
capability_name hmac_sha256 = "HmacSha256"
capability_name hkdf_sha256 = "HkdfSha256"
capability_name aes_cbc_encrypt = "AesCbcEncrypt"
capability_name aes_cbc_decrypt = "AesCbcDecrypt"
capability_name aes_ctr = "AesCtr"
capability_name aes_gcm = "AesGcm"
capability_name cha_cha_poly = "ChaChaPoly"
capability_name ecdsa = "Ecdsa"
capability_name ecdh = "Ecdh"
capability_name x25519 = "X25519"
capability_name ed25519 = "Ed25519"
capability_name rsa_pkcs1 = "RsaPkcs1"
capability_name rsa_pss = "RsaPss"
capability_name sha256_stream = "Sha256Stream"
capability_name sha384_stream = "Sha384Stream"
capability_name sha512_stream = "Sha512Stream"
capability_name count = "(unknown)"

pub record RsaPublicKey : Type 0 where
  pub modulus : List ℕ
  pub exponent : List ℕ
  pub mod_len : ℕ
  pub exp_len : ℕ

abbrev pub rsa_invalid_slot : ℕ
rsa_invalid_slot = 0xff

pub record RsaKeyPair : Type 0 where
  pub slot : ℕ
  pub public : RsaPublicKey

-- `valid`
abbrev pub is_valid_key : RsaKeyPair → Bool
is_valid_key key = not (key.slot == rsa_invalid_slot)

-- `clear` (and `reset`, which calls it) keeps the bytes of the public key.
unfoldable pub clear_key : RsaKeyPair → RsaKeyPair
clear_key key = record {
  slot = rsa_invalid_slot;
  public = record key.public { mod_len = 0; exp_len = 0 };
}

pub record RsaPrivateKeyImport : Type 0 where
  pub modulus : List ℕ
  pub private_exponent : List ℕ
  pub public_exponent : List ℕ
  pub mod_len : ℕ
  pub priv_exp_len : ℕ
  pub pub_exp_len : ℕ
