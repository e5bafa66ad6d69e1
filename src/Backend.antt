-- ===== src/Backend.antt =====
-- src/crypto/CryptoBackend.h: the virtual methods of a backend, and their defaults.
--
-- `D` is the state of the device, which every method may read and change: peripherals, key slots,
-- the backend's own fields. A pointer that a method may find null is a `Pointer` or a `Slice`; the
-- others are the bytes they point to.
use arduino_nrf_crypto.Base.{ℕ, List, Bool, false, Option, some, Slice, if◌then◌else◌}
use arduino_nrf_crypto.Types.{
  Status, ok, unsupported, bad_param, Capability, RsaPublicKey, RsaKeyPair,
}
use arduino_nrf_crypto.Types.{RsaPrivateKeyImport, is_valid_key, clear_key}
use Prim.Native.String.{String}

abbrev pub Pointer : Type 0
Pointer = Option (List ℕ)

-- What a call returns, what its output parameters hold afterwards, and the device.
pub record Reply (D A : Type 0) : Type 0 where
  pub status : Status
  pub out : A
  pub device : D

pub record Backend (D : Type 0) : Type 0 where
  pub name : String
  pub begin : D → Bool × D
  pub end : D → D
  pub hardware_accelerated : Bool
  pub supports_capability : D → Capability → Bool
  pub random_bytes : D → List ℕ → Reply D Pointer
  pub sha256 : D → Slice → List ℕ → Reply D Pointer
  pub sha384 : D → Slice → List ℕ → Reply D Pointer
  pub sha512 : D → Slice → List ℕ → Reply D Pointer
  pub hkdf_sha256 : D → Slice → Slice → Slice → List ℕ → Reply D Pointer
  pub hmac_sha256 : D → Slice → Slice → List ℕ → Reply D Pointer
  pub aes128_cbc_encrypt : D → List ℕ → List ℕ → List ℕ → List ℕ → Reply D Pointer
  pub aes128_cbc_decrypt : D → List ℕ → List ℕ → List ℕ → List ℕ → Reply D Pointer
  pub aes128_ctr : D → List ℕ → List ℕ → List ℕ → List ℕ → Reply D Pointer
  pub aes128_gcm_encrypt :
      D → List ℕ → List ℕ → Slice → Slice → Pointer → List ℕ → Reply D (Pointer × Pointer)
  pub aes128_gcm_decrypt : D → List ℕ → List ℕ → Slice → Slice → Pointer → List ℕ → Reply D Pointer
  pub chacha_poly_encrypt :
      D → List ℕ → List ℕ → Slice → Slice → Pointer → List ℕ → Reply D (Pointer × Pointer)
  pub chacha_poly_decrypt : D → List ℕ → List ℕ → Slice → Slice → Pointer → List ℕ → Reply D Pointer
  pub ecdsa_p256_sign : D → List ℕ → List ℕ → List ℕ → Reply D Pointer
  pub ecdsa_p256_verify : D → List ℕ → List ℕ → List ℕ → Reply D (Unit {0})
  pub ecdh_p256_shared : D → List ℕ → List ℕ → List ℕ → Reply D Pointer
  pub ecdsa_p256_generate_key : D → List ℕ → List ℕ → Reply D (Pointer × Pointer)
  pub x25519_generate_key : D → List ℕ → List ℕ → Reply D (Pointer × Pointer)
  pub x25519_shared : D → List ℕ → List ℕ → List ℕ → Reply D Pointer
  pub rsa_generate_key_pair : D → RsaKeyPair → Reply D RsaKeyPair
  pub rsa_sign_with_key_pair : D → RsaKeyPair → Slice → List ℕ → Reply D Pointer
  pub rsa_verify_with_key_pair : D → RsaKeyPair → Slice → List ℕ → Reply D (Unit {0})
  pub rsa_verify_with_public_key : D → RsaPublicKey → Slice → List ℕ → Reply D (Unit {0})
  pub rsa_export_public_key : D → RsaKeyPair → RsaPublicKey → Reply D RsaPublicKey
  pub rsa_release_key_pair : D → RsaKeyPair → Reply D RsaKeyPair
  pub rsa_import_key_pair : D → RsaKeyPair → RsaPrivateKeyImport → Reply D RsaKeyPair
  pub rsa_pss_sign_with_key_pair : D → Option RsaKeyPair → Slice → Pointer → Reply D Pointer
  pub rsa_pss_verify_with_key_pair : D → Option RsaKeyPair → Slice → Pointer → Reply D (Unit {0})
  pub rsa_pss_verify_with_public_key :
      D → Option RsaPublicKey → Slice → Pointer → Reply D (Unit {0})
  pub ed25519_generate_key : D → List ℕ → List ℕ → Reply D (Pointer × Pointer)
  pub ed25519_derive_from_seed : D → List ℕ → List ℕ → List ℕ → Reply D (Pointer × Pointer)
  pub ed25519_sign : D → List ℕ → Slice → List ℕ → Reply D Pointer
  pub ed25519_verify : D → List ℕ → Slice → List ℕ → Reply D (Unit {0})

module _ {D : Type 0} where
  -- A call that only returns its status.
  abbrev pub reply : {A : Type 0} → Status → A → D → Reply D A
  reply s a d = record { status = s; out = a; device = d }

  -- The default of `rsaReleaseKeyPair`.
  unfoldable pub release : D → RsaKeyPair → Reply D RsaKeyPair
  release d key = if is_valid_key key then reply ok (clear_key key) d else reply bad_param key d

  -- A backend that overrides nothing but the pure virtual methods.
  unfoldable pub default_backend : String → (D → Bool × D) → Bool → Backend D
  default_backend its_name its_begin accelerated = record {
    name = its_name;
    begin = its_begin;
    end = λ d. d;
    hardware_accelerated = accelerated;
    supports_capability = λ d cap. false;
    random_bytes = λ d buf. reply unsupported (some buf) d;
    sha256 = λ d input out. reply unsupported (some out) d;
    sha384 = λ d input out. reply unsupported (some out) d;
    sha512 = λ d input out. reply unsupported (some out) d;
    hkdf_sha256 = λ d ikm salt info okm. reply unsupported (some okm) d;
    hmac_sha256 = λ d key msg out. reply unsupported (some out) d;
    aes128_cbc_encrypt = λ d key iv input out. reply unsupported (some out) d;
    aes128_cbc_decrypt = λ d key iv input out. reply unsupported (some out) d;
    aes128_ctr = λ d key iv input out. reply unsupported (some out) d;
    aes128_gcm_encrypt = λ d key iv aad input out tag. reply unsupported (out, some tag) d;
    aes128_gcm_decrypt = λ d key iv aad input out tag. reply unsupported out d;
    chacha_poly_encrypt = λ d key iv aad input out tag. reply unsupported (out, some tag) d;
    chacha_poly_decrypt = λ d key iv aad input out tag. reply unsupported out d;
    ecdsa_p256_sign = λ d priv hash sig. reply unsupported (some sig) d;
    ecdsa_p256_verify = λ d public hash sig. reply unsupported tt d;
    ecdh_p256_shared = λ d priv peer shared. reply unsupported (some shared) d;
    ecdsa_p256_generate_key = λ d priv public. reply unsupported (some priv, some public) d;
    x25519_generate_key = λ d priv public. reply unsupported (some priv, some public) d;
    x25519_shared = λ d priv peer shared. reply unsupported (some shared) d;
    rsa_generate_key_pair = λ d key. reply unsupported key d;
    rsa_sign_with_key_pair = λ d key msg sig. reply unsupported (some sig) d;
    rsa_verify_with_key_pair = λ d key msg sig. reply unsupported tt d;
    rsa_verify_with_public_key = λ d key msg sig. reply unsupported tt d;
    rsa_export_public_key = λ d key out. reply unsupported out d;
    rsa_release_key_pair = release;
    rsa_import_key_pair = λ d key material. reply unsupported key d;
    rsa_pss_sign_with_key_pair = λ d key msg sig. reply unsupported sig d;
    rsa_pss_verify_with_key_pair = λ d key msg sig. reply unsupported tt d;
    rsa_pss_verify_with_public_key = λ d key msg sig. reply unsupported tt d;
    ed25519_generate_key = λ d secret public. reply unsupported (some secret, some public) d;
    ed25519_derive_from_seed =
        λ d seed secret public. reply unsupported (some secret, some public) d;
    ed25519_sign = λ d secret msg sig. reply unsupported (some sig) d;
    ed25519_verify = λ d public msg sig. reply unsupported tt d;
  }
