-- ===== src/Cc310/Vendor.antt =====
-- The calls that src/backends/CC310Backend.cpp makes of the vendor's libraries (CRYS, Oberon).
--
-- The libraries are no part of the repository, and so parameters: `W` is the state of the CryptoCell
-- and of the library's statics, `C` what one of the library's structures (a context, a key) holds.
use arduino_nrf_crypto.Base.{ℕ, List, Slice}
use arduino_nrf_crypto.Backend.{Pointer}

-- What a call returns (0 is `CRYS_OK`), what its output holds afterwards, and the state it leaves.
pub record Call (W A : Type 0) : Type 0 where
  pub error : ℕ
  pub value : A
  pub hardware : W

pub data HashMode : Type 0 where
  sha256_mode : HashMode
  sha512_mode : HashMode

pub data Direction : Type 0 where
  encrypting : Direction
  decrypting : Direction

pub data AesMode : Type 0 where
  cbc_mode : AesMode
  ctr_mode : AesMode

-- The bytes and the lengths that `CRYS_RSA_Get_PubKey` puts out.
pub record PublicNumbers : Type 0 where
  pub exponent : List ℕ
  pub modulus : List ℕ
  pub exp_len : ℕ
  pub mod_len : ℕ

-- An RSA slot's structures.
pub record KeyMaterial (C : Type 0) : Type 0 where
  pub priv : C
  pub public : C
  pub generated : C

pub record Crys (W C : Type 0) : Type 0 where
  pub scratch_bytes : ℕ
  pub hash_block_bytes : ℕ
  pub hash512_block_bytes : ℕ
  pub hkdf_key_bytes : ℕ
  pub hmac_key_bytes : ℕ
  -- A structure after `memset` to 0.
  pub zeroed : C
  pub power_up : W → W
  pub lib_init : W → Call W (Unit {0})
  pub lib_fini : W → W
  pub rnd_init : W → Call W (Unit {0})
  pub rnd_fini : W → W
  pub generate_vector : W → List ℕ → Call W (List ℕ)
  pub hash_init : W → HashMode → Call W C
  pub hash_update : W → C → List ℕ → Call W C
  pub hash_finish : W → C → Call W (List ℕ)
  pub sha384_init : C
  pub sha384_update : C → List ℕ → C
  pub sha384_final : C → List ℕ → List ℕ
  pub hkdf : W → Pointer → List ℕ → Pointer → List ℕ → Call W (List ℕ)
  pub hmac_init : W → List ℕ → Call W C
  pub hmac_update : W → C → List ℕ → Call W C
  pub hmac_finish : W → C → Call W (List ℕ)
  pub aes_init : W → Direction → AesMode → Call W C
  pub aes_set_key : W → C → List ℕ → Call W C
  pub aes_set_iv : W → C → List ℕ → Call W C
  pub aes_block : W → C → List ℕ → Call W (C × List ℕ)
  pub aes_finish : W → C → C × W
  pub aes_free : W → C → W
  pub gcm_encrypt : List ℕ → List ℕ → Slice → Slice → Pointer → List ℕ → Pointer × List ℕ
  pub gcm_decrypt : List ℕ → List ℕ → Slice → Slice → Pointer → List ℕ → ℕ × Pointer
  pub chacha_encrypt : List ℕ → List ℕ → Slice → Slice → Pointer → List ℕ → Pointer × List ℕ
  pub chacha_decrypt : List ℕ → List ℕ → Slice → Slice → Pointer → List ℕ → ℕ × Pointer
  pub ec_gen_key_pair : W → Call W (C × C)
  pub ec_export_priv : W → C → List ℕ → Call W (List ℕ)
  pub ec_export_public : W → C → Call W (List ℕ)
  pub ec_build_priv : W → List ℕ → Call W C
  pub ec_build_public : W → List ℕ → Call W C
  pub ec_build_public_partly : W → List ℕ → Call W C
  pub ecdsa_sign : W → C → List ℕ → List ℕ → Call W (List ℕ)
  pub ecdsa_verify : W → C → List ℕ → List ℕ → Call W (Unit {0})
  pub ecdh : W → C → C → List ℕ → Call W (List ℕ)
  pub mont_key_pair : W → List ℕ → List ℕ → Call W (List ℕ × List ℕ)
  pub mont_scalarmult : W → List ℕ → List ℕ → List ℕ → Call W (List ℕ)
  pub edw_key_pair : W → List ℕ → List ℕ → Call W (List ℕ × List ℕ)
  pub edw_seed_key_pair : W → List ℕ → List ℕ → List ℕ → Call W (List ℕ × List ℕ)
  pub edw_sign : W → List ℕ → List ℕ → List ℕ → Call W (List ℕ)
  pub edw_verify : W → List ℕ → List ℕ → List ℕ → Call W (Unit {0})
  pub rsa_get_public : W → C → List ℕ → List ℕ → Call W PublicNumbers
  pub rsa_generate : W → Call W (KeyMaterial C)
  pub rsa_build_priv : W → List ℕ → List ℕ → List ℕ → Call W C
  pub rsa_build_public : W → List ℕ → List ℕ → Call W C
  pub pkcs1_sign : W → C → List ℕ → List ℕ → Call W (List ℕ)
  pub pkcs1_verify : W → C → List ℕ → List ℕ → Call W (Unit {0})
  pub pss_sign : W → C → List ℕ → List ℕ → Call W (List ℕ)
  pub pss_verify : W → C → List ℕ → List ℕ → Call W (Unit {0})
