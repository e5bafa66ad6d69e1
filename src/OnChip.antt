-- ===== src/OnChip.antt =====
-- src/backends/OnChipBackend.cpp and .h: AES by the ECB peripheral, random bytes by the RNG, the rest in
-- software.
--
-- The peripherals are the core's (`NrfEcb`, `NrfRng`), and so parameters: what each call of them
-- returns, and the state `W` that it leaves.
pub mod Counter
pub mod Cbc
pub mod Ctr
use arduino_nrf_crypto.Base.{
  ℕ, zero, suc, ◌+◌, ◌/◌, List, [], ◌∷◌, ◌++◌, Bool, true, false, Option, none, some,
}
use arduino_nrf_crypto.Base.{
  Slice, bytes, length, take, drop, get_or, set, write_at, xor_bytes, u8, ◌==◌,
}
use arduino_nrf_crypto.Base.{if◌then◌else◌}
use arduino_nrf_crypto.Stream.{Stream}
use arduino_nrf_crypto.Sha256
use arduino_nrf_crypto.Sha512
use arduino_nrf_crypto.Hkdf
use arduino_nrf_crypto.Aes128.{decrypt_block}
use arduino_nrf_crypto.Aead.{Outcome}
use arduino_nrf_crypto.AesGcm
use arduino_nrf_crypto.ChaChaPoly
use arduino_nrf_crypto.Types.{Status, ok, not_started, bad_param, internal_error, auth_failed}
use arduino_nrf_crypto.Types.{Capability}
use arduino_nrf_crypto.Backend.{Backend, Reply, Pointer, reply, default_backend}

-- `xorBlock`
abbrev pub xor_block : List ℕ → List ℕ → List ℕ
xor_block a b = xor_bytes (take 16 a) (take 16 b)

-- `++ctr[i]` from the last byte on, as long as it comes to 0.
unfoldable pub increment_loop : ℕ → List ℕ → List ℕ
increment_loop zero ctr = ctr
increment_loop (suc i) ctr =
    let v = u8 (get_or ctr i 0 + 1) in
    let carried = increment_loop i (set ctr i v) in if v == 0 then carried else set ctr i v

abbrev pub increment_counter : List ℕ → List ℕ
increment_counter ctr = increment_loop 16 ctr

-- The methods of the core's peripherals that the backend calls; `ecb` is none if it fails.
pub record Peripherals (W : Type 0) : Type 0 where
  pub self_test : W → Bool × W
  pub ecb : W → List ℕ → List ℕ → Option (List ℕ) × W
  pub rng : W → ℕ → List ℕ × W

-- The peripherals' state and `started_`.
pub record Board (W : Type 0) : Type 0 where
  pub hardware : W
  pub started : Bool

-- What the stack holds where the software objects are made without an initializer.
pub record Memory : Type 0 where
  pub sha256 : Stream
  pub sha512 : Sha512.Hasher
  pub expected : List ℕ

module _ {W : Type 0} (p : Peripherals W) (m : Memory) where
  abbrev pub begin : Board W → Bool × Board W
  begin d = let t = p.self_test d.hardware in (t.0, record { hardware = t.1; started = t.0 })

  abbrev pub supported : Capability → Bool
  supported Capability.random = true
  supported Capability.sha256 = true
  supported Capability.sha384 = true
  supported Capability.sha512 = true
  supported Capability.hmac_sha256 = true
  supported Capability.hkdf_sha256 = true
  supported Capability.aes_cbc_encrypt = true
  supported Capability.aes_cbc_decrypt = true
  supported Capability.aes_ctr = true
  supported Capability.aes_gcm = true
  supported Capability.cha_cha_poly = true
  supported Capability.sha256_stream = true
  supported Capability.sha384_stream = true
  supported Capability.sha512_stream = true
  supported cap = false

  abbrev pub supports_capability : Board W → Capability → Bool
  supports_capability d cap = if d.started then supported cap else false

  abbrev pub random_bytes : Board W → List ℕ → Reply (Board W) Pointer
  random_bytes d buf =
      let r = p.rng d.hardware (length buf) in
      reply ok (some (write_at buf 0 r.0)) (record d { hardware = r.1 })

  abbrev pub sha256 : Board W → Slice → List ℕ → Reply (Board W) Pointer
  sha256 d input out = reply ok (some (write_at out 0 (Sha256.hash m.sha256 input))) d

  abbrev pub sha384 : Board W → Slice → List ℕ → Reply (Board W) Pointer
  sha384 d input out = reply ok (some (write_at out 0 (Sha512.hash384 m.sha512 input))) d

  abbrev pub sha512 : Board W → Slice → List ℕ → Reply (Board W) Pointer
  sha512 d input out = reply ok (some (write_at out 0 (Sha512.hash512 m.sha512 input))) d

  abbrev pub hkdf_sha256 : Board W → Slice → Slice → Slice → List ℕ → Reply (Board W) Pointer
  hkdf_sha256 d ikm salt info okm = reply ok (some (Hkdf.hkdf_sha256 m.sha256 ikm salt info okm)) d

  -- The loops stop at the first block that the peripheral fails on; `written` is what `out` has been
  -- given up to there.
  unfoldable pub cbc_encrypt_loop :
      ℕ → W → List ℕ → List ℕ → List ℕ → List ℕ → Status × (List ℕ × W)
  cbc_encrypt_loop zero w key prev input written = (ok, (written, w))
  cbc_encrypt_loop (suc blocks) w key prev input written =
      let r = p.ecb w key (xor_block input prev) in
      elim r.0 [
        | none ↦ (internal_error, (written, r.1))
        | some c ↦ cbc_encrypt_loop blocks r.1 key c (drop 16 input) (written ++ c)
      ]

  unfoldable pub aes128_cbc_encrypt :
      Board W → List ℕ → List ℕ → List ℕ → List ℕ → Reply (Board W) Pointer
  aes128_cbc_encrypt d key iv input out =
      let r = cbc_encrypt_loop ((length input + 15) / 16) d.hardware key iv input [] in
      reply r.0 (some (write_at out 0 r.1.0)) (record d { hardware = r.1.1 })

  unfoldable pub cbc_decrypt_loop : ℕ → List ℕ → List ℕ → List ℕ → List ℕ
  cbc_decrypt_loop zero key prev input = []
  cbc_decrypt_loop (suc blocks) key prev input =
      xor_block (decrypt_block key (take 16 input)) prev
      ++ cbc_decrypt_loop blocks key (take 16 input) (drop 16 input)

  unfoldable pub aes128_cbc_decrypt :
      Board W → List ℕ → List ℕ → List ℕ → List ℕ → Reply (Board W) Pointer
  aes128_cbc_decrypt d key iv input out =
      reply ok (some (write_at out 0 (cbc_decrypt_loop ((length input + 15) / 16) key iv input))) d

  unfoldable pub ctr_loop : ℕ → W → List ℕ → List ℕ → List ℕ → List ℕ → Status × (List ℕ × W)
  ctr_loop zero w key ctr input written = (ok, (written, w))
  ctr_loop (suc fuel) w key ctr [] written = (ok, (written, w))
  ctr_loop (suc fuel) w key ctr (x ∷ input) written =
      let r = p.ecb w key ctr in
      elim r.0 [
        | none ↦ (internal_error, (written, r.1))
        | some ks ↦
            ctr_loop fuel r.1 key (increment_counter ctr) (drop 16 (x ∷ input))
              (written ++ xor_bytes (take 16 (x ∷ input)) ks)
      ]

  unfoldable pub aes128_ctr : Board W → List ℕ → List ℕ → List ℕ → List ℕ → Reply (Board W) Pointer
  aes128_ctr d key iv input out =
      let r = ctr_loop (length input) d.hardware key iv input [] in
      reply r.0 (some (write_at out 0 r.1.0)) (record d { hardware = r.1.1 })

  -- The status of an AEAD call, by the flag that the software returns.
  abbrev pub sealed : Board W → Outcome → Reply (Board W) (Pointer × Pointer)
  sealed d r = reply (if r.ok then ok else bad_param) (r.out, r.tag) d

  abbrev pub opened : Board W → Outcome → Reply (Board W) Pointer
  opened d r = reply (if r.ok then ok else auth_failed) r.out d

  abbrev pub aes128_gcm_encrypt :
      Board W
      → List ℕ
      → List ℕ
      → Slice
      → Slice
      → Pointer
      → List ℕ
      → Reply (Board W) (Pointer × Pointer)
  aes128_gcm_encrypt d key iv aad input out tag =
      if d.started
      then sealed d (AesGcm.encrypt (some key) (some iv) aad input out (some tag))
      else reply not_started (out, some tag) d

  abbrev pub aes128_gcm_decrypt :
      Board W → List ℕ → List ℕ → Slice → Slice → Pointer → List ℕ → Reply (Board W) Pointer
  aes128_gcm_decrypt d key iv aad input out tag =
      if d.started
      then opened d (AesGcm.decrypt (some key) (some iv) aad input out (some tag))
      else reply not_started out d

  abbrev pub chacha_poly_encrypt :
      Board W
      → List ℕ
      → List ℕ
      → Slice
      → Slice
      → Pointer
      → List ℕ
      → Reply (Board W) (Pointer × Pointer)
  chacha_poly_encrypt d key at_nonce aad input out tag =
      if d.started
      then sealed d (ChaChaPoly.encrypt (some key) (some at_nonce) aad input out (some tag))
      else reply not_started (out, some tag) d

  abbrev pub chacha_poly_decrypt :
      Board W → List ℕ → List ℕ → Slice → Slice → Pointer → List ℕ → Reply (Board W) Pointer
  chacha_poly_decrypt d key at_nonce aad input out tag =
      if d.started
      then opened d
          (ChaChaPoly.decrypt m.expected (some key) (some at_nonce) aad input out (some tag))
      else reply not_started out d

  -- The methods that the class overrides; the others are the defaults.
  unfoldable pub on_chip : Backend (Board W)
  unfolding default_backend
  on_chip = record (default_backend "OnChip" begin false) {
    supports_capability = supports_capability;
    random_bytes = random_bytes;
    sha256 = sha256;
    sha384 = sha384;
    sha512 = sha512;
    hkdf_sha256 = hkdf_sha256;
    aes128_cbc_encrypt = aes128_cbc_encrypt;
    aes128_cbc_decrypt = aes128_cbc_decrypt;
    aes128_ctr = aes128_ctr;
    aes128_gcm_encrypt = aes128_gcm_encrypt;
    aes128_gcm_decrypt = aes128_gcm_decrypt;
    chacha_poly_encrypt = chacha_poly_encrypt;
    chacha_poly_decrypt = chacha_poly_decrypt;
  }
