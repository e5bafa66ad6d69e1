-- ===== src/Engine/KeyHandle.antt =====
-- The RSA key handle across the calls of src/crypto/CryptoEngine.cpp.
use arduino_nrf_crypto.Base.{true, false, some, ◌≡◌, refl}
use arduino_nrf_crypto.Types.{Status, ok, bad_param, RsaKeyPair, is_valid_key, clear_key}
use arduino_nrf_crypto.Backend.{Backend, reply, release}
use arduino_nrf_crypto.Engine.{running}
use arduino_nrf_crypto.Engine.Rsa.{rsa_release_key_pair, rsa_generate_key_pair}

module _ {D : Type 0} (b : Backend D) (d : D) where
  -- With a backend that keeps the default release, a valid handle is released once: the call succeeds
  -- and leaves the handle invalid, and a second release is refused and changes nothing.
  pub release_once :
      (key : RsaKeyPair)
      → is_valid_key key ≡ true
      → b.rsa_release_key_pair ≡ release
      → let e = running b d in
        (rsa_release_key_pair e (some key) ≡ reply ok (some (clear_key key)) d)
        × (is_valid_key (clear_key key) ≡ false)
        × (rsa_release_key_pair e (some (clear_key key)) ≡ reply bad_param (some (clear_key key)) d)
  unfolding rsa_release_key_pair release clear_key
  release_once key v r = (rw (v, r) (rw v refl), refl, refl)

  -- With a backend that refuses to generate a key pair and leaves the handle alone, the caller's handle
  -- is invalid afterwards, also if it was valid and its slot never released.
  pub generate_forgets :
      (key : RsaKeyPair) (s : Status) (d' : D)
      → b.rsa_generate_key_pair d (clear_key key) ≡ reply s (clear_key key) d'
      → let r = rsa_generate_key_pair (running b d) (some key) in
        (r ≡ reply s (some (clear_key key)) d') × (is_valid_key (clear_key key) ≡ false)
  unfolding rsa_generate_key_pair clear_key
  generate_forgets key s d' e = (rw e refl, refl)
