-- ===== src/Cc310/Tests.antt =====
-- A library that always succeeds and computes nothing of use, to run src/backends/CC310Backend.cpp on.
use arduino_nrf_crypto.Base.{ℕ, suc, List, [], ◌∷◌, ◌++◌, map, true}
use arduino_nrf_crypto.Types.{RsaKeyPair, rsa_invalid_slot}
use arduino_nrf_crypto.Cc310.Vendor.{Crys, Call}
use arduino_nrf_crypto.Cc310.Device.{Device, empty_slot}

abbrev done : {A : Type 0} → ℕ → A → Call ℕ A
done w a = record { error = 0; value = a; hardware = suc w }

-- The state counts the calls; a context is the bytes that it has read, a key the count at its making.
abbrev pub toy : Crys ℕ (List ℕ)
toy = record {
  scratch_bytes = 64;
  hash_block_bytes = 16;
  hash512_block_bytes = 32;
  hkdf_key_bytes = 2;
  hmac_key_bytes = 4;
  zeroed = [];
  power_up = λ w. w;
  lib_init = λ w. done w tt;
  lib_fini = λ w. suc w;
  rnd_init = λ w. done w tt;
  rnd_fini = λ w. suc w;
  generate_vector = λ w buf. done w (map (λ x. 7) buf);
  hash_init = λ w mode. done w [];
  hash_update = λ w c chunk. done w (c ++ chunk);
  hash_finish = λ w c. done w c;
  sha384_init = [];
  sha384_update = λ c chunk. c ++ chunk;
  sha384_final = λ c out. out;
  hkdf = λ w salt ikm info okm. done w ikm;
  hmac_init = λ w key. done w key;
  hmac_update = λ w c chunk. done w (c ++ chunk);
  hmac_finish = λ w c. done w c;
  aes_init = λ w dir mode. done w [];
  aes_set_key = λ w c key. done w key;
  aes_set_iv = λ w c iv. done w c;
  aes_block = λ w c text. done w (c, text);
  aes_finish = λ w c. (c, suc w);
  aes_free = λ w c. suc w;
  gcm_encrypt = λ key iv aad input out tag. (out, tag);
  gcm_decrypt = λ key iv aad input out tag. (0, out);
  chacha_encrypt = λ key at_nonce aad input out tag. (out, tag);
  chacha_decrypt = λ key at_nonce aad input out tag. (0, out);
  ec_gen_key_pair = λ w. done w ([], []);
  ec_export_priv = λ w c priv. done w priv;
  ec_export_public = λ w c. done w [];
  ec_build_priv = λ w priv. done w priv;
  ec_build_public = λ w raw. done w raw;
  ec_build_public_partly = λ w raw. done w raw;
  ecdsa_sign = λ w c hash sig. done w sig;
  ecdsa_verify = λ w c sig hash. done w tt;
  ecdh = λ w public priv shared. done w shared;
  mont_key_pair = λ w public priv. done w (public, priv);
  mont_scalarmult = λ w priv peer shared. done w shared;
  edw_key_pair = λ w secret public. done w (secret, public);
  edw_seed_key_pair = λ w seed secret public. done w (secret, public);
  edw_sign = λ w sig msg secret. done w sig;
  edw_verify = λ w sig public msg. done w tt;
  rsa_get_public = λ w c exponent modulus.
      done w (record { exponent = exponent; modulus = modulus; exp_len = 3; mod_len = 256 });
  rsa_generate = λ w. done w (record { priv = w ∷ []; public = w ∷ []; generated = [] });
  rsa_build_priv = λ w priv exponent modulus. done w priv;
  rsa_build_public = λ w exponent modulus. done w modulus;
  pkcs1_sign = λ w c msg sig. done w (c ++ msg);
  pkcs1_verify = λ w c msg sig. done w tt;
  pss_sign = λ w c msg sig. done w (c ++ msg);
  pss_verify = λ w c msg sig. done w tt;
}

-- After `begin`, with two free slots.
abbrev pub running : Device ℕ (List ℕ)
running = record {
  hardware = 0;
  started = true;
  slots = empty_slot toy ∷ empty_slot toy ∷ [];
  last_error = 0;
}

abbrev pub handle : RsaKeyPair
handle = record {
  slot = rsa_invalid_slot;
  public = record { modulus = []; exponent = []; mod_len = 0; exp_len = 0 };
}
