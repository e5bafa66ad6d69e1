-- ===== src/SelfTest/Tests.antt =====
-- The symmetric part of the self test, run on the OnChip backend with an ECB peripheral that works.
use arduino_nrf_crypto.Base.{ℕ, [], ◌≡◌, refl, replicate, true, some}
use arduino_nrf_crypto.Aes128.{encrypt_block}
use arduino_nrf_crypto.Stream
use arduino_nrf_crypto.Sha256
use arduino_nrf_crypto.Sha512
use arduino_nrf_crypto.Hkdf
use arduino_nrf_crypto.Aes128
use arduino_nrf_crypto.AesGcm
use arduino_nrf_crypto.ChaCha
use arduino_nrf_crypto.Poly1305
use arduino_nrf_crypto.ChaChaPoly
use arduino_nrf_crypto.OnChip
use arduino_nrf_crypto.Engine.Hash
use arduino_nrf_crypto.Engine.Cipher
use arduino_nrf_crypto.Engine.Sealed
use arduino_nrf_crypto.SelfTest.Symmetric
use arduino_nrf_crypto.Backend.{default_backend}
use arduino_nrf_crypto.Util.{secure_equal}
use arduino_nrf_crypto.OnChip.{Peripherals, Memory, Board, on_chip}
use arduino_nrf_crypto.SelfTest.Report.{Report}
use arduino_nrf_crypto.SelfTest.Runner.{run_symmetric, blank}

abbrev working : Peripherals ℕ
working = record {
  self_test = λ w. (true, w);
  ecb = λ w k block. (some (encrypt_block k block), w);
  rng = λ w n. (replicate n 4, w);
}

abbrev memory : Memory
memory = record {
  sha256 = record { state = []; bit_len = 0; buffer = replicate 64 0; buffer_len = 0 };
  sha512 = record {
    stream = record { state = []; bit_len = 0; buffer = replicate 128 0; buffer_len = 0 };
    digest_len = 0;
  };
  expected = replicate 16 0;
}

abbrev symmetric : Report
unfolding run_symmetric
symmetric =
    (run_symmetric (some (on_chip working memory)) memory
      (blank (λ n. replicate n 0xcc) (record { hardware = 0; started = true }))).report

symmetric_passed : symmetric ≡ record { passed = 12; failed = 0; skipped = 0 }
unfolding symmetric run_symmetric default_backend secure_equal Stream.flush Stream.absorb_round
    Stream.absorb Stream.update Stream.pad_zeros Stream.closed Stream.length_bytes Sha256.ror
    Sha256.reset Sha256.load_word Sha256.next_word Sha256.extend Sha256.round Sha256.rounds
    Sha256.process_block Sha256.update Sha256.store_words Sha256.finish Sha256.hash Sha256.block_key
    Sha256.xor_key Sha256.hmac_sha256 Sha512.ror Sha512.reset Sha512.reset384 Sha512.load_word
    Sha512.next_word Sha512.extend Sha512.round Sha512.rounds Sha512.process_block Sha512.update
    Sha512.store_words Sha512.finish Sha512.hash384 Sha512.hash512 Hkdf.update_part
    Hkdf.hmac_sha256_parts Hkdf.expand Hkdf.extract Hkdf.hkdf_sha256 Aes128.sbox Aes128.fill_rsbox
    Aes128.rsbox_table Aes128.xtime Aes128.schedule_word Aes128.expand_words Aes128.key_expansion
    Aes128.add_round_key Aes128.sub_bytes Aes128.inv_sub_bytes Aes128.shift_rows
    Aes128.inv_shift_rows Aes128.mix_column Aes128.mix_columns Aes128.mul_loop Aes128.mul
    Aes128.inv_mix_column Aes128.inv_mix_columns Aes128.encrypt_rounds Aes128.encrypt_state
    Aes128.decrypt_rounds Aes128.decrypt_state Aes128.encrypt_block Aes128.decrypt_block
    AesGcm.inc_loop AesGcm.inc_counter AesGcm.shift_tail AesGcm.shift_right AesGcm.gf_step
    AesGcm.gf_bits AesGcm.gf_bytes AesGcm.gf128_mul AesGcm.ghash_block AesGcm.ghash_loop
    AesGcm.ghash_padded AesGcm.make_j0 AesGcm.gctr_loop AesGcm.gctr AesGcm.len_block
    AesGcm.compute_tag AesGcm.seal AesGcm.encrypt AesGcm.open_sealed AesGcm.decrypt ChaCha.rotl32
    ChaCha.load32 ChaCha.quarter_round ChaCha.double_round ChaCha.double_rounds ChaCha.initial_words
    ChaCha.store_sums ChaCha.chacha_block ChaCha.chacha_loop ChaCha.chacha_xor Poly1305.init_r
    Poly1305.add_block Poly1305.products Poly1305.carry Poly1305.blocks Poly1305.settle
    Poly1305.reduce Poly1305.store_words Poly1305.put_out Poly1305.finish Poly1305.auth
    ChaChaPoly.mac_data ChaChaPoly.aead_poly1305 ChaChaPoly.seal ChaChaPoly.encrypt
    ChaChaPoly.open_sealed ChaChaPoly.decrypt OnChip.increment_loop OnChip.cbc_encrypt_loop
    OnChip.aes128_cbc_encrypt OnChip.cbc_decrypt_loop OnChip.aes128_cbc_decrypt OnChip.ctr_loop
    OnChip.aes128_ctr OnChip.on_chip Hash.random Hash.sha256 Hash.sha256_message Hash.hkdf_sha256
    Hash.hmac_sha256 Hash.hkdf_message Hash.hmac_message Hash.sha384 Hash.sha512 Hash.sha384_message
    Hash.sha512_message Cipher.aes_cbc_encrypt Cipher.aes_cbc_decrypt Cipher.aes_ctr
    Cipher.aes_cbc_seal Cipher.aes_cbc_open Cipher.aes_ctr_transform Sealed.aes_gcm_encrypt
    Sealed.aes_gcm_decrypt Sealed.aes_gcm_seal Sealed.aes_gcm_open Sealed.chacha_poly_encrypt
    Sealed.chacha_poly_decrypt Sealed.chacha_poly_seal Sealed.chacha_poly_open Symmetric.test_sha256
    Symmetric.test_sha512 Symmetric.test_sha384 Symmetric.test_hkdf Symmetric.test_hmac
    Symmetric.test_cbc Symmetric.test_ctr Symmetric.test_gcm Symmetric.test_chacha_poly
    Symmetric.test_random
symmetric_passed = refl
