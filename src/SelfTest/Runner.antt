-- ===== src/SelfTest/Runner.antt =====
-- `runCryptoSelfTests` of src/crypto/CryptoSelfTestRunner.cpp.
use arduino_nrf_crypto.Base.{ℕ, List, Option}
use arduino_nrf_crypto.Backend.{Backend}
use arduino_nrf_crypto.Engine.{Engine}
use arduino_nrf_crypto.OnChip.{Memory}
use arduino_nrf_crypto.SelfTest.Report.{Bench, Report}
use arduino_nrf_crypto.SelfTest.Symmetric
use arduino_nrf_crypto.SelfTest.Curves

-- The bench before the first test: no test counted, the three arrays not initialized.
abbrev pub blank : {D : Type 0} → (ℕ → List ℕ) → D → Bench D
blank stack d = record {
  report = record { passed = 0; failed = 0; skipped = 0 };
  device = d;
  buf = stack 64;
  buf2 = stack 64;
  tag = stack 16;
}

module _ {D : Type 0} (active : Option (Backend D)) (m : Memory) where
  unfoldable pub run_symmetric : Bench D → Bench D
  run_symmetric s =
      let digests = Symmetric.test_hmac active m (
        Symmetric.test_hkdf active m (
          Symmetric.test_sha384 active m
            (Symmetric.test_sha512 active m (Symmetric.test_sha256 active m s)))) in
      Symmetric.test_chacha_poly active m (
        Symmetric.test_gcm active m
          (Symmetric.test_ctr active m (Symmetric.test_cbc active m digests)))

module _ {D : Type 0} (active : Option (Backend D)) (stack : ℕ → List ℕ) where
  unfoldable pub run_public_key : Bench D → Bench D
  run_public_key s =
      let curves = Curves.test_x25519 active stack (
        Curves.test_ecdh active stack
          (Curves.test_ecdsa_packet active stack (Curves.test_ecdsa active stack s))) in
      Curves.test_ed25519_packet active stack (
        Curves.test_ed25519 active stack
          (Curves.test_ed25519_known active stack (Curves.test_rsa active stack curves)))

unfoldable pub run_self_tests :
    {D : Type 0} → Option (Backend D) → Memory → (ℕ → List ℕ) → Bench D → Bench D
unfolding run_symmetric run_public_key
run_self_tests active m stack s =
    Symmetric.test_random active m (run_public_key active stack (run_symmetric active m s))

-- `runSelfTest`
unfoldable pub run_self_test : {D : Type 0} → Memory → (ℕ → List ℕ) → Engine D → Report
unfolding run_self_tests
run_self_test m stack e = (run_self_tests e.active m stack (blank stack e.device)).report
