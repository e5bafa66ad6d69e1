-- ===== src/SelfTest/Count.antt =====
-- How many tests src/crypto/CryptoSelfTestRunner.cpp counts, whatever the backend answers.
use arduino_nrf_crypto.Base.{ℕ, ◌+◌, ◌^◌, ◌<◌, ◌≤◌, List, Bool}
use arduino_nrf_crypto.Base.{Bool-cases, inl, inr, arith, Option, some}
use arduino_nrf_crypto.Backend.{Backend}
use arduino_nrf_crypto.Engine.{Engine}
use arduino_nrf_crypto.OnChip.{Memory}
use arduino_nrf_crypto.SelfTest.Report.{Report, Bench}
use arduino_nrf_crypto.SelfTest.Report.{report_pass_fail}
use arduino_nrf_crypto.Engine.Rsa
use arduino_nrf_crypto.SelfTest.Symmetric
use arduino_nrf_crypto.SelfTest.Curves
use arduino_nrf_crypto.SelfTest.Runner.{
  run_self_test, run_self_tests, run_symmetric, run_public_key, blank,
}
use arduino_nrf_crypto.Types.{RsaKeyPair, is_ok, is_unsupported}

abbrev pub total : Report → ℕ
total r = r.passed + r.failed + r.skipped

one_more :
    (n : ℕ) (r : Report) (good : Bool)
    → n + 2 ≤ total r
    → total r ≤ n + 2
    → n < 2 ^ 13
    → (n + 1 ≤ total (report_pass_fail good r)) × (total (report_pass_fail good r) ≤ n + 3)
one_more n r good p q h = ground (arith)

module _ {D : Type 0} where
  -- Between `low` and `high` tests are counted from one bench to another.
  abbrev pub Adds : ℕ → ℕ → Bench D → Bench D → Type 0
  Adds low high s t =
      (total s.report + low ≤ total t.report) × (total t.report ≤ total s.report + high)

  module _ (active : Option (Backend D)) (m : Memory) (s : Bench D)
      (h : total s.report < 2 ^ 13) where
    test_sha256-Adds : Adds 1 1 s (Symmetric.test_sha256 active m s)
    unfolding Symmetric.test_sha256
    test_sha256-Adds = ground (arith)

    test_sha512-Adds : Adds 1 1 s (Symmetric.test_sha512 active m s)
    unfolding Symmetric.test_sha512
    test_sha512-Adds = ground (arith)

    test_sha384-Adds : Adds 1 1 s (Symmetric.test_sha384 active m s)
    unfolding Symmetric.test_sha384
    test_sha384-Adds = ground (arith)

    test_hkdf-Adds : Adds 1 1 s (Symmetric.test_hkdf active m s)
    unfolding Symmetric.test_hkdf
    test_hkdf-Adds = ground (arith)

    test_hmac-Adds : Adds 1 1 s (Symmetric.test_hmac active m s)
    unfolding Symmetric.test_hmac
    test_hmac-Adds = ground (arith)

    test_cbc-Adds : Adds 1 2 s (Symmetric.test_cbc active m s)
    unfolding Symmetric.test_cbc
    test_cbc-Adds = ground (arith)

    test_ctr-Adds : Adds 1 1 s (Symmetric.test_ctr active m s)
    unfolding Symmetric.test_ctr
    test_ctr-Adds = ground (arith)

    test_gcm-Adds : Adds 2 2 s (Symmetric.test_gcm active m s)
    unfolding Symmetric.test_gcm
    test_gcm-Adds = ground (arith)

    test_chacha_poly-Adds : Adds 2 2 s (Symmetric.test_chacha_poly active m s)
    unfolding Symmetric.test_chacha_poly
    test_chacha_poly-Adds = ground (arith)

    test_random-Adds : Adds 1 1 s (Symmetric.test_random active m s)
    unfolding Symmetric.test_random
    test_random-Adds = ground (arith)

  module _ (active : Option (Backend D)) (stack : ℕ → List ℕ) (s : Bench D)
      (h : total s.report < 2 ^ 13) where
    test_ecdsa-Adds : Adds 1 1 s (Curves.test_ecdsa active stack s)
    unfolding Curves.test_ecdsa
    test_ecdsa-Adds = ground (arith)

    test_ecdsa_packet-Adds : Adds 1 1 s (Curves.test_ecdsa_packet active stack s)
    unfolding Curves.test_ecdsa_packet
    test_ecdsa_packet-Adds = ground (arith)

    test_ecdh-Adds : Adds 1 1 s (Curves.test_ecdh active stack s)
    unfolding Curves.test_ecdh
    test_ecdh-Adds = ground (arith)

    test_x25519-Adds : Adds 1 1 s (Curves.test_x25519 active stack s)
    unfolding Curves.test_x25519
    test_x25519-Adds = ground (arith)

    test_rsa_key-Adds :
        (key : Option RsaKeyPair) → Adds 2 2 s (Curves.test_rsa_key active stack s key)
    unfolding Curves.test_rsa_key
    test_rsa_key-Adds key = ground (arith)

    test_ed25519_known-Adds : Adds 1 1 s (Curves.test_ed25519_known active stack s)
    unfolding Curves.test_ed25519_known
    test_ed25519_known-Adds = ground (arith)

    test_ed25519-Adds : Adds 1 1 s (Curves.test_ed25519 active stack s)
    unfolding Curves.test_ed25519
    test_ed25519-Adds = ground (arith)

    test_ed25519_packet-Adds : Adds 1 1 s (Curves.test_ed25519_packet active stack s)
    unfolding Curves.test_ed25519_packet
    test_ed25519_packet-Adds = ground (arith)

  test_rsa-Adds :
      (active : Option (Backend D)) (stack : ℕ → List ℕ) (s : Bench D)
      → total s.report < 2 ^ 13
      → Adds 1 3 s (Curves.test_rsa active stack s)
  unfolding Curves.test_rsa
  test_rsa-Adds active stack s h =
      let e : Engine D = record { active = active; device = s.device } in
      let g = Rsa.rsa_generate_key_pair e (some (Curves.no_key active stack)) in
      let made = Curves.test_rsa_key active stack (record s { device = g.device }) g.out in
      let used = test_rsa_key-Adds active stack (record s { device = g.device }) h g.out in
      elim (Bool-cases (is_ok g.status)) [
        | inl e ↦ rw e (one_more (total s.report) made.report _ used.0 used.1 h)
        | inr e ↦ elim (Bool-cases (is_unsupported g.status)) [
          | inl f ↦ rw (e, f) (omega arith, omega arith)
          | inr f ↦ rw (e, f) (omega arith, omega arith)
        ]
      ]

  symmetric-Adds :
      (active : Option (Backend D)) (m : Memory) (s : Bench D)
      → total s.report < 2 ^ 12
      → Adds 11 12 s (run_symmetric active m s)
  unfolding run_symmetric
  symmetric-Adds active m s h =
      let s1 = Symmetric.test_sha256 active m s in
      let a1 = test_sha256-Adds active m s (omega arith) in
      let s2 = Symmetric.test_sha512 active m s1 in
      let a2 = test_sha512-Adds active m s1 (omega (arith, a1)) in
      let s3 = Symmetric.test_sha384 active m s2 in
      let a3 = test_sha384-Adds active m s2 (omega (arith, a1, a2)) in
      let s4 = Symmetric.test_hkdf active m s3 in
      let a4 = test_hkdf-Adds active m s3 (omega (arith, a1, a2, a3)) in
      let s5 = Symmetric.test_hmac active m s4 in
      let a5 = test_hmac-Adds active m s4 (omega (arith, a1, a2, a3, a4)) in
      let s6 = Symmetric.test_cbc active m s5 in
      let a6 = test_cbc-Adds active m s5 (omega (arith, a1, a2, a3, a4, a5)) in
      let s7 = Symmetric.test_ctr active m s6 in
      let a7 = test_ctr-Adds active m s6 (omega (arith, a1, a2, a3, a4, a5, a6)) in
      let s8 = Symmetric.test_gcm active m s7 in
      let a8 = test_gcm-Adds active m s7 (omega (arith, a1, a2, a3, a4, a5, a6, a7)) in
      let a9 = test_chacha_poly-Adds active m s8 (omega (arith, a1, a2, a3, a4, a5, a6, a7, a8)) in
      omega (arith, a1, a2, a3, a4, a5, a6, a7, a8, a9)

  public_key-Adds :
      (active : Option (Backend D)) (stack : ℕ → List ℕ) (s : Bench D)
      → total s.report < 2 ^ 12
      → Adds 8 10 s (run_public_key active stack s)
  unfolding run_public_key
  public_key-Adds active stack s h =
      let s1 = Curves.test_ecdsa active stack s in
      let a1 = test_ecdsa-Adds active stack s (omega arith) in
      let s2 = Curves.test_ecdsa_packet active stack s1 in
      let a2 = test_ecdsa_packet-Adds active stack s1 (omega (arith, a1)) in
      let s3 = Curves.test_ecdh active stack s2 in
      let a3 = test_ecdh-Adds active stack s2 (omega (arith, a1, a2)) in
      let s4 = Curves.test_x25519 active stack s3 in
      let a4 = test_x25519-Adds active stack s3 (omega (arith, a1, a2, a3)) in
      let s5 = Curves.test_rsa active stack s4 in
      let a5 = test_rsa-Adds active stack s4 (omega (arith, a1, a2, a3, a4)) in
      let s6 = Curves.test_ed25519_known active stack s5 in
      let a6 = test_ed25519_known-Adds active stack s5 (omega (arith, a1, a2, a3, a4, a5)) in
      let s7 = Curves.test_ed25519 active stack s6 in
      let a7 = test_ed25519-Adds active stack s6 (omega (arith, a1, a2, a3, a4, a5, a6)) in
      let a8 =
        test_ed25519_packet-Adds active stack s7 (omega (arith, a1, a2, a3, a4, a5, a6, a7)) in
      omega (arith, a1, a2, a3, a4, a5, a6, a7, a8)

-- Whatever backend is active, if any, and whatever it answers, a report counts from 20 to 23 tests that
-- are passed, failed or skipped.
pub run_self_test-total :
    {D : Type 0} (m : Memory) (stack : ℕ → List ℕ) (e : Engine D)
    → (20 ≤ total (run_self_test m stack e)) × (total (run_self_test m stack e) ≤ 23)
unfolding run_self_test run_self_tests
run_self_test-total m stack e =
    let s = blank stack e.device in
    let s1 = run_symmetric e.active m s in
    let a1 = symmetric-Adds e.active m s (omega arith) in
    let s2 = run_public_key e.active stack s1 in
    let a2 = public_key-Adds e.active stack s1 (omega (arith, a1)) in
    let a3 = test_random-Adds e.active m s2 (omega (arith, a1, a2)) in
    (omega (arith, a1, a2, a3), omega (arith, a1, a2, a3))
