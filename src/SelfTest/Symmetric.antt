-- ===== src/SelfTest/Symmetric.antt =====
-- The tests of digests, ciphers and random bytes of src/crypto/CryptoSelfTestRunner.cpp.
use arduino_nrf_crypto.Base.{ℕ, suc, zero, List, ◌++◌, Bool, false, if◌then◌else◌, some}
use arduino_nrf_crypto.Base.{
  Option, bytes, null, take, drop, replicate, ◌&&◌, ◌||◌, not, ◌==◌, get_or,
}
use arduino_nrf_crypto.Types.{is_ok}
use arduino_nrf_crypto.Backend.{Backend, Reply, Pointer}
use arduino_nrf_crypto.Engine.{Engine}
use arduino_nrf_crypto.Engine.Hash
use arduino_nrf_crypto.Engine.Hash.{array}
use arduino_nrf_crypto.Engine.Cipher.{aes_cbc_encrypt, aes_cbc_decrypt, aes_ctr}
use arduino_nrf_crypto.Engine.Sealed.{
  aes_gcm_encrypt, aes_gcm_decrypt, chacha_poly_encrypt, chacha_poly_decrypt,
}
use arduino_nrf_crypto.Util.{secure_equal}
use arduino_nrf_crypto.OnChip.{Memory}
use arduino_nrf_crypto.SelfTest.Report.{Bench, pass_fail, skip, wrote, known, known_or_skip}
use arduino_nrf_crypto.SelfTest.Vectors

-- `nonzero |= (buf[i] != 0)`
abbrev pub nonzero : ℕ → List ℕ → Bool
nonzero zero buf = false
nonzero (suc i) buf = nonzero i buf || not (get_or buf i 0 == 0)

module _ {D : Type 0} (active : Option (Backend D)) (m : Memory) where
  abbrev pub engine : Bench D → Engine D
  engine s = record { active = active; device = s.device }

  unfoldable pub test_sha256 : Bench D → Bench D
  test_sha256 s =
      let r = Hash.sha256 (engine s) (bytes Vectors.msg_abc) (some s.buf) in
      known (wrote s r) r.status Vectors.sha256_abc 32

  unfoldable pub test_sha512 : Bench D → Bench D
  test_sha512 s =
      let r = Hash.sha512 (engine s) m.sha512 (bytes Vectors.msg_abc) (some s.buf) in
      known_or_skip (wrote s r) r.status Vectors.sha512_abc 64

  unfoldable pub test_sha384 : Bench D → Bench D
  test_sha384 s =
      let r = Hash.sha384 (engine s) m.sha512 (bytes Vectors.msg_abc) (some s.buf) in
      known_or_skip (wrote s r) r.status Vectors.sha384_abc 48

  -- The calls whose length is that of the output are given the first 32 bytes of `buf`.
  abbrev pub wrote_front : Bench D → Reply D Pointer → Bench D
  wrote_front s r = record s {
    device = r.device;
    buf = array r.out (take 32 s.buf) ++ drop 32 s.buf;
  }

  unfoldable pub test_hkdf : Bench D → Bench D
  test_hkdf s =
      let r =
        Hash.hkdf_sha256 (engine s) m.sha256 (bytes Vectors.hkdf_ikm) (bytes Vectors.hkdf_salt)
          (bytes Vectors.hkdf_info) (some (take 32 s.buf)) in
      known_or_skip (wrote_front s r) r.status Vectors.hkdf_okm 32

  unfoldable pub test_hmac : Bench D → Bench D
  test_hmac s =
      let r =
        Hash.hmac_sha256 (engine s) m.sha256 (bytes Vectors.hmac_key) (bytes Vectors.hmac_msg)
          (some s.buf) in
      known (wrote s r) r.status Vectors.hmac_mac 32

  unfoldable pub test_cbc : Bench D → Bench D
  test_cbc s =
      let e =
        aes_cbc_encrypt (engine s) (some Vectors.aes_key) (some Vectors.cbc_iv)
          (bytes Vectors.cbc_pt) (some s.buf) in
      let s1 = wrote s e in
      let s2 = pass_fail (secure_equal (some s1.buf) (some Vectors.cbc_ct) 32) s1 in
      let d =
        aes_cbc_decrypt (engine s2) (some Vectors.aes_key) (some Vectors.cbc_iv)
          (bytes Vectors.cbc_ct) (some s2.buf2) in
      let s3 = record s2 { device = d.device; buf2 = array d.out s2.buf2 } in
      if is_ok e.status
      then (if is_ok d.status
          then pass_fail (secure_equal (some s3.buf2) (some Vectors.cbc_pt) 32) s3
          else skip s3)
      else skip s1

  unfoldable pub test_ctr : Bench D → Bench D
  test_ctr s =
      let r =
        aes_ctr (engine s) (some Vectors.aes_key) (some Vectors.ctr_iv) (bytes Vectors.cbc_pt)
          (some s.buf) in
      let s1 = wrote s r in
      if is_ok r.status
      then pass_fail (secure_equal (some s1.buf) (some Vectors.ctr_ct) 32) s1
      else skip s1

  -- What the two AEAD tests do with the answers of encrypt and decrypt.
  abbrev pub sealed_test :
      Bench D
      → Reply D (Pointer × Pointer)
      → (Bench D → Reply D Pointer)
      → List ℕ
      → List ℕ
      → List ℕ
      → ℕ
      → Bench D
  sealed_test s e decrypt cipher tag plain n =
      let s1 = record s {
        device = e.device;
        buf = array e.out.0 s.buf;
        tag = array e.out.1 s.tag;
      } in
      let good =
        secure_equal (some s1.buf) (some cipher) n && secure_equal (some s1.tag) (some tag) 16 in
      let s2 = pass_fail good s1 in
      let d = decrypt s2 in
      let s3 = record s2 { device = d.device; buf2 = array d.out s2.buf2 } in
      if is_ok e.status
      then pass_fail (is_ok d.status && secure_equal (some s3.buf2) (some plain) n) s3
      else skip (skip s1)

  unfoldable pub test_gcm : Bench D → Bench D
  test_gcm s =
      sealed_test s
        (aes_gcm_encrypt (engine s) (some Vectors.gcm_key) (some Vectors.gcm_iv) (null 0)
          (bytes Vectors.gcm_pt) (some s.buf) (some s.tag))
        (λ t.
          aes_gcm_decrypt (engine t) (some Vectors.gcm_key) (some Vectors.gcm_iv) (null 0)
            (bytes Vectors.gcm_ct) (some t.buf2) (some Vectors.gcm_tag))
        Vectors.gcm_ct Vectors.gcm_tag Vectors.gcm_pt 64

  unfoldable pub test_chacha_poly : Bench D → Bench D
  test_chacha_poly s =
      sealed_test s
        (chacha_poly_encrypt (engine s) (some Vectors.cha_key) (some Vectors.cha_nonce)
          (bytes Vectors.cha_aad) (bytes Vectors.cha_pt) (some s.buf) (some s.tag))
        (λ t.
          chacha_poly_decrypt (engine t) (some Vectors.cha_key) (some Vectors.cha_nonce)
            (bytes Vectors.cha_aad) (bytes Vectors.cha_ct) (some t.buf2) (some Vectors.cha_tag))
        Vectors.cha_ct Vectors.cha_tag Vectors.cha_pt 32

  unfoldable pub test_random : Bench D → Bench D
  test_random s =
      let s0 = record s { buf = replicate 64 0 } in
      let r = Hash.random (engine s0) (some (take 32 s0.buf)) in
      let s1 = wrote_front s0 r in
      if is_ok r.status then pass_fail (nonzero 32 s1.buf) s1 else pass_fail false s1
