-- ===== src/SelfTest/Curves.antt =====
-- The public-key tests of src/crypto/CryptoSelfTestRunner.cpp.
use arduino_nrf_crypto.Base.{ℕ, List, Bool, false, if◌then◌else◌, some, none}
use arduino_nrf_crypto.Base.{Option, bytes, null, replicate, ◌&&◌, not, get_or, set, bit_xor, u8}
use arduino_nrf_crypto.Types.{is_ok, is_unsupported, is_valid_key, RsaKeyPair}
use arduino_nrf_crypto.Types.{rsa_invalid_slot}
use arduino_nrf_crypto.Backend.{Backend, Reply, Pointer}
use arduino_nrf_crypto.Engine.{Engine}
use arduino_nrf_crypto.Engine.Hash.{sha256, array}
use arduino_nrf_crypto.Engine.Curve
use arduino_nrf_crypto.Engine.Curve.{EcdsaMessage, Ed25519Message}
use arduino_nrf_crypto.Engine.Rsa
use arduino_nrf_crypto.Util.{secure_equal}
use arduino_nrf_crypto.SelfTest.Report.{Bench, pass_fail, skip}
use arduino_nrf_crypto.SelfTest.Vectors

-- `sig[0] ^= 0x01;`
abbrev pub tampered : List ℕ → List ℕ
tampered sig = set sig 0 (u8 (bit_xor (get_or sig 0 0) 0x01))

-- `stack n` is what an array of `n` bytes that is not initialized holds.
module _ {D : Type 0} (active : Option (Backend D)) (stack : ℕ → List ℕ) where
  abbrev pub on : D → Engine D
  on d = record { active = active; device = d }

  abbrev pub at_device : Bench D → D → Bench D
  at_device s d = record s { device = d }

  unfoldable pub test_ecdsa : Bench D → Bench D
  test_ecdsa s =
      let g = Curve.ecdsa_generate_key (on s.device) (some (stack 32)) (some (stack 64)) in
      let h = sha256 (on g.device) (bytes Vectors.msg_abc) (some (stack 32)) in
      let n = Curve.ecdsa_sign (on h.device) g.out.0 h.out (some (stack 64)) in
      let v = Curve.ecdsa_verify (on n.device) g.out.1 h.out n.out in
      let bad = some (tampered (array n.out (stack 64))) in
      let w = Curve.ecdsa_verify (on v.device) g.out.1 h.out bad in
      if is_ok g.status
      then (if is_ok n.status
          then pass_fail (is_ok v.status && not (is_ok w.status)) (at_device s w.device)
          else skip (at_device s n.device))
      else skip (at_device s g.device)

  -- A packet as it is declared, with a payload.
  abbrev pub ecdsa_packet : EcdsaMessage
  ecdsa_packet = record {
    private_key = replicate 32 0;
    public_key = replicate 64 0;
    payload = bytes Vectors.msg_abc;
    hash_override = none;
    signature = replicate 64 0;
  }

  unfoldable pub test_ecdsa_packet : Bench D → Bench D
  test_ecdsa_packet s =
      let g = Curve.ecdsa_generate_key_message (on s.device) ecdsa_packet in
      let n = Curve.ecdsa_sign_packet (stack 32) (on g.device) g.out in
      let v = Curve.ecdsa_verify_packet (stack 32) (on n.device) n.out in
      if is_ok g.status
      then (if is_ok n.status
          then pass_fail (is_ok v.status) (at_device s v.device)
          else pass_fail false (at_device s n.device))
      else skip (at_device s g.device)

  -- Two key pairs, two shared secrets: what the tests of ECDH and X25519 share.
  abbrev pub agreement :
      (D → Reply D (Pointer × Pointer))
      → (D → Pointer → Pointer → Reply D Pointer)
      → Bench D
      → Bench D
  agreement generate shared s =
      let a = generate s.device in
      let b = generate a.device in
      let ab = shared b.device a.out.0 b.out.1 in
      let ba = shared ab.device b.out.0 a.out.1 in
      if is_ok a.status && is_ok b.status
      then (if is_ok ab.status && is_ok ba.status
          then pass_fail (secure_equal ab.out ba.out 32) (at_device s ba.device)
          else skip (at_device s ba.device))
      else skip (at_device s b.device)

  unfoldable pub test_ecdh : Bench D → Bench D
  test_ecdh s =
      agreement (λ d. Curve.ecdsa_generate_key (on d) (some (stack 32)) (some (stack 64)))
        (λ d priv peer. Curve.ecdh_shared (on d) priv peer (some (stack 32))) s

  unfoldable pub test_x25519 : Bench D → Bench D
  test_x25519 s =
      agreement (λ d. Curve.x25519_generate_key (on d) (some (stack 32)) (some (stack 32)))
        (λ d priv peer. Curve.x25519_shared (on d) priv peer (some (stack 32))) s

  -- A handle and a public key as they are declared.
  abbrev pub no_key : RsaKeyPair
  no_key = record {
    slot = rsa_invalid_slot;
    public = record { modulus = stack 256; exponent = stack 4; mod_len = 0; exp_len = 0 };
  }

  -- The tests of a key that was generated, up to its release.
  unfoldable pub test_rsa_key : Bench D → Option RsaKeyPair → Bench D
  test_rsa_key s key =
      let n =
        Rsa.rsa_sign_with_key_pair (on s.device) key (bytes Vectors.rsa_msg) (some (stack 256)) in
      let v = Rsa.rsa_verify_with_key_pair (on n.device) key (bytes Vectors.rsa_msg) n.out in
      let bad = some (tampered (array n.out (stack 256))) in
      let w = Rsa.rsa_verify_with_key_pair (on v.device) key (bytes Vectors.rsa_msg) bad in
      let s1 = pass_fail (is_ok v.status && not (is_ok w.status)) (at_device s w.device) in
      let x = Rsa.rsa_export_public_key (on w.device) key (some no_key.public) in
      let u = Rsa.rsa_verify_with_public_key (on x.device) x.out (bytes Vectors.rsa_msg) n.out in
      if is_ok n.status
      then (if is_ok x.status
          then pass_fail (is_ok u.status) (at_device s1 u.device)
          else pass_fail false (at_device s1 x.device))
      else skip (skip (at_device s n.device))

  abbrev pub still_valid : Option RsaKeyPair → Bool
  still_valid none = false
  still_valid (some key) = is_valid_key key

  unfoldable pub test_rsa : Bench D → Bench D
  unfolding test_rsa_key
  test_rsa s =
      let g = Rsa.rsa_generate_key_pair (on s.device) (some no_key) in
      let s1 = test_rsa_key (at_device s g.device) g.out in
      let l = Rsa.rsa_release_key_pair (on s1.device) g.out in
      let a = Rsa.rsa_generate_key_pair (on l.device) (some no_key) in
      let f = Rsa.rsa_release_key_pair (on a.device) a.out in
      let last = if is_ok a.status then f.device else a.device in
      let again = (is_ok l.status && not (still_valid l.out)) && is_ok a.status in
      if is_ok g.status
      then pass_fail again (at_device s1 last)
      else if is_unsupported g.status
      then skip (skip (skip (at_device s g.device)))
      else pass_fail false (at_device s g.device)

  unfoldable pub test_ed25519_known : Bench D → Bench D
  test_ed25519_known s =
      let k =
        Curve.ed25519_derive_from_seed (on s.device) (some Vectors.ed_seed) (some (stack 64))
          (some (stack 32)) in
      let v =
        Curve.ed25519_verify (on k.device) (some Vectors.ed_pub) (null 0) (some Vectors.ed_sig) in
      let n = Curve.ed25519_sign (on v.device) k.out.0 (null 0) (some (stack 64)) in
      let same = is_ok n.status && secure_equal n.out (some Vectors.ed_sig) 64 in
      let w = Curve.ed25519_verify (on n.device) k.out.1 (null 0) n.out in
      let signed = same && is_ok w.status in
      let good = secure_equal k.out.1 (some Vectors.ed_pub) 32 && is_ok v.status in
      if is_ok k.status
      then pass_fail (good && signed) (at_device s (if same then w.device else n.device))
      else if is_unsupported k.status
      then skip (at_device s k.device)
      else pass_fail false (at_device s k.device)

  unfoldable pub test_ed25519 : Bench D → Bench D
  test_ed25519 s =
      let g = Curve.ed25519_generate_key (on s.device) (some (stack 64)) (some (stack 32)) in
      let n = Curve.ed25519_sign (on g.device) g.out.0 (bytes Vectors.ed_msg) (some (stack 64)) in
      let v = Curve.ed25519_verify (on n.device) g.out.1 (bytes Vectors.ed_msg) n.out in
      let bad = some (tampered (array n.out (stack 64))) in
      let w = Curve.ed25519_verify (on v.device) g.out.1 (bytes Vectors.ed_msg) bad in
      if is_ok g.status
      then (if is_ok n.status
          then pass_fail (is_ok v.status && not (is_ok w.status)) (at_device s w.device)
          else skip (at_device s n.device))
      else skip (at_device s g.device)

  abbrev pub ed25519_packet : Ed25519Message
  ed25519_packet = record {
    secret = replicate 64 0;
    public_key = replicate 32 0;
    use_seed = false;
    seed = replicate 32 0;
    payload = bytes Vectors.ed_msg;
    signature = replicate 64 0;
  }

  unfoldable pub test_ed25519_packet : Bench D → Bench D
  test_ed25519_packet s =
      let g = Curve.ed25519_generate_key_message (on s.device) ed25519_packet in
      let n = Curve.ed25519_sign_packet (stack 64) (stack 32) (on g.device) g.out in
      let v = Curve.ed25519_verify_message (on n.device) n.out in
      if is_ok g.status
      then (if is_ok n.status
          then pass_fail (is_ok v.status) (at_device s v.device)
          else pass_fail false (at_device s n.device))
      else skip (at_device s g.device)
