-- ===== src/Engine/Curve.antt =====
-- src/crypto/CryptoEngine.cpp: ECDSA and ECDH on P-256, X25519 and Ed25519; CryptoPackets.h: their packets.
--
-- `hash`, `secret` and `public` are what the stack holds where the calls have local arrays.
use arduino_nrf_crypto.Base.{ℕ, List, Bool, not, none, some, Slice, if◌then◌else◌}
use arduino_nrf_crypto.Util.{is_missing}
use arduino_nrf_crypto.Types.{is_ok}
use arduino_nrf_crypto.Backend.{Reply, Pointer, reply}
use arduino_nrf_crypto.Engine.{Engine, guarded, checked, with_out, ◌>>=◌, ◌>>◌, require}
use arduino_nrf_crypto.Engine.Hash.{array, sha256}

pub record EcdsaMessage : Type 0 where
  pub private_key : List ℕ
  pub public_key : List ℕ
  pub payload : Slice
  pub hash_override : Pointer
  pub signature : List ℕ

pub record Ed25519Message : Type 0 where
  pub secret : List ℕ
  pub public_key : List ℕ
  pub use_seed : Bool
  pub seed : List ℕ
  pub payload : Slice
  pub signature : List ℕ

pub record X25519Message : Type 0 where
  pub private_key : List ℕ
  pub public_key : List ℕ
  pub peer_public_key : List ℕ
  pub shared_secret : List ℕ

module _ {D : Type 0} (e : Engine D) where
  -- The engine after a call.
  abbrev pub after : {A : Type 0} → Reply D A → Engine D
  after r = record e { device = r.device }

  unfoldable pub ecdsa_generate_key : Pointer → Pointer → Reply D (Pointer × Pointer)
  ecdsa_generate_key priv public =
      guarded e (priv, public)
        (λ b d.
          checked (priv, public) d
            (do k ← priv; p ← public; some (b.ecdsa_p256_generate_key d k p)))

  unfoldable pub ecdsa_sign : Pointer → Pointer → Pointer → Reply D Pointer
  ecdsa_sign priv hash sig =
      guarded e sig
        (λ b d. checked sig d (do k ← priv; h ← hash; s ← sig; some (b.ecdsa_p256_sign d k h s)))

  unfoldable pub ecdsa_verify : Pointer → Pointer → Pointer → Reply D (Unit {0})
  ecdsa_verify public hash sig =
      guarded e tt
        (λ b d. checked tt d (do p ← public; h ← hash; s ← sig; some (b.ecdsa_p256_verify d p h s)))

  unfoldable pub ecdsa_generate_key_message : EcdsaMessage → Reply D EcdsaMessage
  ecdsa_generate_key_message msg =
      with_out (ecdsa_generate_key (some msg.private_key) (some msg.public_key)) (λ o. record msg {
        private_key = array o.0 msg.private_key;
        public_key = array o.1 msg.public_key;
      })

  unfoldable pub ecdh_shared : Pointer → Pointer → Pointer → Reply D Pointer
  ecdh_shared priv peer shared = guarded e shared (λ b d.
      checked shared d (do k ← priv; p ← peer; s ← shared; some (b.ecdh_p256_shared d k p s)))

  unfoldable pub x25519_generate_key : Pointer → Pointer → Reply D (Pointer × Pointer)
  x25519_generate_key priv public =
      guarded e (priv, public)
        (λ b d.
          checked (priv, public) d (do k ← priv; p ← public; some (b.x25519_generate_key d k p)))

  unfoldable pub x25519_shared : Pointer → Pointer → Pointer → Reply D Pointer
  x25519_shared priv peer shared =
      guarded e shared (λ b d.
        checked shared d (do k ← priv; p ← peer; s ← shared; some (b.x25519_shared d k p s)))

  unfoldable pub x25519_generate_key_message : X25519Message → Reply D X25519Message
  x25519_generate_key_message msg =
      with_out (x25519_generate_key (some msg.private_key) (some msg.public_key)) (λ o. record msg {
        private_key = array o.0 msg.private_key;
        public_key = array o.1 msg.public_key;
      })

  unfoldable pub x25519_shared_message : X25519Message → Reply D X25519Message
  x25519_shared_message msg =
      with_out
        (x25519_shared (some msg.private_key) (some msg.peer_public_key) (some msg.shared_secret))
        (λ o. record msg { shared_secret = array o msg.shared_secret })

  unfoldable pub ed25519_generate_key : Pointer → Pointer → Reply D (Pointer × Pointer)
  ed25519_generate_key secret public =
      guarded e (secret, public)
        (λ b d.
          checked (secret, public) d
            (do s ← secret; p ← public; some (b.ed25519_generate_key d s p)))

  unfoldable pub ed25519_derive_from_seed :
      Pointer → Pointer → Pointer → Reply D (Pointer × Pointer)
  ed25519_derive_from_seed seed secret public =
      guarded e (secret, public)
        (λ b d.
          checked (secret, public) d
            (do k ← seed; s ← secret; p ← public; some (b.ed25519_derive_from_seed d k s p)))

  unfoldable pub ed25519_sign : Pointer → Slice → Pointer → Reply D Pointer
  ed25519_sign secret msg sig = guarded e sig (λ b d.
      checked sig d
        (do k ← secret; s ← sig; require (not (is_missing msg)); some (b.ed25519_sign d k msg s)))

  unfoldable pub ed25519_verify : Pointer → Slice → Pointer → Reply D (Unit {0})
  ed25519_verify public msg sig = guarded e tt (λ b d.
      checked tt d
        (do p ← public; s ← sig; require (not (is_missing msg)); some (b.ed25519_verify d p msg s)))

  unfoldable pub ed25519_generate_key_message : Ed25519Message → Reply D Ed25519Message
  ed25519_generate_key_message msg =
      with_out (ed25519_generate_key (some msg.secret) (some msg.public_key))
        (λ o. record msg { secret = array o.0 msg.secret; public_key = array o.1 msg.public_key })

  unfoldable pub ed25519_verify_message : Ed25519Message → Reply D (Unit {0})
  ed25519_verify_message msg = ed25519_verify (some msg.public_key) msg.payload (some msg.signature)

-- The calls of two steps: the second runs on the device that the first leaves.
module _ {D : Type 0} (hash : List ℕ) (e : Engine D) where
  unfoldable pub ecdsa_sign_message : Pointer → Slice → Pointer → Reply D Pointer
  ecdsa_sign_message priv msg sig = guarded e sig (λ b d. checked sig d (do
    k ← priv
    s ← sig
    require (not (is_missing msg))
    let hs = sha256 e msg (some hash)
    some (
        if is_ok hs.status
        then ecdsa_sign (after e hs) priv hs.out sig
        else reply hs.status sig hs.device)))

  unfoldable pub ecdsa_verify_message : Pointer → Slice → Pointer → Reply D (Unit {0})
  ecdsa_verify_message public msg sig = guarded e tt (λ b d. checked tt d (do
    p ← public
    s ← sig
    require (not (is_missing msg))
    let hs = sha256 e msg (some hash)
    some (
        if is_ok hs.status
        then ecdsa_verify (after e hs) public hs.out sig
        else reply hs.status tt hs.device)))

  -- The packets' calls: a digest that is given, or that of the payload.
  unfoldable pub ecdsa_sign_packet : EcdsaMessage → Reply D EcdsaMessage
  ecdsa_sign_packet msg =
      with_out
        (elim msg.hash_override [
          | none ↦ ecdsa_sign_message (some msg.private_key) msg.payload (some msg.signature)
          | some h ↦ ecdsa_sign e (some msg.private_key) (some h) (some msg.signature)
        ])
        (λ o. record msg { signature = array o msg.signature })

  unfoldable pub ecdsa_verify_packet : EcdsaMessage → Reply D (Unit {0})
  ecdsa_verify_packet msg = elim msg.hash_override [
    | none ↦ ecdsa_verify_message (some msg.public_key) msg.payload (some msg.signature)
    | some h ↦ ecdsa_verify e (some msg.public_key) (some h) (some msg.signature)
  ]

module _ {D : Type 0} (secret public : List ℕ) (e : Engine D) where
  unfoldable pub ed25519_sign_from_seed : Pointer → Slice → Pointer → Reply D Pointer
  ed25519_sign_from_seed seed msg sig = guarded e sig (λ b d. checked sig d (do
    k ← seed
    s ← sig
    require (not (is_missing msg))
    let ds = ed25519_derive_from_seed e seed (some secret) (some public)
    some (
        if is_ok ds.status
        then ed25519_sign (after e ds) ds.out.0 msg sig
        else reply ds.status sig ds.device)))

  unfoldable pub ed25519_sign_packet : Ed25519Message → Reply D Ed25519Message
  ed25519_sign_packet msg =
      with_out
        (if msg.use_seed
          then ed25519_sign_from_seed (some msg.seed) msg.payload (some msg.signature)
          else ed25519_sign e (some msg.secret) msg.payload (some msg.signature))
        (λ o. record msg { signature = array o msg.signature })
