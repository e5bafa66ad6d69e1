-- ===== src/Engine.antt =====
-- src/crypto/CryptoEngine.cpp and .h: which backend is active, and the guards of every call. The calls
-- themselves are in the children.
--
-- `backend_` is none or the backend that it points to. A call changes nothing of the engine but the
-- device, which its `Reply` holds.
pub mod Hash
pub mod Context
pub mod Cipher
pub mod Sealed
pub mod Curve
pub mod Rsa
pub mod Selection
pub mod Guards
pub mod Served
pub mod Fallback
pub mod Streaming
pub mod Protected
pub mod KeyHandle
use arduino_nrf_crypto.Base.{ℕ, List, Bool, true, false, Option, none, some, Slice, null, bytes}
use arduino_nrf_crypto.Base.{if◌then◌else◌}
use arduino_nrf_crypto.Types.{Status, not_started, bad_param, is_unsupported, ok, Capability}
use arduino_nrf_crypto.Backend.{Backend, Reply, Pointer, reply}
use Prim.Native.String.{String}

-- `Prefer`; `any` is `Auto`.
pub data Prefer : Type 0 where
  any : Prefer
  cc310 : Prefer
  on_chip : Prefer

pub record Engine (D : Type 0) : Type 0 where
  pub active : Option (Backend D)
  pub device : D

module _ {D : Type 0} where
  -- An engine whose active backend is given.
  abbrev pub running : Backend D → D → Engine D
  running b d = record { active = some b; device = d }

  unfoldable pub end : Engine D → Engine D
  end e = elim e.active [ none ↦ e | some b ↦ record { active = none; device = b.end e.device } ]

  -- `if (b.begin()) backend_ = &b`, with the answer.
  unfoldable pub try_backend : Backend D → Engine D → Bool × Engine D
  try_backend b e =
      let r = b.begin e.device in
      (r.0, record { active = if r.0 then some b else e.active; device = r.1 })

  abbrev pub started : Engine D → Bool
  started e = elim e.active [ none ↦ false | some b ↦ true ]

  -- `begin`, given the two backends; it returns whether one is active.
  unfoldable pub begin : Backend D → Backend D → Prefer → Engine D → Engine D
  begin hard soft cc310 e = (try_backend hard (end e)).1
  begin hard soft on_chip e = (try_backend soft (end e)).1
  begin hard soft any e =
      let first = try_backend hard (end e) in
      if first.0 then first.1 else (try_backend soft first.1).1

  abbrev pub backend_name : Engine D → String
  backend_name e = elim e.active [ none ↦ "none" | some b ↦ b.name ]

  abbrev pub is_hardware_accelerated : Engine D → Bool
  is_hardware_accelerated e = elim e.active [ none ↦ false | some b ↦ b.hardware_accelerated ]

  abbrev pub supports : Engine D → Capability → Bool
  supports e Capability.sha256_stream = true
  supports e Capability.sha384_stream = true
  supports e Capability.sha512_stream = true
  supports e cap = elim e.active [ none ↦ false | some b ↦ b.supports_capability e.device cap ]

  -- `NC_GUARD`, then the rest of the call.
  abbrev pub guarded : {A : Type 0} → Engine D → A → (Backend D → D → Reply D A) → Reply D A
  guarded e a call = elim e.active [
    | none ↦ reply not_started a e.device
    | some b ↦ call b e.device
  ]

  -- A call whose checks of its parameters may fail.
  abbrev pub checked : {A : Type 0} → A → D → Option (Reply D A) → Reply D A
  checked a d none = reply bad_param a d
  checked a d (some r) = r

  -- The software takes over what the backend does not support.
  abbrev pub or_software : Reply D Pointer → (List ℕ → List ℕ) → Reply D Pointer
  or_software r software =
      if is_unsupported r.status
      then reply ok (elim r.out [ none ↦ none | some p ↦ some (software p) ]) r.device
      else r

  abbrev pub with_out : {A B : Type 0} → Reply D A → (A → B) → Reply D B
  with_out r f = reply r.status (f r.out) r.device

infixl 5 ◌>>=◌ ◌>>◌
abbrev pub ◌>>=◌ : {A B : Type 0} → Option A → (A → Option B) → Option B
none >>= f = none
(some a) >>= f = f a

abbrev pub ◌>>◌ : {B : Type 0} → Option (Unit {0}) → Option B → Option B
none >> r = none
(some t) >> r = r

-- The checks: a condition; that a slice is not null.
abbrev pub require : Bool → Option (Unit {0})
require true = some tt
require false = none

abbrev pub not_null : Slice → Option (List ℕ)
not_null (null n) = none
not_null (bytes l) = some l
