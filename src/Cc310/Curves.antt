-- ===== src/Cc310/Curves.antt =====
-- ECDSA, ECDH, X25519 and Ed25519 of src/backends/CC310Backend.cpp.
use arduino_nrf_crypto.Base.{ℕ, List, ◌∷◌, some, Slice, take, drop, write_at, ◌==◌}
use arduino_nrf_crypto.Base.{if◌then◌else◌, not, inl, inr}
use arduino_nrf_crypto.Types.{ok, not_started, bad_param, internal_error, auth_failed}
use arduino_nrf_crypto.Backend.{Reply, Pointer, reply}
use arduino_nrf_crypto.Cc310.Vendor.{Crys}
use arduino_nrf_crypto.Cc310.Device.{Device, bounce_msg, status_of}

-- `raw`: the prefix of an uncompressed point, then X and Y.
abbrev pub uncompressed : List ℕ → List ℕ
uncompressed public = 0x04 ∷ take 64 public

module _ {W C : Type 0} (crys : Crys W C) where
  unfoldable pub ecdsa_p256_generate_key :
      Device W C → List ℕ → List ℕ → Reply (Device W C) (Pointer × Pointer)
  ecdsa_p256_generate_key d priv public =
      let pair = crys.ec_gen_key_pair d.hardware in
      let secret = crys.ec_export_priv pair.hardware pair.value.0 priv in
      let raw = crys.ec_export_public secret.hardware pair.value.1 in
      if not d.started
      then reply not_started (some priv, some public) d
      else if not (pair.error == 0)
      then reply internal_error (some priv, some public) (record d { hardware = pair.hardware })
      else if not (secret.error == 0)
      then reply internal_error (some secret.value, some public)
          (record d { hardware = secret.hardware })
      else if not (raw.error == 0)
      then reply internal_error (some secret.value, some public)
          (record d { hardware = raw.hardware })
      else reply ok (some secret.value, some (write_at public 0 (take 64 (drop 1 raw.value))))
          (record d { hardware = raw.hardware })

  unfoldable pub ecdsa_p256_sign :
      Device W C → List ℕ → List ℕ → List ℕ → Reply (Device W C) Pointer
  ecdsa_p256_sign d priv hash sig =
      let key = crys.ec_build_priv d.hardware (take 32 priv) in
      let signed = crys.ecdsa_sign key.hardware key.value (take 32 hash) sig in
      if not d.started
      then reply not_started (some sig) d
      else if not (key.error == 0)
      then reply bad_param (some sig) (record d { hardware = key.hardware })
      else reply (status_of internal_error signed.error) (some signed.value)
          (record d { hardware = signed.hardware })

  unfoldable pub ecdsa_p256_verify :
      Device W C → List ℕ → List ℕ → List ℕ → Reply (Device W C) (Unit {0})
  ecdsa_p256_verify d public hash sig =
      let key = crys.ec_build_public d.hardware (uncompressed public) in
      let checked = crys.ecdsa_verify key.hardware key.value (take 64 sig) (take 32 hash) in
      if not d.started
      then reply not_started tt d
      else if not (key.error == 0)
      then reply bad_param tt (record d { hardware = key.hardware })
      else reply (status_of auth_failed checked.error) tt (record d { hardware = checked.hardware })

  unfoldable pub ecdh_p256_shared :
      Device W C → List ℕ → List ℕ → List ℕ → Reply (Device W C) Pointer
  ecdh_p256_shared d priv peer shared =
      let theirs = crys.ec_build_public_partly d.hardware (uncompressed peer) in
      let ours = crys.ec_build_priv theirs.hardware (take 32 priv) in
      let r = crys.ecdh ours.hardware theirs.value ours.value shared in
      if not d.started
      then reply not_started (some shared) d
      else if not (theirs.error == 0)
      then reply bad_param (some shared) (record d { hardware = theirs.hardware })
      else if not (ours.error == 0)
      then reply bad_param (some shared) (record d { hardware = ours.hardware })
      else reply (status_of internal_error r.error) (some r.value)
          (record d { hardware = r.hardware })

  unfoldable pub x25519_generate_key :
      Device W C → List ℕ → List ℕ → Reply (Device W C) (Pointer × Pointer)
  x25519_generate_key d priv public =
      let r = crys.mont_key_pair d.hardware public priv in
      if d.started
      then reply (status_of internal_error r.error) (some r.value.1, some r.value.0)
          (record d { hardware = r.hardware })
      else reply not_started (some priv, some public) d

  unfoldable pub x25519_shared : Device W C → List ℕ → List ℕ → List ℕ → Reply (Device W C) Pointer
  x25519_shared d priv peer shared =
      let r = crys.mont_scalarmult d.hardware (take 32 priv) (take 32 peer) shared in
      if d.started
      then reply (status_of internal_error r.error) (some r.value)
          (record d { hardware = r.hardware })
      else reply not_started (some shared) d

  unfoldable pub ed25519_generate_key :
      Device W C → List ℕ → List ℕ → Reply (Device W C) (Pointer × Pointer)
  ed25519_generate_key d secret public =
      let r = crys.edw_key_pair d.hardware secret public in
      if d.started
      then reply (status_of internal_error r.error) (some r.value.0, some r.value.1)
          (record d { hardware = r.hardware })
      else reply not_started (some secret, some public) d

  unfoldable pub ed25519_derive_from_seed :
      Device W C → List ℕ → List ℕ → List ℕ → Reply (Device W C) (Pointer × Pointer)
  ed25519_derive_from_seed d seed secret public =
      let r = crys.edw_seed_key_pair d.hardware (take 32 seed) secret public in
      if d.started
      then reply (status_of internal_error r.error) (some r.value.0, some r.value.1)
          (record d { hardware = r.hardware })
      else reply not_started (some secret, some public) d

  unfoldable pub ed25519_sign : Device W C → List ℕ → Slice → List ℕ → Reply (Device W C) Pointer
  ed25519_sign d secret msg sig =
      if not d.started then reply not_started (some sig) d else elim (bounce_msg crys msg) [
        | inl refused ↦ reply refused (some sig) d
        | inr text ↦
            (let r = crys.edw_sign d.hardware sig text (take 64 secret) in
              reply (status_of internal_error r.error) (some r.value)
                (record d { hardware = r.hardware }))
      ]

  unfoldable pub ed25519_verify :
      Device W C → List ℕ → Slice → List ℕ → Reply (Device W C) (Unit {0})
  ed25519_verify d public msg sig =
      if not d.started then reply not_started tt d else elim (bounce_msg crys msg) [
        | inl refused ↦ reply refused tt d
        | inr text ↦
            (let r = crys.edw_verify d.hardware (take 64 sig) (take 32 public) text in
              reply (status_of auth_failed r.error) tt (record d { hardware = r.hardware }))
      ]
