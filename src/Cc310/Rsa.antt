-- ===== src/Cc310/Rsa.antt =====
-- The RSA key slots of src/backends/CC310Backend.cpp and the methods that use them.
use arduino_nrf_crypto.Base.{ℕ, ◌+◌, List, [], ◌∷◌, Bool, true, false, not}
use arduino_nrf_crypto.Base.{Option, none, some, Slice, take, get_or, set, ◌==◌, ltb}
use arduino_nrf_crypto.Base.{◌||◌, ◌&&◌, if◌then◌else◌, inl, inr}
use arduino_nrf_crypto.Types.{ok, not_started, bad_param, internal_error, auth_failed}
use arduino_nrf_crypto.Types.{RsaPublicKey, RsaKeyPair, RsaPrivateKeyImport, clear_key}
use arduino_nrf_crypto.Backend.{Reply, Pointer, reply}
use arduino_nrf_crypto.Cc310.Vendor.{Crys, Call, KeyMaterial}
use arduino_nrf_crypto.Cc310.Device.{Device, Slot, empty_slot, bounce_msg, status_of, record_crys}

-- The guards of `rsaImportKeyPair` on its material.
abbrev pub material_empty : RsaPrivateKeyImport → Bool
material_empty material =
    (material.mod_len == 0) || ((material.priv_exp_len == 0) || (material.pub_exp_len == 0))

abbrev pub material_too_long : RsaPrivateKeyImport → Bool
material_too_long material =
    ltb 256 material.mod_len || (ltb 256 material.priv_exp_len || ltb 4 material.pub_exp_len)

module _ {W C : Type 0} (crys : Crys W C) where
  abbrev pub slot_at : List (Slot C) → ℕ → Slot C
  slot_at slots i = get_or slots i (empty_slot crys)

  -- `rsaSlotValid`; a slot that is out of bounds is not ready.
  abbrev pub slot_valid : List (Slot C) → ℕ → Bool
  slot_valid slots i = (slot_at slots i).ready

  -- The loop of `rsaAllocSlot`, from slot `i` on.
  abbrev pub alloc_from : ℕ → List (Slot C) → Option ℕ
  alloc_from i [] = none
  alloc_from i (s ∷ slots) = let rest = alloc_from (i + 1) slots in if s.ready then rest else some i

  abbrev pub alloc_slot : List (Slot C) → Option ℕ
  alloc_slot slots = alloc_from 0 slots

  -- `rsaFreeSlot`
  abbrev pub free_slot : List (Slot C) → ℕ → List (Slot C)
  free_slot slots i = set slots i (empty_slot crys)

  -- `rsaExportSlotPub`
  unfoldable pub export_slot_public :
      Device W C → ℕ → RsaPublicKey → Reply (Device W C) RsaPublicKey
  export_slot_public d i out =
      let r =
        crys.rsa_get_public d.hardware (slot_at d.slots i).keys.public out.exponent out.modulus in
      let d' = record d { hardware = r.hardware } in
      if not (slot_valid d.slots i)
      then reply bad_param out d
      else if r.error == 0
      then reply ok
          (record {
            modulus = r.value.modulus;
            exponent = r.value.exponent;
            mod_len = r.value.mod_len;
            exp_len = r.value.exp_len;
          })
          d'
      else reply internal_error
          (record out { modulus = r.value.modulus; exponent = r.value.exponent }) d'

  -- `g_rsaSlots[slot].ready = true; key->slot = slot; return rsaExportSlotPub(...)`
  unfoldable pub publish :
      Device W C → ℕ → KeyMaterial C → RsaKeyPair → Reply (Device W C) RsaKeyPair
  unfolding export_slot_public
  publish d i made key =
      let d' = record d { slots = set d.slots i (record { keys = made; ready = true }) } in
      let r = export_slot_public d' i key.public in
      reply r.status (record { slot = i; public = r.out }) r.device

  unfoldable pub rsa_generate_key_pair : Device W C → RsaKeyPair → Reply (Device W C) RsaKeyPair
  unfolding publish
  rsa_generate_key_pair d key =
      if not d.started then reply not_started key d else elim (alloc_slot d.slots) [
        | none ↦ reply internal_error key d
        | some i ↦
            (let r = crys.rsa_generate d.hardware in
              if r.error == 0
              then publish (record d { hardware = r.hardware }) i r.value key
              else reply internal_error key (record d {
                hardware = r.hardware;
                slots = set d.slots i (record { keys = r.value; ready = false });
              }))
      ]

  unfoldable pub rsa_import_key_pair :
      Device W C → RsaKeyPair → RsaPrivateKeyImport → Reply (Device W C) RsaKeyPair
  unfolding publish
  rsa_import_key_pair d key material =
      let modulus = take material.mod_len material.modulus in
      let exponent = take material.pub_exp_len material.public_exponent in
      if not d.started
      then reply not_started key d
      else if material_empty material
      then reply bad_param key d
      else if material_too_long material
      then reply bad_param key d
      else elim (alloc_slot d.slots) [
        | none ↦ reply internal_error key d
        | some i ↦
            (let old = (slot_at d.slots i).keys in
              let e1 =
                crys.rsa_build_priv d.hardware
                  (take material.priv_exp_len material.private_exponent) exponent modulus in
              let e2 = crys.rsa_build_public e1.hardware exponent modulus in
              if (e1.error == 0) && (e2.error == 0)
              then publish (record d { hardware = e2.hardware }) i
                  (record old { priv = e1.value; public = e2.value }) key
              else reply bad_param key (
                  record_crys (if e1.error == 0 then e2.error else e1.error)
                    (record d { hardware = e2.hardware; slots = free_slot d.slots i })))
      ]

  -- The method that no guard of `started_` precedes.
  unfoldable pub rsa_release_key_pair : Device W C → RsaKeyPair → Reply (Device W C) RsaKeyPair
  rsa_release_key_pair d key =
      if slot_valid d.slots key.slot
      then reply ok (clear_key key) (record d { slots = free_slot d.slots key.slot })
      else reply bad_param key d

  unfoldable pub rsa_export_public_key :
      Device W C → RsaKeyPair → RsaPublicKey → Reply (Device W C) RsaPublicKey
  unfolding export_slot_public
  rsa_export_public_key d key out =
      if not d.started then reply not_started out d else export_slot_public d key.slot out

  -- A message for the key of a slot: what is done with it once the guards are passed.
  abbrev pub with_slot :
      {A : Type 0}
      → Device W C
      → ℕ
      → Slice
      → A
      → (KeyMaterial C → List ℕ → Reply (Device W C) A)
      → Reply (Device W C) A
  with_slot d i msg out use_key =
      if not d.started
      then reply not_started out d
      else if not (slot_valid d.slots i)
      then reply bad_param out d
      else elim (bounce_msg crys msg) [
        | inl refused ↦ reply refused out d
        | inr text ↦ use_key (slot_at d.slots i).keys text
      ]

  unfoldable pub rsa_sign_with_key_pair :
      Device W C → RsaKeyPair → Slice → List ℕ → Reply (Device W C) Pointer
  rsa_sign_with_key_pair d key msg sig = with_slot d key.slot msg (some sig) (λ keys text.
      let r = crys.pkcs1_sign d.hardware keys.priv text sig in
      reply (status_of internal_error r.error) (some r.value) (record d { hardware = r.hardware }))

  unfoldable pub rsa_verify_with_key_pair :
      Device W C → RsaKeyPair → Slice → List ℕ → Reply (Device W C) (Unit {0})
  rsa_verify_with_key_pair d key msg sig = with_slot d key.slot msg tt (λ keys text.
      let r = crys.pkcs1_verify d.hardware keys.public text (take 256 sig) in
      reply (status_of auth_failed r.error) tt (record d { hardware = r.hardware }))

  -- The PSS methods find a null key or a null signature, and record the library's errors.
  unfoldable pub rsa_pss_sign_with_key_pair :
      Device W C → Option RsaKeyPair → Slice → Pointer → Reply (Device W C) Pointer
  rsa_pss_sign_with_key_pair d none msg sig =
      reply (if d.started then bad_param else not_started) sig d
  rsa_pss_sign_with_key_pair d (some key) msg none =
      reply (if d.started then bad_param else not_started) none d
  rsa_pss_sign_with_key_pair d (some key) msg (some sig) =
      with_slot d key.slot msg (some sig) (λ keys text.
        let r = crys.pss_sign d.hardware keys.priv text sig in
        reply (status_of internal_error r.error) (some r.value)
          (record_crys r.error (record d { hardware = r.hardware })))

  abbrev pub pss_checked : Device W C → Call W (Unit {0}) → Reply (Device W C) (Unit {0})
  pss_checked d r =
      reply (status_of auth_failed r.error) tt
        (record_crys r.error (record d { hardware = r.hardware }))

  unfoldable pub rsa_pss_verify_with_key_pair :
      Device W C → Option RsaKeyPair → Slice → Pointer → Reply (Device W C) (Unit {0})
  rsa_pss_verify_with_key_pair d none msg sig =
      reply (if d.started then bad_param else not_started) tt d
  rsa_pss_verify_with_key_pair d (some key) msg none =
      reply (if d.started then bad_param else not_started) tt d
  rsa_pss_verify_with_key_pair d (some key) msg (some sig) =
      with_slot d key.slot msg tt
        (λ keys text. pss_checked d (crys.pss_verify d.hardware keys.public text (take 256 sig)))

  -- The guards on a caller's public key.
  abbrev pub public_refused : RsaPublicKey → Bool
  public_refused key =
      ((key.mod_len == 0) || (key.exp_len == 0)) || (ltb 256 key.mod_len || ltb 4 key.exp_len)

  abbrev pub build_public : W → RsaPublicKey → Call W C
  build_public w key =
      crys.rsa_build_public w (take key.exp_len key.exponent) (take key.mod_len key.modulus)

  unfoldable pub rsa_verify_with_public_key :
      Device W C → RsaPublicKey → Slice → List ℕ → Reply (Device W C) (Unit {0})
  rsa_verify_with_public_key d key msg sig =
      let b = build_public d.hardware key in
      let d' = record d { hardware = b.hardware } in
      if not d.started
      then reply not_started tt d
      else if public_refused key
      then reply bad_param tt d
      else if not (b.error == 0)
      then reply bad_param tt d'
      else elim (bounce_msg crys msg) [
        | inl refused ↦ reply refused tt d'
        | inr text ↦
            (let r = crys.pkcs1_verify b.hardware b.value text (take 256 sig) in
              reply (status_of auth_failed r.error) tt (record d { hardware = r.hardware }))
      ]

  unfoldable pub rsa_pss_verify_with_public_key :
      Device W C → Option RsaPublicKey → Slice → Pointer → Reply (Device W C) (Unit {0})
  rsa_pss_verify_with_public_key d none msg sig =
      reply (if d.started then bad_param else not_started) tt d
  rsa_pss_verify_with_public_key d (some key) msg none =
      reply (if d.started then bad_param else not_started) tt d
  rsa_pss_verify_with_public_key d (some key) msg (some sig) =
      let b = build_public d.hardware key in
      let d' = record d { hardware = b.hardware } in
      if not d.started
      then reply not_started tt d
      else if public_refused key
      then reply bad_param tt d
      else if not (b.error == 0)
      then reply bad_param tt (record_crys b.error d')
      else elim (bounce_msg crys msg) [
        | inl refused ↦ reply refused tt d'
        | inr text ↦ pss_checked d' (crys.pss_verify b.hardware b.value text (take 256 sig))
      ]
