-- ===== src/Cc310/Handles.antt =====
-- What a handle of src/backends/CC310Backend.cpp stands for, from its key's generation to its release.
use arduino_nrf_crypto.Base.{ℕ, ◌≤◌, List, [], ◌∷◌, ◌≡◌, refl, sym, ap, ap₂, ◌∙◌, arith}
use arduino_nrf_crypto.Base.{Bool, true, false, Bool-cases, inl, inr, Option, none, some, length}
use arduino_nrf_crypto.Base.{◌==◌, not, Slice, ◌&&◌, bytes, ltb}
use arduino_nrf_crypto.Backend.{Reply, reply}
use arduino_nrf_crypto.Types.{RsaKeyPair, is_ok, clear_key, ok, bad_param, internal_error}
use arduino_nrf_crypto.Cc310.Vendor.{Crys, KeyMaterial}
use arduino_nrf_crypto.Cc310.Device.{Slot, Device, empty_slot, bounce_msg, status_of}
use arduino_nrf_crypto.Cc310.Rsa.{rsa_generate_key_pair, rsa_import_key_pair, rsa_release_key_pair}
use arduino_nrf_crypto.Cc310.Rsa.{
  slot_valid, slot_at, alloc_slot, free_slot, with_slot, rsa_sign_with_key_pair,
}
use arduino_nrf_crypto.Cc310.Slots.{get_or-set_default, get_or-beyond, length-set}
use arduino_nrf_crypto.Cc310.Slots.{holding, get_or-set, get_or-set_other, alloc_slot_lem}
use arduino_nrf_crypto.Cc310.KeyStore.{Claims, publish_lem, generate-Claims, import-Claims}
use arduino_nrf_crypto.Cc310.Store.{Store, Command, run, perform, begin-slots}

-- A command that leaves the handles of slot `i`: neither `end` nor a release of it.
abbrev pub keeps : ℕ → Command → Bool
keeps i Command.start = true
keeps i Command.stop = false
keeps i (Command.generate key) = true
keeps i (Command.import_key key material) = true
keeps i (Command.release key) = not (key.slot == i)

abbrev pub all_keep : ℕ → List Command → Bool
all_keep i [] = true
all_keep i (c ∷ commands) = keeps i c && all_keep i commands

module _ {W C : Type 0} (crys : Crys W C) where
  Claims-slot_at :
      (d : Device W C) (r : Reply (Device W C) RsaKeyPair) (i : ℕ) (keys : KeyMaterial C)
      → Claims crys d r
      → slot_at crys d.slots i ≡ holding crys keys
      → slot_at crys r.device.slots i ≡ holding crys keys
  Claims-slot_at d r i keys (inl c) h = ap (λ slots. slot_at crys slots i) c.0 ∙ h
  Claims-slot_at d r i keys (inr c) h =
      let used : slot_valid crys d.slots i ≡ true = ap (λ s. s.ready) h in
      let free = (alloc_slot_lem crys c.0 d.slots c.2).1 in
      ap (λ slots. slot_at crys slots i) c.3
      ∙ get_or-set_other d.slots c.0 i c.1 (empty_slot crys)
          (λ same. let taken = ap (slot_valid crys d.slots) (sym same) ∙ used in absurd (cc))
      ∙ h

  released-slot_at :
      (d : Device W C) (key : RsaKeyPair) (i : ℕ)
      → not (key.slot == i) ≡ true
      → slot_at crys (rsa_release_key_pair crys d key).device.slots i ≡ slot_at crys d.slots i
  unfolding rsa_release_key_pair
  released-slot_at d key i other = elim (Bool-cases (slot_valid crys d.slots key.slot)) [
    | inr e ↦ rw e refl
    | inl e ↦ rw e (
        get_or-set_other d.slots key.slot i (empty_slot crys) (empty_slot crys)
          (λ same. ground (arith, same, other)))
  ]

  perform-slot_at :
      (c : Command) (s : Store W C) (i : ℕ) (keys : KeyMaterial C)
      → keeps i c ≡ true
      → slot_at crys s.device.slots i ≡ holding crys keys
      → slot_at crys (perform crys c s).device.slots i ≡ holding crys keys
  unfolding perform
  perform-slot_at Command.start s i keys k h =
      ap (λ slots. slot_at crys slots i) (begin-slots crys s.device) ∙ h
  perform-slot_at Command.stop s i keys k h = absurd (cc)
  perform-slot_at (Command.generate key) s i keys k h =
      Claims-slot_at s.device (rsa_generate_key_pair crys s.device key) i keys
        (generate-Claims crys s.device key) h
  perform-slot_at (Command.import_key key material) s i keys k h =
      Claims-slot_at s.device (rsa_import_key_pair crys s.device key material) i keys
        (import-Claims crys s.device key material) h
  perform-slot_at (Command.release key) s i keys k h = released-slot_at s.device key i k ∙ h

  run-slot_at :
      (commands : List Command) (s : Store W C) (i : ℕ) (keys : KeyMaterial C)
      → all_keep i commands ≡ true
      → slot_at crys s.device.slots i ≡ holding crys keys
      → slot_at crys (run crys commands s).device.slots i ≡ holding crys keys
  unfolding run
  run-slot_at [] s i keys k h = h
  run-slot_at (c ∷ commands) s i keys k h =
      let first : keeps i c ≡ true = ground (arith) in
      let later : all_keep i commands ≡ true = ground (arith) in
      run-slot_at commands (perform crys c s) i keys later (perform-slot_at c s i keys first h)

  -- An Ok means that the new keys are in the slot of the handle.
  generated_keys :
      (d : Device W C) (key : RsaKeyPair) (o : Option ℕ)
      → alloc_slot crys d.slots ≡ o
      → is_ok (rsa_generate_key_pair crys d key).status ≡ true
      → slot_at crys
          (rsa_generate_key_pair crys d key).device.slots
          (rsa_generate_key_pair crys d key).out.slot
        ≡ holding crys (crys.rsa_generate d.hardware).value
  unfolding rsa_generate_key_pair
  generated_keys d key none e = elim (Bool-cases d.started) [
    | inl s ↦ rw (s, e) (λ done. absurd (cc))
    | inr s ↦ rw s (λ done. absurd (cc))
  ]
  generated_keys d key (some i) e =
      let r = crys.rsa_generate d.hardware in
      elim (Bool-cases d.started) [
        | inr s ↦ rw s (λ done. absurd (cc))
        | inl s ↦ elim (Bool-cases (r.error == 0)) [
          | inr z ↦ rw (s, e, z) (λ done. absurd (cc))
          | inl z ↦
              (let p = publish_lem crys (record d { hardware = r.hardware }) i r.value key in
                rw (s, e, z)
                  (λ done.
                    ap₂ (slot_at crys) p.0 p.1
                    ∙ get_or-set d.slots i (holding crys r.value) (empty_slot crys)
                        (alloc_slot_lem crys i d.slots e).0))
        ]
      ]

  with_slot_lem :
      {A : Type 0} (d : Device W C) (i : ℕ) (msg : List ℕ) (out : A)
      (use_key : KeyMaterial C → List ℕ → Reply (Device W C) A)
      → d.started ≡ true
      → slot_valid crys d.slots i ≡ true
      → length msg ≤ crys.scratch_bytes
      → with_slot crys d i (bytes msg) out use_key ≡ use_key (slot_at crys d.slots i).keys msg
  unfolding bounce_msg
  with_slot_lem d i msg out use_key on used fits =
      let short : ltb crys.scratch_bytes (length msg) ≡ false = ground (arith) in
      rw (on, used, short) refl

  -- A message that fits the scratch buffer, signed by a started device for a slot with keys.
  signed_lem :
      (d : Device W C) (key : RsaKeyPair) (keys : KeyMaterial C) (msg sig : List ℕ)
      → d.started ≡ true
      → slot_at crys d.slots key.slot ≡ holding crys keys
      → length msg ≤ crys.scratch_bytes
      → rsa_sign_with_key_pair crys d key (bytes msg) sig ≡ (
          let r = crys.pkcs1_sign d.hardware keys.priv msg sig in
          reply
            (status_of internal_error r.error)
            (some r.value)
            (record d { hardware = r.hardware }))
  unfolding rsa_sign_with_key_pair
  signed_lem d key keys msg sig on kept fits =
      let used : slot_valid crys d.slots key.slot ≡ true = ap (λ s. s.ready) kept in
      let answer = λ (s : Slot C).
        let r = crys.pkcs1_sign d.hardware s.keys.priv msg sig in
        reply {D = Device W C} (status_of internal_error r.error) (some r.value)
          (record d { hardware = r.hardware }) in
      with_slot_lem d key.slot msg (some sig)
        (λ keys text.
          let r = crys.pkcs1_sign d.hardware keys.priv text sig in
          reply (status_of internal_error r.error) (some r.value)
            (record d { hardware = r.hardware }))
        on used fits
      ∙ ap answer kept

  -- The device that generates a key, once some commands have followed.
  abbrev pub after_generate : Device W C → RsaKeyPair → List Command → Device W C
  after_generate d key commands =
      let made : Store W C = record {
        device = (rsa_generate_key_pair crys d key).device;
        live = [];
      } in
      (run crys commands made).device

  -- A key generation that answers Ok, then any run of the methods that change the slots, without `end`
  -- and without a release of the handle's slot: while the device is started, the signature of a message
  -- that fits the scratch buffer is the library's, by the private key that it generated for the handle.
  pub rsa_sign_with_key_pair-rsa_generate_key_pair :
      (d : Device W C) (key : RsaKeyPair) (commands : List Command) (msg sig : List ℕ)
      → is_ok (rsa_generate_key_pair crys d key).status ≡ true
      → all_keep (rsa_generate_key_pair crys d key).out.slot commands ≡ true
      → (after_generate d key commands).started ≡ true
      → length msg ≤ crys.scratch_bytes
      → rsa_sign_with_key_pair crys
          (after_generate d key commands)
          (rsa_generate_key_pair crys d key).out
          (bytes msg)
          sig
        ≡ (let now = after_generate d key commands in
            let r =
              crys.pkcs1_sign now.hardware (crys.rsa_generate d.hardware).value.priv msg sig in
            reply
              (status_of internal_error r.error)
              (some r.value)
              (record now { hardware = r.hardware }))
  rsa_sign_with_key_pair-rsa_generate_key_pair d key commands msg sig done keep on fits =
      let r = rsa_generate_key_pair crys d key in
      let s : Store W C = record { device = r.device; live = [] } in
      let made = (crys.rsa_generate d.hardware).value in
      signed_lem (run crys commands s).device r.out made msg sig on
        (run-slot_at commands s r.out.slot made keep
          (generated_keys d key (alloc_slot crys d.slots) refl done))
        fits

  refused_lem :
      (d : Device W C) (key : RsaKeyPair) (msg : Slice) (sig : List ℕ)
      → d.started ≡ true
      → slot_valid crys d.slots key.slot ≡ false
      → rsa_sign_with_key_pair crys d key msg sig ≡ reply bad_param (some sig) d
  unfolding rsa_sign_with_key_pair
  refused_lem d key msg sig on invalid = rw (on, invalid) refl

  -- The device and the handle that a release leaves.
  abbrev pub freed : Device W C → RsaKeyPair → Device W C
  freed d key = record d { slots = free_slot crys d.slots key.slot }

  -- For a key in one of the two slots, `rsaReleaseKeyPair` answers Ok and clears the handle; the slot
  -- then holds zeros and no key, and both the cleared handle and a copy of the old one are refused with
  -- BadParam by a started device.
  pub rsa_release_key_pair_lem :
      (d : Device W C) (key : RsaKeyPair) (msg : Slice) (sig : List ℕ)
      → d.started ≡ true
      → length d.slots ≡ 2
      → slot_valid crys d.slots key.slot ≡ true
      → (rsa_release_key_pair crys d key ≡ reply ok (clear_key key) (freed d key))
        × (slot_at crys (freed d key).slots key.slot ≡ empty_slot crys)
        × (rsa_sign_with_key_pair crys (freed d key) (clear_key key) msg sig
            ≡ reply bad_param (some sig) (freed d key))
        × (rsa_sign_with_key_pair crys (freed d key) key msg sig
            ≡ reply bad_param (some sig) (freed d key))
  unfolding rsa_release_key_pair clear_key
  rsa_release_key_pair_lem d key msg sig on two valid =
      let gone = get_or-set_default d.slots key.slot (empty_slot crys) in
      let size = length-set crys d.slots key.slot (empty_slot crys) in
      let beyond =
        get_or-beyond (freed d key).slots 255 (empty_slot crys) (omega (arith, size, two)) in
      (
        rw valid refl,
        gone,
        refused_lem (freed d key) (clear_key key) msg sig on (ap (λ s. s.ready) beyond),
        refused_lem (freed d key) key msg sig on (ap (λ s. s.ready) gone),
      )
