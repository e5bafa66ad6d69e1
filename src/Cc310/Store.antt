-- ===== src/Cc310/Store.antt =====
-- Runs of the RSA methods of src/backends/CC310Backend.cpp, with the handles that their callers hold.
use arduino_nrf_crypto.Base.{ℕ, suc, ◌≤◌, List, [], ◌∷◌, ◌≡◌, refl, ap, ◌∙◌, arith}
use arduino_nrf_crypto.Base.{true, Bool-cases, inl, inr, Option, none, some, length}
use arduino_nrf_crypto.Base.{set, ◌==◌, if◌then◌else◌}
use arduino_nrf_crypto.Backend.{Reply, reply}
use arduino_nrf_crypto.Types.{RsaKeyPair, RsaPrivateKeyImport, is_ok, internal_error}
use arduino_nrf_crypto.Cc310.Vendor.{Crys, KeyMaterial}
use arduino_nrf_crypto.Cc310.Device.{Slot, Device, empty_slot, begin, end_device, free_all}
use arduino_nrf_crypto.Cc310.Rsa.{rsa_generate_key_pair, rsa_import_key_pair, rsa_release_key_pair}
use arduino_nrf_crypto.Cc310.Rsa.{slot_valid, slot_at, alloc_slot}
use arduino_nrf_crypto.Cc310.Slots.{Held-length, Held-add, holding}
use arduino_nrf_crypto.Cc310.Slots.{
  Held, forget, Held-forget, Held-set, Fresh-forgotten, length-set,
}
use arduino_nrf_crypto.Cc310.KeyStore.{
  Claims, Claims-Held, given_out, generate-Claims, import-Claims,
}

pub data Command : Type 0 where
  start : Command
  stop : Command
  generate : RsaKeyPair → Command
  import_key : RsaKeyPair → RsaPrivateKeyImport → Command
  release : RsaKeyPair → Command

-- The device, and the slots of the handles that are out with the keys that they are for.
pub record Store (W C : Type 0) : Type 0 where
  pub device : Device W C
  pub live : List (ℕ × KeyMaterial C)

module _ {W C : Type 0} (crys : Crys W C) where
  -- The methods that change the slots, called on a store.
  unfoldable pub perform : Command → Store W C → Store W C
  perform start s = record s { device = (begin crys s.device).1 }
  perform stop s = record {
    device = end_device crys s.device;
    live = if s.device.started then [] else s.live;
  }
  perform (generate key) s =
      let r = rsa_generate_key_pair crys s.device key in
      record { device = r.device; live = given_out crys r s.live }
  perform (import_key key material) s =
      let r = rsa_import_key_pair crys s.device key material in
      record { device = r.device; live = given_out crys r s.live }
  perform (release key) s =
      let r = rsa_release_key_pair crys s.device key in
      record {
        device = r.device;
        live = if is_ok r.status then forget crys key.slot s.live else s.live;
      }

  unfoldable pub run : List Command → Store W C → Store W C
  unfolding perform
  run [] s = s
  run (c ∷ commands) s = run commands (perform c s)

  abbrev pub IsStore : Store W C → Type 0
  IsStore s = (length s.device.slots ≡ 2) × Held crys s.device.slots s.live

  pub begin-slots : (d : Device W C) → (begin crys d).1.slots ≡ d.slots
  unfolding begin
  begin-slots d =
      let lib = crys.lib_init (crys.power_up d.hardware) in
      elim (Bool-cases d.started) [
        | inl s ↦ rw s refl
        | inr s ↦ elim (Bool-cases (lib.error == 0)) [
          | inr e ↦ rw (s, e) refl
          | inl e ↦ elim (Bool-cases ((crys.rnd_init lib.hardware).error == 0)) [
            | inl f ↦ rw (s, e, f) refl
            | inr f ↦ rw (s, e, f) refl
          ]
        ]
      ]

  length-free_all : (slots : List (Slot C)) → length (free_all crys slots) ≡ length slots
  unfolding free_all
  length-free_all [] = refl
  length-free_all (s ∷ slots) = ap suc (length-free_all slots)

  Claims-length :
      (d : Device W C) (r : Reply (Device W C) RsaKeyPair)
      → Claims crys d r
      → length r.device.slots ≡ length d.slots
  Claims-length d r (inl c) = ap length c.0
  Claims-length d r (inr c) = ap length c.3 ∙ length-set crys d.slots c.0 c.1

  released-IsStore :
      (d : Device W C) (key : RsaKeyPair) (live : List (ℕ × KeyMaterial C))
      → (length d.slots ≡ 2) × Held crys d.slots live
      → IsStore (perform (release key) (record { device = d; live = live }))
  unfolding perform rsa_release_key_pair
  released-IsStore d key live h = elim (Bool-cases (slot_valid crys d.slots key.slot)) [
    | inr e ↦ rw e h
    | inl e ↦ rw e (
      length-set crys d.slots key.slot (empty_slot crys) ∙ h.0,
      Held-set crys d.slots key.slot (empty_slot crys) (forget crys key.slot live)
          (Fresh-forgotten crys key.slot live) (Held-forget crys d.slots key.slot live h.1),
    )
  ]

  perform-IsStore : (c : Command) (s : Store W C) → IsStore s → IsStore (perform c s)
  unfolding perform end_device
  perform-IsStore start s h = rw (begin-slots s.device) h
  perform-IsStore stop s h = elim (Bool-cases s.device.started) [
    | inl e ↦ rw e (length-free_all s.device.slots ∙ h.0, tt)
    | inr e ↦ rw e h
  ]
  perform-IsStore (generate key) s h =
      let c = generate-Claims crys s.device key in
      let r = rsa_generate_key_pair crys s.device key in
      (Claims-length s.device r c ∙ h.0, Claims-Held crys s.device r s.live c h.1)
  perform-IsStore (import_key key material) s h =
      let c = import-Claims crys s.device key material in
      let r = rsa_import_key_pair crys s.device key material in
      (Claims-length s.device r c ∙ h.0, Claims-Held crys s.device r s.live c h.1)
  perform-IsStore (release key) s h = released-IsStore s.device key s.live h

  pub run-IsStore : (commands : List Command) (s : Store W C) → IsStore s → IsStore (run commands s)
  unfolding run
  run-IsStore [] s h = h
  run-IsStore (c ∷ commands) s h = run-IsStore commands (perform c s) (perform-IsStore c s h)

  full_store :
      (s : Store W C) → IsStore s → length s.live ≡ 2 → alloc_slot crys s.device.slots ≡ none
  full_store s h e = no_slot (alloc_slot crys s.device.slots) refl
    where
      no_slot :
          (o : Option ℕ)
          → alloc_slot crys s.device.slots ≡ o
          → alloc_slot crys s.device.slots ≡ none
      no_slot none p = p
      no_slot (some i) p =
          let keys = (slot_at crys s.device.slots i).keys in
          let more =
            Held-length crys (set s.device.slots i (holding crys keys)) ((i, keys) ∷ s.live)
              (Held-add crys s.device.slots i keys s.live p h.1) in
          absurd (omega (arith, more, h.0, e, length-set crys s.device.slots i (holding crys keys)))

  -- From two slots that hold the keys of the handles that are out, each in a slot of its own, at most
  -- two handles are out after every run of the methods that change the slots.
  pub run-length :
      (commands : List Command) (s : Store W C) → IsStore s → length (run commands s).live ≤ 2
  run-length commands s h =
      let h' = run-IsStore commands s h in
      omega (arith, Held-length crys (run commands s).device.slots (run commands s).live h'.1, h'.0)

  -- From such a store, after every run that leaves the device started and two handles out, a request
  -- for a third key answers InternalError, gives out no handle and changes nothing.
  pub rsa_generate_key_pair-full :
      (commands : List Command) (s : Store W C) (key : RsaKeyPair)
      → IsStore s
      → (run commands s).device.started ≡ true
      → length (run commands s).live ≡ 2
      → rsa_generate_key_pair crys (run commands s).device key
        ≡ reply internal_error key (run commands s).device
  unfolding rsa_generate_key_pair
  rsa_generate_key_pair-full commands s key h on two =
      rw (on, full_store (run commands s) (run-IsStore commands s h) two) refl
