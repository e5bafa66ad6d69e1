-- ===== src/Cc310/KeyStore.antt =====
-- The RSA methods of src/backends/CC310Backend.cpp as a store of keys: which handles are out.
use arduino_nrf_crypto.Base.{ℕ, List, ◌∷◌, ◌≡◌, refl, ap, ◌∙◌}
use arduino_nrf_crypto.Base.{true, false, Bool-cases, inl, inr, ◌⊎◌, Option, none, some, take}
use arduino_nrf_crypto.Base.{set, ◌==◌, if◌then◌else◌, ◌&&◌}
use arduino_nrf_crypto.Types.{RsaKeyPair, RsaPublicKey, RsaPrivateKeyImport, is_ok}
use arduino_nrf_crypto.Backend.{Reply}
use arduino_nrf_crypto.Cc310.Vendor.{Crys, KeyMaterial}
use arduino_nrf_crypto.Cc310.Device.{Slot, Device, empty_slot, record_crys}
use arduino_nrf_crypto.Cc310.Rsa.{material_empty, material_too_long}
use arduino_nrf_crypto.Cc310.Rsa.{slot_at, alloc_slot, publish, rsa_generate_key_pair}
use arduino_nrf_crypto.Cc310.Rsa.{rsa_import_key_pair, export_slot_public}
use arduino_nrf_crypto.Cc310.Slots.{Held, holding, alloc_slot_lem, Held-add, Held-set}
use arduino_nrf_crypto.Cc310.Slots.{Held-read}
use arduino_nrf_crypto.Cc310.Slots.{Fresh-free}

module _ {W C : Type 0} (crys : Crys W C) where
  -- A method that makes a key leaves the slots, or writes the slot that was free; the keys are there
  -- and the handle names the slot where it answers Ok.
  abbrev pub Claims : Device W C → Reply (Device W C) RsaKeyPair → Type 0
  Claims d r =
      ((r.device.slots ≡ d.slots) × (is_ok r.status ≡ false))
      ⊎ ((i : ℕ) × (s : Slot C) × (alloc_slot crys d.slots ≡ some i)
          × (r.device.slots ≡ set d.slots i s)
          × (is_ok r.status ≡ true
              → (keys : KeyMaterial C) × (s ≡ holding crys keys) × (r.out.slot ≡ i)))

  export_slot_public-slots :
      (d : Device W C) (i : ℕ) (out : RsaPublicKey)
      → (export_slot_public crys d i out).device.slots ≡ d.slots
  unfolding export_slot_public
  export_slot_public-slots d i out =
      let r =
        crys.rsa_get_public d.hardware (slot_at crys d.slots i).keys.public out.exponent
          out.modulus in
      elim (Bool-cases (slot_at crys d.slots i).ready) [
        | inr e ↦ rw e refl
        | inl e ↦ elim (Bool-cases (r.error == 0)) [
          | inl z ↦ rw (e, z) refl
          | inr z ↦ rw (e, z) refl
        ]
      ]

  record_crys-slots : (e : ℕ) (d : Device W C) → (record_crys e d).slots ≡ d.slots
  record_crys-slots e d = elim (Bool-cases (e == 0)) [ inl z ↦ rw z refl | inr z ↦ rw z refl ]

  pub publish_lem :
      (d : Device W C) (i : ℕ) (made : KeyMaterial C) (key : RsaKeyPair)
      → ((publish crys d i made key).device.slots ≡ set d.slots i (holding crys made))
        × ((publish crys d i made key).out.slot ≡ i)
  unfolding publish
  publish_lem d i made key =
      let slots' = set d.slots i (holding crys made) in
      (export_slot_public-slots (record d { slots = slots' }) i key.public, refl)

  generated :
      (d : Device W C) (key : RsaKeyPair) (o : Option ℕ)
      → d.started ≡ true
      → alloc_slot crys d.slots ≡ o
      → Claims d (rsa_generate_key_pair crys d key)
  unfolding rsa_generate_key_pair
  generated d key none s e = rw (s, e) (inl (refl, refl))
  generated d key (some i) s e =
      let r = crys.rsa_generate d.hardware in
      elim (Bool-cases (r.error == 0)) [
        | inl z ↦
            (let p = publish_lem (record d { hardware = r.hardware }) i r.value key in
              rw (s, e, z) (inr (i, holding crys r.value, refl, p.0, λ done. (r.value, refl, p.1))))
        | inr z ↦
            rw (s, e, z)
              (inr (i, record { keys = r.value; ready = false }, refl, refl, λ done. absurd (cc)))
      ]

  imported :
      (d : Device W C) (key : RsaKeyPair) (material : RsaPrivateKeyImport) (o : Option ℕ)
      → d.started ≡ true
      → material_empty material ≡ false
      → material_too_long material ≡ false
      → alloc_slot crys d.slots ≡ o
      → Claims d (rsa_import_key_pair crys d key material)
  unfolding rsa_import_key_pair
  imported d key material none s g1 g2 e = rw (s, g1, g2, e) (inl (refl, refl))
  imported d key material (some i) s g1 g2 e =
      let modulus = take material.mod_len material.modulus in
      let exponent = take material.pub_exp_len material.public_exponent in
      let e1 =
        crys.rsa_build_priv d.hardware (take material.priv_exp_len material.private_exponent)
          exponent modulus in
      let e2 = crys.rsa_build_public e1.hardware exponent modulus in
      let made = record (slot_at crys d.slots i).keys { priv = e1.value; public = e2.value } in
      elim (Bool-cases ((e1.error == 0) && (e2.error == 0))) [
        | inl z ↦
            (let p = publish_lem (record d { hardware = e2.hardware }) i made key in
              rw (s, g1, g2, e, z)
                (inr (i, holding crys made, refl, p.0, λ done. (made, refl, p.1))))
        | inr z ↦
            rw (s, g1, g2, e, z)
              (inr (
                i,
                empty_slot crys,
                refl,
                record_crys-slots (if e1.error == 0 then e2.error else e1.error)
                    (record d { hardware = e2.hardware; slots = set d.slots i (empty_slot crys) }),
                λ done. absurd (cc),
              ))
      ]

  -- What a call that makes a key leaves behind, on every branch.
  pub generate-Claims :
      (d : Device W C) (key : RsaKeyPair) → Claims d (rsa_generate_key_pair crys d key)
  unfolding rsa_generate_key_pair
  generate-Claims d key = elim (Bool-cases d.started) [
    | inl s ↦ generated d key (alloc_slot crys d.slots) s refl
    | inr s ↦ rw s (inl (refl, refl))
  ]

  pub import-Claims :
      (d : Device W C) (key : RsaKeyPair) (material : RsaPrivateKeyImport)
      → Claims d (rsa_import_key_pair crys d key material)
  unfolding rsa_import_key_pair
  import-Claims d key material = elim (Bool-cases d.started) [
    | inr s ↦ rw s (inl (refl, refl))
    | inl s ↦ elim (Bool-cases (material_empty material)) [
      | inl g ↦ rw (s, g) (inl (refl, refl))
      | inr g ↦ elim (Bool-cases (material_too_long material)) [
        | inl h ↦ rw (s, g, h) (inl (refl, refl))
        | inr h ↦ imported d key material (alloc_slot crys d.slots) s g h refl
      ]
    ]
  ]

  -- The handle that a call gave out, with the keys in its slot, where it answers Ok.
  abbrev pub given_out :
      Reply (Device W C) RsaKeyPair → List (ℕ × KeyMaterial C) → List (ℕ × KeyMaterial C)
  given_out r live =
      if is_ok r.status
      then (r.out.slot, (slot_at crys r.device.slots r.out.slot).keys) ∷ live
      else live

  pub Claims-Held :
      (d : Device W C) (r : Reply (Device W C) RsaKeyPair) (live : List (ℕ × KeyMaterial C))
      → Claims d r
      → Held crys d.slots live
      → Held crys r.device.slots (given_out r live)
  Claims-Held d r live (inl c) h = rw (c.1, c.0) h
  Claims-Held d r live (inr c) h =
      let fresh = Fresh-free crys d.slots c.0 live (alloc_slot_lem crys c.0 d.slots c.2).1 h in
      elim (Bool-cases (is_ok r.status)) [
        | inr z ↦ rw (z, c.3) (Held-set crys d.slots c.0 c.1 live fresh h)
        | inl z ↦
            (let k = c.4 z in
              let slots : r.device.slots ≡ set d.slots c.0 (holding crys k.0) =
                c.3 ∙ ap (set d.slots c.0) k.1 in
              rw z (
                Held-read crys (set d.slots c.0 (holding crys k.0)) r.device.slots c.0 r.out.slot
                  k.0 live slots k.2 (Held-add crys d.slots c.0 k.0 live c.2 h)))
      ]
