-- ===== src/Cc310/Slots.antt =====
-- The slot list of src/backends/CC310Backend.cpp: `rsaAllocSlot`, writes to a slot, and the keys held.
use arduino_nrf_crypto.Base.{
  ℕ, zero, suc, ◌+◌, ◌<◌, ◌≤◌, List, [], ◌∷◌, ◌≡◌, ◌≢◌, refl, sym, ap, subst⁻¹, ◌∙◌, arith,
}
use arduino_nrf_crypto.Base.{true, false, Bool-cases, inl, inr, some, length}
use arduino_nrf_crypto.Base.{get_or, set, ◌==◌, if◌then◌else◌}
use arduino_nrf_crypto.Cc310.Vendor.{Crys, KeyMaterial}
use arduino_nrf_crypto.Cc310.Device.{Slot, empty_slot}
use arduino_nrf_crypto.Cc310.Rsa.{slot_at, slot_valid, alloc_from, alloc_slot}

pub get_or-set :
    {A : Type 0} (xs : List A) (i : ℕ) (v d : A) → i < length xs → get_or (set xs i v) i d ≡ v
get_or-set [] i v d h = absurd (omega arith)
get_or-set (x ∷ xs) zero v d h = refl
get_or-set (x ∷ xs) (suc i) v d h = get_or-set xs i v d (omega arith)

pub get_or-set_default : {A : Type 0} (xs : List A) (i : ℕ) (d : A) → get_or (set xs i d) i d ≡ d
get_or-set_default [] i d = refl
get_or-set_default (x ∷ xs) zero d = refl
get_or-set_default (x ∷ xs) (suc i) d = get_or-set_default xs i d

pub get_or-beyond : {A : Type 0} (xs : List A) (i : ℕ) (d : A) → length xs ≤ i → get_or xs i d ≡ d
get_or-beyond [] i d h = refl
get_or-beyond (x ∷ xs) zero d h = absurd (omega arith)
get_or-beyond (x ∷ xs) (suc i) d h = get_or-beyond xs i d (omega arith)

pub get_or-set_other :
    {A : Type 0} (xs : List A) (i j : ℕ) (v d : A) → j ≢ i → get_or (set xs i v) j d ≡ get_or xs j d
get_or-set_other [] i j v d h = refl
get_or-set_other (x ∷ xs) zero zero v d h = absurd (h refl)
get_or-set_other (x ∷ xs) zero (suc j) v d h = refl
get_or-set_other (x ∷ xs) (suc i) zero v d h = refl
get_or-set_other (x ∷ xs) (suc i) (suc j) v d h = get_or-set_other xs i j v d (λ e. h (ap suc e))

module _ {W C : Type 0} (crys : Crys W C) where
  -- The slot that is given out is a free one of the list, the first of them.
  alloc_from_lem :
      (from i : ℕ) (slots : List (Slot C))
      → alloc_from crys from slots ≡ some i
      → (k : ℕ) × (i ≡ from + k) × (k < length slots) × (slot_valid crys slots k ≡ false)
  alloc_from_lem from i [] e = absurd (cc)
  alloc_from_lem from i (s ∷ slots) e = elim (Bool-cases s.ready) [
    | inl r ↦
        (let rest : alloc_from crys (from + 1) slots ≡ some i = cc in
          let h = alloc_from_lem (from + 1) i slots rest in
          (suc h.0, omega (arith, h.1), omega (arith, h.2), h.3))
    | inr r ↦
        (let here : some from ≡ some i = cc in
          let same : from ≡ i = cc in (0, omega (arith, same), omega arith, r))
  ]

  pub alloc_slot_lem :
      (i : ℕ) (slots : List (Slot C))
      → alloc_slot crys slots ≡ some i
      → (i < length slots) × (slot_valid crys slots i ≡ false)
  alloc_slot_lem i slots e =
      let h = alloc_from_lem 0 i slots e in
      let same : i ≡ h.0 = omega (arith, h.1) in
      (omega (arith, h.2, same), ap (slot_valid crys slots) same ∙ h.3)

  -- Slot `i` of the handles that are out is another than theirs.
  abbrev pub Fresh : ℕ → List (ℕ × KeyMaterial C) → Type 0
  Fresh i [] = Unit
  Fresh i (entry ∷ live) = (entry.0 ≢ i) × Fresh i live

  abbrev pub holding : KeyMaterial C → Slot C
  holding keys = record { keys = keys; ready = true }

  -- The keys of the handles that are out stand in the slots of the handles, each in a slot of its own.
  abbrev pub Held : List (Slot C) → List (ℕ × KeyMaterial C) → Type 0
  Held slots [] = Unit
  Held slots (entry ∷ live) =
      (entry.0 < length slots)
      × (slot_at crys slots entry.0 ≡ holding entry.1)
      × Fresh entry.0 live
      × Held slots live

  -- A handle's slot, given back.
  abbrev pub forget : ℕ → List (ℕ × KeyMaterial C) → List (ℕ × KeyMaterial C)
  forget i [] = []
  forget i (entry ∷ live) = let rest = forget i live in if entry.0 == i then rest else entry ∷ rest

  pub length-set :
      (slots : List (Slot C)) (i : ℕ) (s : Slot C) → length (set slots i s) ≡ length slots
  length-set [] i s = refl
  length-set (x ∷ slots) zero s = refl
  length-set (x ∷ slots) (suc i) s = ap suc (length-set slots i s)

  -- A write to another slot leaves the keys that are out.
  pub Held-set :
      (slots : List (Slot C)) (i : ℕ) (s : Slot C) (live : List (ℕ × KeyMaterial C))
      → Fresh i live
      → Held slots live
      → Held (set slots i s) live
  Held-set slots i s [] f h = tt
  Held-set slots i s (entry ∷ live) f h = (
    omega (arith, h.0, length-set slots i s),
    get_or-set_other slots i entry.0 s (empty_slot crys) f.0 ∙ h.1,
    h.2,
    Held-set slots i s live f.1 h.3,
  )

  -- A free slot is the slot of no handle that is out.
  pub Fresh-free :
      (slots : List (Slot C)) (i : ℕ) (live : List (ℕ × KeyMaterial C))
      → slot_valid crys slots i ≡ false
      → Held slots live
      → Fresh i live
  Fresh-free slots i [] e h = tt
  Fresh-free slots i (entry ∷ live) e h = (
    λ same.
        let used : slot_valid crys slots entry.0 ≡ true = ap (λ s. s.ready) h.1 in
        let free : slot_valid crys slots entry.0 ≡ false = ap (slot_valid crys slots) same ∙ e in
        absurd (cc),
    Fresh-free slots i live e h.3,
  )

  Fresh-forget :
      (i j : ℕ) (live : List (ℕ × KeyMaterial C)) → Fresh i live → Fresh i (forget j live)
  Fresh-forget i j [] f = tt
  Fresh-forget i j (entry ∷ live) f = elim (Bool-cases (entry.0 == j)) [
    | inl e ↦ rw e (Fresh-forget i j live f.1)
    | inr e ↦ rw e (f.0, Fresh-forget i j live f.1)
  ]

  pub Fresh-forgotten : (i : ℕ) (live : List (ℕ × KeyMaterial C)) → Fresh i (forget i live)
  Fresh-forgotten i [] = tt
  Fresh-forgotten i (entry ∷ live) = elim (Bool-cases (entry.0 == i)) [
    | inl e ↦ rw e (Fresh-forgotten i live)
    | inr e ↦ rw e (λ same. ground (arith, same, e), Fresh-forgotten i live)
  ]

  pub Held-forget :
      (slots : List (Slot C)) (i : ℕ) (live : List (ℕ × KeyMaterial C))
      → Held slots live
      → Held slots (forget i live)
  Held-forget slots i [] h = tt
  Held-forget slots i (entry ∷ live) h = elim (Bool-cases (entry.0 == i)) [
    | inl e ↦ rw e (Held-forget slots i live h.3)
    | inr e ↦ rw e (h.0, h.1, Fresh-forget entry.0 i live h.2, Held-forget slots i live h.3)
  ]

  -- A key in a slot that was free.
  pub Held-add :
      (slots : List (Slot C)) (i : ℕ) (keys : KeyMaterial C) (live : List (ℕ × KeyMaterial C))
      → alloc_slot crys slots ≡ some i
      → Held slots live
      → Held (set slots i (holding keys)) ((i, keys) ∷ live)
  Held-add slots i keys live e h =
      let free = alloc_slot_lem i slots e in
      let fresh = Fresh-free slots i live free.1 h in
      (
        omega (arith, free.0, length-set slots i (holding keys)),
        get_or-set slots i (holding keys) (empty_slot crys) free.0,
        fresh,
        Held-set slots i (holding keys) live fresh h,
      )

  count_ready : List (Slot C) → ℕ
  count_ready [] = 0
  count_ready (s ∷ slots) = (if s.ready then 1 else 0) + count_ready slots

  count_ready-le : (slots : List (Slot C)) → count_ready slots ≤ length slots
  unfolding count_ready
  count_ready-le [] = omega arith
  count_ready-le (s ∷ slots) = ground (arith, count_ready-le slots)

  count_ready-set :
      (slots : List (Slot C)) (i : ℕ)
      → slot_valid crys slots i ≡ true
      → count_ready slots ≡ suc (count_ready (set slots i (empty_slot crys)))
  unfolding count_ready
  count_ready-set [] i h = absurd (cc)
  count_ready-set (s ∷ slots) zero h = rw h (omega arith)
  count_ready-set (s ∷ slots) (suc i) h = let ih = count_ready-set slots i h in ground (arith, ih)

  -- There are no more handles out than slots in use.
  length-count_ready :
      (slots : List (Slot C)) (live : List (ℕ × KeyMaterial C))
      → Held slots live
      → length live ≤ count_ready slots
  length-count_ready slots [] h = omega arith
  length-count_ready slots (entry ∷ live) h =
      let used = ap (λ s. s.ready) h.1 in
      let rest =
        length-count_ready (set slots entry.0 (empty_slot crys)) live
          (Held-set slots entry.0 (empty_slot crys) live h.2 h.3) in
      omega (arith, rest, count_ready-set slots entry.0 used)

  pub Held-length :
      (slots : List (Slot C)) (live : List (ℕ × KeyMaterial C))
      → Held slots live
      → length live ≤ length slots
  Held-length slots live h = omega (arith, length-count_ready slots live h, count_ready-le slots)

  -- The keys that a handle is for may be read from its slot.
  pub Held-read :
      (slots slots' : List (Slot C)) (i i' : ℕ) (keys : KeyMaterial C)
      (live : List (ℕ × KeyMaterial C))
      → slots' ≡ slots
      → i' ≡ i
      → Held slots ((i, keys) ∷ live)
      → Held slots' ((i', (slot_at crys slots' i').keys) ∷ live)
  Held-read slots slots' i i' keys live p q h =
      let kept : slot_at crys slots i ≡ holding (slot_at crys slots i).keys =
        h.1 ∙ sym (ap (λ s. holding s.keys) h.1) in
      subst⁻¹ (λ all. Held all ((i', (slot_at crys all i').keys) ∷ live)) p
        (subst⁻¹ (λ j. Held slots ((j, (slot_at crys slots j).keys) ∷ live)) q
          (h.0, kept, h.2, h.3))
