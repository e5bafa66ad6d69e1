-- ===== src/Engine/Selection.antt =====
-- `begin` of src/crypto/CryptoEngine.cpp.
use arduino_nrf_crypto.Base.{
  Bool, Option, none, some, ◌≡◌, refl, Bool-cases, inl, inr, if◌then◌else◌,
}
use arduino_nrf_crypto.Backend.{Backend}
use arduino_nrf_crypto.Engine.{Engine, Prefer, any, cc310, on_chip, begin, try_backend, end}

module _ {D : Type 0} (hard soft : Backend D) where
  -- After `end` no backend is active.
  end-inactive : (e : Engine D) → (end e).active ≡ none
  unfolding end
  end-inactive e = elim e.active as (λ a. (end (record e { active = a })).active ≡ none) [
    | none ↦ refl
    | some b ↦ refl
  ]

  -- What `begin` leaves: the backend that came up, CC310 before OnChip if none is forced, and none
  -- if no backend that may be used came up, whatever was active before.
  abbrev pub choice : Prefer → Bool → Bool → Option (Backend D)
  choice cc310 h s = if h then some hard else none
  choice on_chip h s = if s then some soft else none
  choice any h s = if h then some hard else if s then some soft else none

  -- The device that OnChip is brought up on: in the automatic case CC310 has been tried on it.
  abbrev pub soft_device : Prefer → D → D
  soft_device cc310 d = d
  soft_device on_chip d = d
  soft_device any d = (hard.begin d).1

  -- `begin` ends the backend that was active and leaves exactly the choice: CC310 if it comes up and
  -- is not ruled out, else OnChip if it comes up and is not ruled out, else none; in the automatic
  -- case OnChip is brought up on the device that CC310 left.
  pub begin-active :
      (prefer : Prefer) (e : Engine D)
      → (begin hard soft prefer e).active
        ≡ choice prefer
            (hard.begin (end e).device).0
            (soft.begin (soft_device prefer (end e).device)).0
  unfolding begin try_backend
  begin-active cc310 e = rw (end-inactive e) refl
  begin-active on_chip e = rw (end-inactive e) refl
  begin-active any e = elim (Bool-cases (hard.begin (end e).device).0) [
    | inl up ↦ rw up refl
    | inr down ↦ rw (down, end-inactive e) refl
  ]
