-- ===== src/Cc310/Random.antt =====
-- `randomBytes` of src/backends/CC310Backend.cpp, over requests of a bounded size.
use arduino_nrf_crypto.Base.{ℕ, zero, suc, ◌<◌, ◌≤◌, List, [], ◌∷◌, ◌++◌, ◌≡◌, refl, ◌∙◌}
use arduino_nrf_crypto.Base.{
  arith, length, take, drop, length-take, length-drop, length-append, some,
}
use arduino_nrf_crypto.Base.{true}
use arduino_nrf_crypto.Types.{ok}
use arduino_nrf_crypto.Cc310.Vendor.{Crys}
use arduino_nrf_crypto.Cc310.Device.{Device, random_loop, random_bytes}

-- What holds of every byte.
abbrev pub Every : (ℕ → Type 0) → List ℕ → Type 0
Every P [] = Unit
Every P (x ∷ xs) = P x × Every P xs

Every-append : (P : ℕ → Type 0) (xs ys : List ℕ) → Every P xs → Every P ys → Every P (xs ++ ys)
Every-append P [] ys h k = k
Every-append P (x ∷ xs) ys h k = (h.0, Every-append P xs ys h.1 k)

module _ {W C : Type 0} (crys : Crys W C) where
  -- A request for 1 to 0xFFFF bytes succeeds and fills what it is given with bytes of the property.
  abbrev pub Generates : (ℕ → Type 0) → Type 0
  Generates P =
      (w : W) (buf : List ℕ)
      → 0 < length buf
      → length buf ≤ 0xFFFF
      → ((crys.generate_vector w buf).error ≡ 0)
        × (length (crys.generate_vector w buf).value ≡ length buf)
        × Every P (crys.generate_vector w buf).value

  random_loop-Generates :
      (P : ℕ → Type 0)
      → Generates P
      → (fuel : ℕ) (w : W) (rest : List ℕ) → length rest ≤ fuel
      → ((random_loop crys fuel w rest).0 ≡ ok)
        × (length (random_loop crys fuel w rest).1.0 ≡ length rest)
        × Every P (random_loop crys fuel w rest).1.0
  unfolding random_loop
  random_loop-Generates P law zero w [] h = (refl, refl, tt)
  random_loop-Generates P law zero w (x ∷ rest) h = absurd (omega arith)
  random_loop-Generates P law (suc fuel) w [] h = (refl, refl, tt)
  random_loop-Generates P law (suc fuel) w (x ∷ rest) h =
      let front = take 0xFFFF (x ∷ rest) in
      let later = drop 0xFFFF (x ∷ rest) in
      let front_size = length-take 0xFFFF (x ∷ rest) in
      let later_size = length-drop 0xFFFF (x ∷ rest) in
      let r = crys.generate_vector w front in
      let call = law w front (omega (arith, front_size)) (omega (arith, front_size)) in
      let more = random_loop-Generates P law fuel r.hardware later (omega (arith, later_size)) in
      let filled = (random_loop crys fuel r.hardware later).1.0 in
      rw call.0 (
        more.0,
        length-append r.value filled ∙ omega (arith, call.1, more.1, front_size, later_size),
        Every-append P r.value filled call.2 more.2,
      )

  -- A started device whose generator serves every request of 1 to 0xFFFF bytes answers Ok to a request
  -- of any length, and fills the whole buffer: whatever holds of every byte of the generator holds of
  -- every byte of the result.
  pub random_bytes_lem :
      (P : ℕ → Type 0)
      → Generates P
      → (d : Device W C) (buf : List ℕ) → d.started ≡ true
      → (filled : List ℕ) × ((random_bytes crys d buf).status ≡ ok)
        × ((random_bytes crys d buf).out ≡ some filled)
        × (length filled ≡ length buf)
        × Every P filled
  unfolding random_bytes
  random_bytes_lem P law d buf on =
      let r = random_loop-Generates P law (length buf) d.hardware buf (omega arith) in
      rw on ((random_loop crys (length buf) d.hardware buf).1.0, r.0, refl, r.1, r.2)
