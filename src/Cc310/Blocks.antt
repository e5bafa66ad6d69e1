-- ===== src/Cc310/Blocks.antt =====
-- `aesRun` of src/backends/CC310Backend.cpp, by halves of the scratch buffer, against one call.
use arduino_nrf_crypto.Base.{
  ℕ, zero, suc, ◌+◌, ◌-◌, ◌*◌, ◌/◌, ◌%◌, ◌<◌, ◌≤◌, List, [], ◌∷◌, ◌++◌, ◌≡◌,
}
use arduino_nrf_crypto.Base.{refl, sym, ap, ◌∙◌, arith, length, take, drop, replicate, inl, inr}
use arduino_nrf_crypto.Base.{length-take, length-drop, take-append-drop, append_assoc, append-nil}
use arduino_nrf_crypto.Base.{write_at, leb, Bool-cases, take-all, ◌⊎◌}
use arduino_nrf_crypto.Base.{length-append, length-replicate, take-append_more}
use arduino_nrf_crypto.Types.{ok}
use arduino_nrf_crypto.Cc310.Vendor.{Crys, Call, Direction, AesMode}
use arduino_nrf_crypto.Cc310.Ciphers.{padded, half, aes_loop, aes_run}

-- Whole blocks in front do not change the padding of what follows.
padded-append :
    (front later : List ℕ) → length front % 16 ≡ 0 → padded (front ++ later) ≡ front ++ padded later
padded-append front later h =
    let size = length-append front later in
    ap (λ n. (front ++ later) ++ replicate n 0)
      {x = (length (front ++ later) + 15) / 16 * 16 - length (front ++ later)}
      {y = (length later + 15) / 16 * 16 - length later} (omega (arith, size))
    ∙ append_assoc front later (replicate ((length later + 15) / 16 * 16 - length later) 0)

padded-whole : (text : List ℕ) → length text % 16 ≡ 0 → padded text ≡ text
padded-whole text h =
    ap (λ n. text ++ replicate n 0) {x = (length text + 15) / 16 * 16 - length text} {y = 0}
      (omega (arith, h))
    ∙ append-nil text

length-padded : (text : List ℕ) → length (padded text) ≡ (length text + 15) / 16 * 16
length-padded text =
    let n = (length text + 15) / 16 * 16 - length text in
    length-append text (replicate n 0) ∙ omega (arith, length-replicate {A = ℕ} n 0)

module _ {W C : Type 0} (crys : Crys W C) where
  -- A call on 1 or more whole blocks that fit half of the scratch buffer succeeds and does what `crypt`
  -- says, which works through its input block by block.
  abbrev pub Crypts : (C → List ℕ → C × List ℕ) → Type 0
  Crypts crypt =
      ((w : W) (c : C) (text : List ℕ)
        → 0 < length text
        → length text % 16 ≡ 0
        → length text ≤ half crys
        → ((crys.aes_block w c text).error ≡ 0) × ((crys.aes_block w c text).value ≡ crypt c text))
      × ((c : C) (front later : List ℕ)
          → length front % 16 ≡ 0
          → (crypt c (front ++ later)).1 ≡ (crypt c front).1 ++ (crypt (crypt c front).0 later).1)
      × ((c : C) (text : List ℕ) → length (crypt c text).1 ≡ length text)

  -- The context once the mode, the key and the initial vector are set.
  abbrev pub ready : W → Direction → AesMode → List ℕ → List ℕ → Call W C
  ready w dir mode key iv =
      let c = crys.aes_init w dir mode in
      let k = crys.aes_set_key c.hardware c.value (take 16 key) in
      crys.aes_set_iv k.hardware k.value (take 16 iv)

  -- The front part and the rest of a text, encrypted one after the other.
  pieces :
      (crypt : C → List ℕ → C × List ℕ)
      → Crypts crypt
      → (c : C) (front later : List ℕ) → (length later ≡ 0) ⊎ (length front % 16 ≡ 0)
      → take (length front) (crypt c (padded front)).1
          ++ take (length later) (crypt (crypt c (padded front)).0 (padded later)).1
        ≡ take (length (front ++ later)) (crypt c (padded (front ++ later))).1
  pieces crypt law c front [] (inl e) =
      append-nil (take (length front) (crypt c (padded front)).1)
      ∙ ap (λ t. take (length t) (crypt c (padded t)).1) (sym (append-nil front))
  pieces crypt law c front (x ∷ later) (inl e) = absurd (omega arith)
  pieces crypt law c front later (inr e) =
      let out = (crypt c front).1 in
      let size = law.2 c front in
      let rest = (crypt (crypt c front).0 (padded later)).1 in
      ap
        (λ t.
          take (length front) (crypt c t).1
          ++ take (length later) (crypt (crypt c t).0 (padded later)).1)
        (padded-whole front e)
      ∙ ap (λ t. t ++ take (length later) rest) (take-all (length front) out (omega (arith, size)))
      ∙ sym (
          ap (λ t. take (length (front ++ later)) (crypt c t).1) (padded-append front later e)
          ∙ ap (take (length (front ++ later))) (law.1 c front (padded later) e)
          ∙ take-append_more out rest (length (front ++ later)) (length later)
              (omega (arith, size, length-append front later)))

  aes_loop-Crypts :
      (crypt : C → List ℕ → C × List ℕ)
      → Crypts crypt
      → 32 ≤ crys.scratch_bytes
      → (fuel : ℕ) (w : W) (c : C) (input : List ℕ) → length input ≤ fuel
      → ((aes_loop crys fuel w c input).0 ≡ ok)
        × ((aes_loop crys fuel w c input).1.0 ≡ take (length input) (crypt c (padded input)).1)
  unfolding aes_loop
  aes_loop-Crypts crypt law room zero w c [] h = (refl, refl)
  aes_loop-Crypts crypt law room zero w c (x ∷ input) h = absurd (omega arith)
  aes_loop-Crypts crypt law room (suc fuel) w c [] h = (refl, refl)
  aes_loop-Crypts crypt law room (suc fuel) w c (x ∷ input) h =
      let text = x ∷ input in
      let real = take (half crys) text in
      let later = drop (half crys) text in
      let r = crys.aes_block w c (padded real) in
      let front_size = length-take (half crys) text in
      let later_size = length-drop (half crys) text in
      let full = length-padded real in
      let call =
        law.0 w c (padded real) (omega (arith, full, front_size)) (omega (arith, full))
          (omega (arith, full, front_size)) in
      let rest =
        aes_loop-Crypts crypt law room fuel r.hardware r.value.0 later
          (omega (arith, later_size)) in
      let whole : (length later ≡ 0) ⊎ (length real % 16 ≡ 0) =
        elim (Bool-cases (leb (length text) (half crys))) [
          | inl small ↦ inl (ground (arith, later_size))
          | inr large ↦ inr (ground (arith, front_size))
        ] in
      rw call.0 (
        rest.0,
        ap (λ t. take (length real) r.value.1 ++ t) rest.1
            ∙ ap (λ v. take (length real) v.1 ++ take (length later) (crypt v.0 (padded later)).1)
                call.1
            ∙ pieces crypt law c real later whole
            ∙ ap (λ t. take (length t) (crypt c (padded t)).1) (take-append-drop (half crys) text),
      )

  -- Where the three calls that set the context up succeed, and blocks are processed as `Crypts` says:
  -- with 32 bytes of scratch or more, `aesRun` ends with Ok for every length of the input, and writes the
  -- front of what one call on the whole input, padded with zeros, would give.
  pub aes_run_lem :
      (crypt : C → List ℕ → C × List ℕ)
      → Crypts crypt
      → 32 ≤ crys.scratch_bytes
      → (dir : Direction) (mode : AesMode) (key iv input out : List ℕ) (w : W)
      → (crys.aes_init w dir mode).error ≡ 0
      → (let c = crys.aes_init w dir mode in
          (crys.aes_set_key c.hardware c.value (take 16 key)).error ≡ 0)
      → (ready w dir mode key iv).error ≡ 0
      → ((aes_run crys dir mode key iv input out w).0 ≡ ok)
        × ((aes_run crys dir mode key iv input out w).1.0
            ≡ write_at out 0
                (take (length input) (crypt (ready w dir mode key iv).value (padded input)).1))
  unfolding aes_run
  aes_run_lem crypt law room dir mode key iv input out w e1 e2 e3 =
      let v = ready w dir mode key iv in
      let r =
        aes_loop-Crypts crypt law room (length input) v.hardware v.value input (omega arith) in
      rw (e1, e2, e3) (r.0, ap (write_at out 0) r.1)
