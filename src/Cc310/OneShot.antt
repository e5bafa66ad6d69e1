-- ===== src/Cc310/OneShot.antt =====
-- The chunked digests of src/backends/CC310Backend.cpp against a digest of the whole message.
use arduino_nrf_crypto.Base.{
  ℕ, zero, suc, ◌+◌, ◌*◌, ◌/◌, ◌<◌, ◌≤◌, List, [], ◌∷◌, ◌++◌, ◌≡◌, refl, sym,
}
use arduino_nrf_crypto.Base.{ap, ◌∙◌, arith, some, length, take, drop}
use arduino_nrf_crypto.Base.{length-take, length-drop, take-append-drop, append_assoc, append-nil}
use arduino_nrf_crypto.Base.{Slice, contents, write_at, ◌==◌, true, false, ltb}
use native.Mathlib.Nat.{lt-div-mul-add, div-mul-le_self}
use arduino_nrf_crypto.Types.{ok}
use arduino_nrf_crypto.Cc310.Vendor.{Crys, Call, HashMode}
use arduino_nrf_crypto.Cc310.Digests.{feed, hash_digest, step_limit}

-- `update` accepts a chunk of 1 to `limit` bytes and adds it to what the context has read.
abbrev pub Absorbs : {W C : Type 0} → (W → C → List ℕ → Call W C) → (C → List ℕ) → ℕ → Type 0
Absorbs {W} {C} update absorbed limit =
    (w : W) (c : C) (chunk : List ℕ)
    → 0 < length chunk
    → length chunk ≤ limit
    → ((update w c chunk).error ≡ 0) × (absorbed (update w c chunk).value ≡ absorbed c ++ chunk)

-- All of the input reaches the context, in chunks that `update` accepts.
pub feed-Absorbs :
    {W C : Type 0} (update : W → C → List ℕ → Call W C) (absorbed : C → List ℕ) (limit : ℕ)
    → Absorbs update absorbed limit
    → 0 < limit
    → (fuel : ℕ) (w : W) (c : C) (input : List ℕ) → length input ≤ fuel
    → (last : C) × ((feed update limit fuel w c input).0 ≡ some last)
      × (absorbed last ≡ absorbed c ++ input)
unfolding feed
feed-Absorbs update absorbed limit law pos zero w c [] h = (c, refl, sym (append-nil (absorbed c)))
feed-Absorbs update absorbed limit law pos zero w c (x ∷ input) h = absurd (omega arith)
feed-Absorbs update absorbed limit law pos (suc fuel) w c [] h =
    (c, refl, sym (append-nil (absorbed c)))
feed-Absorbs update absorbed limit law pos (suc fuel) w c (x ∷ input) h =
    let chunk = take limit (x ∷ input) in
    let later = drop limit (x ∷ input) in
    let r = update w c chunk in
    let step =
      law w c chunk (omega (arith, length-take limit (x ∷ input)))
        (omega (arith, length-take limit (x ∷ input))) in
    let rest =
      feed-Absorbs update absorbed limit law pos fuel r.hardware r.value later
        (omega (arith, length-drop limit (x ∷ input))) in
    (
      rest.0,
      rw step.0 rest.1,
      rest.2
          ∙ ap (λ t. t ++ later) step.1
          ∙ append_assoc (absorbed c) chunk later
          ∙ ap (λ t. absorbed c ++ t) (take-append-drop limit (x ∷ input)),
    )

module _ {W C : Type 0} (crys : Crys W C) where
  step_limit-bounds :
      (block : ℕ) (input : List ℕ)
      → 0 < block
      → block ≤ crys.scratch_bytes
      → (0 < step_limit crys block input) × (step_limit crys block input ≤ crys.scratch_bytes)
  step_limit-bounds block input pos room =
      let step = crys.scratch_bytes / block * block in
      let low : crys.scratch_bytes < step + block = lt-div-mul-add pos in
      let high : step ≤ crys.scratch_bytes = div-mul-le_self crys.scratch_bytes block in
      let some_block : ltb 0 block ≡ true = ground (arith) in
      let some_step : (step == 0) ≡ false = ground (arith, low, room) in
      rw (some_block, some_step) (omega (arith, low, room), high)

  -- The library's digest calls: a fresh context has read nothing, an update of 1 byte to the size of the
  -- scratch buffer adds its bytes, and the last call gives the digest of what was read.
  abbrev pub Hashes : HashMode → (C → List ℕ) → (List ℕ → List ℕ) → Type 0
  Hashes mode absorbed digest =
      ((w : W)
        → ((crys.hash_init w mode).error ≡ 0) × (absorbed (crys.hash_init w mode).value ≡ []))
      × Absorbs crys.hash_update absorbed crys.scratch_bytes
      × ((w : W) (c : C)
          → ((crys.hash_finish w c).error ≡ 0)
            × ((crys.hash_finish w c).value ≡ digest (absorbed c)))

  -- For a library that digests as `Hashes` says, and a scratch buffer with room for a block, `hashDigest`
  -- ends with Ok for every message and writes the front of the digest of the whole message.
  pub hash_digest_lem :
      (mode : HashMode) (absorbed : C → List ℕ) (digest : List ℕ → List ℕ)
      → Hashes mode absorbed digest
      → (block digest_len : ℕ) → 0 < block
      → block ≤ crys.scratch_bytes
      → (input : Slice) (out : List ℕ) (w : W)
      → ((hash_digest crys mode digest_len block input out w).0 ≡ ok)
        × ((hash_digest crys mode digest_len block input out w).1.0
            ≡ write_at out 0 (take digest_len (digest (contents input))))
  unfolding hash_digest
  hash_digest_lem mode absorbed digest law block digest_len pos room input out w =
      let text = contents input in
      let c = crys.hash_init w mode in
      let limit = step_limit crys block text in
      let bounds = step_limit-bounds block text pos room in
      let fed =
        feed-Absorbs crys.hash_update absorbed limit
          (λ w' c' chunk h k. law.1 w' c' chunk h (omega (arith, bounds.1))) bounds.0 (length text)
          c.hardware c.value text (omega arith) in
      let r = feed crys.hash_update limit (length text) c.hardware c.value text in
      let res = law.2 r.1 fed.0 in
      rw ((law.0 w).0, fed.1, res.0)
        (
          refl,
          ap (λ t. write_at out 0 (take digest_len t))
              (res.1 ∙ ap digest (fed.2 ∙ ap (λ t. t ++ text) (law.0 w).1)),
        )
