-- ===== src/Cc310/Digests.antt =====
-- The digests, HMAC and HKDF of src/backends/CC310Backend.cpp, fed to the library through RAM.
use arduino_nrf_crypto.Base.{ℕ, zero, suc, ◌*◌, ◌/◌, List, [], ◌∷◌, ◌++◌, Bool, false}
use arduino_nrf_crypto.Base.{Option, none, some, Slice, null, bytes, length, slice_len, contents}
use arduino_nrf_crypto.Base.{take, drop, write_at, ◌==◌, ltb, ◌||◌, ◌&&◌, not}
use arduino_nrf_crypto.Base.{if◌then◌else◌}
use arduino_nrf_crypto.Types.{Status, ok, not_started, bad_param, internal_error}
use arduino_nrf_crypto.Backend.{Reply, Pointer, reply}
use arduino_nrf_crypto.Cc310.Vendor.{Crys, Call, HashMode, sha256_mode, sha512_mode}
use arduino_nrf_crypto.Cc310.Device.{Device, status_of}

-- A null pointer with a length that is not 0.
abbrev pub is_missing : Slice → Bool
is_missing (null n) = not (n == 0)
is_missing (bytes l) = false

-- The loops `while (off < len)`: a chunk of at most `limit` bytes is copied to the scratch buffer and
-- given to `update`; none when a call fails.
unfoldable pub feed :
    {W C : Type 0} → (W → C → List ℕ → Call W C) → ℕ → ℕ → W → C → List ℕ → Option C × W
feed update limit zero w ctx input = (some ctx, w)
feed update limit (suc fuel) w ctx [] = (some ctx, w)
feed update limit (suc fuel) w ctx (x ∷ input) =
    let r = update w ctx (take limit (x ∷ input)) in
    let rest = feed update limit fuel r.hardware r.value (drop limit (x ∷ input)) in
    if r.error == 0 then rest else (none, r.hardware)

-- What the scratch buffer, which held `old` from its start on, holds after a copy of `new` there.
abbrev pub overlay : List ℕ → List ℕ → List ℕ
overlay old new = new ++ drop (length new) old

module _ {W C : Type 0} (crys : Crys W C) where
  -- `step`, and a chunk of `len - off` bytes where it comes to 0.
  abbrev pub step_limit : ℕ → List ℕ → ℕ
  step_limit block_bytes input =
      let step =
        if ltb 0 block_bytes
        then (crys.scratch_bytes / block_bytes) * block_bytes
        else crys.scratch_bytes in
      if step == 0 then length input else step

  unfoldable pub hash_digest : HashMode → ℕ → ℕ → Slice → List ℕ → W → Status × (List ℕ × W)
  unfolding feed
  hash_digest mode digest_len block_bytes input out w =
      let c = crys.hash_init w mode in
      let text = contents input in
      let r =
        feed crys.hash_update (step_limit block_bytes text) (length text) c.hardware c.value text in
      if c.error == 0
      then elim r.0 [
        | none ↦ (internal_error, (out, r.1))
        | some ctx ↦
            (let res = crys.hash_finish r.1 ctx in
              if res.error == 0
              then (ok, (write_at out 0 (take digest_len res.value), res.hardware))
              else (internal_error, (out, res.hardware)))
      ]
      else (internal_error, (out, c.hardware))

  -- The reply of a method that only uses the library.
  abbrev pub answer : {A : Type 0} → Device W C → Status × (A × W) → Reply (Device W C) (Option A)
  answer d r = reply r.0 (some r.1.0) (record d { hardware = r.1.1 })

  unfoldable pub sha256 : Device W C → Slice → List ℕ → Reply (Device W C) Pointer
  unfolding hash_digest
  sha256 d input out =
      if d.started
      then answer d (hash_digest sha256_mode 32 crys.hash_block_bytes input out d.hardware)
      else reply not_started (some out) d

  unfoldable pub sha512 : Device W C → Slice → List ℕ → Reply (Device W C) Pointer
  unfolding hash_digest
  sha512 d input out =
      if d.started
      then answer d (hash_digest sha512_mode 64 crys.hash512_block_bytes input out d.hardware)
      else reply not_started (some out) d

  -- Oberon's functions cannot fail and leave the CryptoCell alone.
  abbrev pub sha384_feed : W → C → List ℕ → Call W C
  sha384_feed w ctx chunk = record { error = 0; value = crys.sha384_update ctx chunk; hardware = w }

  unfoldable pub sha384 : Device W C → Slice → List ℕ → Reply (Device W C) Pointer
  unfolding feed
  sha384 d input out =
      let text = contents input in
      let r = feed sha384_feed crys.scratch_bytes (length text) d.hardware crys.sha384_init text in
      if d.started
      then (if is_missing input then reply bad_param (some out) d else elim r.0 [
        | none ↦ reply internal_error (some out) d
        | some ctx ↦ reply ok (some (crys.sha384_final ctx out)) d
      ])
      else reply not_started (some out) d

  -- Where `hkdfSha256` copies the key: the stack, or the scratch buffer, whose bytes follow.
  abbrev pub is_long : Slice → Bool
  is_long s = ltb crys.hkdf_key_bytes (slice_len s)

  abbrev pub copy_in : Slice → List ℕ → List ℕ
  copy_in s scratch = if is_long s then overlay scratch (contents s) else scratch

  -- What the library reads through a pointer: the copy on the stack, or the scratch buffer as it is
  -- once all three copies are made.
  abbrev pub read_back : Slice → List ℕ → List ℕ
  read_back s scratch = if is_long s then take (slice_len s) scratch else contents s

  abbrev pub pointer_to : Slice → List ℕ → Pointer
  pointer_to s scratch = if slice_len s == 0 then none else some (read_back s scratch)

  abbrev pub too_long : Slice → Bool
  too_long s = is_long s && ltb crys.scratch_bytes (slice_len s)

  unfoldable pub hkdf_sha256 :
      Device W C → Slice → Slice → Slice → List ℕ → Reply (Device W C) Pointer
  hkdf_sha256 d ikm salt info okm =
      let scratch = copy_in info (copy_in salt (copy_in ikm [])) in
      let r =
        crys.hkdf d.hardware (pointer_to salt scratch) (read_back ikm scratch)
          (pointer_to info scratch) okm in
      if not d.started
      then reply not_started (some okm) d
      else if (length okm == 0) || (is_missing ikm || (is_missing salt || is_missing info))
      then reply bad_param (some okm) d
      else if ltb (255 * 32) (length okm) || ltb 0xFFFFFFFF (slice_len ikm)
      then reply bad_param (some okm) d
      else if too_long ikm || (too_long salt || too_long info)
      then reply bad_param (some okm) d
      else reply (status_of internal_error r.error) (some r.value)
          (record d { hardware = r.hardware })

  -- A key that is longer than `keyRam` is copied to the scratch buffer, whatever its length; the library
  -- is given the bytes that it reads there.
  unfoldable pub hmac_sha256 : Device W C → Slice → Slice → List ℕ → Reply (Device W C) Pointer
  unfolding feed
  hmac_sha256 d key msg out =
      let c = crys.hmac_init d.hardware (contents key) in
      let text = contents msg in
      let r = feed crys.hmac_update crys.scratch_bytes (length text) c.hardware c.value text in
      if not d.started
      then reply not_started (some out) d
      else if is_missing key || (is_missing msg || ltb 0xFFFF (slice_len key))
      then reply bad_param (some out) d
      else if not (c.error == 0)
      then reply internal_error (some out) (record d { hardware = c.hardware })
      else elim r.0 [
        | none ↦ reply internal_error (some out) (record d { hardware = r.1 })
        | some ctx ↦
            (let res = crys.hmac_finish r.1 ctx in
              if res.error == 0
              then reply ok (some (write_at out 0 (take 32 res.value)))
                  (record d { hardware = res.hardware })
              else reply internal_error (some out) (record d { hardware = res.hardware }))
      ]
