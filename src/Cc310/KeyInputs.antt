-- ===== src/Cc310/KeyInputs.antt =====
-- What `hkdfSha256` of src/backends/CC310Backend.cpp gives to the library, out of its one scratch buffer.
use arduino_nrf_crypto.Base.{ℕ, ◌*◌, ◌<◌, ◌≤◌, List, [], ◌≡◌, refl, sym, ap, ◌∙◌, arith}
use arduino_nrf_crypto.Base.{true, false, Bool-cases, inl, inr, ◌⊎◌, none, some, length, take}
use arduino_nrf_crypto.Base.{
  take-append_front, drop, Slice, null, bytes, slice_len, contents, take-append, ltb, ◌==◌,
}
use arduino_nrf_crypto.Base.{if◌then◌else◌}
use arduino_nrf_crypto.Types.{internal_error}
use arduino_nrf_crypto.Backend.{Reply, Pointer, reply}
use arduino_nrf_crypto.Cc310.Vendor.{Crys}
use arduino_nrf_crypto.Cc310.Device.{Device, status_of}
use arduino_nrf_crypto.Cc310.Digests.{is_missing, is_long, copy_in, read_back, pointer_to, too_long}
use arduino_nrf_crypto.Cc310.Digests.{hkdf_sha256}

length-contents : (s : Slice) → is_missing s ≡ false → length (contents s) ≡ slice_len s
length-contents (null n) h = ground (arith)
length-contents (bytes l) h = refl

-- The pointer that the library is meant to be given: null for no bytes.
abbrev pub given : Slice → Pointer
given s = if slice_len s == 0 then none else some (contents s)

module _ {W C : Type 0} (crys : Crys W C) where
  read_back-short :
      (s : Slice) (scratch : List ℕ)
      → is_long crys s ≡ false
      → read_back crys s scratch ≡ contents s
  read_back-short s scratch h = rw h refl

  -- An input whose copy is the last to the scratch buffer is read as it was.
  read_back-last :
      (s : Slice) (scratch : List ℕ)
      → is_missing s ≡ false
      → read_back crys s (copy_in crys s scratch) ≡ contents s
  read_back-last s scratch h = elim (Bool-cases (is_long crys s)) [
    | inr e ↦ read_back-short s (copy_in crys s scratch) e
    | inl e ↦ rw e (
        take-append (contents s) (drop (length (contents s)) scratch) (slice_len s)
          (sym (length-contents s h)))
  ]

  -- An input under a longer one: its bytes are the front of the other's.
  read_back-covered :
      (s t : Slice) (scratch : List ℕ)
      → is_missing t ≡ false
      → is_long crys s ≡ true
      → is_long crys t ≡ true
      → slice_len s ≤ slice_len t
      → read_back crys s (copy_in crys t scratch) ≡ take (slice_len s) (contents t)
  read_back-covered s t scratch h es et le =
      rw (es, et)
        (take-append_front (contents t) (drop (length (contents t)) scratch) (slice_len s)
          (omega (arith, length-contents t h, le)))

  copy_in-short :
      (s : Slice) (scratch : List ℕ) → is_long crys s ≡ false → copy_in crys s scratch ≡ scratch
  copy_in-short s scratch h = rw h refl

  -- The guards of `hkdfSha256`, passed.
  abbrev pub Accepted : Device W C → Slice → Slice → Slice → List ℕ → Type 0
  Accepted d ikm salt info okm =
      (d.started ≡ true)
      × (0 < length okm)
      × (length okm ≤ 255 * 32)
      × (is_missing ikm ≡ false)
      × (is_missing salt ≡ false)
      × (is_missing info ≡ false)
      × (slice_len ikm ≤ 0xFFFFFFFF)
      × (slice_len ikm ≤ crys.scratch_bytes)
      × (slice_len salt ≤ crys.scratch_bytes)
      × (slice_len info ≤ crys.scratch_bytes)

  not_too_long : (s : Slice) → slice_len s ≤ crys.scratch_bytes → too_long crys s ≡ false
  not_too_long s h = ground (arith)

  -- The scratch buffer once the three copies are made.
  abbrev pub copies : Slice → Slice → Slice → List ℕ
  copies ikm salt info = copy_in crys info (copy_in crys salt (copy_in crys ikm []))

  -- The reply, by what the library is given.
  abbrev pub derived : Device W C → Pointer → List ℕ → Pointer → List ℕ → Reply (Device W C) Pointer
  derived d salt ikm info okm =
      let r = crys.hkdf d.hardware salt ikm info okm in
      reply (status_of internal_error r.error) (some r.value) (record d { hardware = r.hardware })

  hkdf_sha256-Accepted :
      (d : Device W C) (ikm salt info : Slice) (okm : List ℕ)
      → Accepted d ikm salt info okm
      → hkdf_sha256 crys d ikm salt info okm ≡ (
          let scratch = copies ikm salt info in
          derived d
            (pointer_to crys salt scratch)
            (read_back crys ikm scratch)
            (pointer_to crys info scratch)
            okm)
  unfolding hkdf_sha256
  hkdf_sha256-Accepted d ikm salt info okm h =
      let some_okm : (length okm == 0) ≡ false = ground (arith, h.1) in
      let room_okm : ltb (255 * 32) (length okm) ≡ false = ground (arith, h.2) in
      let room_ikm : ltb 0xFFFFFFFF (slice_len ikm) ≡ false = ground (arith, h.6) in
      rw
        (
          h.0,
          some_okm,
          h.3,
          h.4,
          h.5,
          room_okm,
          room_ikm,
          not_too_long ikm h.7,
          not_too_long salt h.8,
          not_too_long info h.9,
        )
        refl

  -- At most one of the three is too long for its array on the stack.
  abbrev pub OneLong : Slice → Slice → Slice → Type 0
  OneLong ikm salt info =
      ((is_long crys ikm ≡ false) × (is_long crys salt ≡ false))
      ⊎ (((is_long crys ikm ≡ false) × (is_long crys info ≡ false))
          ⊎ ((is_long crys salt ≡ false) × (is_long crys info ≡ false)))

  read_back-OneLong :
      (ikm salt info : Slice)
      → OneLong ikm salt info
      → is_missing ikm ≡ false
      → is_missing salt ≡ false
      → is_missing info ≡ false
      → (read_back crys ikm (copies ikm salt info) ≡ contents ikm)
        × (read_back crys salt (copies ikm salt info) ≡ contents salt)
        × (read_back crys info (copies ikm salt info) ≡ contents info)
  read_back-OneLong ikm salt info (inl o) p q r =
      let last = read_back-last info (copy_in crys salt (copy_in crys ikm [])) r in
      (
        read_back-short ikm (copies ikm salt info) o.0,
        read_back-short salt (copies ikm salt info) o.1,
        last,
      )
  read_back-OneLong ikm salt info (inr (inl o)) p q r =
      let last = read_back-last salt (copy_in crys ikm []) q in
      (
        read_back-short ikm (copies ikm salt info) o.0,
        ap (read_back crys salt) (copy_in-short info (copy_in crys salt (copy_in crys ikm [])) o.1)
            ∙ last,
        read_back-short info (copies ikm salt info) o.1,
      )
  read_back-OneLong ikm salt info (inr (inr o)) p q r =
      let last = read_back-last ikm [] p in
      (
        ap (read_back crys ikm) (
              copy_in-short info (copy_in crys salt (copy_in crys ikm [])) o.1
              ∙ copy_in-short salt (copy_in crys ikm []) o.0)
            ∙ last,
        read_back-short salt (copies ikm salt info) o.0,
        read_back-short info (copies ikm salt info) o.1,
      )

  -- A started device, given output of 1 to 8160 bytes and three inputs that are there and fit the scratch
  -- buffer, of which at most one is longer than its array on the stack, calls the library on the salt,
  -- the key and the info as they were given, a null pointer standing for an empty salt or info.
  pub hkdf_sha256-OneLong :
      (d : Device W C) (ikm salt info : Slice) (okm : List ℕ)
      → Accepted d ikm salt info okm
      → OneLong ikm salt info
      → hkdf_sha256 crys d ikm salt info okm
        ≡ derived d (given salt) (contents ikm) (given info) okm
  hkdf_sha256-OneLong d ikm salt info okm h o =
      let reads = read_back-OneLong ikm salt info o h.3 h.4 h.5 in
      hkdf_sha256-Accepted d ikm salt info okm h
      ∙ ap
          (λ t.
            derived d t (read_back crys ikm (copies ikm salt info))
              (pointer_to crys info (copies ikm salt info)) okm)
          (ap (λ t. if slice_len salt == 0 then none else some t) reads.1)
      ∙ ap (λ t. derived d (given salt) t (pointer_to crys info (copies ikm salt info)) okm) reads.0
      ∙ ap (λ t. derived d (given salt) (contents ikm) t okm)
          (ap (λ t. if slice_len info == 0 then none else some t) reads.2)

  -- With the same guards passed, a salt that fits its array, and a key and an info that do not: where the
  -- info is as long as the key or longer, the key that the library reads is the front of the info, and
  -- no byte of the key is used.
  pub hkdf_sha256-aliased :
      (d : Device W C) (ikm salt info : Slice) (okm : List ℕ)
      → Accepted d ikm salt info okm
      → is_long crys salt ≡ false
      → is_long crys ikm ≡ true
      → is_long crys info ≡ true
      → slice_len ikm ≤ slice_len info
      → hkdf_sha256 crys d ikm salt info okm
        ≡ derived d (given salt) (take (slice_len ikm) (contents info)) (given info) okm
  hkdf_sha256-aliased d ikm salt info okm h es ek ei le =
      let before = copy_in crys salt (copy_in crys ikm []) in
      let scratch = copies ikm salt info in
      let read_info = read_back-last info before h.5 in
      let read_key = read_back-covered ikm info before h.5 ek ei le in
      hkdf_sha256-Accepted d ikm salt info okm h
      ∙ ap (λ t. derived d t (read_back crys ikm scratch) (pointer_to crys info scratch) okm)
          (ap (λ t. if slice_len salt == 0 then none else some t) (read_back-short salt scratch es))
      ∙ ap (λ t. derived d (given salt) t (pointer_to crys info scratch) okm) read_key
      ∙ ap (λ t. derived d (given salt) (take (slice_len ikm) (contents info)) t okm)
          (ap (λ t. if slice_len info == 0 then none else some t) read_info)
