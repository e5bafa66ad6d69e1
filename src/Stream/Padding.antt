-- ===== src/Stream/Padding.antt =====
-- The padding loop of `finish`.
use arduino_nrf_crypto.Base.{ℕ, zero, suc, ◌+◌, ◌-◌, ◌%◌, ◌≤◌, ◌<◌, List, [], ◌∷◌, ◌++◌}
use arduino_nrf_crypto.Base.{◌≡◌, refl, sym, ap, ◌∙◌, arith, length, take, write_at}
use arduino_nrf_crypto.Base.{length-take, length-write_at, take-write_at}
use arduino_nrf_crypto.Base.{take-all, foldl-append, replicate, leb}
use arduino_nrf_crypto.Base.{◌⊎◌, ◌==◌, if◌then◌else◌, Bool-cases, inl, inr, bytes, true}
use native.Mathlib.Nat.{mod-eq_of_lt, mod_self, add-mod_right}
use arduino_nrf_crypto.Stream.{Stream, flush, absorb_round, absorb, update, pad_zeros, closed}
use arduino_nrf_crypto.Stream.Feed.{IsValid, view, feed, feed_all, feed_all_fits, update_lem}

-- How many zero bytes lead from a buffer of `b` bytes to one of `length_at`.
abbrev pub zeros_to : ℕ → ℕ → ℕ → ℕ
zeros_to block_len length_at b =
    if leb b length_at then length_at - b else block_len + length_at - b

wrap_mod :
    {block_len : ℕ} (b : ℕ)
    → b < block_len
    → (if b + 1 == block_len then 0 else b + 1) ≡ (b + 1) % block_len
wrap_mod {block_len} b h = elim (Bool-cases (b + 1 == block_len)) [
  | inl full ↦ let e : b + 1 ≡ block_len = ground arith in rw full (rw e (sym (mod_self block_len)))
  | inr part ↦ rw part (sym (mod-eq_of_lt (ground arith)))
]

module _ (block_len : ℕ) (process_block : List ℕ → List ℕ → List ℕ) where
  buffer_len-update :
      (s : Stream) (x : ℕ)
      → IsValid block_len s
      → (update block_len process_block s (bytes (x ∷ []))).buffer_len
        ≡ (if s.buffer_len + 1 == block_len then 0 else s.buffer_len + 1)
  unfolding update absorb absorb_round flush
  buffer_len-update s x v = ground arith

  -- With a block of fuel the loop ends by its test, having fed exactly the zeros that lead there.
  pad_zeros_lem :
      (fuel length_at : ℕ) (s : Stream)
      → IsValid block_len s
      → length_at < block_len
      → zeros_to block_len length_at s.buffer_len ≤ fuel
      → IsValid block_len (pad_zeros block_len process_block fuel length_at s)
        × ((pad_zeros block_len process_block fuel length_at s).buffer_len ≡ length_at)
        × (view (pad_zeros block_len process_block fuel length_at s)
            ≡ feed_all block_len process_block
                (view s)
                (replicate (zeros_to block_len length_at s.buffer_len) 0))
  unfolding pad_zeros feed_all
  pad_zeros_lem zero length_at s v t h =
      let here : zeros_to block_len length_at s.buffer_len ≡ 0 = ground arith in
      (v, ground arith, rw here refl)
  pad_zeros_lem (suc fuel) length_at s v t h = elim (Bool-cases (s.buffer_len == length_at)) [
    | inl done ↦
        let here : zeros_to block_len length_at s.buffer_len ≡ 0 = ground arith in
        rw done (rw here (v, ground arith, refl))
    | inr more ↦
        let s' = update block_len process_block s (bytes (0 ∷ [])) in
        let fed = update_lem block_len process_block s (0 ∷ []) v in
        let there = buffer_len-update s 0 v in
        let fewer : zeros_to block_len length_at s.buffer_len
            ≡ suc (zeros_to block_len length_at s'.buffer_len) =
          ground (arith, there) in
        let rest = pad_zeros_lem fuel length_at s' fed.0 t (omega (arith, fewer)) in
        rw more (
          rest.0,
          rest.1,
          rest.2
              ∙ ap
                  (λ c.
                    feed_all block_len process_block c
                      (replicate (zeros_to block_len length_at s'.buffer_len) 0))
                  fed.1
              ∙ ap (λ k. feed_all block_len process_block (view s) (replicate k 0)) (sym fewer),
        )
  ]

  -- A copy that fills the buffer, and the block processed, feed the copied bytes.
  last_block :
      (s : Stream) (x : ℕ) (xs : List ℕ)
      → IsValid block_len s
      → s.buffer_len + length (x ∷ xs) ≡ block_len
      → feed_all block_len process_block (view s) (x ∷ xs) ≡ record {
        state = process_block s.state (write_at s.buffer s.buffer_len (x ∷ xs));
        pending = [];
      }
  last_block s x xs v e =
      let front = take s.buffer_len s.buffer in
      let short : length front ≡ s.buffer_len =
        omega (arith, length-take s.buffer_len s.buffer, v) in
      let whole : write_at s.buffer s.buffer_len (x ∷ xs) ≡ front ++ (x ∷ xs) =
        sym (
          take-all (s.buffer_len + length (x ∷ xs)) (write_at s.buffer s.buffer_len (x ∷ xs))
            (omega (arith, length-write_at s.buffer s.buffer_len (x ∷ xs), v)))
        ∙ take-write_at s.buffer s.buffer_len (x ∷ xs) _ (omega (arith, v)) refl in
      let full : (length front + length (x ∷ xs) == block_len) ≡ true = ground arith in
      feed_all_fits block_len process_block x xs s.state front (omega arith)
      ∙ (rw (full, whole) refl)

  -- The state that `finish` puts out is the one after the bytes 0x80, zeros and the length bytes,
  -- when the length bytes end the block.
  pub closed_lem :
      (length_at : ℕ) (length_field : List ℕ) (s : Stream)
      → IsValid block_len s
      → length_at + length length_field ≡ block_len
      → 0 < length length_field
      → feed_all block_len process_block (view s) (
          (0x80 ∷ replicate (zeros_to block_len length_at ((s.buffer_len + 1) % block_len)) 0)
          ++ length_field)
        ≡ record {
          state = (closed block_len process_block length_at length_field s).state;
          pending = [];
        }
  unfolding closed feed_all
  closed_lem length_at length_field s v sum pos =
      let marked = update block_len process_block s (bytes (0x80 ∷ [])) in
      let fed = update_lem block_len process_block s (0x80 ∷ []) v in
      let wrap : marked.buffer_len ≡ (s.buffer_len + 1) % block_len =
        buffer_len-update s 0x80 v ∙ wrap_mod s.buffer_len v.room in
      let padded = pad_zeros block_len process_block block_len length_at marked in
      let pad = pad_zeros_lem block_len length_at marked fed.0 (omega arith) (ground arith) in
      let zeros = replicate (zeros_to block_len length_at ((s.buffer_len + 1) % block_len)) 0 in
      let before : feed_all block_len process_block (view s) (0x80 ∷ zeros) ≡ view padded = sym (
        pad.2
        ∙ ap
            (λ k.
              feed_all block_len process_block (view marked)
                (replicate (zeros_to block_len length_at k) 0))
            wrap
        ∙ ap (λ c. feed_all block_len process_block c zeros) fed.1) in
      foldl-append (feed block_len process_block) (view s) (0x80 ∷ zeros) length_field
      ∙ ap (λ c. feed_all block_len process_block c length_field) before
      ∙ last length_field padded pad.0 pad.1 sum pos
    where
      last :
          (field : List ℕ) (t : Stream)
          → IsValid block_len t
          → t.buffer_len ≡ length_at
          → length_at + length field ≡ block_len
          → 0 < length field
          → feed_all block_len process_block (view t) field ≡ record {
            state = process_block t.state (write_at t.buffer t.buffer_len field);
            pending = [];
          }
      last [] t w e f p = absurd (omega arith)
      last (x ∷ xs) t w e f p = last_block t x xs w (omega arith)

  pub length-closed :
      (length_at : ℕ) (length_field : List ℕ) (s : Stream)
      → IsValid block_len s
      → length_at < block_len
      → length (closed block_len process_block length_at length_field s).buffer ≡ block_len
  unfolding closed
  length-closed length_at length_field s v h =
      let fed = update_lem block_len process_block s (0x80 ∷ []) v in
      let marked = update block_len process_block s (bytes (0x80 ∷ [])) in
      let pad = pad_zeros_lem block_len length_at marked fed.0 h (ground (arith, fed.0)) in
      let padded = pad_zeros block_len process_block block_len length_at marked in
      length-write_at padded.buffer padded.buffer_len length_field ∙ pad.0.sized

-- The zeros that the loop writes, by a remainder.
pub zeros_to-mod :
    (block_len length_at b : ℕ)
    → length_at < block_len
    → b < block_len
    → (zeros_to block_len length_at b ≡ (block_len + length_at - b) % block_len)
      × ((b + zeros_to block_len length_at b ≡ length_at)
          ⊎ (b + zeros_to block_len length_at b ≡ block_len + length_at))
zeros_to-mod block_len length_at b p q = elim (Bool-cases (leb b length_at)) [
  | inl low ↦
      let le : b ≤ length_at = ground arith in
      let shift : block_len + length_at - b ≡ length_at - b + block_len = omega arith in
      rw low (
        sym (
            ap (λ t. t % block_len) shift
            ∙ add-mod_right (length_at - b) block_len
            ∙ mod-eq_of_lt {n = length_at - b} {m = block_len} (omega arith)),
        inl (omega arith),
      )
  | inr high ↦
      let lt : length_at < b = ground arith in
      rw high (
        sym (mod-eq_of_lt {n = block_len + length_at - b} {m = block_len} (omega arith)),
        inr (omega arith),
      )
]
