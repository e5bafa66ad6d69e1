-- ===== src/Stream/Feed.antt =====
-- The loop of `update` against a machine that takes one byte at a time.
use arduino_nrf_crypto.Base.{ℕ, zero, suc, ◌+◌, ◌-◌, ◌≤◌, ◌<◌, min, List, [], ◌∷◌, ◌++◌}
use arduino_nrf_crypto.Base.{foldl, ◌≡◌, refl, sym, ap, ◌∙◌, arith, length, take, drop, write_at}
use arduino_nrf_crypto.Base.{
  length-append, length-take, length-drop, length-write_at, take-write_at,
}
use arduino_nrf_crypto.Base.{take-append-drop, take-all, append_assoc, foldl-append}
use arduino_nrf_crypto.Base.{◌==◌, if◌then◌else◌, Bool-cases, inl, inr, bytes}
use arduino_nrf_crypto.Stream.{Stream, flush, absorb_round, absorb, update}

-- The chaining state, and the bytes that wait for their block to fill.
pub record Chain : Type 0 where
  pub state : List ℕ
  pub pending : List ℕ

module _ (block_len : ℕ) (process_block : List ℕ → List ℕ → List ℕ) where
  unfoldable pub feed : Chain → ℕ → Chain
  feed c x =
      if length c.pending + 1 == block_len
      then record { state = process_block c.state (c.pending ++ (x ∷ [])); pending = [] }
      else record { state = c.state; pending = c.pending ++ (x ∷ []) }

  unfoldable pub feed_all : Chain → List ℕ → Chain
  feed_all c input = foldl feed c input

-- What of the buffer is meant.
abbrev pub view : Stream → Chain
view s = record { state = s.state; pending = take s.buffer_len s.buffer }

-- The buffer is an array of a block, and never left full.
pub record IsValid (block_len : ℕ) (s : Stream) : Type 0 where
  pub sized : length s.buffer ≡ block_len
  pub room : s.buffer_len < block_len

module _ (block_len : ℕ) (process_block : List ℕ → List ℕ → List ℕ) where
  feed-open :
      (h p : List ℕ) (x : ℕ)
      → length p + 1 < block_len
      → feed block_len process_block (record { state = h; pending = p }) x
        ≡ record { state = h; pending = p ++ (x ∷ []) }
  unfolding feed
  feed-open h p x q = ground arith

  -- Bytes that fit the block are gathered; the block is processed when it is full.
  pub feed_all_fits :
      (x : ℕ) (xs h p : List ℕ)
      → length p + length (x ∷ xs) ≤ block_len
      → feed_all block_len process_block (record { state = h; pending = p }) (x ∷ xs) ≡ (
          if length p + length (x ∷ xs) == block_len
          then record { state = process_block h (p ++ (x ∷ xs)); pending = [] }
          else record { state = h; pending = p ++ (x ∷ xs) })
  unfolding feed_all
  feed_all_fits x [] h p r = unfold feed in refl
  feed_all_fits x (y ∷ xs) h p r =
      let long : length (p ++ (x ∷ [])) ≡ length p + 1 = length-append p (x ∷ []) in
      let ih = feed_all_fits y xs h (p ++ (x ∷ [])) (omega (arith, long)) in
      let same : length (p ++ (x ∷ [])) + length (y ∷ xs) ≡ length p + length (x ∷ y ∷ xs) =
        omega (arith, long) in
      ap (λ c. feed_all block_len process_block c (y ∷ xs)) (feed-open h p x (omega arith))
      ∙ ih
      ∙ (rw (same, append_assoc p (x ∷ []) (y ∷ xs)) refl)

  abbrev copied : Stream → List ℕ → Stream
  copied s chunk = record s {
    buffer = write_at s.buffer s.buffer_len chunk;
    buffer_len = s.buffer_len + length chunk;
  }

  take-copied :
      (s : Stream) (chunk : List ℕ)
      → s.buffer_len + length chunk ≤ length s.buffer
      → take (s.buffer_len + length chunk) (copied s chunk).buffer
        ≡ take s.buffer_len s.buffer ++ chunk
  take-copied s chunk h =
      take-write_at s.buffer s.buffer_len chunk (s.buffer_len + length chunk) h refl

  length-pending :
      (s : Stream) → IsValid block_len s → length (take s.buffer_len s.buffer) ≡ s.buffer_len
  length-pending s v = omega (arith, length-take s.buffer_len s.buffer, v)

  view-flush :
      (s : Stream) (x : ℕ) (xs : List ℕ)
      → IsValid block_len s
      → s.buffer_len + length (x ∷ xs) ≤ block_len
      → view (flush block_len process_block (copied s (x ∷ xs)))
        ≡ feed_all block_len process_block (view s) (x ∷ xs)
  unfolding flush
  view-flush s x xs v fits =
      let front = take s.buffer_len s.buffer in
      let sum = take-copied s (x ∷ xs) (omega arith) in
      let fed = feed_all_fits x xs s.state front (omega (arith, length-pending s v)) in
      let same : length front + length (x ∷ xs) ≡ s.buffer_len + length (x ∷ xs) =
        omega (arith, length-pending s v) in
      elim (Bool-cases (s.buffer_len + length (x ∷ xs) == block_len)) [
        | inl full ↦
            let whole : (copied s (x ∷ xs)).buffer ≡ front ++ (x ∷ xs) =
              sym (
                take-all (s.buffer_len + length (x ∷ xs)) (copied s (x ∷ xs)).buffer
                  (ground (arith, length-write_at s.buffer s.buffer_len (x ∷ xs))))
              ∙ sum in
            rw fed (
              rw same (
                rw full (ap (λ t. record { state = process_block s.state t; pending = [] }) whole)))
        | inr part ↦
            rw fed (rw same (rw part (ap (λ t. record { state = s.state; pending = t }) sum)))
      ]

  flush-IsValid :
      (s : Stream) (chunk : List ℕ)
      → IsValid block_len s
      → s.buffer_len + length chunk ≤ block_len
      → IsValid block_len (flush block_len process_block (copied s chunk))
  unfolding flush
  flush-IsValid s chunk v fits = ground (arith, length-write_at s.buffer s.buffer_len chunk)

  take-copied_chunk :
      (n x : ℕ) (xs : List ℕ)
      → 0 < n
      → n ≤ length (x ∷ xs)
      → (take n (x ∷ xs) ≡ x ∷ take (n - 1) xs) × (n ≡ length (take n (x ∷ xs)))
  take-copied_chunk zero x xs p q = absurd (omega arith)
  take-copied_chunk (suc n) x xs p q =
      (ap (λ k. x ∷ take k xs) (omega arith), omega (arith, length-take (suc n) (x ∷ xs)))

  -- A round of the loop feeds the bytes that it copies, and keeps the invariant.
  absorb_round_lem :
      (s : Stream) (x : ℕ) (xs : List ℕ)
      → IsValid block_len s
      → IsValid block_len (absorb_round block_len process_block s (x ∷ xs))
        × (view (absorb_round block_len process_block s (x ∷ xs))
            ≡ feed_all block_len process_block
                (view s)
                (take (min (block_len - s.buffer_len) (length (x ∷ xs))) (x ∷ xs)))
  unfolding absorb_round
  absorb_round_lem s x xs v =
      let n = min (block_len - s.buffer_len) (length (x ∷ xs)) in
      let parts = take-copied_chunk n x xs (omega arith) (omega arith) in
      let short = length-take (n - 1) xs in
      let flushed : absorb_round block_len process_block s (x ∷ xs)
          ≡ flush block_len process_block (copied s (take n (x ∷ xs))) =
        ap
          (λ k. flush block_len process_block (record s {
            buffer = write_at s.buffer s.buffer_len (take n (x ∷ xs));
            buffer_len = s.buffer_len + k;
          }))
          parts.1 in
      let fits : s.buffer_len + length (take n (x ∷ xs)) ≤ block_len = omega (arith, parts.1) in
      let fits' : s.buffer_len + length (x ∷ take (n - 1) xs) ≤ block_len = rw parts.0 at fits in
      (
        rw flushed (flush-IsValid s (take n (x ∷ xs)) v fits),
        rw flushed (rw parts.0 (view-flush s x (take (n - 1) xs) v fits')),
      )

  absorb_lem :
      (fuel : ℕ) (s : Stream) (input : List ℕ)
      → IsValid block_len s
      → length input ≤ fuel
      → IsValid block_len (absorb block_len process_block fuel s input)
        × (view (absorb block_len process_block fuel s input)
            ≡ feed_all block_len process_block (view s) input)
  unfolding absorb feed_all
  absorb_lem zero s [] v h = (v, refl)
  absorb_lem zero s (x ∷ input) v h = absurd (omega arith)
  absorb_lem (suc fuel) s [] v h = (v, refl)
  absorb_lem (suc fuel) s (x ∷ input) v h =
      let n = min (block_len - s.buffer_len) (length (x ∷ input)) in
      let round = absorb_round_lem s x input v in
      let rest =
        absorb_lem fuel (absorb_round block_len process_block s (x ∷ input)) (drop n (x ∷ input))
          round.0 (omega (arith, length-drop n (x ∷ input))) in
      (
        rest.0,
        rest.1
            ∙ ap (λ c. foldl (feed block_len process_block) c (drop n (x ∷ input))) round.1
            ∙ sym (
                foldl-append (feed block_len process_block) (view s) (take n (x ∷ input))
                  (drop n (x ∷ input)))
            ∙ ap (foldl (feed block_len process_block) (view s)) (take-append-drop n (x ∷ input)),
      )

  -- `update` has fed every byte of its input when it returns, in order, and keeps the invariant;
  -- the bit count grows by 8 for each byte, modulo `2 ^ 64`.
  pub update_lem :
      (s : Stream) (input : List ℕ)
      → IsValid block_len s
      → IsValid block_len (update block_len process_block s (bytes input))
        × (view (update block_len process_block s (bytes input))
            ≡ feed_all block_len process_block (view s) input)
  unfolding update
  update_lem s input v =
      absorb_lem (length input) _ input (record { sized = v.sized; room = v.room }) (omega arith)
