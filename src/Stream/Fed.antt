-- ===== src/Stream/Fed.antt =====
-- A hasher that has been fed a message since its last reset: the invariant by which the classes'
-- `reset`, `update` and `finish` are described.
use arduino_nrf_crypto.Base.{ℕ, zero, suc, ◌+◌, ◌*◌, ◌<◌, List, [], ◌∷◌, ◌++◌, ◌≡◌, refl}
use arduino_nrf_crypto.Base.{
  sym, ap, ◌∙◌, arith, length, append-nil, length-append, foldl-append, u64,
}
use arduino_nrf_crypto.Base.{Slice, null, bytes, contents}
use arduino_nrf_crypto.Stream.{Stream, flush, absorb_round, absorb, update, closed}
use arduino_nrf_crypto.Stream.Feed.{IsValid, view, feed, feed_all}
use arduino_nrf_crypto.Stream.Digest.{update_slice, digest_state, closed-digest_state}

module _ (block_len : ℕ) (process_block : List ℕ → List ℕ → List ℕ) (initial : List ℕ) where
  pub record IsFed (message : List ℕ) (s : Stream) : Type 0 where
    pub valid : IsValid block_len s
    pub fed :
        view s ≡ feed_all block_len process_block (record { state = initial; pending = [] }) message
    pub counted : s.bit_len ≡ u64 (length message * 8)

  bit_len-absorb_round :
      (s : Stream) (input : List ℕ)
      → (absorb_round block_len process_block s input).bit_len ≡ s.bit_len
  unfolding absorb_round flush
  bit_len-absorb_round s input = ground arith

  bit_len-absorb :
      (fuel : ℕ) (s : Stream) (input : List ℕ)
      → (absorb block_len process_block fuel s input).bit_len ≡ s.bit_len
  unfolding absorb
  bit_len-absorb zero s input = refl
  bit_len-absorb (suc fuel) s [] = refl
  bit_len-absorb (suc fuel) s (x ∷ input) =
      bit_len-absorb fuel (absorb_round block_len process_block s (x ∷ input)) _
      ∙ bit_len-absorb_round s (x ∷ input)

  bit_len-update :
      (s : Stream) (input : Slice) (message : List ℕ)
      → s.bit_len ≡ u64 (length message * 8)
      → (update block_len process_block s input).bit_len
        ≡ u64 (length (message ++ contents input) * 8)
  unfolding update
  bit_len-update s (null n) message e = rw (append-nil message) e
  bit_len-update s (bytes input) message e =
      bit_len-absorb (length input) _ input ∙ omega (arith, e, length-append message input)

  pub update-IsFed :
      (s : Stream) (input : Slice) (message : List ℕ)
      → IsFed message s
      → IsFed (message ++ contents input) (update block_len process_block s input)
  unfolding feed_all
  update-IsFed s input message f =
      let next = update_slice block_len process_block s input f.valid in
      record {
        valid = next.0;
        fed =
            next.1
            ∙ ap (λ c. feed_all block_len process_block c (contents input)) f.fed
            ∙ sym (foldl-append (feed block_len process_block) _ message (contents input));
        counted = bit_len-update s input message f.counted;
      }

  -- What `finish` puts out, for a message length as the length field.
  pub closed-IsFed :
      (length_at : ℕ) (length_field message : List ℕ) (s : Stream)
      → IsFed message s
      → length_at + length length_field ≡ block_len
      → 0 < length length_field
      → (closed block_len process_block length_at length_field s).state
        ≡ digest_state block_len process_block length_at length_field initial message
  closed-IsFed length_at length_field message s f =
      closed-digest_state block_len process_block length_at length_field initial message s f.valid
        f.fed
