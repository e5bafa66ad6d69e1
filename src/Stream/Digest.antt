-- ===== src/Stream/Digest.antt =====
-- What the state holds when `finish` puts it out: the blocks of the padded message, chained.
use arduino_nrf_crypto.Base.{ℕ, ◌+◌, ◌-◌, ◌*◌, ◌/◌, ◌%◌, ◌<◌, List, [], ◌∷◌, ◌++◌}
use arduino_nrf_crypto.Base.{
  inl, inr, ◌⊎◌, ◌≡◌, refl, sym, ap, ◌∙◌, arith, length, replicate, foldl-append,
}
use arduino_nrf_crypto.Base.{
  length-append, length-take, length-replicate, Slice, null, bytes, contents,
}
use native.Mathlib.Nat.{zero-mod, mul-add-mod_self_right, mod-add-mod, mod-lt, div-add-mod'}
use arduino_nrf_crypto.Stream.{Stream, update, closed}
use arduino_nrf_crypto.Stream.Feed.{Chain, IsValid, view, feed, feed_all, update_lem}
use arduino_nrf_crypto.Stream.Padding.{zeros_to, closed_lem, zeros_to-mod}
use arduino_nrf_crypto.Stream.Blocks.{fold_blocks, feed_blocks, length-feed_all, length-fold_blocks}

-- FIPS 180-4, section 5.1: the least number of zero bytes that brings a message of `n` bytes and the
-- byte 0x80 to `length_at` modulo the block.
abbrev pub zero_count : ℕ → ℕ → ℕ → ℕ
zero_count block_len length_at n = (block_len + length_at - (n + 1) % block_len) % block_len

-- The padded message, for a given length field.
abbrev pub pad_message : ℕ → ℕ → List ℕ → List ℕ → List ℕ
pad_message block_len length_at length_field message =
    message
    ++ ((0x80 ∷ replicate (zero_count block_len length_at (length message)) 0) ++ length_field)

length-pad_message :
    (block_len length_at : ℕ) (length_field message : List ℕ)
    → length_at + length length_field ≡ block_len
    → 0 < length length_field
    → let padded = pad_message block_len length_at length_field message in
      length padded ≡ length padded / block_len * block_len
length-pad_message block_len length_at length_field message sum pos =
    let n = length message in
    let b = (n + 1) % block_len in
    let z = zero_count block_len length_at n in
    let padded = pad_message block_len length_at length_field message in
    let zeros = zeros_to-mod block_len length_at b (omega arith) (mod-lt (n + 1) (omega arith)) in
    let size : length padded ≡ n + (1 + z + length length_field) = omega (
      arith,
      length-append message ((0x80 ∷ replicate z 0) ++ length_field),
      length-append (0x80 ∷ replicate z 0) length_field,
      length-replicate {A = ℕ} z 0,
    ) in
    let quotient = div-add-mod' (n + 1) block_len in
    let q = (n + 1) / block_len in
    let blocks : (length padded ≡ (q + 1) * block_len + 0)
        ⊎ (length padded ≡ (q + 2) * block_len + 0) =
      elim zeros.1 [
        | inl e ↦ inl (omega (arith, size, quotient, zeros.0, e, sum))
        | inr e ↦ inr (omega (arith, size, quotient, zeros.0, e, sum))
      ] in
    let exact : length padded % block_len ≡ 0 = elim blocks [
      | inl e ↦
          ap (λ t. t % block_len) e
          ∙ mul-add-mod_self_right (q + 1) block_len 0
          ∙ zero-mod block_len
      | inr e ↦
          ap (λ t. t % block_len) e
          ∙ mul-add-mod_self_right (q + 2) block_len 0
          ∙ zero-mod block_len
    ] in
    omega (arith, div-add-mod' (length padded) block_len)

module _ (block_len : ℕ) (process_block : List ℕ → List ℕ → List ℕ) where
  -- The chaining state after all blocks of the padded message.
  unfoldable pub digest_state : ℕ → List ℕ → List ℕ → List ℕ → List ℕ
  digest_state length_at length_field h message =
      let padded = pad_message block_len length_at length_field message in
      fold_blocks block_len process_block (length padded / block_len) h padded

  pub update_slice :
      (s : Stream) (input : Slice)
      → IsValid block_len s
      → IsValid block_len (update block_len process_block s input)
        × (view (update block_len process_block s input)
            ≡ feed_all block_len process_block (view s) (contents input))
  unfolding update feed_all
  update_slice s (null n) v = (v, refl)
  update_slice s (bytes input) v = update_lem block_len process_block s input v

  -- A stream that has been fed a message from the start puts out the chained blocks of the padded
  -- message.
  pub closed-digest_state :
      (length_at : ℕ) (length_field h message : List ℕ) (s : Stream)
      → IsValid block_len s
      → view s ≡ feed_all block_len process_block (record { state = h; pending = [] }) message
      → length_at + length length_field ≡ block_len
      → 0 < length length_field
      → (closed block_len process_block length_at length_field s).state
        ≡ digest_state length_at length_field h message
  unfolding digest_state feed_all
  closed-digest_state length_at length_field h message s v e sum pos =
      let n = length message in
      let b = (n + 1) % block_len in
      let fed =
        length-feed_all block_len process_block message (record { state = h; pending = [] })
          (omega (arith, v)) in
      let waiting : s.buffer_len ≡ n % block_len =
        omega (arith, length-take s.buffer_len s.buffer, v)
        ∙ ap (λ (c : Chain). length c.pending) e
        ∙ fed.1
        ∙ ap (λ t. t % block_len) (omega arith) in
      let next : (s.buffer_len + 1) % block_len ≡ b =
        ap (λ t. (t + 1) % block_len) waiting ∙ mod-add-mod n block_len 1 in
      let zeros =
        zeros_to-mod block_len length_at b (omega arith) (mod-lt (n + 1) (omega (arith, v))) in
      let tail = (0x80 ∷ replicate (zero_count block_len length_at n) 0) ++ length_field in
      let ends = closed_lem block_len process_block length_at length_field s v sum pos in
      let same : zeros_to block_len length_at ((s.buffer_len + 1) % block_len)
          ≡ zero_count block_len length_at n =
        ap (zeros_to block_len length_at) next ∙ zeros.0 in
      let whole = length-pad_message block_len length_at length_field message sum pos in
      let padded = pad_message block_len length_at length_field message in
      let chained =
        feed_blocks block_len process_block (length padded / block_len) h padded (omega (arith, v))
          whole in
      ap (λ (c : Chain). c.state)
        (sym ends
          ∙ ap
              (λ k.
                feed_all block_len process_block (view s) ((0x80 ∷ replicate k 0) ++ length_field))
              same
          ∙ ap (λ c. feed_all block_len process_block c tail) e
          ∙ sym (foldl-append (feed block_len process_block) _ message tail)
          ∙ chained)

  pub length-digest_state :
      (n length_at : ℕ) (length_field h message : List ℕ)
      → ((state block : List ℕ) → length (process_block state block) ≡ n)
      → length h ≡ n
      → length (digest_state length_at length_field h message) ≡ n
  unfolding digest_state
  length-digest_state n length_at length_field h message each e =
      let padded = pad_message block_len length_at length_field message in
      length-fold_blocks block_len process_block n each (length padded / block_len) h padded e
