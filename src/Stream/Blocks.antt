-- ===== src/Stream/Blocks.antt =====
-- Bytes fed one at a time are whole blocks, processed in order.
use arduino_nrf_crypto.Base.{ℕ, zero, suc, ◌+◌, ◌*◌, ◌%◌, ◌<◌, List, [], ◌∷◌}
use arduino_nrf_crypto.Base.{◌≡◌, refl, sym, ap, ◌∙◌, arith, length, take, drop}
use arduino_nrf_crypto.Base.{
  length-take, length-drop, take-append-drop, foldl-append, ◌==◌, Bool-cases, inl, inr,
  length-append,
}
use native.Mathlib.Nat.{mod-eq_of_lt, mod-add-mod, mod_self}
use arduino_nrf_crypto.Stream.Feed.{Chain, feed, feed_all, feed_all_fits}

module _ (block_len : ℕ) (process_block : List ℕ → List ℕ → List ℕ) where
  -- The chaining of FIPS 180-4: the state after `count` blocks of the message.
  unfoldable pub fold_blocks : ℕ → List ℕ → List ℕ → List ℕ
  fold_blocks zero h message = h
  fold_blocks (suc count) h message =
      fold_blocks count (process_block h (take block_len message)) (drop block_len message)

  feed_block :
      (h message : List ℕ)
      → 0 < block_len
      → length message ≡ block_len
      → feed_all block_len process_block (record { state = h; pending = [] }) message
        ≡ record { state = process_block h message; pending = [] }
  feed_block h [] p e = absurd (omega arith)
  feed_block h (x ∷ xs) p e =
      feed_all_fits block_len process_block x xs h [] (omega arith) ∙ ground arith

  pub feed_blocks :
      (count : ℕ) (h message : List ℕ)
      → 0 < block_len
      → length message ≡ count * block_len
      → feed_all block_len process_block (record { state = h; pending = [] }) message
        ≡ record { state = fold_blocks count h message; pending = [] }
  unfolding fold_blocks feed_all
  feed_blocks zero h [] p e = refl
  feed_blocks zero h (x ∷ xs) p e = absurd (omega arith)
  feed_blocks (suc count) h message p e =
      let size : length message ≡ block_len + count * block_len = e ∙ grind arith in
      let front =
        feed_block h (take block_len message) p (omega (arith, length-take block_len message)) in
      ap (feed_all block_len process_block (record { state = h; pending = [] }))
        (sym (take-append-drop block_len message))
      ∙ foldl-append (feed block_len process_block) _ (take block_len message)
          (drop block_len message)
      ∙ ap (λ c. feed_all block_len process_block c (drop block_len message)) front
      ∙ feed_blocks count (process_block h (take block_len message)) (drop block_len message) p
          (omega (arith, length-drop block_len message))

  length-feed :
      (c : Chain) (x : ℕ)
      → length c.pending < block_len
      → (length (feed block_len process_block c x).pending < block_len)
        × (length (feed block_len process_block c x).pending ≡ (length c.pending + 1) % block_len)
  unfolding feed
  length-feed c x h = elim (Bool-cases (length c.pending + 1 == block_len)) [
    | inl full ↦
        let e : length c.pending + 1 ≡ block_len = ground arith in
        rw full (omega arith, rw e (sym (mod_self block_len)))
    | inr part ↦
        let long = length-append c.pending (x ∷ []) in
        rw part (ground (arith, long), long ∙ sym (mod-eq_of_lt (ground arith)))
  ]

  -- The number of bytes that wait is the number of bytes fed, modulo the block.
  pub length-feed_all :
      (input : List ℕ) (c : Chain)
      → length c.pending < block_len
      → (length (feed_all block_len process_block c input).pending < block_len)
        × (length (feed_all block_len process_block c input).pending
            ≡ (length c.pending + length input) % block_len)
  unfolding feed_all
  length-feed_all [] c h =
      (h, sym (mod-eq_of_lt {n = length c.pending + 0} (omega arith) ∙ omega arith))
  length-feed_all (x ∷ input) c h =
      let one = length-feed c x h in
      let rest = length-feed_all input (feed block_len process_block c x) one.0 in
      (
        rest.0,
        rest.1
            ∙ ap (λ k. (k + length input) % block_len) one.1
            ∙ mod-add-mod (length c.pending + 1) block_len (length input)
            ∙ ap (λ k. k % block_len) (omega arith),
      )

  pub length-fold_blocks :
      (n : ℕ)
      → ((state block : List ℕ) → length (process_block state block) ≡ n)
      → (count : ℕ) (h message : List ℕ) → length h ≡ n
      → length (fold_blocks count h message) ≡ n
  unfolding fold_blocks
  length-fold_blocks n each zero h message e = e
  length-fold_blocks n each (suc count) h message e =
      length-fold_blocks n each count _ (drop block_len message) (each h (take block_len message))
