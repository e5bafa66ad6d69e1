-- ===== src/Keystream.antt =====
-- The loop of the stream ciphers (`gctr`, `chachaXor`, `aes128Ctr`): each round masks the next bytes
-- with the block of a running state.
use arduino_nrf_crypto.Base.{ℕ, zero, suc, ◌≤◌, ◌<◌, min, List, [], ◌∷◌, ◌++◌, ◌≡◌, refl}
use arduino_nrf_crypto.Base.{
  sym, ap, ap₂, ◌∙◌, ◌⊎◌, inl, inr, Bool-cases, leb, arith, length, take, drop, xor_bytes, IsBytes,
}
use arduino_nrf_crypto.Base.{length-take, length-drop, length-append, length-xor_bytes, take-append}
use arduino_nrf_crypto.Base.{drop-append, take-append-drop, append-nil, take-all, drop-all}
use arduino_nrf_crypto.Base.{IsBytes-take, IsBytes-drop, xor_bytes_cancel}

module _ {S : Type 0} (n : ℕ) (block : S → List ℕ) (next : S → S) where
  unfoldable pub run : ℕ → S → List ℕ → List ℕ
  run zero s input = []
  run (suc fuel) s [] = []
  run (suc fuel) s (x ∷ input) =
      xor_bytes (take n (x ∷ input)) (block s) ++ run fuel (next s) (drop n (x ∷ input))

  run_step :
      (fuel : ℕ) (s : S) (input : List ℕ)
      → 0 < length input
      → run (suc fuel) s input
        ≡ xor_bytes (take n input) (block s) ++ run fuel (next s) (drop n input)
  unfolding run
  run_step fuel s [] h = absurd (omega arith)
  run_step fuel s (x ∷ input) h = refl

  module _ (pos : 0 < n) (sized : (s : S) → length (block s) ≡ n) where
    length-chunk :
        (s : S) (input : List ℕ)
        → length (xor_bytes (take n input) (block s)) ≡ min n (length input)
    length-chunk s input =
        length-xor_bytes (take n input) (block s) (omega (arith, length-take n input, sized s))
        ∙ length-take n input

    pub length-run :
        (fuel : ℕ) (s : S) (input : List ℕ)
        → length input ≤ fuel
        → length (run fuel s input) ≡ length input
    unfolding run
    length-run zero s [] h = refl
    length-run zero s (x ∷ input) h = absurd (omega arith)
    length-run (suc fuel) s [] h = refl
    length-run (suc fuel) s (x ∷ input) h =
        let rest =
          length-run fuel (next s) (drop n (x ∷ input))
            (omega (arith, length-drop n (x ∷ input))) in
        omega (
          arith,
          length-append (xor_bytes (take n (x ∷ input)) (block s))
              (run fuel (next s) (drop n (x ∷ input))),
          length-chunk s (x ∷ input),
          length-drop n (x ∷ input),
          rest,
        )

    run_nil : (fuel : ℕ) (s : S) → run fuel s [] ≡ []
    unfolding run
    run_nil zero s = refl
    run_nil (suc fuel) s = refl

    -- A first chunk is cut off again, if it is full or nothing follows it.
    take-chunk :
        (c r : List ℕ)
        → (length c ≡ n) ⊎ ((length c ≤ n) × (r ≡ []))
        → (take n (c ++ r) ≡ c) × (drop n (c ++ r) ≡ r)
    take-chunk c r (inl e) = (take-append c r n (sym e), drop-append c r n (sym e))
    take-chunk c r (inr h) =
        let whole : c ++ r ≡ c = ap (λ t. c ++ t) h.1 ∙ append-nil c in
        (ap (take n) whole ∙ take-all n c h.0, ap (drop n) whole ∙ drop-all n c h.0 ∙ sym h.1)

    module _ (byte : (s : S) → IsBytes (block s)) where
      -- The same key stream takes the mask off again.
      pub run_cancel :
          (fuel : ℕ) (s : S) (input : List ℕ)
          → length input ≤ fuel
          → IsBytes input
          → run fuel s (run fuel s input) ≡ input
      unfolding run
      run_cancel zero s [] h b = refl
      run_cancel zero s (x ∷ input) h b = absurd (omega arith)
      run_cancel (suc fuel) s [] h b = refl
      run_cancel (suc fuel) s (x ∷ input) h b =
          let text = x ∷ input in
          let chunk = xor_bytes (take n text) (block s) in
          let later = drop n text in
          let rest = run fuel (next s) later in
          let size = length-chunk s text in
          let ih =
            run_cancel fuel (next s) later (omega (arith, length-drop n text))
              (IsBytes-drop n text b) in
          let shape : (length chunk ≡ n) ⊎ ((length chunk ≤ n) × (rest ≡ [])) =
            elim (Bool-cases (leb n (length text))) [
              | inl full ↦ inl (ground (arith, size))
              | inr part ↦ inr (
                ground (arith, size),
                ap (run fuel (next s)) (drop-all n text (ground arith)) ∙ run_nil fuel (next s),
              )
            ] in
          let parts = take-chunk chunk rest shape in
          run_step fuel s (chunk ++ rest) (omega (arith, length-append chunk rest, size))
          ∙ ap₂ (λ a d. xor_bytes a (block s) ++ run fuel (next s) d) parts.0 parts.1
          ∙ ap₂ ◌++◌
              (xor_bytes_cancel (take n text) (block s) (omega (arith, length-take n text, sized s))
                (IsBytes-take n text b) (byte s))
              ih
          ∙ take-append-drop n text
