-- ===== src/Hkdf/Reference.antt =====
-- HKDF against RFC 5869.
use arduino_nrf_crypto.Base.{ℕ, zero, suc, ◌+◌, ◌-◌, ◌*◌, ◌≤◌, ◌<◌, min, List, [], ◌∷◌, ◌++◌}
use arduino_nrf_crypto.Base.{
  ◌≡◌, refl, sym, ap, ap₂, ◌∙◌, ◌⊎◌, inl, inr, arith, length, take, replicate,
}
use arduino_nrf_crypto.Base.{
  write_at, take-write_at, length-write_at, length-take, take-all, append_assoc,
}
use arduino_nrf_crypto.Base.{append-nil, Slice, null, bytes, contents, u8, ltb, ◌==◌}
use arduino_nrf_crypto.Base.{false, if◌then◌else◌, Bool-cases}
use arduino_nrf_crypto.Stream.{Stream}
use arduino_nrf_crypto.Sha256.{reset, update, finish, xor_key}
use arduino_nrf_crypto.Sha256.Digest.{reference, Absorbed, reset-Absorbed, update-Absorbed}
use arduino_nrf_crypto.Sha256.Digest.{finish-Absorbed}
use arduino_nrf_crypto.Sha256.Hmac.{
  keyed_reference, hmac_reference, padded_key, write_at-replicate, length-reference,
}
use arduino_nrf_crypto.Sha256.Hmac.{IsReadable, slice_len-contents, hmac_sha256-reference}
use arduino_nrf_crypto.Hkdf.{update_part, hmac_sha256_parts, expand, extract, hkdf_sha256}

update_part-Absorbed :
    (s : Stream) (a : Slice) (message : List ℕ)
    → Absorbed message s
    → Absorbed (message ++ contents a) (update_part s a)
unfolding update_part
update_part-Absorbed s (null n) message f = rw (append-nil message) f
update_part-Absorbed s (bytes []) message f = rw (append-nil message) f
update_part-Absorbed s (bytes (x ∷ xs)) message f =
    let more : (length (x ∷ xs) == 0) ≡ false = ground arith in
    rw more (update-Absorbed s (bytes (x ∷ xs)) message f)

length-hmac_reference : (key message : List ℕ) → length (hmac_reference key message) ≡ 32
unfolding hmac_reference
length-hmac_reference key message = length-reference _

short_key : (key : List ℕ) → length key ≡ 32 → write_at (replicate 64 0) 0 key ≡ padded_key key
unfolding padded_key
short_key key e =
    let fits : ltb 64 (length key) ≡ false = ground arith in
    rw fits (write_at-replicate 64 key (omega arith))

-- The parts are authenticated as their concatenation.
hmac_sha256_parts-reference :
    (memory : Stream) (key : List ℕ) (a b : Slice) (counter : ℕ)
    → length memory.buffer ≡ 64
    → length key ≡ 32
    → hmac_sha256_parts memory key a b counter
      ≡ hmac_reference key (contents a ++ (contents b ++ (counter ∷ [])))
unfolding hmac_sha256_parts hmac_reference
hmac_sha256_parts-reference memory key a b counter m e =
    let k0 = write_at (replicate 64 0) 0 key in
    let fresh = reset-Absorbed memory m in
    let ipad = xor_key 0x36 k0 in
    let opad = xor_key 0x5c k0 in
    let keyed = update-Absorbed (reset memory) (bytes ipad) [] fresh in
    let fed =
      update-Absorbed _ (bytes (counter ∷ [])) _
        (update_part-Absorbed _ b _ (update_part-Absorbed _ a ipad keyed)) in
    let used =
      update (update_part (update_part (update (reset memory) (bytes ipad)) a) b)
        (bytes (counter ∷ [])) in
    let inner = finish-Absorbed used _ fed in
    let fed' = update-Absorbed (reset memory) (bytes opad) [] fresh in
    let outer = finish-Absorbed _ _ (update-Absorbed _ (bytes (finish used).out) opad fed') in
    let flat : ((ipad ++ contents a) ++ contents b) ++ (counter ∷ [])
        ≡ ipad ++ (contents a ++ (contents b ++ (counter ∷ []))) =
      append_assoc (ipad ++ contents a) (contents b) (counter ∷ [])
      ∙ append_assoc ipad (contents a) (contents b ++ (counter ∷ [])) in
    let message = contents a ++ (contents b ++ (counter ∷ [])) in
    outer.0
    ∙ ap (λ t. reference (opad ++ t)) (inner.0 ∙ ap reference flat)
    ∙ ap (λ k. reference (xor_key 0x5c k ++ reference (xor_key 0x36 k ++ message)))
        (short_key key e)
    ∙ keyed_reference key message

-- RFC 5869, section 2.3: `T(i)`, `T(i + 1)`, …, `count` of them, after the block `previous`.
unfoldable pub expand_reference : ℕ → List ℕ → List ℕ → List ℕ → ℕ → List ℕ
expand_reference zero prk previous info i = []
expand_reference (suc count) prk previous info i =
    let t = hmac_reference prk (previous ++ (info ++ (i ∷ []))) in
    t ++ expand_reference count prk t info (i + 1)

take-append_split :
    (n : ℕ) (xs ys : List ℕ) → take n (xs ++ ys) ≡ take n xs ++ take (n - length xs) ys
take-append_split zero [] ys = refl
take-append_split zero (x ∷ xs) ys =
    ap (λ k. take k ys) {x = 0} {y = 0 - length (x ∷ xs)} (omega arith)
take-append_split (suc n) [] ys = ap (λ k. take k ys) {x = suc n} {y = suc n - 0} (omega arith)
take-append_split (suc n) (x ∷ xs) ys =
    ap (λ t. x ∷ t)
      (take-append_split n xs ys
        ∙ ap (λ k. take n xs ++ take k ys) {x = n - length xs} {y = suc n - suc (length xs)}
            (omega arith))

take-min : (k : ℕ) (xs : List ℕ) (n : ℕ) → length xs ≡ n → take (min k n) xs ≡ take k xs
take-min zero xs n e = ap (λ j. take j xs) {x = min 0 n} {y = 0} (omega arith)
take-min (suc k) [] zero e = ap (λ j. take {A = ℕ} j []) {x = min (suc k) 0} {y = 0} (omega arith)
take-min (suc k) [] (suc n) e = absurd (omega arith)
take-min (suc k) (x ∷ xs) zero e = absurd (omega arith)
take-min (suc k) (x ∷ xs) (suc n) e =
    ap (λ j. take j (x ∷ xs)) {x = min (suc k) (suc n)} {y = suc (min k n)} (omega arith)
    ∙ ap (λ t. x ∷ t) (take-min k xs n (omega arith))

at_end :
    (off : ℕ) (okm xs : List ℕ)
    → off ≡ length okm
    → okm ≡ take off okm ++ take (length okm - off) xs
at_end off okm xs e =
    let none_left : length okm - off ≡ 0 = omega arith in
    rw none_left (sym (append-nil (take off okm) ∙ take-all off okm (omega arith)))

-- The loop from offset `off` writes the next bytes of the blocks, and ends with the buffer full.
expand_lem :
    (fuel : ℕ) (memory : Stream) (prk : List ℕ) (t info : Slice) (counter off n : ℕ) (okm : List ℕ)
    → length memory.buffer ≡ 64
    → length prk ≡ 32
    → length okm ≡ n
    → n - off ≤ fuel
    → off ≤ n
    → (off + 32 ≡ 32 * counter) ⊎ (off ≡ n)
    → n ≤ 255 * 32
    → expand fuel memory prk t info (u8 counter) off n okm
      ≡ take off okm
        ++ take (n - off) (expand_reference fuel prk (contents t) (contents info) counter)
unfolding expand expand_reference
expand_lem zero memory prk t info counter off n okm m e len f inside at limit =
    rw (sym len) (at_end off okm [] (omega arith))
expand_lem (suc fuel) memory prk t info counter off n okm m e len f inside at limit =
    elim (Bool-cases (ltb off n)) [
      | inr done ↦ rw done (rw (sym len) (at_end off okm _ (ground arith)))
      | inl more ↦
          let less : off < n = ground arith in
          let byte : u8 counter ≡ counter = omega arith in
          let t' = hmac_sha256_parts memory prk t info (u8 counter) in
          let block = hmac_reference prk (contents t ++ (contents info ++ (counter ∷ []))) in
          let same : t' ≡ block =
            hmac_sha256_parts-reference memory prk t info (u8 counter) m e
            ∙ ap (λ i. hmac_reference prk (contents t ++ (contents info ++ (i ∷ [])))) byte in
          let size : length t' ≡ 32 = rw same (length-hmac_reference prk _) in
          let k = min (n - off) 32 in
          let taken : length (take k t') ≡ k = omega (arith, length-take k t') in
          let okm' = write_at okm off (take k t') in
          let written : take (off + k) okm' ≡ take off okm ++ take k t' =
            take-write_at okm off (take k t') (off + k) (omega arith) (omega arith) in
          let later = expand_reference fuel prk t' (contents info) (counter + 1) in
          let aligned : (off + k + 32 ≡ 32 * (counter + 1)) ⊎ (off + k ≡ n) = ground arith in
          let rest =
            expand_lem fuel memory prk (bytes t') info (counter + 1) (off + k) n okm' m e
              (length-write_at okm off (take k t') ∙ len) (omega arith) (omega arith) aligned
              limit in
          let wrap : u8 (u8 counter + 1) ≡ u8 (counter + 1) = omega arith in
          rw more (
            rw wrap (
              rest
              ∙ ap₂ ◌++◌ written (
                  ap (λ j. take j later) {x = n - (off + k)} {y = n - off - length t'}
                    (omega arith))
              ∙ append_assoc (take off okm) (take k t') (take (n - off - length t') later)
              ∙ ap (λ xs. take off okm ++ (xs ++ take (n - off - length t') later))
                  (take-min (n - off) t' 32 size)
              ∙ ap (λ xs. take off okm ++ xs) (sym (take-append_split (n - off) t' later))
              ∙ ap
                  (λ b.
                    take off okm
                    ++ take (n - off)
                        (b ++ expand_reference fuel prk b (contents info) (counter + 1)))
                  same))
    ]

-- RFC 5869: the pseudorandom key, with 32 zero bytes for an empty salt.
unfoldable pub extract_reference : List ℕ → List ℕ → List ℕ
extract_reference ikm salt = hmac_reference (if length salt == 0 then replicate 32 0 else salt) ikm

length-extract_reference : (ikm salt : List ℕ) → length (extract_reference ikm salt) ≡ 32
unfolding extract_reference
length-extract_reference ikm salt = length-hmac_reference _ ikm

extract-reference :
    (memory : Stream) (ikm salt : Slice)
    → length memory.buffer ≡ 64
    → IsReadable salt
    → extract memory ikm salt ≡ extract_reference (contents ikm) (contents salt)
unfolding extract extract_reference
extract-reference memory ikm salt m r =
    rw (slice_len-contents salt r) (elim (Bool-cases (length (contents salt) == 0)) [
      | inl none ↦ rw none (hmac_sha256-reference memory (bytes (replicate 32 0)) ikm m tt)
      | inr given ↦ rw given (hmac_sha256-reference memory salt ikm m r)
    ])

-- For an output of at most 255 blocks and a salt that is null only if it is empty, `hkdfSha256` fills the
-- whole buffer with the first bytes of the blocks of RFC 5869, whatever it held.
pub hkdf_sha256-reference :
    (memory : Stream) (ikm salt info : Slice) (okm : List ℕ)
    → length memory.buffer ≡ 64
    → IsReadable salt
    → length okm ≤ 255 * 32
    → hkdf_sha256 memory ikm salt info okm
      ≡ take (length okm) (
          expand_reference
            (length okm)
            (extract_reference (contents ikm) (contents salt))
            []
            (contents info)
            1)
unfolding hkdf_sha256
hkdf_sha256-reference memory ikm salt info okm m r limit =
    let prk = extract-reference memory ikm salt m r in
    let size : length (extract memory ikm salt) ≡ 32 = rw prk (length-extract_reference _ _) in
    expand_lem (length okm) memory (extract memory ikm salt) (null 0) info 1 0 (length okm) okm m
      size refl (omega arith) (omega arith) (inl refl) limit
    ∙ ap
        (λ j. take j (expand_reference (length okm) (extract memory ikm salt) [] (contents info) 1))
        {x = length okm - 0} {y = length okm} (omega arith)
    ∙ ap (λ k. take (length okm) (expand_reference (length okm) k [] (contents info) 1)) prk
