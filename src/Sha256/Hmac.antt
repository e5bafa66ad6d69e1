-- ===== src/Sha256/Hmac.antt =====
-- `hmacSha256` against RFC 2104.
use arduino_nrf_crypto.Base.{ℕ, zero, suc, ◌+◌, ◌-◌, ◌*◌, ◌≤◌, List, [], ◌∷◌, ◌++◌, ◌≡◌, refl, ap}
use arduino_nrf_crypto.Base.{◌∙◌, arith, length, replicate, write_at, Slice, null, bytes, contents}
use arduino_nrf_crypto.Base.{slice_len, ltb, if◌then◌else◌, Bool-cases, inl, inr, u64}
use arduino_nrf_crypto.Base.{ap₂, bit_xor, ◌%◌, ◌^◌, length-append, length-replicate}
use arduino_nrf_crypto.Stream.{Stream, length_bytes}
use arduino_nrf_crypto.Stream.Digest.{digest_state, length-digest_state}
use arduino_nrf_crypto.Sha256.{reset, update, finish, block_key, xor_key, hmac_sha256, store_words}
use arduino_nrf_crypto.Sha256.{process_block, initial_state}
use arduino_nrf_crypto.Sha256.Digest.{reference, reset-Absorbed, update-Absorbed}
use arduino_nrf_crypto.Sha256.Digest.{finish-Absorbed, hash-reference}

-- RFC 2104: a key longer than a block is replaced by its digest; zeros fill the block.
unfoldable pub padded_key : List ℕ → List ℕ
padded_key key =
    let short = if ltb 64 (length key) then reference key else key in
    short ++ replicate (64 - length short) 0

-- The exclusive or of two strings of bytes of one length.
abbrev pub xor_strings : List ℕ → List ℕ → List ℕ
xor_strings [] ys = []
xor_strings (x ∷ xs) [] = []
xor_strings (x ∷ xs) (y ∷ ys) = (bit_xor x y % 2 ^ 8) ∷ xor_strings xs ys

-- RFC 2104: the byte 0x36 and the byte 0x5c, repeated for a block.
abbrev pub ipad : List ℕ
ipad = replicate 64 0x36

abbrev pub opad : List ℕ
opad = replicate 64 0x5c

-- RFC 2104 over the reference digest.
unfoldable pub hmac_reference : List ℕ → List ℕ → List ℕ
hmac_reference key message =
    let k0 = padded_key key in
    reference (xor_strings k0 opad ++ reference (xor_strings k0 ipad ++ message))

xor_key-xor_strings :
    (pad : ℕ) (k0 : List ℕ) → xor_key pad k0 ≡ xor_strings k0 (replicate (length k0) pad)
unfolding xor_key
xor_key-xor_strings pad [] = refl
xor_key-xor_strings pad (x ∷ k0) =
    ap (λ (t : List ℕ). (bit_xor x pad % 2 ^ 8) ∷ t) (xor_key-xor_strings pad k0)

-- A copy to the front of an array of zeros.
pub write_at-replicate :
    (n : ℕ) (xs : List ℕ)
    → length xs ≤ n
    → write_at (replicate n 0) 0 xs ≡ xs ++ replicate (n - length xs) 0
write_at-replicate zero [] h = refl
write_at-replicate zero (x ∷ xs) h = absurd (omega arith)
write_at-replicate (suc n) [] h = ap (λ k. replicate k 0) {x = suc n} {y = suc n - 0} (omega arith)
write_at-replicate (suc n) (x ∷ xs) h =
    ap (λ t. x ∷ t)
      (write_at-replicate n xs (omega arith) ∙ ap (λ k. xs ++ replicate k 0) (omega arith))

length-store_words :
    (xs : List ℕ) → length (store_words xs) ≡ length xs + length xs + length xs + length xs
unfolding store_words
length-store_words [] = refl
length-store_words (x ∷ xs) = omega (arith, length-store_words xs)

-- A slice whose length is what a pointer to bytes says; only an empty one may be null.
abbrev pub IsReadable : Slice → Type 0
IsReadable (null n) = n ≡ 0
IsReadable (bytes l) = Unit {0}

pub slice_len-contents : (s : Slice) → IsReadable s → slice_len s ≡ length (contents s)
slice_len-contents (null n) h = h
slice_len-contents (bytes l) h = refl

pub length-reference : (message : List ℕ) → length (reference message) ≡ 32
unfolding reference process_block
length-reference message =
    let field = length_bytes 8 (u64 (length message * 8)) in
    omega (
      arith,
      length-store_words (digest_state 64 process_block 56 field initial_state message),
      length-digest_state 64 process_block 8 56 field initial_state message (λ state block. refl)
          refl,
    )

block_key_lem :
    (memory : Stream) (key : Slice)
    → length memory.buffer ≡ 64
    → IsReadable key
    → block_key memory key ≡ padded_key (contents key)
unfolding block_key padded_key
block_key_lem memory key m r =
    let short : length (reference (contents key)) ≤ 64 =
      omega (arith, length-reference (contents key)) in
    let size = slice_len-contents key r in
    let e = hash-reference memory key m in
    elim (Bool-cases (ltb 64 (length (contents key)))) [
      | inl long ↦ rw (size, long, e) (write_at-replicate 64 (reference (contents key)) short)
      | inr fits ↦ rw (size, fits) (write_at-replicate 64 (contents key) (ground arith))
    ]

length-padded_key : (key : List ℕ) → length (padded_key key) ≡ 64
unfolding padded_key
length-padded_key key = elim (Bool-cases (ltb 64 (length key))) [
  | inl long ↦
      let size = length-reference key in
      rw long (
        omega (
          arith,
          size,
          length-append (reference key) (replicate (64 - length (reference key)) 0),
          length-replicate {A = ℕ} (64 - length (reference key)) 0,
        ))
  | inr fits ↦
      let most : length key ≤ 64 = ground arith in
      rw fits (
        omega (
          arith,
          most,
          length-append key (replicate (64 - length key) 0),
          length-replicate {A = ℕ} (64 - length key) 0,
        ))
]

-- What the code makes of a block key and a pad byte is the exclusive or of RFC 2104.
keyed :
    (pad : ℕ) (key : List ℕ)
    → xor_key pad (padded_key key) ≡ xor_strings (padded_key key) (replicate 64 pad)
keyed pad key =
    xor_key-xor_strings pad (padded_key key)
    ∙ ap (λ (n : ℕ). xor_strings (padded_key key) (replicate n pad)) (length-padded_key key)

pub keyed_reference :
    (key message : List ℕ)
    → reference
        (xor_key 0x5c (padded_key key) ++ reference (xor_key 0x36 (padded_key key) ++ message))
      ≡ hmac_reference key message
unfolding hmac_reference
keyed_reference key message =
    ap₂ (λ (i o : List ℕ). reference (o ++ reference (i ++ message))) (keyed 0x36 key)
      (keyed 0x5c key)

-- `hmacSha256` is the HMAC of RFC 2104 over the reference digest of SHA-256, for keys of every length, if a
-- null key is empty and the buffer of the object in memory has 64 bytes.
pub hmac_sha256-reference :
    (memory : Stream) (key msg : Slice)
    → length memory.buffer ≡ 64
    → IsReadable key
    → hmac_sha256 memory key msg ≡ hmac_reference (contents key) (contents msg)
unfolding hmac_sha256 hmac_reference
hmac_sha256-reference memory key msg m r =
    let k0 = block_key memory key in
    let fresh = reset-Absorbed memory m in
    let inner_key = xor_key 0x36 k0 in
    let outer_key = xor_key 0x5c k0 in
    let inner =
      finish-Absorbed (update (update (reset memory) (bytes inner_key)) msg)
        (inner_key ++ contents msg)
        (update-Absorbed _ msg inner_key
          (update-Absorbed (reset memory) (bytes inner_key) [] fresh)) in
    let used = finish (update (update (reset memory) (bytes inner_key)) msg) in
    let outer =
      finish-Absorbed (update (update used.stream (bytes outer_key)) (bytes used.out))
        (outer_key ++ used.out)
        (update-Absorbed _ (bytes used.out) outer_key
          (update-Absorbed used.stream (bytes outer_key) [] inner.1)) in
    outer.0
    ∙ ap (λ t. reference (outer_key ++ t)) inner.0
    ∙ ap (λ k. reference (xor_key 0x5c k ++ reference (xor_key 0x36 k ++ contents msg)))
        (block_key_lem memory key m r)
    ∙ keyed_reference (contents key) (contents msg)
