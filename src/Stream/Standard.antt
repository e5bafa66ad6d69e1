-- ===== src/Stream/Standard.antt =====
-- What the hash standard FIPS 180-4 has for both SHA-256 and SHA-512, apart from the code's definitions.
use arduino_nrf_crypto.Base.{
  ℕ, zero, suc, ◌+◌, ◌/◌, ◌%◌, ◌^◌, List, [], ◌∷◌, ◌++◌, ◌≡◌, refl, ap, ap₂, ◌∙◌, arith,
}
use arduino_nrf_crypto.Base.{bit_and_mask, take, drop, replicate, length, ltb, if◌then◌else◌}
use arduino_nrf_crypto.Base.{IsBytes, IsBytes-append, IsBytes-take, IsBytes-drop, IsBytes-replicate}
use arduino_nrf_crypto.Stream.{length_bytes}
use arduino_nrf_crypto.Stream.Blocks.{fold_blocks}
use arduino_nrf_crypto.Stream.Digest.{zero_count, pad_message}

-- The greatest number below `2 ^ bits` whose power does not exceed the target, from the highest bit on.
unfoldable pub root : ℕ → ℕ → ℕ → ℕ → ℕ
root power zero found target = found
root power (suc bits) found target =
    let more = found + 2 ^ bits in
    root power bits (if ltb target (more ^ power) then found else more) target

-- The first eighty primes.
abbrev pub primes : List ℕ
primes =
    2 ∷ 3 ∷ 5 ∷ 7 ∷ 11 ∷ 13 ∷ 17 ∷ 19 ∷ 23 ∷ 29 ∷ 31 ∷ 37 ∷ 41 ∷ 43 ∷ 47 ∷ 53 ∷ 59 ∷ 61 ∷ 67 ∷ 71
    ∷ 73 ∷ 79 ∷ 83 ∷ 89 ∷ 97 ∷ 101 ∷ 103 ∷ 107 ∷ 109 ∷ 113 ∷ 127 ∷ 131 ∷ 137 ∷ 139 ∷ 149 ∷ 151 ∷ 157
    ∷ 163 ∷ 167 ∷ 173 ∷ 179 ∷ 181 ∷ 191 ∷ 193 ∷ 197 ∷ 199 ∷ 211 ∷ 223 ∷ 227 ∷ 229 ∷ 233 ∷ 239 ∷ 241
    ∷ 251 ∷ 257 ∷ 263 ∷ 269 ∷ 271 ∷ 277 ∷ 281 ∷ 283 ∷ 293 ∷ 307 ∷ 311 ∷ 313 ∷ 317 ∷ 331 ∷ 337 ∷ 347
    ∷ 349 ∷ 353 ∷ 359 ∷ 367 ∷ 373 ∷ 379 ∷ 383 ∷ 389 ∷ 397 ∷ 401 ∷ 409 ∷ []

-- A number as so many bytes, the first one the most significant.
unfoldable pub big_endian_bytes : ℕ → ℕ → List ℕ
big_endian_bytes zero n = []
big_endian_bytes (suc count) n = big_endian_bytes count (n / 2 ^ 8) ++ (n % 2 ^ 8 ∷ [])

-- The length field of the code is the number's bytes.
pub big_endian_bytes-length_bytes : (n bits : ℕ) → length_bytes n bits ≡ big_endian_bytes n bits
unfolding length_bytes big_endian_bytes
big_endian_bytes-length_bytes zero bits = refl
big_endian_bytes-length_bytes (suc n) bits =
    ap₂ (λ (l : List ℕ) (x : ℕ). l ++ (x ∷ [])) (big_endian_bytes-length_bytes n (bits / 2 ^ 8))
      (omega (arith, bit_and_mask 8 bits))

pub big_endian_bytes-IsBytes : (count n : ℕ) → IsBytes (big_endian_bytes count n)
unfolding big_endian_bytes
big_endian_bytes-IsBytes zero n = tt
big_endian_bytes-IsBytes (suc count) n =
    IsBytes-append (big_endian_bytes count (n / 2 ^ 8)) ((n % 2 ^ 8) ∷ [])
      (big_endian_bytes-IsBytes count (n / 2 ^ 8)) (omega arith, tt)

-- A padded message of bytes is bytes.
pub pad_message-IsBytes :
    (block_len length_at : ℕ) (field message : List ℕ)
    → IsBytes field
    → IsBytes message
    → IsBytes (pad_message block_len length_at field message)
pad_message-IsBytes block_len length_at field message f b =
    let zeros = zero_count block_len length_at (length message) in
    IsBytes-append message ((0x80 ∷ replicate zeros 0) ++ field) b (
      IsBytes-append (0x80 ∷ replicate zeros 0) field
        (omega arith, IsBytes-replicate zeros 0 (omega arith)) f)

-- Compression functions that agree on blocks of bytes chain alike.
pub fold_blocks_agree :
    (block_len : ℕ) (f g : List ℕ → List ℕ → List ℕ)
    → ((hash block : List ℕ) → IsBytes block → f hash block ≡ g hash block)
    → (count : ℕ) (hash message : List ℕ) → IsBytes message
    → fold_blocks block_len f count hash message ≡ fold_blocks block_len g count hash message
unfolding fold_blocks
fold_blocks_agree block_len f g agree zero hash message b = refl
fold_blocks_agree block_len f g agree (suc count) hash message b =
    let block = take block_len message in
    let rest = drop block_len message in
    fold_blocks_agree block_len f g agree count (f hash block) rest
      (IsBytes-drop block_len message b)
    ∙ ap (λ (s : List ℕ). fold_blocks block_len g count s rest)
        (agree hash block (IsBytes-take block_len message b))
