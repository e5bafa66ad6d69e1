-- ===== src/Sha512/Conforms.antt =====
-- src/backends/SoftSha512.cpp puts out the digests of FIPS 180-4.
use arduino_nrf_crypto.Base.{ℕ, ◌*◌, ◌/◌, ◌^◌, ◌<◌, List, ◌≡◌, refl, ap, ◌∙◌, arith, length}
use arduino_nrf_crypto.Base.{IsBytes, u64, take, take-all, Slice, contents}
use native.Mathlib.Nat.{mod-eq_of_lt}
use arduino_nrf_crypto.Stream.{length_bytes}
use arduino_nrf_crypto.Stream.Blocks.{fold_blocks}
use arduino_nrf_crypto.Stream.Digest.{digest_state, length-digest_state, pad_message}
use arduino_nrf_crypto.Stream.Standard.{
  big_endian_bytes, big_endian_bytes-length_bytes, big_endian_bytes-IsBytes, pad_message-IsBytes,
  fold_blocks_agree,
}
use arduino_nrf_crypto.Sha512.{
  process_block, initial_state, initial_state384, Hasher, hash384, hash512, store_words,
}
use arduino_nrf_crypto.Sha512.Standard.{
  compress, standard_padding, standard_hash, digest512, digest384, word_bytes,
}
use arduino_nrf_crypto.Sha512.Constants.{initial_state-initial512, initial_state384-initial384}
use arduino_nrf_crypto.Sha512.Compress.{process_block-compress, store_words-word_bytes}
use arduino_nrf_crypto.Sha512.Digest.{
  reference, hash512-reference, hash384-reference, sha512, sha384,
}

standard_padding-IsBytes : (message : List ℕ) → IsBytes message → IsBytes (standard_padding message)
standard_padding-IsBytes message b =
    let field = big_endian_bytes 16 (length message * 8) in
    pad_message-IsBytes 128 112 field message (big_endian_bytes-IsBytes 16 (length message * 8)) b

module _ (message : List ℕ) (b : IsBytes message) (short : length message * 8 < 2 ^ 64) where
  -- Below 2 ^ 61 bytes the code's 64-bit count is the length of the standard.
  field-big_endian_bytes :
      length_bytes 16 (u64 (length message * 8)) ≡ big_endian_bytes 16 (length message * 8)
  field-big_endian_bytes =
      ap (length_bytes 16) (mod-eq_of_lt short)
      ∙ big_endian_bytes-length_bytes 16 (length message * 8)

  digest_state-standard_hash :
      (initial : List ℕ)
      → digest_state 128 process_block 112
          (length_bytes 16 (u64 (length message * 8)))
          initial
          message
        ≡ standard_hash initial message
  unfolding digest_state standard_hash
  digest_state-standard_hash initial =
      let padded = standard_padding message in
      ap
        (λ (f : List ℕ).
          let p = pad_message 128 112 f message in
          fold_blocks 128 process_block (length p / 128) initial p)
        field-big_endian_bytes
      ∙ fold_blocks_agree 128 process_block compress process_block-compress (length padded / 128)
          initial padded (standard_padding-IsBytes message b)

  eight_words :
      (field : List ℕ) → length (digest_state 128 process_block 112 field initial_state message) ≡ 8
  unfolding process_block
  eight_words field =
      length-digest_state 128 process_block 8 112 field initial_state message (λ state block. refl)
        refl

  reference-digest512 : reference sha512 message ≡ digest512 message
  unfolding reference digest512
  reference-digest512 =
      let field = length_bytes 16 (u64 (length message * 8)) in
      let state = digest_state 128 process_block 112 field initial_state message in
      let size = eight_words field in
      ap store_words (take-all 8 state (omega (arith, size)))
      ∙ store_words-word_bytes state
      ∙ ap word_bytes (
          digest_state-standard_hash initial_state
          ∙ ap (λ (s : List ℕ). standard_hash s message) initial_state-initial512)

  reference-digest384 : reference sha384 message ≡ digest384 message
  unfolding reference digest384
  reference-digest384 =
      store_words-word_bytes _
      ∙ ap (λ (s : List ℕ). word_bytes (take 6 s))
          (digest_state-standard_hash initial_state384
            ∙ ap (λ (s : List ℕ). standard_hash s message) initial_state384-initial384)

-- For a slice of bytes, fewer than 2 ^ 61 of them, the one-shot SHA-512 puts out the digest that FIPS 180-4
-- defines, whatever the object's memory, with its buffer of 128 bytes, held before.
pub hash512-digest512 :
    (memory : Hasher) (input : Slice)
    → length memory.stream.buffer ≡ 128
    → IsBytes (contents input)
    → length (contents input) * 8 < 2 ^ 64
    → hash512 memory input ≡ digest512 (contents input)
hash512-digest512 memory input size b short =
    hash512-reference memory input size ∙ reference-digest512 (contents input) b short

-- For a slice of bytes, fewer than 2 ^ 61 of them, the one-shot SHA-384 puts out the digest that FIPS 180-4
-- defines, whatever the object's memory, with its buffer of 128 bytes, held before.
pub hash384-digest384 :
    (memory : Hasher) (input : Slice)
    → length memory.stream.buffer ≡ 128
    → IsBytes (contents input)
    → length (contents input) * 8 < 2 ^ 64
    → hash384 memory input ≡ digest384 (contents input)
hash384-digest384 memory input size b short =
    hash384-reference memory input size ∙ reference-digest384 (contents input) b short
