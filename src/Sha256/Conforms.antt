-- ===== src/Sha256/Conforms.antt =====
-- src/backends/SoftSha256.cpp puts out the digest of FIPS 180-4.
use arduino_nrf_crypto.Base.{ℕ, ◌*◌, ◌/◌, ◌^◌, ◌<◌, List, ◌≡◌, ap, ◌∙◌, length}
use arduino_nrf_crypto.Base.{IsBytes, u64, Slice, contents}
use native.Mathlib.Nat.{mod-eq_of_lt}
use arduino_nrf_crypto.Stream.{Stream, length_bytes}
use arduino_nrf_crypto.Stream.Blocks.{fold_blocks}
use arduino_nrf_crypto.Stream.Digest.{digest_state, pad_message}
use arduino_nrf_crypto.Stream.Standard.{
  big_endian_bytes, big_endian_bytes-length_bytes, big_endian_bytes-IsBytes, pad_message-IsBytes,
  fold_blocks_agree,
}
use arduino_nrf_crypto.Sha256.{process_block, initial_state, hash}
use arduino_nrf_crypto.Sha256.Standard.{
  compress, standard_padding, standard_hash, digest256, word_bytes,
}
use arduino_nrf_crypto.Sha256.Constants.{initial_state-initial256}
use arduino_nrf_crypto.Sha256.Compress.{process_block-compress, store_words-word_bytes}
use arduino_nrf_crypto.Sha256.Digest.{reference, hash-reference}

standard_padding-IsBytes : (message : List ℕ) → IsBytes message → IsBytes (standard_padding message)
standard_padding-IsBytes message b =
    let field = big_endian_bytes 8 (length message * 8) in
    pad_message-IsBytes 64 56 field message (big_endian_bytes-IsBytes 8 (length message * 8)) b

module _ (message : List ℕ) (b : IsBytes message) (short : length message * 8 < 2 ^ 64) where
  -- Below 2 ^ 61 bytes the code's 64-bit count is the length of the standard.
  field-big_endian_bytes :
      length_bytes 8 (u64 (length message * 8)) ≡ big_endian_bytes 8 (length message * 8)
  field-big_endian_bytes =
      ap (length_bytes 8) (mod-eq_of_lt short)
      ∙ big_endian_bytes-length_bytes 8 (length message * 8)

  digest_state-standard_hash :
      digest_state 64 process_block 56
        (length_bytes 8 (u64 (length message * 8)))
        initial_state
        message
      ≡ standard_hash message
  unfolding digest_state standard_hash
  digest_state-standard_hash =
      let padded = standard_padding message in
      ap
        (λ (f : List ℕ).
          let p = pad_message 64 56 f message in
          fold_blocks 64 process_block (length p / 64) initial_state p)
        field-big_endian_bytes
      ∙ fold_blocks_agree 64 process_block compress process_block-compress (length padded / 64)
          initial_state padded (standard_padding-IsBytes message b)
      ∙ ap (λ (s : List ℕ). fold_blocks 64 compress (length padded / 64) s padded)
          initial_state-initial256

  pub reference-digest256 : reference message ≡ digest256 message
  unfolding reference digest256
  reference-digest256 = store_words-word_bytes _ ∙ ap word_bytes digest_state-standard_hash

-- For a slice of bytes, fewer than 2 ^ 61 of them, the one-shot SHA-256 puts out the digest that FIPS 180-4
-- defines, whatever the object's memory, with its buffer of 64 bytes, held before.
pub hash-digest256 :
    (memory : Stream) (input : Slice)
    → length memory.buffer ≡ 64
    → IsBytes (contents input)
    → length (contents input) * 8 < 2 ^ 64
    → hash memory input ≡ digest256 (contents input)
hash-digest256 memory input size b short =
    hash-reference memory input size ∙ reference-digest256 (contents input) b short
