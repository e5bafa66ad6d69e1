-- ===== src/Stream.antt =====
-- The buffering of `SoftSha256` and `SoftSha512` (src/backends/SoftSha256.cpp, SoftSha512.cpp):
-- `update` and the padding of `finish` are the same code in both classes, at blocks of 64 and 128
-- bytes. Parameters: the block's length, `processBlock` as a function of the chaining state and the
-- block, and the buffer index at which `finish` writes the message length.
pub mod Feed
pub mod Padding
pub mod Standard
pub mod Blocks
pub mod Digest
pub mod Fed
pub mod LengthBytes
use arduino_nrf_crypto.Base.{ℕ, zero, suc, ◌+◌, ◌-◌, ◌*◌, ◌/◌, ◌%◌, min, List, [], ◌∷◌}
use arduino_nrf_crypto.Base.{Bool, true, false, length, take, drop, write_at, ◌==◌, if◌then◌else◌}
use arduino_nrf_crypto.Base.{u8, u64, ◌>>>◌, bit_and, ◌++◌, Slice, null, bytes}

-- `state_`, `bitLen_`, `buffer_` and `bufferLen_`.
pub record Stream : Type 0 where
  pub state : List ℕ
  pub bit_len : ℕ
  pub buffer : List ℕ
  pub buffer_len : ℕ

module _ (block_len : ℕ) (process_block : List ℕ → List ℕ → List ℕ) where
  -- The end of a round: a full buffer is processed.
  unfoldable pub flush : Stream → Stream
  flush s =
      if s.buffer_len == block_len
      then record s { state = process_block s.state s.buffer; buffer_len = 0 }
      else s

  -- One round of `while (len > 0)`: copy as much as fits, and process a full buffer.
  unfoldable pub absorb_round : Stream → List ℕ → Stream
  unfolding flush
  absorb_round s input =
      let n = min (block_len - s.buffer_len) (length input) in
      flush (record s {
        buffer = write_at s.buffer s.buffer_len (take n input);
        buffer_len = s.buffer_len + n;
      })

  -- The loop, with fuel for its rounds.
  unfoldable pub absorb : ℕ → Stream → List ℕ → Stream
  unfolding absorb_round
  absorb zero s input = s
  absorb (suc fuel) s [] = s
  absorb (suc fuel) s (x ∷ input) =
      absorb fuel (absorb_round s (x ∷ input))
        (drop (min (block_len - s.buffer_len) (length (x ∷ input))) (x ∷ input))

  -- Each round takes a byte at least, so the length is fuel enough.
  unfoldable pub update : Stream → Slice → Stream
  unfolding absorb
  update s (null n) = s
  update s (bytes input) =
      absorb (length input) (record s { bit_len = u64 (s.bit_len + u64 (length input * 8)) }) input

  -- `while (bufferLen_ != length_at) update(&zero, 1);` with fuel for its rounds.
  unfoldable pub pad_zeros : ℕ → ℕ → Stream → Stream
  pad_zeros zero length_at s = s
  pad_zeros (suc fuel) length_at s =
      let rest = pad_zeros fuel length_at (update s (bytes (0 ∷ []))) in
      if s.buffer_len == length_at then s else rest

  -- The end of `finish`: one byte 0x80, zeros up to `length_at`, the length bytes, which are written
  -- past `update`, and the last block. `bitLen_` was read before; `state_` is put out after.
  unfoldable pub closed : ℕ → List ℕ → Stream → Stream
  closed length_at length_field s =
      let marked = update s (bytes (0x80 ∷ [])) in
      let padded = pad_zeros block_len length_at marked in
      let buffer' = write_at padded.buffer padded.buffer_len length_field in
      record padded { state = process_block padded.state buffer'; buffer = buffer' }

-- `for (i = n - 1; i >= 0; --i) { lenBytes[i] = uint8_t(lenBits & 0xFF); lenBits >>= 8; }`
unfoldable pub length_bytes : ℕ → ℕ → List ℕ
length_bytes zero bits = []
length_bytes (suc n) bits = length_bytes n (bits >>> 8) ++ (u8 (bit_and bits 0xff) ∷ [])
