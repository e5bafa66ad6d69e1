-- ===== src/Sha256/Digest.antt =====
-- SHA-256: what the object's methods compute of a message, by the code's compression function over the
-- padding of FIPS 180-4.
use arduino_nrf_crypto.Base.{ℕ, ◌*◌, List, [], ◌∷◌, ◌++◌, ◌≡◌}
use arduino_nrf_crypto.Base.{refl, sym, ap, ◌∙◌, arith, length, u64, Slice, bytes}
use arduino_nrf_crypto.Base.{contents, foldl, append-nil, append_assoc}
use arduino_nrf_crypto.Stream.{Stream, length_bytes, closed}
use arduino_nrf_crypto.Stream.Feed.{feed_all}
use arduino_nrf_crypto.Stream.Digest.{digest_state}
use arduino_nrf_crypto.Stream.Padding.{length-closed}
use arduino_nrf_crypto.Stream.LengthBytes.{length-length_bytes}
use arduino_nrf_crypto.Stream.Fed
use arduino_nrf_crypto.Stream.Fed.{IsFed}
use arduino_nrf_crypto.Sha256.{
  process_block, initial_state, reset, update, finish, hash, store_words,
}

-- The reference digest: the message is padded by 0x80, the least number of zeros and its length in
-- bits, 64 bits wide; the blocks are chained from the initial state by the code's compression function.
unfoldable pub reference : List ℕ → List ℕ
reference message = store_words (
    digest_state 64 process_block 56 (length_bytes 8 (u64 (length message * 8))) initial_state
      message)

-- A SHA-256 object that has been fed the message since its last reset.
abbrev pub Absorbed : List ℕ → Stream → Type 0
Absorbed message s = IsFed 64 process_block initial_state message s

pub reset-Absorbed : (s : Stream) → length s.buffer ≡ 64 → Absorbed [] (reset s)
unfolding reset feed_all
reset-Absorbed s h = record {
  valid = record { sized = h; room = omega arith };
  fed = refl;
  counted = refl;
}

pub update-Absorbed :
    (s : Stream) (input : Slice) (message : List ℕ)
    → Absorbed message s
    → Absorbed (message ++ contents input) (update s input)
unfolding update
update-Absorbed s input message f =
    Fed.update-IsFed 64 process_block initial_state s input message f

-- `finish` of an object that was fed a message since its last reset puts out the digest of the message,
-- and leaves an object that was fed nothing since a reset.
pub finish-Absorbed :
    (s : Stream) (message : List ℕ)
    → Absorbed message s
    → ((finish s).out ≡ reference message) × Absorbed [] (finish s).stream
unfolding finish reference
finish-Absorbed s message f =
    let field = length_bytes 8 s.bit_len in
    let size = length-length_bytes 8 s.bit_len in
    (
      ap store_words (
          Fed.closed-IsFed 64 process_block initial_state 56 field message s f (omega (arith, size))
            (omega (arith, size))
          ∙ ap (λ b. digest_state 64 process_block 56 (length_bytes 8 b) initial_state message)
              f.counted),
      reset-Absorbed (closed 64 process_block 56 field s)
          (length-closed 64 process_block 56 field s f.valid (omega arith)),
    )

pub hash-reference :
    (memory : Stream) (input : Slice)
    → length memory.buffer ≡ 64
    → hash memory input ≡ reference (contents input)
unfolding hash
hash-reference memory input h =
    (finish-Absorbed (update (reset memory) input) (contents input)
      (update-Absorbed (reset memory) input [] (reset-Absorbed memory h))).0

-- All the bytes of a sequence of updates.
abbrev pub joined : List Slice → List ℕ
joined [] = []
joined (x ∷ xs) = contents x ++ joined xs

pub updates-Absorbed :
    (inputs : List Slice) (s : Stream) (message : List ℕ)
    → Absorbed message s
    → Absorbed (message ++ joined inputs) (foldl update s inputs)
updates-Absorbed [] s message f = rw (append-nil message) f
updates-Absorbed (x ∷ xs) s message f =
    rw (sym (append_assoc message (contents x) (joined xs)))
      (updates-Absorbed xs (update s x) (message ++ contents x) (update-Absorbed s x message f))

-- However a message is cut into updates, null slices among them, an object with a buffer of 64 bytes puts
-- out the one-shot hash of all the bytes.
pub finish-updates :
    (memory : Stream) (inputs : List Slice)
    → length memory.buffer ≡ 64
    → (finish (foldl update (reset memory) inputs)).out ≡ hash memory (bytes (joined inputs))
finish-updates memory inputs h =
    (finish-Absorbed (foldl update (reset memory) inputs) (joined inputs)
      (updates-Absorbed inputs (reset memory) [] (reset-Absorbed memory h))).0
    ∙ sym (hash-reference memory (bytes (joined inputs)) h)
