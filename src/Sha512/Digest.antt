-- ===== src/Sha512/Digest.antt =====
-- SHA-512 and SHA-384: what the object's methods compute of a message, by the code's compression function
-- over the padding of FIPS 180-4.
use arduino_nrf_crypto.Base.{ℕ, ◌*◌, ◌/◌, List, [], ◌∷◌, ◌++◌, ◌≡◌}
use arduino_nrf_crypto.Base.{refl, sym, ap, ◌∙◌, arith, length, u64, Slice, take, contents}
use arduino_nrf_crypto.Base.{foldl, append-nil, append_assoc}
use arduino_nrf_crypto.Stream.{length_bytes, closed}
use arduino_nrf_crypto.Stream.Feed.{feed_all}
use arduino_nrf_crypto.Stream.Digest.{digest_state}
use arduino_nrf_crypto.Stream.Padding.{length-closed}
use arduino_nrf_crypto.Stream.LengthBytes.{length-length_bytes}
use arduino_nrf_crypto.Stream.Fed
use arduino_nrf_crypto.Stream.Fed.{IsFed}
use arduino_nrf_crypto.Sha512.{
  process_block, initial_state, initial_state384, Hasher, reset, reset384,
}
use arduino_nrf_crypto.Sha512.{update, finish, hash384, hash512, store_words}
use arduino_nrf_crypto.Sha256.Digest.{joined}

-- The two variants: the initial state and the length of the digest.
pub record Variant : Type 0 where
  pub initial : List ℕ
  pub digest_len : ℕ

abbrev pub sha512 : Variant
sha512 = record { initial = initial_state; digest_len = 64 }

abbrev pub sha384 : Variant
sha384 = record { initial = initial_state384; digest_len = 48 }

-- The reference digest: the code's compression function over the padded message. The length field is 128
-- bits wide and holds the code's count modulo `2 ^ 64`.
unfoldable pub reference : Variant → List ℕ → List ℕ
reference v message = store_words (
    take (v.digest_len / 8) (
      digest_state 128 process_block 112 (length_bytes 16 (u64 (length message * 8))) v.initial
        message))

-- A hasher of the variant that has been fed the message since its last reset.
pub record Absorbed (v : Variant) (message : List ℕ) (h : Hasher) : Type 0 where
  pub fed : IsFed 128 process_block v.initial message h.stream
  pub variant : h.digest_len ≡ v.digest_len

pub reset-Absorbed : (h : Hasher) → length h.stream.buffer ≡ 128 → Absorbed sha512 [] (reset h)
unfolding reset feed_all
reset-Absorbed h e = record {
  fed = record { valid = record { sized = e; room = omega arith }; fed = refl; counted = refl };
  variant = refl;
}

pub reset384-Absorbed :
    (h : Hasher) → length h.stream.buffer ≡ 128 → Absorbed sha384 [] (reset384 h)
unfolding reset384 feed_all
reset384-Absorbed h e = record {
  fed = record { valid = record { sized = e; room = omega arith }; fed = refl; counted = refl };
  variant = refl;
}

pub update-Absorbed :
    (v : Variant) (h : Hasher) (input : Slice) (message : List ℕ)
    → Absorbed v message h
    → Absorbed v (message ++ contents input) (update h input)
unfolding update
update-Absorbed v h input message f = record {
  fed = Fed.update-IsFed 128 process_block v.initial h.stream input message f.fed;
  variant = f.variant;
}

-- `finish` puts out the digest of what the hasher was fed in its variant, and leaves a hasher for
-- SHA-512, also where it was one for SHA-384.
pub finish-Absorbed :
    (v : Variant) (h : Hasher) (message : List ℕ)
    → Absorbed v message h
    → ((finish h).out ≡ reference v message) × Absorbed sha512 [] (finish h).hasher
unfolding finish reference
finish-Absorbed v h message f =
    let s = h.stream in
    let field = length_bytes 16 s.bit_len in
    let size = length-length_bytes 16 s.bit_len in
    (
      ap (λ n. store_words (take (n / 8) (closed 128 process_block 112 field s).state)) f.variant
          ∙ ap (λ t. store_words (take (v.digest_len / 8) t))
              (Fed.closed-IsFed 128 process_block v.initial 112 field message s f.fed
                  (omega (arith, size)) (omega (arith, size))
                ∙ ap (λ b. digest_state 128 process_block 112 (length_bytes 16 b) v.initial message)
                    f.fed.counted),
      reset-Absorbed (record h { stream = closed 128 process_block 112 field s })
          (length-closed 128 process_block 112 field s f.fed.valid (omega arith)),
    )

-- The one-shot SHA-512 is the reference digest, whatever the object's memory held before.
pub hash512-reference :
    (memory : Hasher) (input : Slice)
    → length memory.stream.buffer ≡ 128
    → hash512 memory input ≡ reference sha512 (contents input)
unfolding hash512
hash512-reference memory input h =
    (finish-Absorbed sha512 (update (reset memory) input) (contents input)
      (update-Absorbed sha512 (reset memory) input [] (reset-Absorbed memory h))).0

-- The one-shot SHA-384 is the reference digest, whatever the object's memory held before.
pub hash384-reference :
    (memory : Hasher) (input : Slice)
    → length memory.stream.buffer ≡ 128
    → hash384 memory input ≡ reference sha384 (contents input)
unfolding hash384 reset
hash384-reference memory input h =
    (finish-Absorbed sha384 (update (reset384 (reset memory)) input) (contents input) (
      update-Absorbed sha384 (reset384 (reset memory)) input []
        (reset384-Absorbed (reset memory) h))).0

pub updates-Absorbed :
    (v : Variant) (inputs : List Slice) (h : Hasher) (message : List ℕ)
    → Absorbed v message h
    → Absorbed v (message ++ joined inputs) (foldl update h inputs)
updates-Absorbed v [] h message f = rw (append-nil message) f
updates-Absorbed v (x ∷ xs) h message f =
    rw (sym (append_assoc message (contents x) (joined xs)))
      (updates-Absorbed v xs (update h x) (message ++ contents x) (update-Absorbed v h x message f))
