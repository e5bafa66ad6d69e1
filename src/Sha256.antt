-- ===== src/Sha256.antt =====
-- src/backends/SoftSha256.cpp: SHA-256 of FIPS 180-4 and its HMAC. Words are numbers below
-- `2 ^ 32`, and a sum of words is reduced once, at its end.
pub mod Compress
pub mod Conforms
pub mod Constants
pub mod Digest
pub mod Hmac
pub mod Standard
pub mod Tests
use arduino_nrf_crypto.Base.{ℕ, zero, suc, ◌+◌, ◌-◌, ◌*◌, ◌/◌, ◌%◌, ◌^◌, List, [], ◌∷◌, ◌++◌}
use arduino_nrf_crypto.Base.{bit_and, bit_or, bit_xor, get_or, tabulate, length, u8, u32, not32}
use arduino_nrf_crypto.Base.{◌<<<◌, ◌>>>◌, Slice, null, bytes, take, replicate, write_at, contents}
use arduino_nrf_crypto.Base.{slice_len, ltb, if◌then◌else◌, map}
use arduino_nrf_crypto.Stream.{Stream, length_bytes}
use arduino_nrf_crypto.Stream

abbrev pub digest_len : ℕ
digest_len = 32

abbrev pub block_len : ℕ
block_len = 64

unfoldable pub ror : ℕ → ℕ → ℕ
ror x n = bit_or (x >>> n) (u32 (x <<< (32 - n)))

-- The round constants `K`.
abbrev pub k : List ℕ
k =
    0x428a2f98 ∷ 0x71374491 ∷ 0xb5c0fbcf ∷ 0xe9b5dba5 ∷ 0x3956c25b ∷ 0x59f111f1 ∷ 0x923f82a4
    ∷ 0xab1c5ed5 ∷ 0xd807aa98 ∷ 0x12835b01 ∷ 0x243185be ∷ 0x550c7dc3 ∷ 0x72be5d74 ∷ 0x80deb1fe
    ∷ 0x9bdc06a7 ∷ 0xc19bf174 ∷ 0xe49b69c1 ∷ 0xefbe4786 ∷ 0x0fc19dc6 ∷ 0x240ca1cc ∷ 0x2de92c6f
    ∷ 0x4a7484aa ∷ 0x5cb0a9dc ∷ 0x76f988da ∷ 0x983e5152 ∷ 0xa831c66d ∷ 0xb00327c8 ∷ 0xbf597fc7
    ∷ 0xc6e00bf3 ∷ 0xd5a79147 ∷ 0x06ca6351 ∷ 0x14292967 ∷ 0x27b70a85 ∷ 0x2e1b2138 ∷ 0x4d2c6dfc
    ∷ 0x53380d13 ∷ 0x650a7354 ∷ 0x766a0abb ∷ 0x81c2c92e ∷ 0x92722c85 ∷ 0xa2bfe8a1 ∷ 0xa81a664b
    ∷ 0xc24b8b70 ∷ 0xc76c51a3 ∷ 0xd192e819 ∷ 0xd6990624 ∷ 0xf40e3585 ∷ 0x106aa070 ∷ 0x19a4c116
    ∷ 0x1e376c08 ∷ 0x2748774c ∷ 0x34b0bcb5 ∷ 0x391c0cb3 ∷ 0x4ed8aa4a ∷ 0x5b9cca4f ∷ 0x682e6ff3
    ∷ 0x748f82ee ∷ 0x78a5636f ∷ 0x84c87814 ∷ 0x8cc70208 ∷ 0x90befffa ∷ 0xa4506ceb ∷ 0xbef9a3f7
    ∷ 0xc67178f2 ∷ []

abbrev pub initial_state : List ℕ
initial_state =
    0x6a09e667 ∷ 0xbb67ae85 ∷ 0x3c6ef372 ∷ 0xa54ff53a ∷ 0x510e527f ∷ 0x9b05688c ∷ 0x1f83d9ab
    ∷ 0x5be0cd19 ∷ []

-- `reset` leaves the bytes of `buffer_` as they are.
unfoldable pub reset : Stream → Stream
reset s = record s { state = initial_state; bit_len = 0; buffer_len = 0 }

-- `w[i]` for `i < 16`: big-endian words.
unfoldable pub load_word : List ℕ → ℕ → ℕ
load_word p i =
    bit_or
      (bit_or (bit_or (get_or p (i * 4) 0 <<< 24) (get_or p (i * 4 + 1) 0 <<< 16))
        (get_or p (i * 4 + 2) 0 <<< 8))
      (get_or p (i * 4 + 3) 0)

-- `w[i]` for `i ≥ 16`, from the words before it.
unfoldable pub next_word : List ℕ → ℕ → ℕ
unfolding ror
next_word w i =
    let a = get_or w (i - 15) 0 in
    let b = get_or w (i - 2) 0 in
    let s0 = bit_xor (bit_xor (ror a 7) (ror a 18)) (a >>> 3) in
    let s1 = bit_xor (bit_xor (ror b 17) (ror b 19)) (b >>> 10) in
    u32 (get_or w (i - 16) 0 + s0 + get_or w (i - 7) 0 + s1)

unfoldable pub extend : ℕ → ℕ → List ℕ → List ℕ
unfolding next_word
extend zero i w = w
extend (suc left) i w = extend left (i + 1) (w ++ (next_word w i ∷ []))

-- The working variables.
pub record Regs : Type 0 where
  pub a : ℕ
  pub b : ℕ
  pub c : ℕ
  pub d : ℕ
  pub e : ℕ
  pub f : ℕ
  pub g : ℕ
  pub h : ℕ

unfoldable pub round : ℕ → ℕ → Regs → Regs
unfolding ror
round ki wi r =
    let big_s1 = bit_xor (bit_xor (ror r.e 6) (ror r.e 11)) (ror r.e 25) in
    let ch = bit_xor (bit_and r.e r.f) (bit_and (not32 r.e) r.g) in
    let t1 = u32 (r.h + big_s1 + ch + ki + wi) in
    let big_s0 = bit_xor (bit_xor (ror r.a 2) (ror r.a 13)) (ror r.a 22) in
    let maj = bit_xor (bit_xor (bit_and r.a r.b) (bit_and r.a r.c)) (bit_and r.b r.c) in
    let t2 = u32 (big_s0 + maj) in
    record {
      a = u32 (t1 + t2);
      b = r.a;
      c = r.b;
      d = r.c;
      e = u32 (r.d + t1);
      f = r.e;
      g = r.f;
      h = r.g;
    }

unfoldable pub rounds : ℕ → ℕ → List ℕ → Regs → Regs
unfolding round
rounds zero i w r = r
rounds (suc left) i w r = rounds left (i + 1) w (round (get_or k i 0) (get_or w i 0) r)

abbrev pub load_regs : List ℕ → Regs
load_regs s = record {
  a = get_or s 0 0;
  b = get_or s 1 0;
  c = get_or s 2 0;
  d = get_or s 3 0;
  e = get_or s 4 0;
  f = get_or s 5 0;
  g = get_or s 6 0;
  h = get_or s 7 0;
}

-- `processBlock`, as a function of `state_` and the block.
unfoldable pub process_block : List ℕ → List ℕ → List ℕ
unfolding load_word extend rounds
process_block s p =
    let w = extend 48 16 (tabulate 16 0 (load_word p)) in
    let r = rounds 64 0 w (load_regs s) in
    u32 (get_or s 0 0 + r.a)
    ∷ u32 (get_or s 1 0 + r.b)
    ∷ u32 (get_or s 2 0 + r.c)
    ∷ u32 (get_or s 3 0 + r.d)
    ∷ u32 (get_or s 4 0 + r.e)
    ∷ u32 (get_or s 5 0 + r.f)
    ∷ u32 (get_or s 6 0 + r.g)
    ∷ u32 (get_or s 7 0 + r.h)
    ∷ []

unfoldable pub update : Stream → Slice → Stream
update s input = Stream.update block_len process_block s input

-- The bytes of `state_`, each word big-endian.
unfoldable pub store_words : List ℕ → List ℕ
store_words [] = []
store_words (x ∷ xs) = u8 (x >>> 24) ∷ u8 (x >>> 16) ∷ u8 (x >>> 8) ∷ u8 x ∷ store_words xs

-- The digest, and the object that `finish` leaves.
pub record Finished : Type 0 where
  pub out : List ℕ
  pub stream : Stream

unfoldable pub finish : Stream → Finished
unfolding store_words
finish s =
    let done = Stream.closed block_len process_block 56 (length_bytes 8 s.bit_len) s in
    record { out = store_words done.state; stream = reset done }

-- A local object: `memory` is what lies where the constructor puts it.
unfoldable pub hash : Stream → Slice → List ℕ
hash memory input = (finish (update (reset memory) input)).out

-- `k0` of `hmacSha256`: a long key is hashed into it, a short one copied, over zeros.
unfoldable pub block_key : Stream → Slice → List ℕ
block_key memory key =
    if ltb block_len (slice_len key)
    then write_at (replicate block_len 0) 0 (hash memory key)
    else write_at (replicate block_len 0) 0 (contents key)

unfoldable pub xor_key : ℕ → List ℕ → List ℕ
xor_key pad k0 = map (λ b. u8 (bit_xor b pad)) k0

-- `hmacSha256`; one object serves both hashes.
unfoldable pub hmac_sha256 : Stream → Slice → Slice → List ℕ
unfolding block_key xor_key
hmac_sha256 memory key msg =
    let k0 = block_key memory key in
    let inner = finish (update (update (reset memory) (bytes (xor_key 0x36 k0))) msg) in
    let outer = update (update inner.stream (bytes (xor_key 0x5c k0))) (bytes inner.out) in
    (finish outer).out
