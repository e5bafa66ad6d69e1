-- ===== src/Sha512.antt =====
-- src/backends/SoftSha512.cpp: SHA-512 and SHA-384 of FIPS 180-4. Words are numbers below `2 ^ 64`,
-- and a sum of words is reduced once, at its end.
pub mod Compress
pub mod Conforms
pub mod Constants
pub mod Digest
pub mod Standard
pub mod Tests
use arduino_nrf_crypto.Base.{ℕ, zero, suc, ◌+◌, ◌-◌, ◌*◌, ◌/◌, ◌%◌, ◌^◌, List, [], ◌∷◌, ◌++◌}
use arduino_nrf_crypto.Base.{bit_and, bit_or, bit_xor, get_or, tabulate, u8, u64, not64}
use arduino_nrf_crypto.Base.{◌<<<◌, ◌>>>◌, Slice, take}
use arduino_nrf_crypto.Stream.{Stream, length_bytes}
use arduino_nrf_crypto.Stream

abbrev pub block_len : ℕ
block_len = 128

unfoldable pub ror : ℕ → ℕ → ℕ
ror x n = bit_or (x >>> n) (u64 (x <<< (64 - n)))

-- The round constants `K`.
abbrev pub k : List ℕ
k =
    0x428a2f98d728ae22 ∷ 0x7137449123ef65cd ∷ 0xb5c0fbcfec4d3b2f ∷ 0xe9b5dba58189dbbc
    ∷ 0x3956c25bf348b538 ∷ 0x59f111f1b605d019 ∷ 0x923f82a4af194f9b ∷ 0xab1c5ed5da6d8118
    ∷ 0xd807aa98a3030242 ∷ 0x12835b0145706fbe ∷ 0x243185be4ee4b28c ∷ 0x550c7dc3d5ffb4e2
    ∷ 0x72be5d74f27b896f ∷ 0x80deb1fe3b1696b1 ∷ 0x9bdc06a725c71235 ∷ 0xc19bf174cf692694
    ∷ 0xe49b69c19ef14ad2 ∷ 0xefbe4786384f25e3 ∷ 0x0fc19dc68b8cd5b5 ∷ 0x240ca1cc77ac9c65
    ∷ 0x2de92c6f592b0275 ∷ 0x4a7484aa6ea6e483 ∷ 0x5cb0a9dcbd41fbd4 ∷ 0x76f988da831153b5
    ∷ 0x983e5152ee66dfab ∷ 0xa831c66d2db43210 ∷ 0xb00327c898fb213f ∷ 0xbf597fc7beef0ee4
    ∷ 0xc6e00bf33da88fc2 ∷ 0xd5a79147930aa725 ∷ 0x06ca6351e003826f ∷ 0x142929670a0e6e70
    ∷ 0x27b70a8546d22ffc ∷ 0x2e1b21385c26c926 ∷ 0x4d2c6dfc5ac42aed ∷ 0x53380d139d95b3df
    ∷ 0x650a73548baf63de ∷ 0x766a0abb3c77b2a8 ∷ 0x81c2c92e47edaee6 ∷ 0x92722c851482353b
    ∷ 0xa2bfe8a14cf10364 ∷ 0xa81a664bbc423001 ∷ 0xc24b8b70d0f89791 ∷ 0xc76c51a30654be30
    ∷ 0xd192e819d6ef5218 ∷ 0xd69906245565a910 ∷ 0xf40e35855771202a ∷ 0x106aa07032bbd1b8
    ∷ 0x19a4c116b8d2d0c8 ∷ 0x1e376c085141ab53 ∷ 0x2748774cdf8eeb99 ∷ 0x34b0bcb5e19b48a8
    ∷ 0x391c0cb3c5c95a63 ∷ 0x4ed8aa4ae3418acb ∷ 0x5b9cca4f7763e373 ∷ 0x682e6ff3d6b2b8a3
    ∷ 0x748f82ee5defb2fc ∷ 0x78a5636f43172f60 ∷ 0x84c87814a1f0ab72 ∷ 0x8cc702081a6439ec
    ∷ 0x90befffa23631e28 ∷ 0xa4506cebde82bde9 ∷ 0xbef9a3f7b2c67915 ∷ 0xc67178f2e372532b
    ∷ 0xca273eceea26619c ∷ 0xd186b8c721c0c207 ∷ 0xeada7dd6cde0eb1e ∷ 0xf57d4f7fee6ed178
    ∷ 0x06f067aa72176fba ∷ 0x0a637dc5a2c898a6 ∷ 0x113f9804bef90dae ∷ 0x1b710b35131c471b
    ∷ 0x28db77f523047d84 ∷ 0x32caab7b40c72493 ∷ 0x3c9ebe0a15c9bebc ∷ 0x431d67c49c100d4c
    ∷ 0x4cc5d4becb3e42b6 ∷ 0x597f299cfc657e2a ∷ 0x5fcb6fab3ad6faec ∷ 0x6c44198c4a475817 ∷ []

abbrev pub initial_state : List ℕ
initial_state =
    0x6a09e667f3bcc908 ∷ 0xbb67ae8584caa73b ∷ 0x3c6ef372fe94f82b ∷ 0xa54ff53a5f1d36f1
    ∷ 0x510e527fade682d1 ∷ 0x9b05688c2b3e6c1f ∷ 0x1f83d9abfb41bd6b ∷ 0x5be0cd19137e2179 ∷ []

abbrev pub initial_state384 : List ℕ
initial_state384 =
    0xcbbb9d5dc1059ed8 ∷ 0x629a292a367cd507 ∷ 0x9159015a3070dd17 ∷ 0x152fecd8f70e5939
    ∷ 0x67332667ffc00b31 ∷ 0x8eb44a8768581511 ∷ 0xdb0c2e0d64f98fa7 ∷ 0x47b5481dbefa4fa4 ∷ []

-- `digestLen_` beside the members that SHA-256 has too.
pub record Hasher : Type 0 where
  pub stream : Stream
  pub digest_len : ℕ

-- `reset` and `reset384` leave the bytes of `buffer_` as they are.
unfoldable pub reset : Hasher → Hasher
reset h = record {
  stream = record (h.stream) { state = initial_state; bit_len = 0; buffer_len = 0 };
  digest_len = 64;
}

unfoldable pub reset384 : Hasher → Hasher
reset384 h = record {
  stream = record (h.stream) { state = initial_state384; bit_len = 0; buffer_len = 0 };
  digest_len = 48;
}

-- `w[i]` for `i < 16`: big-endian words.
unfoldable pub load_word : List ℕ → ℕ → ℕ
load_word p i =
    let byte = λ (j : ℕ). get_or p (i * 8 + j) 0 in
    let high =
      bit_or (bit_or (bit_or (byte 0 <<< 56) (byte 1 <<< 48)) (byte 2 <<< 40)) (byte 3 <<< 32) in
    bit_or (bit_or (bit_or (bit_or high (byte 4 <<< 24)) (byte 5 <<< 16)) (byte 6 <<< 8)) (byte 7)

-- `w[i]` for `i ≥ 16`, from the words before it.
unfoldable pub next_word : List ℕ → ℕ → ℕ
unfolding ror
next_word w i =
    let a = get_or w (i - 15) 0 in
    let b = get_or w (i - 2) 0 in
    let s0 = bit_xor (bit_xor (ror a 1) (ror a 8)) (a >>> 7) in
    let s1 = bit_xor (bit_xor (ror b 19) (ror b 61)) (b >>> 6) in
    u64 (get_or w (i - 16) 0 + s0 + get_or w (i - 7) 0 + s1)

unfoldable pub extend : ℕ → ℕ → List ℕ → List ℕ
unfolding next_word
extend zero i w = w
extend (suc left) i w = extend left (i + 1) (w ++ (next_word w i ∷ []))

-- The working variables.
pub record Regs : Type 0 where
  pub a : ℕ
  pub b : ℕ
  pub c : ℕ
  pub d : ℕ
  pub e : ℕ
  pub f : ℕ
  pub g : ℕ
  pub h : ℕ

unfoldable pub round : ℕ → ℕ → Regs → Regs
unfolding ror
round ki wi r =
    let big_s1 = bit_xor (bit_xor (ror r.e 14) (ror r.e 18)) (ror r.e 41) in
    let ch = bit_xor (bit_and r.e r.f) (bit_and (not64 r.e) r.g) in
    let t1 = u64 (r.h + big_s1 + ch + ki + wi) in
    let big_s0 = bit_xor (bit_xor (ror r.a 28) (ror r.a 34)) (ror r.a 39) in
    let maj = bit_xor (bit_xor (bit_and r.a r.b) (bit_and r.a r.c)) (bit_and r.b r.c) in
    let t2 = u64 (big_s0 + maj) in
    record {
      a = u64 (t1 + t2);
      b = r.a;
      c = r.b;
      d = r.c;
      e = u64 (r.d + t1);
      f = r.e;
      g = r.f;
      h = r.g;
    }

unfoldable pub rounds : ℕ → ℕ → List ℕ → Regs → Regs
unfolding round
rounds zero i w r = r
rounds (suc left) i w r = rounds left (i + 1) w (round (get_or k i 0) (get_or w i 0) r)

abbrev pub load_regs : List ℕ → Regs
load_regs s = record {
  a = get_or s 0 0;
  b = get_or s 1 0;
  c = get_or s 2 0;
  d = get_or s 3 0;
  e = get_or s 4 0;
  f = get_or s 5 0;
  g = get_or s 6 0;
  h = get_or s 7 0;
}

-- `processBlock`, as a function of `state_` and the block.
unfoldable pub process_block : List ℕ → List ℕ → List ℕ
unfolding load_word extend rounds
process_block s p =
    let w = extend 64 16 (tabulate 16 0 (load_word p)) in
    let r = rounds 80 0 w (load_regs s) in
    u64 (get_or s 0 0 + r.a)
    ∷ u64 (get_or s 1 0 + r.b)
    ∷ u64 (get_or s 2 0 + r.c)
    ∷ u64 (get_or s 3 0 + r.d)
    ∷ u64 (get_or s 4 0 + r.e)
    ∷ u64 (get_or s 5 0 + r.f)
    ∷ u64 (get_or s 6 0 + r.g)
    ∷ u64 (get_or s 7 0 + r.h)
    ∷ []

unfoldable pub update : Hasher → Slice → Hasher
update h input = record h { stream = Stream.update block_len process_block h.stream input }

-- The bytes of the words put out, each word big-endian.
unfoldable pub store_words : List ℕ → List ℕ
store_words [] = []
store_words (x ∷ xs) =
    u8 (x >>> 56)
    ∷ u8 (x >>> 48)
    ∷ u8 (x >>> 40)
    ∷ u8 (x >>> 32)
    ∷ u8 (x >>> 24)
    ∷ u8 (x >>> 16)
    ∷ u8 (x >>> 8)
    ∷ u8 x
    ∷ store_words xs

-- The digest, and the object that `finish` leaves.
pub record Finished : Type 0 where
  pub out : List ℕ
  pub hasher : Hasher

-- The length field is 16 bytes of a 64-bit count. `digestLen_ / 8` words are put out, and the object
-- is reset for SHA-512, whichever variant it was.
unfoldable pub finish : Hasher → Finished
unfolding store_words
finish h =
    let s = h.stream in
    let done = Stream.closed block_len process_block 112 (length_bytes 16 s.bit_len) s in
    record {
      out = store_words (take (h.digest_len / 8) done.state);
      hasher = reset (record h { stream = done });
    }

-- Local objects: `memory` is what lies where the constructor, a `reset`, puts them.
unfoldable pub hash384 : Hasher → Slice → List ℕ
hash384 memory input = (finish (update (reset384 (reset memory)) input)).out

unfoldable pub hash512 : Hasher → Slice → List ℕ
hash512 memory input = (finish (update (reset memory) input)).out
