-- ===== src/Sha512/Standard.antt =====
-- SHA-512 and SHA-384 as FIPS 180-4 defines them, against which src/backends/SoftSha512.cpp is proved.
use arduino_nrf_crypto.Base.{ℕ, zero, suc, ◌+◌, ◌-◌, ◌*◌, ◌/◌, ◌%◌, ◌^◌, List, [], ◌∷◌, ◌++◌}
use arduino_nrf_crypto.Base.{bit_and, bit_or, bit_xor, get_or, tabulate, length, take, drop, map}
use arduino_nrf_crypto.Base.{foldl}
use arduino_nrf_crypto.Sha512.{Regs}
use arduino_nrf_crypto.Stream.Digest.{pad_message}
use arduino_nrf_crypto.Stream.Standard.{root, primes, big_endian_bytes}
use arduino_nrf_crypto.Stream.Blocks.{fold_blocks}

-- The first 64 bits of the fractional parts of square roots and cube roots.
abbrev pub square_root_part : ℕ → ℕ
unfolding root
square_root_part prime = root 2 69 0 (prime * 2 ^ 128) % 2 ^ 64

abbrev pub cube_root_part : ℕ → ℕ
unfolding root
cube_root_part prime = root 3 69 0 (prime * 2 ^ 192) % 2 ^ 64

-- Section 4.2.3, and sections 5.3.5 and 5.3.4.
unfoldable pub round_constants : List ℕ
unfolding root
round_constants = map cube_root_part primes

unfoldable pub initial512 : List ℕ
unfolding root
initial512 = map square_root_part (take 8 primes)

unfoldable pub initial384 : List ℕ
unfolding root
initial384 = map square_root_part (take 8 (drop 8 primes))

-- Sections 3.2 and 4.1.3: the functions of words of 64 bits.
abbrev pub rotr : ℕ → ℕ → ℕ
rotr n x = bit_or (x / 2 ^ n) (x * 2 ^ (64 - n) % 2 ^ 64)

abbrev pub choose : ℕ → ℕ → ℕ → ℕ
choose x y z = bit_xor (bit_and x y) (bit_and (2 ^ 64 - 1 - x) z)

abbrev pub majority : ℕ → ℕ → ℕ → ℕ
majority x y z = bit_xor (bit_xor (bit_and x y) (bit_and x z)) (bit_and y z)

abbrev pub upper_sigma0 : ℕ → ℕ
upper_sigma0 x = bit_xor (bit_xor (rotr 28 x) (rotr 34 x)) (rotr 39 x)

abbrev pub upper_sigma1 : ℕ → ℕ
upper_sigma1 x = bit_xor (bit_xor (rotr 14 x) (rotr 18 x)) (rotr 41 x)

abbrev pub lower_sigma0 : ℕ → ℕ
lower_sigma0 x = bit_xor (bit_xor (rotr 1 x) (rotr 8 x)) (x / 2 ^ 7)

abbrev pub lower_sigma1 : ℕ → ℕ
lower_sigma1 x = bit_xor (bit_xor (rotr 19 x) (rotr 61 x)) (x / 2 ^ 6)

-- Section 6.4.2, step 1: the message schedule, `left` more words after the first `t`.
abbrev pub message_word : List ℕ → ℕ → ℕ
message_word block t =
    foldl (λ n i. n * 2 ^ 8 + get_or block (t * 8 + i) 0) 0 (0 ∷ 1 ∷ 2 ∷ 3 ∷ 4 ∷ 5 ∷ 6 ∷ 7 ∷ [])

unfoldable pub schedule : ℕ → ℕ → List ℕ → List ℕ
schedule zero t w = w
schedule (suc left) t w =
    let at = λ (i : ℕ). get_or w (t - i) 0 in
    let next = (lower_sigma1 (at 2) + at 7 + lower_sigma0 (at 15) + at 16) % 2 ^ 64 in
    schedule left (t + 1) (w ++ (next ∷ []))

-- Step 3: a round on the working variables `a` to `h`.
unfoldable pub standard_round : ℕ → ℕ → Regs → Regs
standard_round kt wt v =
    let t1 = (v.h + upper_sigma1 v.e + choose v.e v.f v.g + kt + wt) % 2 ^ 64 in
    let t2 = (upper_sigma0 v.a + majority v.a v.b v.c) % 2 ^ 64 in
    record {
      a = (t1 + t2) % 2 ^ 64;
      b = v.a;
      c = v.b;
      d = v.c;
      e = (v.d + t1) % 2 ^ 64;
      f = v.e;
      g = v.f;
      h = v.g;
    }

unfoldable pub standard_rounds : ℕ → ℕ → List ℕ → Regs → Regs
standard_rounds zero t w v = v
standard_rounds (suc left) t w v =
    standard_rounds left (t + 1) w (standard_round (get_or round_constants t 0) (get_or w t 0) v)

-- Steps 2 and 4: the working variables start as the hash value, and are added to it.
unfoldable pub compress : List ℕ → List ℕ → List ℕ
compress hash block =
    let at = λ (i : ℕ). get_or hash i 0 in
    let w = schedule 64 16 (tabulate 16 0 (message_word block)) in
    let v =
      standard_rounds 80 0 w (record {
        a = at 0;
        b = at 1;
        c = at 2;
        d = at 3;
        e = at 4;
        f = at 5;
        g = at 6;
        h = at 7;
      }) in
    map (λ n. n % 2 ^ 64)
      ((at 0 + v.a)
        ∷ (at 1 + v.b)
        ∷ (at 2 + v.c)
        ∷ (at 3 + v.d)
        ∷ (at 4 + v.e)
        ∷ (at 5 + v.f)
        ∷ (at 6 + v.g)
        ∷ (at 7 + v.h)
        ∷ [])

-- The words as bytes, the first byte of each the most significant.
unfoldable pub word_bytes : List ℕ → List ℕ
word_bytes [] = []
word_bytes (w ∷ ws) = big_endian_bytes 8 w ++ word_bytes ws

-- Section 5.1.2: the message, the byte 0x80, zeros and the length in bits, in 16 bytes.
abbrev pub standard_padding : List ℕ → List ℕ
standard_padding message = pad_message 128 112 (big_endian_bytes 16 (length message * 8)) message

-- The hash value after all blocks of the padded message, from an initial one.
unfoldable pub standard_hash : List ℕ → List ℕ → List ℕ
standard_hash initial message =
    let padded = standard_padding message in
    fold_blocks 128 compress (length padded / 128) initial padded

-- Sections 6.4 and 6.5: all eight words, and the first six.
unfoldable pub digest512 : List ℕ → List ℕ
digest512 message = word_bytes (standard_hash initial512 message)

unfoldable pub digest384 : List ℕ → List ℕ
digest384 message = word_bytes (take 6 (standard_hash initial384 message))
