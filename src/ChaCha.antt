-- ===== src/ChaCha.antt =====
-- src/backends/SoftChaChaPoly.cpp: the ChaCha20 block function and key stream (RFC 8439, 2.3, 2.4).
pub mod Standard
pub mod Stream
pub mod Tests
use arduino_nrf_crypto.Base.{ℕ, zero, suc, ◌+◌, ◌-◌, ◌*◌, ◌/◌, ◌%◌, ◌^◌, List, [], ◌∷◌, ◌++◌}
use arduino_nrf_crypto.Base.{bit_or, bit_xor, get_or, set, take, drop, u8, u32, ◌<<<◌, ◌>>>◌}
use arduino_nrf_crypto.Base.{xor_bytes, length, tabulate}

unfoldable pub rotl32 : ℕ → ℕ → ℕ
rotl32 x n = bit_or (u32 (x <<< n)) (x >>> (32 - n))

-- The little-endian word at byte `i`.
unfoldable pub load32 : List ℕ → ℕ → ℕ
load32 p i =
    bit_or (bit_or (bit_or (get_or p i 0) (get_or p (i + 1) 0 <<< 8)) (get_or p (i + 2) 0 <<< 16))
      (get_or p (i + 3) 0 <<< 24)

abbrev pub add32 : ℕ → ℕ → ℕ
add32 a b = u32 (a + b)

-- `quarterRound` on the words at four indices, in the order of its assignments.
unfoldable pub quarter_round : ℕ → ℕ → ℕ → ℕ → List ℕ → List ℕ
unfolding rotl32
quarter_round ia ib ic id s =
    let a1 = add32 (get_or s ia 0) (get_or s ib 0) in
    let d1 = rotl32 (bit_xor (get_or s id 0) a1) 16 in
    let c1 = add32 (get_or s ic 0) d1 in
    let b1 = rotl32 (bit_xor (get_or s ib 0) c1) 12 in
    let a2 = add32 a1 b1 in
    let d2 = rotl32 (bit_xor d1 a2) 8 in
    let c2 = add32 c1 d2 in
    let b2 = rotl32 (bit_xor b1 c2) 7 in set (set (set (set s ia a2) ib b2) ic c2) id d2

unfoldable pub double_round : List ℕ → List ℕ
unfolding quarter_round
double_round s =
    let s1 = quarter_round 0 4 8 12 s in
    let s2 = quarter_round 1 5 9 13 s1 in
    let s3 = quarter_round 2 6 10 14 s2 in
    let s4 = quarter_round 3 7 11 15 s3 in
    let s5 = quarter_round 0 5 10 15 s4 in
    let s6 = quarter_round 1 6 11 12 s5 in
    let s7 = quarter_round 2 7 8 13 s6 in quarter_round 3 4 9 14 s7

unfoldable pub double_rounds : ℕ → List ℕ → List ℕ
unfolding double_round
double_rounds zero s = s
double_rounds (suc n) s = double_rounds n (double_round s)

unfoldable pub initial_words : List ℕ → List ℕ → ℕ → List ℕ
unfolding load32
initial_words key nonce counter =
    0x61707865 ∷ 0x3320646e ∷ 0x79622d32 ∷ 0x6b206574 ∷ tabulate 8 0 (λ i. load32 key (i * 4))
    ++ (counter ∷ tabulate 3 0 (λ i. load32 nonce (i * 4)))

-- The sixteen sums, each put out as four little-endian bytes.
unfoldable pub store_sums : List ℕ → List ℕ → List ℕ
store_sums [] state = []
store_sums (x ∷ xs) [] = []
store_sums (x ∷ xs) (y ∷ state) =
    let w = add32 x y in u8 w ∷ u8 (w >>> 8) ∷ u8 (w >>> 16) ∷ u8 (w >>> 24) ∷ store_sums xs state

unfoldable pub chacha_block : List ℕ → List ℕ → ℕ → List ℕ
unfolding initial_words double_rounds store_sums
chacha_block key nonce counter =
    let state = initial_words key nonce counter in store_sums (double_rounds 10 state) state

-- `while (off < len)` of `chachaXor`, with fuel for its rounds: the bytes written.
unfoldable pub chacha_loop : ℕ → List ℕ → List ℕ → ℕ → List ℕ → List ℕ
chacha_loop zero key nonce counter input = []
chacha_loop (suc fuel) key nonce counter [] = []
chacha_loop (suc fuel) key nonce counter (x ∷ input) =
    xor_bytes (take 64 (x ∷ input)) (chacha_block key nonce counter)
    ++ chacha_loop fuel key nonce (u32 (counter + 1)) (drop 64 (x ∷ input))

unfoldable pub chacha_xor : List ℕ → List ℕ → ℕ → List ℕ → List ℕ
unfolding chacha_loop
chacha_xor key nonce counter input = chacha_loop (length input) key nonce counter input
