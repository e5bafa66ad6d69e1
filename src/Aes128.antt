-- ===== src/Aes128.antt =====
-- src/backends/SoftAes128.cpp: AES-128 of FIPS 197. A state is a list of 16 bytes, column by column.
pub mod Columns
pub mod Field
pub mod Inverse
pub mod Layers
pub mod Shape
pub mod Tests
use arduino_nrf_crypto.Base.{ℕ, zero, suc, ◌+◌, ◌-◌, ◌*◌, ◌/◌, ◌%◌, ◌^◌, List, [], ◌∷◌, ◌++◌, map}
use arduino_nrf_crypto.Base.{bit_and, bit_xor, get_or, set, replicate, take, drop, u8, xor_bytes}
use arduino_nrf_crypto.Base.{◌<<<◌, ◌>>>◌, ◌==◌, if◌then◌else◌}

-- The table of FIPS 197.
abbrev pub sbox_table : List ℕ
sbox_table =
    0x63 ∷ 0x7c ∷ 0x77 ∷ 0x7b ∷ 0xf2 ∷ 0x6b ∷ 0x6f ∷ 0xc5 ∷ 0x30 ∷ 0x01 ∷ 0x67 ∷ 0x2b ∷ 0xfe ∷ 0xd7
    ∷ 0xab ∷ 0x76 ∷ 0xca ∷ 0x82 ∷ 0xc9 ∷ 0x7d ∷ 0xfa ∷ 0x59 ∷ 0x47 ∷ 0xf0 ∷ 0xad ∷ 0xd4 ∷ 0xa2
    ∷ 0xaf ∷ 0x9c ∷ 0xa4 ∷ 0x72 ∷ 0xc0 ∷ 0xb7 ∷ 0xfd ∷ 0x93 ∷ 0x26 ∷ 0x36 ∷ 0x3f ∷ 0xf7 ∷ 0xcc
    ∷ 0x34 ∷ 0xa5 ∷ 0xe5 ∷ 0xf1 ∷ 0x71 ∷ 0xd8 ∷ 0x31 ∷ 0x15 ∷ 0x04 ∷ 0xc7 ∷ 0x23 ∷ 0xc3 ∷ 0x18
    ∷ 0x96 ∷ 0x05 ∷ 0x9a ∷ 0x07 ∷ 0x12 ∷ 0x80 ∷ 0xe2 ∷ 0xeb ∷ 0x27 ∷ 0xb2 ∷ 0x75 ∷ 0x09 ∷ 0x83
    ∷ 0x2c ∷ 0x1a ∷ 0x1b ∷ 0x6e ∷ 0x5a ∷ 0xa0 ∷ 0x52 ∷ 0x3b ∷ 0xd6 ∷ 0xb3 ∷ 0x29 ∷ 0xe3 ∷ 0x2f
    ∷ 0x84 ∷ 0x53 ∷ 0xd1 ∷ 0x00 ∷ 0xed ∷ 0x20 ∷ 0xfc ∷ 0xb1 ∷ 0x5b ∷ 0x6a ∷ 0xcb ∷ 0xbe ∷ 0x39
    ∷ 0x4a ∷ 0x4c ∷ 0x58 ∷ 0xcf ∷ 0xd0 ∷ 0xef ∷ 0xaa ∷ 0xfb ∷ 0x43 ∷ 0x4d ∷ 0x33 ∷ 0x85 ∷ 0x45
    ∷ 0xf9 ∷ 0x02 ∷ 0x7f ∷ 0x50 ∷ 0x3c ∷ 0x9f ∷ 0xa8 ∷ 0x51 ∷ 0xa3 ∷ 0x40 ∷ 0x8f ∷ 0x92 ∷ 0x9d
    ∷ 0x38 ∷ 0xf5 ∷ 0xbc ∷ 0xb6 ∷ 0xda ∷ 0x21 ∷ 0x10 ∷ 0xff ∷ 0xf3 ∷ 0xd2 ∷ 0xcd ∷ 0x0c ∷ 0x13
    ∷ 0xec ∷ 0x5f ∷ 0x97 ∷ 0x44 ∷ 0x17 ∷ 0xc4 ∷ 0xa7 ∷ 0x7e ∷ 0x3d ∷ 0x64 ∷ 0x5d ∷ 0x19 ∷ 0x73
    ∷ 0x60 ∷ 0x81 ∷ 0x4f ∷ 0xdc ∷ 0x22 ∷ 0x2a ∷ 0x90 ∷ 0x88 ∷ 0x46 ∷ 0xee ∷ 0xb8 ∷ 0x14 ∷ 0xde
    ∷ 0x5e ∷ 0x0b ∷ 0xdb ∷ 0xe0 ∷ 0x32 ∷ 0x3a ∷ 0x0a ∷ 0x49 ∷ 0x06 ∷ 0x24 ∷ 0x5c ∷ 0xc2 ∷ 0xd3
    ∷ 0xac ∷ 0x62 ∷ 0x91 ∷ 0x95 ∷ 0xe4 ∷ 0x79 ∷ 0xe7 ∷ 0xc8 ∷ 0x37 ∷ 0x6d ∷ 0x8d ∷ 0xd5 ∷ 0x4e
    ∷ 0xa9 ∷ 0x6c ∷ 0x56 ∷ 0xf4 ∷ 0xea ∷ 0x65 ∷ 0x7a ∷ 0xae ∷ 0x08 ∷ 0xba ∷ 0x78 ∷ 0x25 ∷ 0x2e
    ∷ 0x1c ∷ 0xa6 ∷ 0xb4 ∷ 0xc6 ∷ 0xe8 ∷ 0xdd ∷ 0x74 ∷ 0x1f ∷ 0x4b ∷ 0xbd ∷ 0x8b ∷ 0x8a ∷ 0x70
    ∷ 0x3e ∷ 0xb5 ∷ 0x66 ∷ 0x48 ∷ 0x03 ∷ 0xf6 ∷ 0x0e ∷ 0x61 ∷ 0x35 ∷ 0x57 ∷ 0xb9 ∷ 0x86 ∷ 0xc1
    ∷ 0x1d ∷ 0x9e ∷ 0xe1 ∷ 0xf8 ∷ 0x98 ∷ 0x11 ∷ 0x69 ∷ 0xd9 ∷ 0x8e ∷ 0x94 ∷ 0x9b ∷ 0x1e ∷ 0x87
    ∷ 0xe9 ∷ 0xce ∷ 0x55 ∷ 0x28 ∷ 0xdf ∷ 0x8c ∷ 0xa1 ∷ 0x89 ∷ 0x0d ∷ 0xbf ∷ 0xe6 ∷ 0x42 ∷ 0x68
    ∷ 0x41 ∷ 0x99 ∷ 0x2d ∷ 0x0f ∷ 0xb0 ∷ 0x54 ∷ 0xbb ∷ 0x16 ∷ []

unfoldable pub sbox : ℕ → ℕ
sbox x = get_or sbox_table x 0

-- `for (i = 0; i < 256; ++i) rsbox[sbox[i]] = i;` The flag `done` skips a second run, which would
-- write the same table.
unfoldable pub fill_rsbox : ℕ → ℕ → List ℕ → List ℕ
unfolding sbox
fill_rsbox zero i table = table
fill_rsbox (suc left) i table = fill_rsbox left (i + 1) (set table (sbox i) (u8 i))

unfoldable pub rsbox_table : List ℕ
unfolding fill_rsbox
rsbox_table = fill_rsbox 256 0 (replicate 256 0)

unfoldable pub xtime : ℕ → ℕ
xtime x = u8 (bit_xor (x <<< 1) ((x >>> 7) * 0x1b))

abbrev pub rcon : List ℕ
rcon = 0x01 ∷ 0x02 ∷ 0x04 ∷ 0x08 ∷ 0x10 ∷ 0x20 ∷ 0x40 ∷ 0x80 ∷ 0x1b ∷ 0x36 ∷ []

-- The word `i - 1`, rotated and substituted at every fourth word.
unfoldable pub schedule_word : List ℕ → ℕ → List ℕ
unfolding sbox
schedule_word keys i =
    let t = λ (j : ℕ). get_or keys ((i - 1) * 4 + j) 0 in
    if i % 4 == 0
    then bit_xor (sbox (t 1)) (get_or rcon (i / 4 - 1) 0)
      ∷ sbox (t 2)
      ∷ sbox (t 3)
      ∷ sbox (t 0)
      ∷ []
    else t 0 ∷ t 1 ∷ t 2 ∷ t 3 ∷ []

-- `for (i = 4; i < 44; ++i)`: the keys grow by a word a round.
unfoldable pub expand_words : ℕ → ℕ → List ℕ → List ℕ
unfolding schedule_word
expand_words zero i keys = keys
expand_words (suc left) i keys =
    expand_words left (i + 1)
      (keys ++ xor_bytes (take 4 (drop ((i - 4) * 4) keys)) (schedule_word keys i))

unfoldable pub key_expansion : List ℕ → List ℕ
unfolding expand_words
key_expansion key = expand_words 40 4 (take 16 key)

-- `addRoundKey(state, roundKeys + round * 16)`
unfoldable pub add_round_key : List ℕ → ℕ → List ℕ → List ℕ
add_round_key keys round s = xor_bytes s (drop (round * 16) keys)

unfoldable pub sub_bytes : List ℕ → List ℕ
unfolding sbox
sub_bytes s = map sbox s

unfoldable pub inv_sub_bytes : List ℕ → List ℕ → List ℕ
inv_sub_bytes rsbox s = map (λ x. get_or rsbox x 0) s

abbrev at : List ℕ → ℕ → ℕ
at s i = get_or s i 0

-- The assignments of `shiftRows`, as the indices that they move to each place.
unfoldable pub shift_rows : List ℕ → List ℕ
shift_rows s =
    at s 0
    ∷ at s 5
    ∷ at s 10
    ∷ at s 15
    ∷ at s 4
    ∷ at s 9
    ∷ at s 14
    ∷ at s 3
    ∷ at s 8
    ∷ at s 13
    ∷ at s 2
    ∷ at s 7
    ∷ at s 12
    ∷ at s 1
    ∷ at s 6
    ∷ at s 11
    ∷ []

unfoldable pub inv_shift_rows : List ℕ → List ℕ
inv_shift_rows s =
    at s 0
    ∷ at s 13
    ∷ at s 10
    ∷ at s 7
    ∷ at s 4
    ∷ at s 1
    ∷ at s 14
    ∷ at s 11
    ∷ at s 8
    ∷ at s 5
    ∷ at s 2
    ∷ at s 15
    ∷ at s 12
    ∷ at s 9
    ∷ at s 6
    ∷ at s 3
    ∷ []

unfoldable pub mix_column : ℕ → ℕ → ℕ → ℕ → List ℕ
mix_column a b c d =
    u8 (bit_xor (bit_xor (bit_xor (bit_xor (xtime a) (xtime b)) b) c) d)
    ∷ u8 (bit_xor (bit_xor (bit_xor (bit_xor a (xtime b)) (xtime c)) c) d)
    ∷ u8 (bit_xor (bit_xor (bit_xor (bit_xor a b) (xtime c)) (xtime d)) d)
    ∷ u8 (bit_xor (bit_xor (bit_xor (bit_xor (xtime a) a) b) c) (xtime d))
    ∷ []

-- `for (c = 0; c < 4; ++c)` over the four columns.
unfoldable pub mix_columns : List ℕ → List ℕ
unfolding mix_column xtime
mix_columns s =
    mix_column (at s 0) (at s 1) (at s 2) (at s 3)
    ++ (mix_column (at s 4) (at s 5) (at s 6) (at s 7)
        ++ (mix_column (at s 8) (at s 9) (at s 10) (at s 11)
            ++ mix_column (at s 12) (at s 13) (at s 14) (at s 15)))

-- `mul`, by its loop over the bits of `b`.
unfoldable pub mul_loop : ℕ → ℕ → ℕ → ℕ → ℕ
mul_loop zero p a b = p
mul_loop (suc left) p a b =
    mul_loop left (if bit_and b 1 == 0 then p else bit_xor p a)
      (if bit_and a 0x80 == 0 then u8 (a <<< 1) else bit_xor (u8 (a <<< 1)) 0x1b) (b >>> 1)

unfoldable pub mul : ℕ → ℕ → ℕ
unfolding mul_loop
mul a b = mul_loop 8 0 a b

abbrev pub inv_sum : ℕ → ℕ → ℕ → ℕ → ℕ
inv_sum p q r s = u8 (bit_xor (bit_xor (bit_xor p q) r) s)

unfoldable pub inv_mix_column : ℕ → ℕ → ℕ → ℕ → List ℕ
inv_mix_column a b c d =
    inv_sum (mul a 0x0e) (mul b 0x0b) (mul c 0x0d) (mul d 0x09)
    ∷ inv_sum (mul a 0x09) (mul b 0x0e) (mul c 0x0b) (mul d 0x0d)
    ∷ inv_sum (mul a 0x0d) (mul b 0x09) (mul c 0x0e) (mul d 0x0b)
    ∷ inv_sum (mul a 0x0b) (mul b 0x0d) (mul c 0x09) (mul d 0x0e)
    ∷ []

unfoldable pub inv_mix_columns : List ℕ → List ℕ
unfolding inv_mix_column mul
inv_mix_columns s =
    inv_mix_column (at s 0) (at s 1) (at s 2) (at s 3)
    ++ (inv_mix_column (at s 4) (at s 5) (at s 6) (at s 7)
        ++ (inv_mix_column (at s 8) (at s 9) (at s 10) (at s 11)
            ++ inv_mix_column (at s 12) (at s 13) (at s 14) (at s 15)))

-- Rounds `1` to `n` of the cipher.
unfoldable pub encrypt_rounds : List ℕ → ℕ → List ℕ → List ℕ
encrypt_rounds keys zero s = s
encrypt_rounds keys (suc n) s =
    add_round_key keys (suc n) (mix_columns (shift_rows (sub_bytes (encrypt_rounds keys n s))))

-- `cipher(state, roundKeys, false)`
unfoldable pub encrypt_state : List ℕ → List ℕ → List ℕ
encrypt_state keys s =
    add_round_key keys 10 (shift_rows (sub_bytes (encrypt_rounds keys 9 (add_round_key keys 0 s))))

-- Rounds `n` down to `1` of the inverse cipher.
unfoldable pub decrypt_rounds : List ℕ → List ℕ → ℕ → List ℕ → List ℕ
decrypt_rounds rsbox keys zero s = s
decrypt_rounds rsbox keys (suc n) s =
    decrypt_rounds rsbox keys n
      (inv_mix_columns (add_round_key keys (suc n) (inv_sub_bytes rsbox (inv_shift_rows s))))

-- `cipher(state, roundKeys, true)`
unfoldable pub decrypt_state : List ℕ → List ℕ → List ℕ → List ℕ
decrypt_state rsbox keys s =
    add_round_key keys 0
      (inv_sub_bytes rsbox (inv_shift_rows (decrypt_rounds rsbox keys 9 (add_round_key keys 10 s))))

unfoldable pub encrypt_block : List ℕ → List ℕ → List ℕ
encrypt_block key input = encrypt_state (key_expansion key) (take 16 input)

unfoldable pub decrypt_block : List ℕ → List ℕ → List ℕ
decrypt_block key input = decrypt_state rsbox_table (key_expansion key) (take 16 input)
