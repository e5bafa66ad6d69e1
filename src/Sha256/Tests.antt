-- ===== src/Sha256/Tests.antt =====
-- Known answers.
use arduino_nrf_crypto.Base.{[], ◌∷◌, ◌≡◌, refl, bytes, replicate}
use arduino_nrf_crypto.Stream.{Stream, length_bytes}
use arduino_nrf_crypto.Stream
use arduino_nrf_crypto.Sha256.{reset, update, finish, hash, process_block}

abbrev pub memory : Stream
memory = record { state = []; bit_len = 7; buffer = replicate 64 0xaa; buffer_len = 3 }

hash_abc :
    hash memory (bytes (b'a' ∷ b'b' ∷ b'c' ∷ []))
    ≡ 0xba ∷ 0x78 ∷ 0x16 ∷ 0xbf ∷ 0x8f ∷ 0x01 ∷ 0xcf ∷ 0xea ∷ 0x41 ∷ 0x41 ∷ 0x40 ∷ 0xde ∷ 0x5d
      ∷ 0xae ∷ 0x22 ∷ 0x23 ∷ 0xb0 ∷ 0x03 ∷ 0x61 ∷ 0xa3 ∷ 0x96 ∷ 0x17 ∷ 0x7a ∷ 0x9c ∷ 0xb4 ∷ 0x10
      ∷ 0xff ∷ 0x61 ∷ 0xf2 ∷ 0x00 ∷ 0x15 ∷ 0xad ∷ []
unfolding hash reset update finish process_block length_bytes Stream.closed Stream.update
    Stream.pad_zeros
hash_abc = refl
