-- ===== src/Sha512/Tests.antt =====
-- Known answers.
use arduino_nrf_crypto.Base.{[], ◌∷◌, ◌≡◌, refl, bytes, replicate}
use arduino_nrf_crypto.Stream.{Stream, length_bytes}
use arduino_nrf_crypto.Stream
use arduino_nrf_crypto.Sha512.{
  Hasher, reset, reset384, update, finish, hash384, hash512, process_block,
}

abbrev pub memory : Hasher
memory = record {
  stream = record { state = []; bit_len = 7; buffer = replicate 128 0xaa; buffer_len = 3 };
  digest_len = 5;
}

hash512_abc :
    hash512 memory (bytes (b'a' ∷ b'b' ∷ b'c' ∷ []))
    ≡ 0xdd ∷ 0xaf ∷ 0x35 ∷ 0xa1 ∷ 0x93 ∷ 0x61 ∷ 0x7a ∷ 0xba ∷ 0xcc ∷ 0x41 ∷ 0x73 ∷ 0x49 ∷ 0xae
      ∷ 0x20 ∷ 0x41 ∷ 0x31 ∷ 0x12 ∷ 0xe6 ∷ 0xfa ∷ 0x4e ∷ 0x89 ∷ 0xa9 ∷ 0x7e ∷ 0xa2 ∷ 0x0a ∷ 0x9e
      ∷ 0xee ∷ 0xe6 ∷ 0x4b ∷ 0x55 ∷ 0xd3 ∷ 0x9a ∷ 0x21 ∷ 0x92 ∷ 0x99 ∷ 0x2a ∷ 0x27 ∷ 0x4f ∷ 0xc1
      ∷ 0xa8 ∷ 0x36 ∷ 0xba ∷ 0x3c ∷ 0x23 ∷ 0xa3 ∷ 0xfe ∷ 0xeb ∷ 0xbd ∷ 0x45 ∷ 0x4d ∷ 0x44 ∷ 0x23
      ∷ 0x64 ∷ 0x3c ∷ 0xe8 ∷ 0x0e ∷ 0x2a ∷ 0x9a ∷ 0xc9 ∷ 0x4f ∷ 0xa5 ∷ 0x4c ∷ 0xa4 ∷ 0x9f ∷ []
unfolding hash512 reset update finish process_block length_bytes Stream.closed Stream.update
    Stream.pad_zeros
hash512_abc = refl

hash384_abc :
    hash384 memory (bytes (b'a' ∷ b'b' ∷ b'c' ∷ []))
    ≡ 0xcb ∷ 0x00 ∷ 0x75 ∷ 0x3f ∷ 0x45 ∷ 0xa3 ∷ 0x5e ∷ 0x8b ∷ 0xb5 ∷ 0xa0 ∷ 0x3d ∷ 0x69 ∷ 0x9a
      ∷ 0xc6 ∷ 0x50 ∷ 0x07 ∷ 0x27 ∷ 0x2c ∷ 0x32 ∷ 0xab ∷ 0x0e ∷ 0xde ∷ 0xd1 ∷ 0x63 ∷ 0x1a ∷ 0x8b
      ∷ 0x60 ∷ 0x5a ∷ 0x43 ∷ 0xff ∷ 0x5b ∷ 0xed ∷ 0x80 ∷ 0x86 ∷ 0x07 ∷ 0x2b ∷ 0xa1 ∷ 0xe7 ∷ 0xcc
      ∷ 0x23 ∷ 0x58 ∷ 0xba ∷ 0xec ∷ 0xa1 ∷ 0x34 ∷ 0xc8 ∷ 0x25 ∷ 0xa7 ∷ []
unfolding hash384 reset reset384 update finish process_block length_bytes Stream.closed
    Stream.update Stream.pad_zeros
hash384_abc = refl
