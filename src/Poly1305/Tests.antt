-- ===== src/Poly1305/Tests.antt =====
-- The example of RFC 8439, section 2.5.2.
use arduino_nrf_crypto.Base.{ℕ, List, [], ◌∷◌, ◌≡◌, refl}
use arduino_nrf_crypto.ChaCha.{load32}
use arduino_nrf_crypto.Poly1305.{
  auth, init_r, blocks, add_block, products, carry, finish, settle, reduce, store_words,
}
use arduino_nrf_crypto.Poly1305.{put_out, store_words}

abbrev key : List ℕ
key =
    0x85 ∷ 0xd6 ∷ 0xbe ∷ 0x78 ∷ 0x57 ∷ 0x55 ∷ 0x6d ∷ 0x33 ∷ 0x7f ∷ 0x44 ∷ 0x52 ∷ 0xfe ∷ 0x42 ∷ 0xd5
    ∷ 0x06 ∷ 0xa8 ∷ 0x01 ∷ 0x03 ∷ 0x80 ∷ 0x8a ∷ 0xfb ∷ 0x0d ∷ 0xb2 ∷ 0xfd ∷ 0x4a ∷ 0xbf ∷ 0xf6
    ∷ 0xaf ∷ 0x41 ∷ 0x49 ∷ 0xf5 ∷ 0x1b ∷ []

-- "Cryptographic Forum Research Group"
abbrev msg : List ℕ
msg =
    0x43 ∷ 0x72 ∷ 0x79 ∷ 0x70 ∷ 0x74 ∷ 0x6f ∷ 0x67 ∷ 0x72 ∷ 0x61 ∷ 0x70 ∷ 0x68 ∷ 0x69 ∷ 0x63 ∷ 0x20
    ∷ 0x46 ∷ 0x6f ∷ 0x72 ∷ 0x75 ∷ 0x6d ∷ 0x20 ∷ 0x52 ∷ 0x65 ∷ 0x73 ∷ 0x65 ∷ 0x61 ∷ 0x72 ∷ 0x63
    ∷ 0x68 ∷ 0x20 ∷ 0x47 ∷ 0x72 ∷ 0x6f ∷ 0x75 ∷ 0x70 ∷ []

auth-msg :
    auth msg key
    ≡ 0xa8 ∷ 0x06 ∷ 0x1d ∷ 0xc1 ∷ 0x30 ∷ 0x51 ∷ 0x36 ∷ 0xc6 ∷ 0xc2 ∷ 0x2b ∷ 0x8b ∷ 0xaf ∷ 0x0c
      ∷ 0x01 ∷ 0x27 ∷ 0xa9 ∷ []
unfolding auth init_r blocks add_block products carry finish settle reduce put_out store_words
    load32
auth-msg = refl
