-- ===== src/ChaChaPoly/Tests.antt =====
-- The example of RFC 8439, section 2.8.2: its tag.
use arduino_nrf_crypto.Base.{ℕ, List, [], ◌∷◌, ◌≡◌, refl, some, bytes, replicate, tabulate}
use arduino_nrf_crypto.ChaCha.{chacha_block, chacha_xor, chacha_loop, load32}
use arduino_nrf_crypto.Poly1305.{
  auth, init_r, blocks, add_block, products, carry, finish, settle, reduce, store_words,
}
use arduino_nrf_crypto.Poly1305.{put_out, store_words}
use arduino_nrf_crypto.ChaChaPoly.{encrypt, seal, aead_poly1305, mac_data}

abbrev pub key : List ℕ
key = tabulate 32 0x80 (λ i. i)

abbrev pub nonce : List ℕ
nonce = 7 ∷ 0 ∷ 0 ∷ 0 ∷ tabulate 8 0x40 (λ i. i)

abbrev pub aad : List ℕ
aad = 0x50 ∷ 0x51 ∷ 0x52 ∷ 0x53 ∷ 0xc0 ∷ 0xc1 ∷ 0xc2 ∷ 0xc3 ∷ 0xc4 ∷ 0xc5 ∷ 0xc6 ∷ 0xc7 ∷ []

-- "Ladies and Gentlemen of the class of '99: …"
abbrev pub plain : List ℕ
plain =
    0x4c ∷ 0x61 ∷ 0x64 ∷ 0x69 ∷ 0x65 ∷ 0x73 ∷ 0x20 ∷ 0x61 ∷ 0x6e ∷ 0x64 ∷ 0x20 ∷ 0x47 ∷ 0x65 ∷ 0x6e
    ∷ 0x74 ∷ 0x6c ∷ 0x65 ∷ 0x6d ∷ 0x65 ∷ 0x6e ∷ 0x20 ∷ 0x6f ∷ 0x66 ∷ 0x20 ∷ 0x74 ∷ 0x68 ∷ 0x65
    ∷ 0x20 ∷ 0x63 ∷ 0x6c ∷ 0x61 ∷ 0x73 ∷ 0x73 ∷ 0x20 ∷ 0x6f ∷ 0x66 ∷ 0x20 ∷ 0x27 ∷ 0x39 ∷ 0x39
    ∷ 0x3a ∷ 0x20 ∷ 0x49 ∷ 0x66 ∷ 0x20 ∷ 0x49 ∷ 0x20 ∷ 0x63 ∷ 0x6f ∷ 0x75 ∷ 0x6c ∷ 0x64 ∷ 0x20
    ∷ 0x6f ∷ 0x66 ∷ 0x66 ∷ 0x65 ∷ 0x72 ∷ 0x20 ∷ 0x79 ∷ 0x6f ∷ 0x75 ∷ 0x20 ∷ 0x6f ∷ 0x6e ∷ 0x6c
    ∷ 0x79 ∷ 0x20 ∷ 0x6f ∷ 0x6e ∷ 0x65 ∷ 0x20 ∷ 0x74 ∷ 0x69 ∷ 0x70 ∷ 0x20 ∷ 0x66 ∷ 0x6f ∷ 0x72
    ∷ 0x20 ∷ 0x74 ∷ 0x68 ∷ 0x65 ∷ 0x20 ∷ 0x66 ∷ 0x75 ∷ 0x74 ∷ 0x75 ∷ 0x72 ∷ 0x65 ∷ 0x2c ∷ 0x20
    ∷ 0x73 ∷ 0x75 ∷ 0x6e ∷ 0x73 ∷ 0x63 ∷ 0x72 ∷ 0x65 ∷ 0x65 ∷ 0x6e ∷ 0x20 ∷ 0x77 ∷ 0x6f ∷ 0x75
    ∷ 0x6c ∷ 0x64 ∷ 0x20 ∷ 0x62 ∷ 0x65 ∷ 0x20 ∷ 0x69 ∷ 0x74 ∷ 0x2e ∷ []

encrypt-plain_tag :
    (encrypt
      (some key)
      (some nonce)
      (bytes aad)
      (bytes plain)
      (some (replicate 114 0))
      (some (replicate 16 0))).tag
    ≡ some (
        0x1a ∷ 0xe1 ∷ 0x0b ∷ 0x59 ∷ 0x4f ∷ 0x09 ∷ 0xe2 ∷ 0x6a ∷ 0x7e ∷ 0x90 ∷ 0x2e ∷ 0xcb ∷ 0xd0
        ∷ 0x60 ∷ 0x06 ∷ 0x91 ∷ [])
unfolding encrypt seal aead_poly1305 mac_data chacha_block chacha_xor chacha_loop auth init_r blocks
    add_block products carry finish settle reduce put_out store_words load32
encrypt-plain_tag = refl
