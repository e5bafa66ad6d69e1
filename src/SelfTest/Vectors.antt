-- ===== src/SelfTest/Vectors.antt =====
-- The known-answer vectors of src/crypto/CryptoSelfTestRunner.cpp.
use arduino_nrf_crypto.Base.{ℕ, List, [], ◌∷◌}

abbrev pub msg_abc : List ℕ
msg_abc = 97 ∷ 98 ∷ 99 ∷ []

abbrev pub sha256_abc : List ℕ
sha256_abc =
    0xba ∷ 0x78 ∷ 0x16 ∷ 0xbf ∷ 0x8f ∷ 0x01 ∷ 0xcf ∷ 0xea ∷ 0x41 ∷ 0x41 ∷ 0x40 ∷ 0xde ∷ 0x5d ∷ 0xae
    ∷ 0x22 ∷ 0x23 ∷ 0xb0 ∷ 0x03 ∷ 0x61 ∷ 0xa3 ∷ 0x96 ∷ 0x17 ∷ 0x7a ∷ 0x9c ∷ 0xb4 ∷ 0x10 ∷ 0xff
    ∷ 0x61 ∷ 0xf2 ∷ 0x00 ∷ 0x15 ∷ 0xad ∷ []

abbrev pub aes_key : List ℕ
aes_key =
    0x2b ∷ 0x7e ∷ 0x15 ∷ 0x16 ∷ 0x28 ∷ 0xae ∷ 0xd2 ∷ 0xa6 ∷ 0xab ∷ 0xf7 ∷ 0x15 ∷ 0x88 ∷ 0x09 ∷ 0xcf
    ∷ 0x4f ∷ 0x3c ∷ []

abbrev pub cbc_iv : List ℕ
cbc_iv =
    0x00 ∷ 0x01 ∷ 0x02 ∷ 0x03 ∷ 0x04 ∷ 0x05 ∷ 0x06 ∷ 0x07 ∷ 0x08 ∷ 0x09 ∷ 0x0a ∷ 0x0b ∷ 0x0c ∷ 0x0d
    ∷ 0x0e ∷ 0x0f ∷ []

abbrev pub cbc_pt : List ℕ
cbc_pt =
    0x6b ∷ 0xc1 ∷ 0xbe ∷ 0xe2 ∷ 0x2e ∷ 0x40 ∷ 0x9f ∷ 0x96 ∷ 0xe9 ∷ 0x3d ∷ 0x7e ∷ 0x11 ∷ 0x73 ∷ 0x93
    ∷ 0x17 ∷ 0x2a ∷ 0xae ∷ 0x2d ∷ 0x8a ∷ 0x57 ∷ 0x1e ∷ 0x03 ∷ 0xac ∷ 0x9c ∷ 0x9e ∷ 0xb7 ∷ 0x6f
    ∷ 0xac ∷ 0x45 ∷ 0xaf ∷ 0x8e ∷ 0x51 ∷ []

abbrev pub cbc_ct : List ℕ
cbc_ct =
    0x76 ∷ 0x49 ∷ 0xab ∷ 0xac ∷ 0x81 ∷ 0x19 ∷ 0xb2 ∷ 0x46 ∷ 0xce ∷ 0xe9 ∷ 0x8e ∷ 0x9b ∷ 0x12 ∷ 0xe9
    ∷ 0x19 ∷ 0x7d ∷ 0x50 ∷ 0x86 ∷ 0xcb ∷ 0x9b ∷ 0x50 ∷ 0x72 ∷ 0x19 ∷ 0xee ∷ 0x95 ∷ 0xdb ∷ 0x11
    ∷ 0x3a ∷ 0x91 ∷ 0x76 ∷ 0x78 ∷ 0xb2 ∷ []

abbrev pub ctr_iv : List ℕ
ctr_iv =
    0xf0 ∷ 0xf1 ∷ 0xf2 ∷ 0xf3 ∷ 0xf4 ∷ 0xf5 ∷ 0xf6 ∷ 0xf7 ∷ 0xf8 ∷ 0xf9 ∷ 0xfa ∷ 0xfb ∷ 0xfc ∷ 0xfd
    ∷ 0xfe ∷ 0xff ∷ []

abbrev pub ctr_ct : List ℕ
ctr_ct =
    0x87 ∷ 0x4d ∷ 0x61 ∷ 0x91 ∷ 0xb6 ∷ 0x20 ∷ 0xe3 ∷ 0x26 ∷ 0x1b ∷ 0xef ∷ 0x68 ∷ 0x64 ∷ 0x99 ∷ 0x0d
    ∷ 0xb6 ∷ 0xce ∷ 0x98 ∷ 0x06 ∷ 0xf6 ∷ 0x6b ∷ 0x79 ∷ 0x70 ∷ 0xfd ∷ 0xff ∷ 0x86 ∷ 0x17 ∷ 0x18
    ∷ 0x7b ∷ 0xb9 ∷ 0xff ∷ 0xfd ∷ 0xff ∷ []

abbrev pub gcm_key : List ℕ
gcm_key =
    0xfe ∷ 0xff ∷ 0xe9 ∷ 0x92 ∷ 0x86 ∷ 0x65 ∷ 0x73 ∷ 0x1c ∷ 0x6d ∷ 0x6a ∷ 0x8f ∷ 0x94 ∷ 0x67 ∷ 0x30
    ∷ 0x83 ∷ 0x08 ∷ []

abbrev pub gcm_iv : List ℕ
gcm_iv = 0xca ∷ 0xfe ∷ 0xba ∷ 0xbe ∷ 0xfa ∷ 0xce ∷ 0xdb ∷ 0xad ∷ 0xde ∷ 0xca ∷ 0xf8 ∷ 0x88 ∷ []

abbrev pub gcm_pt : List ℕ
gcm_pt =
    0xd9 ∷ 0x31 ∷ 0x32 ∷ 0x25 ∷ 0xf8 ∷ 0x84 ∷ 0x06 ∷ 0xe5 ∷ 0xa5 ∷ 0x59 ∷ 0x09 ∷ 0xc5 ∷ 0xaf ∷ 0xf5
    ∷ 0x26 ∷ 0x9a ∷ 0x86 ∷ 0xa7 ∷ 0xa9 ∷ 0x53 ∷ 0x15 ∷ 0x34 ∷ 0xf7 ∷ 0xda ∷ 0x2e ∷ 0x4c ∷ 0x30
    ∷ 0x3d ∷ 0x8a ∷ 0x31 ∷ 0x8a ∷ 0x72 ∷ 0x1c ∷ 0x3c ∷ 0x0c ∷ 0x95 ∷ 0x95 ∷ 0x68 ∷ 0x09 ∷ 0x53
    ∷ 0x2f ∷ 0xcf ∷ 0x0e ∷ 0x24 ∷ 0x49 ∷ 0xa6 ∷ 0xb5 ∷ 0x25 ∷ 0xb1 ∷ 0x6a ∷ 0xed ∷ 0xf5 ∷ 0xaa
    ∷ 0x0d ∷ 0xe6 ∷ 0x57 ∷ 0xba ∷ 0x63 ∷ 0x7b ∷ 0x39 ∷ 0x1a ∷ 0xaf ∷ 0xd2 ∷ 0x55 ∷ []

abbrev pub gcm_ct : List ℕ
gcm_ct =
    0x42 ∷ 0x83 ∷ 0x1e ∷ 0xc2 ∷ 0x21 ∷ 0x77 ∷ 0x74 ∷ 0x24 ∷ 0x4b ∷ 0x72 ∷ 0x21 ∷ 0xb7 ∷ 0x84 ∷ 0xd0
    ∷ 0xd4 ∷ 0x9c ∷ 0xe3 ∷ 0xaa ∷ 0x21 ∷ 0x2f ∷ 0x2c ∷ 0x02 ∷ 0xa4 ∷ 0xe0 ∷ 0x35 ∷ 0xc1 ∷ 0x7e
    ∷ 0x23 ∷ 0x29 ∷ 0xac ∷ 0xa1 ∷ 0x2e ∷ 0x21 ∷ 0xd5 ∷ 0x14 ∷ 0xb2 ∷ 0x54 ∷ 0x66 ∷ 0x93 ∷ 0x1c
    ∷ 0x7d ∷ 0x8f ∷ 0x6a ∷ 0x5a ∷ 0xac ∷ 0x84 ∷ 0xaa ∷ 0x05 ∷ 0x1b ∷ 0xa3 ∷ 0x0b ∷ 0x39 ∷ 0x6a
    ∷ 0x0a ∷ 0xac ∷ 0x97 ∷ 0x3d ∷ 0x58 ∷ 0xe0 ∷ 0x91 ∷ 0x47 ∷ 0x3f ∷ 0x59 ∷ 0x85 ∷ []

abbrev pub gcm_tag : List ℕ
gcm_tag =
    0x4d ∷ 0x5c ∷ 0x2a ∷ 0xf3 ∷ 0x27 ∷ 0xcd ∷ 0x64 ∷ 0xa6 ∷ 0x2c ∷ 0xf3 ∷ 0x5a ∷ 0xbd ∷ 0x2b ∷ 0xa6
    ∷ 0xfa ∷ 0xb4 ∷ []

abbrev pub cha_key : List ℕ
cha_key =
    0x80 ∷ 0x81 ∷ 0x82 ∷ 0x83 ∷ 0x84 ∷ 0x85 ∷ 0x86 ∷ 0x87 ∷ 0x88 ∷ 0x89 ∷ 0x8a ∷ 0x8b ∷ 0x8c ∷ 0x8d
    ∷ 0x8e ∷ 0x8f ∷ 0x90 ∷ 0x91 ∷ 0x92 ∷ 0x93 ∷ 0x94 ∷ 0x95 ∷ 0x96 ∷ 0x97 ∷ 0x98 ∷ 0x99 ∷ 0x9a
    ∷ 0x9b ∷ 0x9c ∷ 0x9d ∷ 0x9e ∷ 0x9f ∷ []

abbrev pub cha_nonce : List ℕ
cha_nonce = 0x07 ∷ 0x00 ∷ 0x00 ∷ 0x00 ∷ 0x41 ∷ 0xb0 ∷ 0x51 ∷ 0xec ∷ 0x5e ∷ 0x98 ∷ 0x56 ∷ 0x63 ∷ []

abbrev pub cha_aad : List ℕ
cha_aad = 0x50 ∷ 0x51 ∷ 0x52 ∷ 0x53 ∷ 0x54 ∷ 0x55 ∷ 0x56 ∷ 0x57 ∷ []

abbrev pub cha_pt : List ℕ
cha_pt =
    0x00 ∷ 0x01 ∷ 0x02 ∷ 0x03 ∷ 0x04 ∷ 0x05 ∷ 0x06 ∷ 0x07 ∷ 0x08 ∷ 0x09 ∷ 0x0a ∷ 0x0b ∷ 0x0c ∷ 0x0d
    ∷ 0x0e ∷ 0x0f ∷ 0x10 ∷ 0x11 ∷ 0x12 ∷ 0x13 ∷ 0x14 ∷ 0x15 ∷ 0x16 ∷ 0x17 ∷ 0x18 ∷ 0x19 ∷ 0x1a
    ∷ 0x1b ∷ 0x1c ∷ 0x1d ∷ 0x1e ∷ 0x1f ∷ []

abbrev pub cha_ct : List ℕ
cha_ct =
    0x10 ∷ 0xab ∷ 0x09 ∷ 0x03 ∷ 0x36 ∷ 0x4f ∷ 0x86 ∷ 0xd6 ∷ 0x9d ∷ 0x82 ∷ 0x82 ∷ 0xf6 ∷ 0x9d ∷ 0xd2
    ∷ 0x35 ∷ 0xc3 ∷ 0xc1 ∷ 0xd9 ∷ 0xdd ∷ 0xcb ∷ 0x11 ∷ 0x0b ∷ 0x4b ∷ 0xa9 ∷ 0xc7 ∷ 0xcd ∷ 0x32
    ∷ 0xe7 ∷ 0x1c ∷ 0xe8 ∷ 0xa8 ∷ 0x93 ∷ []

abbrev pub cha_tag : List ℕ
cha_tag =
    0x66 ∷ 0x48 ∷ 0xaa ∷ 0x82 ∷ 0x1b ∷ 0x78 ∷ 0x61 ∷ 0x95 ∷ 0x08 ∷ 0x75 ∷ 0xf9 ∷ 0x5b ∷ 0x2c ∷ 0xe5
    ∷ 0x6e ∷ 0x5f ∷ []

abbrev pub hmac_key : List ℕ
hmac_key = 74 ∷ 101 ∷ 102 ∷ 101 ∷ []

abbrev pub hmac_msg : List ℕ
hmac_msg =
    119 ∷ 104 ∷ 97 ∷ 116 ∷ 32 ∷ 100 ∷ 111 ∷ 32 ∷ 121 ∷ 97 ∷ 32 ∷ 119 ∷ 97 ∷ 110 ∷ 116 ∷ 32 ∷ 102
    ∷ 111 ∷ 114 ∷ 32 ∷ 110 ∷ 111 ∷ 116 ∷ 104 ∷ 105 ∷ 110 ∷ 103 ∷ 63 ∷ []

abbrev pub hmac_mac : List ℕ
hmac_mac =
    0x5b ∷ 0xdc ∷ 0xc1 ∷ 0x46 ∷ 0xbf ∷ 0x60 ∷ 0x75 ∷ 0x4e ∷ 0x6a ∷ 0x04 ∷ 0x24 ∷ 0x26 ∷ 0x08 ∷ 0x95
    ∷ 0x75 ∷ 0xc7 ∷ 0x5a ∷ 0x00 ∷ 0x3f ∷ 0x08 ∷ 0x9d ∷ 0x27 ∷ 0x39 ∷ 0x83 ∷ 0x9d ∷ 0xec ∷ 0x58
    ∷ 0xb9 ∷ 0x64 ∷ 0xec ∷ 0x38 ∷ 0x43 ∷ []

abbrev pub sha512_abc : List ℕ
sha512_abc =
    0xdd ∷ 0xaf ∷ 0x35 ∷ 0xa1 ∷ 0x93 ∷ 0x61 ∷ 0x7a ∷ 0xba ∷ 0xcc ∷ 0x41 ∷ 0x73 ∷ 0x49 ∷ 0xae ∷ 0x20
    ∷ 0x41 ∷ 0x31 ∷ 0x12 ∷ 0xe6 ∷ 0xfa ∷ 0x4e ∷ 0x89 ∷ 0xa9 ∷ 0x7e ∷ 0xa2 ∷ 0x0a ∷ 0x9e ∷ 0xee
    ∷ 0xe6 ∷ 0x4b ∷ 0x55 ∷ 0xd3 ∷ 0x9a ∷ 0x21 ∷ 0x92 ∷ 0x99 ∷ 0x2a ∷ 0x27 ∷ 0x4f ∷ 0xc1 ∷ 0xa8
    ∷ 0x36 ∷ 0xba ∷ 0x3c ∷ 0x23 ∷ 0xa3 ∷ 0xfe ∷ 0xeb ∷ 0xbd ∷ 0x45 ∷ 0x4d ∷ 0x44 ∷ 0x23 ∷ 0x64
    ∷ 0x3c ∷ 0xe8 ∷ 0x0e ∷ 0x2a ∷ 0x9a ∷ 0xc9 ∷ 0x4f ∷ 0xa5 ∷ 0x4c ∷ 0xa4 ∷ 0x9f ∷ []

abbrev pub sha384_abc : List ℕ
sha384_abc =
    0xcb ∷ 0x00 ∷ 0x75 ∷ 0x3f ∷ 0x45 ∷ 0xa3 ∷ 0x5e ∷ 0x8b ∷ 0xb5 ∷ 0xa0 ∷ 0x3d ∷ 0x69 ∷ 0x9a ∷ 0xc6
    ∷ 0x50 ∷ 0x07 ∷ 0x27 ∷ 0x2c ∷ 0x32 ∷ 0xab ∷ 0x0e ∷ 0xde ∷ 0xd1 ∷ 0x63 ∷ 0x1a ∷ 0x8b ∷ 0x60
    ∷ 0x5a ∷ 0x43 ∷ 0xff ∷ 0x5b ∷ 0xed ∷ 0x80 ∷ 0x86 ∷ 0x07 ∷ 0x2b ∷ 0xa1 ∷ 0xe7 ∷ 0xcc ∷ 0x23
    ∷ 0x58 ∷ 0xba ∷ 0xec ∷ 0xa1 ∷ 0x34 ∷ 0xc8 ∷ 0x25 ∷ 0xa7 ∷ []

abbrev pub hkdf_ikm : List ℕ
hkdf_ikm =
    0x0b ∷ 0x0b ∷ 0x0b ∷ 0x0b ∷ 0x0b ∷ 0x0b ∷ 0x0b ∷ 0x0b ∷ 0x0b ∷ 0x0b ∷ 0x0b ∷ 0x0b ∷ 0x0b ∷ 0x0b
    ∷ 0x0b ∷ 0x0b ∷ 0x0b ∷ 0x0b ∷ 0x0b ∷ 0x0b ∷ 0x0b ∷ 0x0b ∷ []

abbrev pub hkdf_salt : List ℕ
hkdf_salt =
    0x00 ∷ 0x01 ∷ 0x02 ∷ 0x03 ∷ 0x04 ∷ 0x05 ∷ 0x06 ∷ 0x07 ∷ 0x08 ∷ 0x09 ∷ 0x0a ∷ 0x0b ∷ 0x0c ∷ []

abbrev pub hkdf_info : List ℕ
hkdf_info = 0xf0 ∷ 0xf1 ∷ 0xf2 ∷ 0xf3 ∷ 0xf4 ∷ 0xf5 ∷ 0xf6 ∷ 0xf7 ∷ 0xf8 ∷ 0xf9 ∷ []

abbrev pub hkdf_okm : List ℕ
hkdf_okm =
    0x3c ∷ 0xb2 ∷ 0x5f ∷ 0x25 ∷ 0xfa ∷ 0xac ∷ 0xd5 ∷ 0x7a ∷ 0x90 ∷ 0x43 ∷ 0x4f ∷ 0x64 ∷ 0xd0 ∷ 0x36
    ∷ 0x2f ∷ 0x2a ∷ 0x2d ∷ 0x2d ∷ 0x0a ∷ 0x90 ∷ 0xcf ∷ 0x1a ∷ 0x5a ∷ 0x4c ∷ 0x5d ∷ 0xb0 ∷ 0x2d
    ∷ 0x56 ∷ 0xec ∷ 0xc4 ∷ 0xc5 ∷ 0xbf ∷ []

abbrev pub rsa_msg : List ℕ
rsa_msg = 114 ∷ 115 ∷ 97 ∷ 45 ∷ 116 ∷ 101 ∷ 115 ∷ 116 ∷ []

abbrev pub ed_seed : List ℕ
ed_seed =
    0x9d ∷ 0x61 ∷ 0xb1 ∷ 0x9d ∷ 0xef ∷ 0xfd ∷ 0x5a ∷ 0x60 ∷ 0xba ∷ 0x84 ∷ 0x4a ∷ 0xf4 ∷ 0x92 ∷ 0xec
    ∷ 0x2c ∷ 0xc4 ∷ 0x44 ∷ 0x49 ∷ 0xc5 ∷ 0x69 ∷ 0x7b ∷ 0x32 ∷ 0x69 ∷ 0x19 ∷ 0x70 ∷ 0x3b ∷ 0xac
    ∷ 0x03 ∷ 0x1c ∷ 0xae ∷ 0x7f ∷ 0x60 ∷ []

abbrev pub ed_pub : List ℕ
ed_pub =
    0xd7 ∷ 0x5a ∷ 0x98 ∷ 0x01 ∷ 0x82 ∷ 0xb1 ∷ 0x0a ∷ 0xb7 ∷ 0xd5 ∷ 0x4b ∷ 0xfe ∷ 0xd3 ∷ 0xc9 ∷ 0x64
    ∷ 0x07 ∷ 0x3a ∷ 0x0e ∷ 0xe1 ∷ 0x72 ∷ 0xf3 ∷ 0xda ∷ 0xa6 ∷ 0x23 ∷ 0x25 ∷ 0xaf ∷ 0x02 ∷ 0x1a
    ∷ 0x68 ∷ 0xf7 ∷ 0x07 ∷ 0x51 ∷ 0x1a ∷ []

abbrev pub ed_sig : List ℕ
ed_sig =
    0xe5 ∷ 0x56 ∷ 0x43 ∷ 0x00 ∷ 0xc3 ∷ 0x60 ∷ 0xac ∷ 0x72 ∷ 0x90 ∷ 0x86 ∷ 0xe2 ∷ 0xcc ∷ 0x80 ∷ 0x6e
    ∷ 0x82 ∷ 0x8a ∷ 0x84 ∷ 0x87 ∷ 0x7f ∷ 0x1e ∷ 0xb8 ∷ 0xe5 ∷ 0xd9 ∷ 0x74 ∷ 0xd8 ∷ 0x73 ∷ 0xe0
    ∷ 0x65 ∷ 0x22 ∷ 0x49 ∷ 0x01 ∷ 0x55 ∷ 0x5f ∷ 0xb8 ∷ 0x82 ∷ 0x15 ∷ 0x90 ∷ 0xa3 ∷ 0x3b ∷ 0xac
    ∷ 0xc6 ∷ 0x1e ∷ 0x39 ∷ 0x70 ∷ 0x1c ∷ 0xf9 ∷ 0xb4 ∷ 0x6b ∷ 0xd2 ∷ 0x5b ∷ 0xf5 ∷ 0xf0 ∷ 0x59
    ∷ 0x5b ∷ 0xbe ∷ 0x24 ∷ 0x65 ∷ 0x51 ∷ 0x41 ∷ 0x43 ∷ 0x8e ∷ 0x7a ∷ 0x10 ∷ 0x0b ∷ []

abbrev pub ed_msg : List ℕ
ed_msg = 101 ∷ 100 ∷ 50 ∷ 53 ∷ 53 ∷ 49 ∷ 57 ∷ []
