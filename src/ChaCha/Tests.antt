-- ===== src/ChaCha/Tests.antt =====
-- The block of RFC 8439, section 2.3.2: its first bytes.
use arduino_nrf_crypto.Base.{[], ◌∷◌, ◌≡◌, refl, take, tabulate}
use arduino_nrf_crypto.ChaCha.{chacha_block}

chacha_block_bytes :
    take 8 (
      chacha_block
        (tabulate 32 0 (λ i. i))
        (0 ∷ 0 ∷ 0 ∷ 0x09 ∷ 0 ∷ 0 ∷ 0 ∷ 0x4a ∷ 0 ∷ 0 ∷ 0 ∷ 0 ∷ [])
        1)
    ≡ 0x10 ∷ 0xf1 ∷ 0xe7 ∷ 0xe4 ∷ 0xd1 ∷ 0x3b ∷ 0x59 ∷ 0x15 ∷ []
unfolding chacha_block
chacha_block_bytes = refl
