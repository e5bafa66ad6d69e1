-- ===== src/Poly1305/Store.antt =====
-- How src/backends/SoftChaChaPoly.cpp (`poly1305Finish`) puts the limbs out as bytes.
use arduino_nrf_crypto.Base.{ℕ, ◌+◌, ◌-◌, ◌*◌, ◌/◌, ◌%◌, ◌^◌, ◌<◌, ◌≤◌, ◌≡◌, sym, ap, ◌∙◌, arith}
use arduino_nrf_crypto.Base.{u32, u64, bit_or, bit_or_apart, ◌<<<◌, ◌>>>◌, List, false, IsBytes}
use arduino_nrf_crypto.Base.{}
use arduino_nrf_crypto.Poly1305.{Limbs, store_words, put_out}
use arduino_nrf_crypto.Poly1305.Product.{value, UpTo}
use arduino_nrf_crypto.Base.{tabulate, ◌∷◌, refl, ap₂}
use arduino_nrf_crypto.Poly1305.Block.{word, block_value, load32-word, word-lt}

-- Four stored words are read back as their number.
stored :
    (a b c d : ℕ)
    → a < 2 ^ 32
    → b < 2 ^ 32
    → c < 2 ^ 32
    → d < 2 ^ 32
    → block_value (store_words a b c d) false ≡ a + b * 2 ^ 32 + c * 2 ^ 64 + d * 2 ^ 96
unfolding store_words
stored a b c d ha hb hc hd = omega arith

-- The second half of the key as a number.
abbrev pub key_sum : List ℕ → ℕ
key_sum key = word key 16 + word key 20 * 2 ^ 32 + word key 24 * 2 ^ 64 + word key 28 * 2 ^ 96

module _ (h : Limbs) (key : List ℕ) (s : UpTo (2 ^ 26 - 1) h) (bytes : IsBytes key) where
  -- The limbs are put together to four words, and the key is added modulo 2 ^ 128.
  pub value-put_out : block_value (put_out h key) false ≡ (value h + key_sum key) % 2 ^ 128
  unfolding put_out
  value-put_out =
      let t0 = h.l0 + h.l1 % 2 ^ 6 * 2 ^ 26 in
      let t1 = h.l1 / 2 ^ 6 + h.l2 % 2 ^ 12 * 2 ^ 20 in
      let t2 = h.l2 / 2 ^ 12 + h.l3 % 2 ^ 18 * 2 ^ 14 in
      let t3 = h.l3 / 2 ^ 18 + h.l4 % 2 ^ 24 * 2 ^ 8 in
      let e0 : bit_or h.l0 (u32 (h.l1 <<< 26)) ≡ t0 =
        ap (bit_or h.l0) (omega arith) ∙ bit_or_apart 26 h.l0 (h.l1 % 2 ^ 6) (omega (arith, s)) in
      let e1 : bit_or (h.l1 >>> 6) (u32 (h.l2 <<< 20)) ≡ t1 =
        ap (bit_or (h.l1 / 2 ^ 6)) (omega arith)
        ∙ bit_or_apart 20 (h.l1 / 2 ^ 6) (h.l2 % 2 ^ 12) (omega (arith, s)) in
      let e2 : bit_or (h.l2 >>> 12) (u32 (h.l3 <<< 14)) ≡ t2 =
        ap (bit_or (h.l2 / 2 ^ 12)) (omega arith)
        ∙ bit_or_apart 14 (h.l2 / 2 ^ 12) (h.l3 % 2 ^ 18) (omega (arith, s)) in
      let e3 : bit_or (h.l3 >>> 18) (u32 (h.l4 <<< 8)) ≡ t3 =
        ap (bit_or (h.l3 / 2 ^ 18)) (omega arith)
        ∙ bit_or_apart 8 (h.l3 / 2 ^ 18) (h.l4 % 2 ^ 24) (omega (arith, s)) in
      let f0 = u64 (t0 + word key 16) in
      let f1 = u64 (t1 + word key 20 + f0 / 2 ^ 32) in
      let f2 = u64 (t2 + word key 24 + f1 / 2 ^ 32) in
      let f3 = u64 (t3 + word key 28 + f2 / 2 ^ 32) in
      let w0 = word-lt key 16 bytes in
      let w1 = word-lt key 20 bytes in
      let w2 = word-lt key 24 bytes in
      let w3 = word-lt key 28 bytes in
      rw
        (
          e0,
          e1,
          e2,
          e3,
          load32-word key 16 bytes,
          load32-word key 20 bytes,
          load32-word key 24 bytes,
          load32-word key 28 bytes,
        )
        (stored (u32 f0) (u32 f1) (u32 f2) (u32 f3) (omega arith) (omega arith) (omega arith)
            (omega arith)
          ∙ added h.l0 h.l1 h.l2 h.l3 h.l4 (word key 16) (word key 20) (word key 24) (word key 28)
              s.0 s.1 s.2 s.3 s.4 w0 w1 w2 w3)
    where
      added :
          (a b c d e k0 k1 k2 k3 : ℕ)
          → a ≤ 2 ^ 26 - 1
          → b ≤ 2 ^ 26 - 1
          → c ≤ 2 ^ 26 - 1
          → d ≤ 2 ^ 26 - 1
          → e ≤ 2 ^ 26 - 1
          → k0 < 2 ^ 32
          → k1 < 2 ^ 32
          → k2 < 2 ^ 32
          → k3 < 2 ^ 32
          → let f0 = u64 (a + b % 2 ^ 6 * 2 ^ 26 + k0) in
            let f1 = u64 (b / 2 ^ 6 + c % 2 ^ 12 * 2 ^ 20 + k1 + f0 / 2 ^ 32) in
            let f2 = u64 (c / 2 ^ 12 + d % 2 ^ 18 * 2 ^ 14 + k2 + f1 / 2 ^ 32) in
            let f3 = u64 (d / 2 ^ 18 + e % 2 ^ 24 * 2 ^ 8 + k3 + f2 / 2 ^ 32) in
            u32 f0 + u32 f1 * 2 ^ 32 + u32 f2 * 2 ^ 64 + u32 f3 * 2 ^ 96
            ≡ (a
                + b * 2 ^ 26
                + c * 2 ^ 52
                + d * 2 ^ 78
                + e * 2 ^ 104
                + (k0 + k1 * 2 ^ 32 + k2 * 2 ^ 64 + k3 * 2 ^ 96))
              % 2 ^ 128
      added a b c d e k0 k1 k2 k3 = λ ha hb hc hd he h0 h1 h2 h3. omega arith

-- A number as so many bytes, the first one the least significant.
abbrev pub little_endian : ℕ → ℕ → List ℕ
little_endian n v = tabulate n 0 (λ i. v / 2 ^ (8 * i) % 2 ^ 8)

pub cons : {x y : ℕ} {xs ys : List ℕ} → x ≡ y → xs ≡ ys → Path (List ℕ) (x ∷ xs) (y ∷ ys)
cons e f = ap₂ (λ (n : ℕ) (l : List ℕ). n ∷ l) e f

-- Four stored words are the bytes of their number.
stored_bytes :
    (a b c d : ℕ)
    → a < 2 ^ 32
    → b < 2 ^ 32
    → c < 2 ^ 32
    → d < 2 ^ 32
    → store_words a b c d ≡ little_endian 16 (a + b * 2 ^ 32 + c * 2 ^ 64 + d * 2 ^ 96)
unfolding store_words
stored_bytes a b c d ha hb hc hd = cons (omega arith) (
    cons (omega arith) (
      cons (omega arith) (
        cons (omega arith) (
          cons (omega arith) (
            cons (omega arith) (
              cons (omega arith) (
                cons (omega arith) (
                  cons (omega arith) (
                    cons (omega arith) (
                      cons (omega arith) (
                        cons (omega arith) (
                          cons (omega arith) (
                            cons (omega arith)
                              (cons (omega arith) (cons (omega arith) (refl))))))))))))))))

pub put_out-little_endian :
    (h : Limbs) (key : List ℕ)
    → put_out h key ≡ little_endian 16 (block_value (put_out h key) false)
unfolding put_out
put_out-little_endian h key =
    stored_bytes _ _ _ _ (omega arith) (omega arith) (omega arith) (omega arith)
    ∙ ap (little_endian 16)
        (sym (stored _ _ _ _ (omega arith) (omega arith) (omega arith) (omega arith)))
