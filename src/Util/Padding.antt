-- ===== src/Util/Padding.antt =====
-- `pkcs7Pad` and `pkcs7Unpad` of src/crypto/CryptoUtil.cpp: what unpadding accepts.
use arduino_nrf_crypto.Base.{ℕ, zero, suc, ◌+◌, ◌-◌, ◌%◌, ◌≤◌, ◌<◌, ◌≡◌, refl, true}
use arduino_nrf_crypto.Base.{some, List, [], ◌∷◌, ◌++◌, arith, length, get_or, take}
use arduino_nrf_crypto.Base.{replicate}
use arduino_nrf_crypto.Base.{◌==◌, Bool-cases, inl}
use arduino_nrf_crypto.Base.{inr}
use arduino_nrf_crypto.Util.{all_pad, pkcs7_unpad}

pub get_or-take : (buf : List ℕ) (n i : ℕ) → i < n → get_or (take n buf) i 0 ≡ get_or buf i 0
get_or-take buf zero i h = absurd (omega arith)
get_or-take [] (suc n) i h = refl
get_or-take (x ∷ buf) (suc n) zero h = refl
get_or-take (x ∷ buf) (suc n) (suc i) h = get_or-take buf n i (omega arith)

pub get_or-append_replicate :
    (xs : List ℕ) (m v i : ℕ)
    → length xs ≤ i
    → i < length xs + m
    → get_or (xs ++ replicate m v) i 0 ≡ v
get_or-append_replicate [] zero v i p q = absurd (omega arith)
get_or-append_replicate [] (suc m) v zero p q = refl
get_or-append_replicate [] (suc m) v (suc i) p q =
    get_or-append_replicate [] m v i (omega arith) (omega arith)
get_or-append_replicate (x ∷ xs) m v zero p q = absurd (omega arith)
get_or-append_replicate (x ∷ xs) m v (suc i) p q =
    get_or-append_replicate xs m v i (omega arith) (omega arith)

-- The check passes when the bytes that it reads are all `n`.
pub all_pad_of :
    (rounds i : ℕ) (buf : List ℕ) (len n : ℕ)
    → i + rounds ≤ len
    → ((j : ℕ) → len ≤ j + i + rounds → j < len → get_or buf j 0 ≡ n)
    → all_pad rounds i buf len n ≡ true
unfolding all_pad
all_pad_of zero i buf len n p h = refl
all_pad_of (suc rounds) i buf len n p h =
    let e = h (len - 1 - i) (omega arith) (omega arith) in
    let rest =
      all_pad_of rounds (i + 1) buf len n (omega arith)
        (λ j a b. h j (omega arith) (omega arith)) in
    ground (arith, e, rest)

-- The bytes that a passed check has read.
all_pad_sound :
    (rounds i : ℕ) (buf : List ℕ) (len n : ℕ)
    → all_pad rounds i buf len n ≡ true
    → (j : ℕ) → i ≤ j
    → j < i + rounds
    → get_or buf (len - 1 - j) 0 ≡ n
unfolding all_pad
all_pad_sound zero i buf len n h j p q = absurd (omega arith)
all_pad_sound (suc rounds) i buf len n h j p q =
    elim (Bool-cases (get_or buf (len - 1 - i) 0 == n)) [
      | inr e ↦ ground arith
      | inl e ↦ elim (Bool-cases (i == j)) [
        | inl same ↦ ground arith
        | inr other ↦
            all_pad_sound rounds (i + 1) buf len n (ground arith) j (ground arith) (omega arith)
      ]
    ]

-- What is not 0 is the length without a tail of `n` bytes, each of value `n`, that is at most a
-- block long and lies inside the buffer.
pkcs7_unpad_sound :
    (buf : List ℕ) (len block_size k : ℕ)
    → pkcs7_unpad (some buf) len block_size ≡ suc k
    → (n : ℕ) × (suc k + n ≡ len)
      × (0 < n)
      × (n ≤ block_size)
      × (len % block_size ≡ 0)
      × ((j : ℕ) → suc k ≤ j → j < len → get_or buf j 0 ≡ n)
unfolding pkcs7_unpad
pkcs7_unpad_sound buf len block_size k h =
    let n = get_or buf (len - 1) 0 in
    let facts : (suc k + n ≡ len)
        × (0 < n)
        × (n ≤ block_size)
        × (len % block_size ≡ 0)
        × (all_pad n 0 buf len n ≡ true) =
      ground arith in
    (
      n,
      facts.0,
      facts.1,
      facts.2,
      facts.3,
      λ j p q.
          let e =
            all_pad_sound n 0 buf len n facts.4 (len - 1 - j) (omega arith)
              (omega (arith, facts)) in
          let back : len - 1 - (len - 1 - j) ≡ j = omega arith in rw back at e,
    )
