-- ===== src/ChaChaPoly/Standard.antt =====
-- The data and the tag of src/backends/SoftChaChaPoly.cpp (`aeadPoly1305`) as RFC 8439, section 2.8, has them.
use arduino_nrf_crypto.Base.{ℕ, ◌+◌, ◌-◌, ◌*◌, ◌/◌, List, ◌++◌, ◌≡◌, refl, sym, ap, ap₂}
use arduino_nrf_crypto.Base.{
  arith, length, take, replicate, tabulate, IsBytes, IsBytes-append, IsBytes-replicate,
  IsBytes-take,
}
use arduino_nrf_crypto.Base.{
  u8, u64, ◌>>>◌, append_assoc, ◌∙◌, Slice, bytes, contents, some, true, false, ◌≤◌, ◌↔◌,
}
use arduino_nrf_crypto.ChaCha.{chacha_block}
use arduino_nrf_crypto.ChaCha.Standard.{standard_block, chacha_block-standard_block}
use arduino_nrf_crypto.ChaCha.Stream.{chacha_block_lem}
use arduino_nrf_crypto.Poly1305.{auth}
use arduino_nrf_crypto.Poly1305.Store.{little_endian, cons}
use arduino_nrf_crypto.Poly1305.Tag.{tag_number, auth-polynomial}
use arduino_nrf_crypto.ChaChaPoly.{mac_data, pad_len, buf_len, decrypt}
use arduino_nrf_crypto.ChaChaPoly.RoundTrip.{tag_of, chacha_poly_decrypt-ok_iff}

-- A text and the zeros that fill its last block of 16 bytes.
abbrev pub zeros_after : List ℕ → List ℕ
zeros_after text = replicate ((length text + 15) / 16 * 16 - length text) 0

abbrev pub whole_blocks : List ℕ → List ℕ
whole_blocks text = text ++ zeros_after text

-- The additional data and the ciphertext in whole blocks, then both lengths in 8 bytes each.
abbrev pub authenticated : List ℕ → List ℕ → List ℕ
authenticated aad ct =
    whole_blocks aad
    ++ (whole_blocks ct ++ (little_endian 8 (length aad) ++ little_endian 8 (length ct)))

-- The Poly1305 tag of that data under a one-time key.
abbrev pub standard_tag : List ℕ → List ℕ → List ℕ → List ℕ
standard_tag one_time_key aad ct = little_endian 16 (tag_number (authenticated aad ct) one_time_key)

length_field : (n : ℕ) → tabulate 8 0 (λ i. u8 (u64 n >>> (8 * i))) ≡ little_endian 8 n
length_field n = cons (omega arith) (
    cons (omega arith) (
      cons (omega arith) (
        cons (omega arith) (
          cons (omega arith) (cons (omega arith) (cons (omega arith) (cons (omega arith) refl)))))))

padding : (text : List ℕ) → replicate (pad_len (length text)) 0 ≡ zeros_after text
padding text = ap (λ (n : ℕ). replicate {A = ℕ} n 0) (omega arith)

mac_data-authenticated : (aad ct : List ℕ) → mac_data aad ct ≡ authenticated aad ct
unfolding mac_data
mac_data-authenticated aad ct =
    let lengths = little_endian 8 (length aad) ++ little_endian 8 (length ct) in
    rw
      (
        padding aad,
        padding ct,
        append_assoc aad (zeros_after aad) (whole_blocks ct ++ lengths),
        append_assoc ct (zeros_after ct) lengths,
      )
      (ap₂ (λ (a c : List ℕ). aad ++ (zeros_after aad ++ (ct ++ (zeros_after ct ++ (a ++ c)))))
        (length_field (length aad)) (length_field (length ct)))

IsBytes-little_endian : (n : ℕ) → IsBytes (little_endian 8 n)
IsBytes-little_endian n = (
  omega arith,
  (
    omega arith,
    (omega arith, (omega arith, (omega arith, (omega arith, (omega arith, (omega arith, tt)))))),
  ),
)

whole_blocks-IsBytes : (text : List ℕ) → IsBytes text → IsBytes (whole_blocks text)
whole_blocks-IsBytes text b =
    IsBytes-append text (zeros_after text) b (IsBytes-replicate _ 0 (omega arith))

authenticated-IsBytes :
    (aad ct : List ℕ) → IsBytes aad → IsBytes ct → IsBytes (authenticated aad ct)
authenticated-IsBytes aad ct ba bc =
    let a = little_endian 8 (length aad) in
    let c = little_endian 8 (length ct) in
    IsBytes-append (whole_blocks aad) (whole_blocks ct ++ (a ++ c)) (whole_blocks-IsBytes aad ba) (
      IsBytes-append (whole_blocks ct) (a ++ c) (whole_blocks-IsBytes ct bc) (
        IsBytes-append a c (IsBytes-little_endian (length aad))
          (IsBytes-little_endian (length ct))))

-- Section 2.6: the one-time key is the first half of block 0.
abbrev pub one_time_key : List ℕ → List ℕ → List ℕ
one_time_key key nonce = take 32 (standard_block key nonce 0)

-- For byte strings, the tag that the code computes is the standard's.
pub tag_of-standard_tag :
    (key nonce aad ct : List ℕ)
    → IsBytes key
    → IsBytes nonce
    → IsBytes aad
    → IsBytes ct
    → tag_of key nonce aad ct ≡ standard_tag (one_time_key key nonce) aad ct
unfolding tag_of
tag_of-standard_tag key nonce aad ct bk bn ba bc =
    let half = take 32 (chacha_block key nonce 0) in
    ap (λ (t : List ℕ). auth t half) (mac_data-authenticated aad ct)
    ∙ auth-polynomial (authenticated aad ct) half (authenticated-IsBytes aad ct ba bc)
        (IsBytes-take 32 (chacha_block key nonce 0) (chacha_block_lem key nonce 0).1)
    ∙ ap (λ (t : List ℕ). standard_tag (take 32 t) aad ct)
        (chacha_block-standard_block key nonce 0 bk bn)

-- For byte strings whose authenticated form fits the stack buffer of 512 bytes, with a tag of at least 16 bytes
-- and every pointer given, `decrypt` answers true exactly if the first 16 bytes of the tag are the
-- tag of RFC 8439 for the key, the nonce, the additional data and the ciphertext; if it answers
-- false, `out` is as it was.
pub chacha_poly_decrypt-standard_tag :
    (key nonce stack ct out tag : List ℕ) (aad : Slice)
    → IsBytes key
    → IsBytes nonce
    → length stack ≡ 16
    → 16 ≤ length tag
    → IsBytes tag
    → IsBytes (contents aad)
    → IsBytes ct
    → buf_len (length (contents aad)) (length ct) ≤ 512
    → let r = decrypt stack (some key) (some nonce) aad (bytes ct) (some out) (some tag) in
      ((r.ok ≡ true) ↔ (take 16 tag ≡ standard_tag (one_time_key key nonce) (contents aad) ct))
      × (r.ok ≡ false → r.out ≡ some out)
chacha_poly_decrypt-standard_tag key nonce stack ct out tag aad bk bn size long b ba bc small =
    rw (sym (tag_of-standard_tag key nonce (contents aad) ct bk bn ba bc))
      (chacha_poly_decrypt-ok_iff key nonce stack ct out tag aad size long b small)
