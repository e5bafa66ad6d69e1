-- ===== src/Poly1305/Tag.antt =====
-- The tag of src/backends/SoftChaChaPoly.cpp (`poly1305Finish`, `poly1305Auth`) as a number.
use arduino_nrf_crypto.Base.{ℕ, ◌+◌, ◌-◌, ◌/◌, ◌%◌, ◌^◌, ◌≡◌, sym, ap, ◌∙◌, arith, subst⁻¹}
use arduino_nrf_crypto.Base.{List, true, false, IsBytes}
use arduino_nrf_crypto.Base.{set, write_at, replicate, take, drop, length, ◌==◌, if◌then◌else◌}
use arduino_nrf_crypto.Base.{
  IsBytes-drop, IsBytes-take, IsBytes-replicate, IsBytes-set, IsBytes-write_at, inl, inr,
  Bool-cases,
}
use arduino_nrf_crypto.Poly1305.{Limbs, init_h, init_r, blocks, settle, reduce, finish, auth}
use arduino_nrf_crypto.Poly1305.Horner.{horner, horner-shift, blocks-horner}
use arduino_nrf_crypto.Poly1305.Product.{value, UpTo}
use arduino_nrf_crypto.Poly1305.Store.{key_sum, value-put_out, little_endian, put_out-little_endian}
use arduino_nrf_crypto.Poly1305.Clamp.{clamped, value-init_r}
use arduino_nrf_crypto.Poly1305.Step.{Settled, init_r_lem}
use arduino_nrf_crypto.Poly1305.Block.{block_value}
use arduino_nrf_crypto.Poly1305.Final.{value-exact_settle, settle-exact, exact_settle-le}
use arduino_nrf_crypto.Poly1305.Reduce.{value-reduce}

-- From a settled state, the tag is the state's remainder modulo 2 ^ 130 - 5 plus the key's second
-- half, modulo 2 ^ 128.
value-finish :
    (h : Limbs) (key : List ℕ)
    → Settled h
    → IsBytes key
    → block_value (finish h key) false ≡ (value h % (2 ^ 130 - 5) + key_sum key) % 2 ^ 128
unfolding finish
value-finish h key s bytes =
    let small = subst⁻¹ (UpTo (2 ^ 26 - 1)) (settle-exact h s) (exact_settle-le h s) in
    let reduced = value-reduce (settle h) small in
    let kept = ap value (settle-exact h s) in
    let same : value (reduce (settle h)) ≡ value h % (2 ^ 130 - 5) =
      reduced.0 ∙ omega (arith, kept, value-exact_settle h) in
    value-put_out (reduce (settle h)) key reduced.1 bytes
    ∙ ap (λ (n : ℕ). (n + key_sum key) % 2 ^ 128) same

-- The last block: the bytes that are left, a byte 1 and zeros.
abbrev pub tail_block : ℕ → List ℕ → List ℕ
tail_block rem rest = set (write_at (replicate 16 0) 0 (take rem rest)) rem 1

tail_block-IsBytes : (rem : ℕ) (rest : List ℕ) → IsBytes rest → IsBytes (tail_block rem rest)
tail_block-IsBytes rem rest b =
    IsBytes-set (write_at (replicate 16 0) 0 (take rem rest)) rem 1 (omega arith) (
      IsBytes-write_at (replicate 16 0) 0 (take rem rest) (IsBytes-replicate 16 0 (omega arith))
        (IsBytes-take rem rest b))

-- The polynomial of a message by Horner's rule: whole blocks with bit 128, then what is left.
abbrev pub polynomial : List ℕ → ℕ → ℕ
polynomial msg x =
    let rem = length msg % 16 in
    let full = length msg - rem in
    let whole = horner (full / 16) 0 x msg true in
    if rem == 0 then whole else horner 1 whole x (tail_block rem (drop full msg)) false

-- The tag as a number, at the limbs of `poly1305Init`.
auth_at_key :
    (msg key : List ℕ)
    → IsBytes msg
    → IsBytes key
    → block_value (auth msg key) false
      ≡ (polynomial msg (value (init_r key)) % (2 ^ 130 - 5) + key_sum key) % 2 ^ 128
unfolding auth
auth_at_key msg key bm bk =
    let rem = length msg % 16 in
    let full = length msg - rem in
    let r = init_r key in
    let zeros : Settled init_h =
      (omega arith, omega arith, omega arith, omega arith, omega arith) in
    let whole = blocks-horner (full / 16) init_h r msg true zeros (init_r_lem key) bm in
    let rest = drop full msg in
    let tail = tail_block rem rest in
    let tail_bytes = tail_block-IsBytes rem rest (IsBytes-drop full msg bm) in
    let h = blocks (full / 16) init_h r msg true in
    let x = value r in
    let moved = horner-shift 1 (value h) whole.0 x tail false in
    let shift = ap (λ (n : ℕ). horner 1 n x tail false) (sym whole.1.1) ∙ moved.1 in
    let more = blocks-horner 1 h r tail false whole.1.0 (init_r_lem key) tail_bytes in
    elim (Bool-cases (rem == 0)) [
      | inl none ↦ rw none (
          value-finish h key whole.1.0 bk
          ∙ ap (λ (n : ℕ). (n + key_sum key) % 2 ^ 128) (omega (arith, whole.1.1)))
      | inr left ↦ rw left (
          value-finish (blocks 1 h r tail false) key more.1.0 bk
          ∙ ap (λ (n : ℕ). (n + key_sum key) % 2 ^ 128) (omega (arith, more.1.1, whole.1.1, shift)))
    ]

-- The tag of RFC 8439, section 2.5, as a number: the polynomial of the message at the clamped first half of
-- the key modulo 2 ^ 130 - 5, plus the second half of the key, modulo 2 ^ 128.
abbrev pub tag_number : List ℕ → List ℕ → ℕ
tag_number msg key = (polynomial msg (clamped key) % (2 ^ 130 - 5) + key_sum key) % 2 ^ 128

auth-tag_number :
    (msg key : List ℕ)
    → IsBytes msg
    → IsBytes key
    → block_value (auth msg key) false ≡ tag_number msg key
auth-tag_number msg key bm bk = rw (sym (value-init_r key bk)) (auth_at_key msg key bm bk)

auth-little_endian :
    (msg key : List ℕ) → auth msg key ≡ little_endian 16 (block_value (auth msg key) false)
unfolding auth finish
auth-little_endian msg key = put_out-little_endian _ key

-- For a key and a message of bytes, the 16 bytes of the tag of `auth` are the little-endian number of RFC
-- 8439: the polynomial of the message at the clamped first half of the key modulo 2 ^ 130 - 5, plus
-- the second half of the key, modulo 2 ^ 128.
pub auth-polynomial :
    (msg key : List ℕ)
    → IsBytes msg
    → IsBytes key
    → auth msg key ≡ little_endian 16 (tag_number msg key)
auth-polynomial msg key bm bk =
    auth-little_endian msg key ∙ ap (little_endian 16) (auth-tag_number msg key bm bk)
