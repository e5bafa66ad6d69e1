-- ===== src/AesGcm.antt =====
-- src/backends/SoftAesGcm.cpp: AES-128-GCM with a 96-bit IV.
pub mod Ghash
pub mod RoundTrip
pub mod Tests
use arduino_nrf_crypto.Base.{ℕ, zero, suc, ◌+◌, ◌-◌, ◌*◌, ◌/◌, ◌%◌, ◌^◌, min, List, [], ◌∷◌, ◌++◌}
use arduino_nrf_crypto.Base.{bit_and, bit_or, bit_xor, get_or, set, replicate, take, drop, write_at}
use arduino_nrf_crypto.Base.{
  u8, u64, ◌<<<◌, ◌>>>◌, xor_bytes, diff_loop, length, ◌==◌, if◌then◌else◌,
}
use arduino_nrf_crypto.Base.{
  Option, none, some, true, false, Slice, null, bytes, contents, slice_len, tabulate,
}
use arduino_nrf_crypto.Aes128.{encrypt_block}
use arduino_nrf_crypto.Aead.{Outcome, bad_pointers}

-- `xorBlock` on blocks of 16 bytes is `xor_bytes`.

-- `for (i = 15; i >= 12; --i) if (++ctr[i] != 0) break;`
unfoldable pub inc_loop : ℕ → ℕ → List ℕ → List ℕ
inc_loop zero i ctr = ctr
inc_loop (suc left) i ctr =
    let b = u8 (get_or ctr i 0 + 1) in
    let rest = inc_loop left (i - 1) (set ctr i b) in if b == 0 then rest else set ctr i b

unfoldable pub inc_counter : List ℕ → List ℕ
unfolding inc_loop
inc_counter ctr = inc_loop 4 15 ctr

-- `v` shifted to the right by a bit: each byte takes the low bit of the one before it.
unfoldable pub shift_tail : ℕ → List ℕ → List ℕ
shift_tail before [] = []
shift_tail before (x ∷ xs) = u8 (bit_or (x >>> 1) (before <<< 7)) ∷ shift_tail x xs

unfoldable pub shift_right : List ℕ → List ℕ
unfolding shift_tail
shift_right [] = []
shift_right (x ∷ xs) = (x >>> 1) ∷ shift_tail x xs

-- One bit of `gf128Mul`: `z` and `v` after it.
unfoldable pub gf_step : ℕ → List ℕ × List ℕ → List ℕ × List ℕ
unfolding shift_right
gf_step bit (z, v) =
    let z' = if bit == 0 then z else xor_bytes z v in
    let w = shift_right v in
    let v' = if bit_and (get_or v 15 0) 1 == 0 then w else set w 0 (bit_xor (get_or w 0 0) 0xe1) in
    (z', v')

-- The bits of a byte, the high one first.
unfoldable pub gf_bits : ℕ → ℕ → List ℕ × List ℕ → List ℕ × List ℕ
unfolding gf_step
gf_bits zero x s = s
gf_bits (suc bit) x s = gf_bits bit x (gf_step (bit_and x (2 ^ bit)) s)

unfoldable pub gf_bytes : List ℕ → List ℕ × List ℕ → List ℕ × List ℕ
unfolding gf_bits
gf_bytes [] s = s
gf_bytes (x ∷ xs) s = gf_bytes xs (gf_bits 8 x s)

unfoldable pub gf128_mul : List ℕ → List ℕ → List ℕ
unfolding gf_bytes
gf128_mul x h = (gf_bytes x (replicate 16 0, h)).0

unfoldable pub ghash_block : List ℕ → List ℕ → List ℕ → List ℕ
unfolding gf128_mul
ghash_block y h block = gf128_mul (xor_bytes y block) h

-- `while (off < len)`, with fuel for its rounds; the last block is filled up with zeros.
unfoldable pub ghash_loop : ℕ → List ℕ → List ℕ → List ℕ → List ℕ
unfolding ghash_block
ghash_loop zero y h input = y
ghash_loop (suc fuel) y h [] = y
ghash_loop (suc fuel) y h (x ∷ input) =
    ghash_loop fuel (ghash_block y h (write_at (replicate 16 0) 0 (take 16 (x ∷ input)))) h
      (drop 16 (x ∷ input))

unfoldable pub ghash_padded : List ℕ → List ℕ → List ℕ → List ℕ
unfolding ghash_loop
ghash_padded y h input = ghash_loop (length input) y h input

unfoldable pub make_j0 : List ℕ → List ℕ
make_j0 iv = take 12 iv ++ (0 ∷ 0 ∷ 0 ∷ 1 ∷ [])

-- `while (off < len)` of `gctr`, with fuel for its rounds: the bytes written.
unfoldable pub gctr_loop : ℕ → List ℕ → List ℕ → List ℕ → List ℕ
unfolding inc_counter
gctr_loop zero key ctr input = []
gctr_loop (suc fuel) key ctr [] = []
gctr_loop (suc fuel) key ctr (x ∷ input) =
    let ctr' = inc_counter ctr in
    xor_bytes (take 16 (x ∷ input)) (encrypt_block key ctr')
    ++ gctr_loop fuel key ctr' (drop 16 (x ∷ input))

unfoldable pub gctr : List ℕ → List ℕ → List ℕ → List ℕ
unfolding gctr_loop
gctr key ctr input = gctr_loop (length input) key ctr input

-- `lenBlock`: both lengths in bits, big-endian.
unfoldable pub len_block : ℕ → ℕ → List ℕ
len_block aad_len ct_len =
    let aad_bits = u64 (aad_len * 8) in
    let ct_bits = u64 (ct_len * 8) in
    tabulate 8 0 (λ i. u8 (aad_bits >>> ((7 - i) * 8)))
    ++ tabulate 8 0 (λ i. u8 (ct_bits >>> ((7 - i) * 8)))

unfoldable pub compute_tag : List ℕ → List ℕ → List ℕ → List ℕ → List ℕ
compute_tag key iv aad ct =
    let h = encrypt_block key (replicate 16 0) in
    let y = ghash_padded (ghash_padded (replicate 16 0) h aad) h ct in
    xor_bytes (ghash_block y h (len_block (length aad) (length ct)))
      (encrypt_block key (make_j0 iv))

-- `encrypt` once the pointers are checked: `out` and `tag` are written.
unfoldable pub seal : List ℕ → List ℕ → Slice → Slice → Option (List ℕ) → List ℕ → Outcome
seal key iv aad input none tag = record {
  ok = true;
  out = none;
  tag = some (write_at tag 0 (compute_tag key iv (contents aad) []));
}
seal key iv aad input (some out) tag =
    let out' = write_at out 0 (gctr key (make_j0 iv) (contents input)) in
    record {
      ok = true;
      out = some out';
      tag = some (write_at tag 0 (compute_tag key iv (contents aad) (take (slice_len input) out')));
    }

unfoldable pub encrypt :
    Option (List ℕ) → Option (List ℕ) → Slice → Slice → Option (List ℕ) → Option (List ℕ) → Outcome
encrypt (some key) (some iv) aad input out (some tag) =
    if bad_pointers (some key) (some iv) (some tag) input out
    then record { ok = false; out = out; tag = some tag }
    else seal key iv aad input out tag
encrypt key iv aad input out tag = record { ok = false; out = out; tag = tag }

-- `decrypt` once the pointers are checked: nothing is written unless the tag is the expected one.
unfoldable pub open_sealed : List ℕ → List ℕ → Slice → Slice → Option (List ℕ) → List ℕ → Outcome
open_sealed key iv aad input out tag =
    let expected = compute_tag key iv (contents aad) (contents input) in
    if diff_loop 16 tag expected 0 == 0
    then record {
      ok = true;
      out = elim out [
        | none ↦ none
        | some o ↦ some (write_at o 0 (gctr key (make_j0 iv) (contents input)))
      ];
      tag = some tag;
    }
    else record { ok = false; out = out; tag = some tag }

unfoldable pub decrypt :
    Option (List ℕ) → Option (List ℕ) → Slice → Slice → Option (List ℕ) → Option (List ℕ) → Outcome
decrypt (some key) (some iv) aad input out (some tag) =
    if bad_pointers (some key) (some iv) (some tag) input out
    then record { ok = false; out = out; tag = some tag }
    else open_sealed key iv aad input out tag
decrypt key iv aad input out tag = record { ok = false; out = out; tag = tag }
