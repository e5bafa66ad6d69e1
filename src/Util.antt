-- ===== src/Util.antt =====
-- src/crypto/CryptoUtil.cpp: the comparison of secrets, zeroization and PKCS#7 padding.
-- `size_t` has the 32 bits of the Cortex-M4; a null pointer is `none`.
pub mod Compare
pub mod Padding
pub mod RoundTrip
use arduino_nrf_crypto.Base.{ℕ, zero, suc, ◌+◌, ◌-◌, ◌%◌, Bool, true, false, ◌||◌, not}
use arduino_nrf_crypto.Base.{Option, none, some, List, Slice, null, bytes, contents, slice_len}
use arduino_nrf_crypto.Base.{ltb, ◌==◌, if◌then◌else◌, u8, u32, get_or, set, write_at, replicate}
use arduino_nrf_crypto.Base.{diff_loop}

unfoldable pub secure_equal : Option (List ℕ) → Option (List ℕ) → ℕ → Bool
secure_equal none b len = len == 0
secure_equal (some a) none len = len == 0
secure_equal (some a) (some b) len = diff_loop len a b 0 == 0

-- `while (len-- > 0) buf[len] = 0;`
pub wipe_loop : ℕ → List ℕ → List ℕ
wipe_loop zero buf = buf
wipe_loop (suc len) buf = wipe_loop len (set buf len 0)

pub wipe : Option (List ℕ) → ℕ → Option (List ℕ)
wipe none len = none
wipe (some buf) len = some (wipe_loop len buf)

-- The returned size, and what `out` holds afterwards.
pub record Padded : Type 0 where
  pub size : ℕ
  pub out : Option (List ℕ)

abbrev pub pad_len : ℕ → ℕ → ℕ
pad_len plain_len block_size =
    let n = block_size - plain_len % block_size in if n == 0 then block_size else n

-- `plain == nullptr && plainLen != 0`
abbrev pub is_missing : Slice → Bool
is_missing (null n) = not (n == 0)
is_missing (bytes l) = false

pub pkcs7_pad : Slice → Option (List ℕ) → ℕ → ℕ → Padded
pkcs7_pad plain none out_cap block_size = record { size = 0; out = none }
pkcs7_pad plain (some out) out_cap block_size =
    let n = pad_len (slice_len plain) block_size in
    let total = u32 (slice_len plain + n) in
    if (block_size == 0) || ltb 255 block_size
    then record { size = 0; out = some out }
    else if is_missing plain
    then record { size = 0; out = some out }
    else if ltb out_cap total
    then record { size = 0; out = some out }
    else record {
      size = total;
      out =
          some (write_at (write_at out 0 (contents plain)) (slice_len plain) (replicate n (u8 n)));
    }

-- `for (i = 0; i < padLen; ++i) if (buf[len - 1 - i] != padLen) return 0;`
unfoldable pub all_pad : ℕ → ℕ → List ℕ → ℕ → ℕ → Bool
all_pad zero i buf len n = true
all_pad (suc rounds) i buf len n =
    let rest = all_pad rounds (i + 1) buf len n in
    if get_or buf (len - 1 - i) 0 == n then rest else false

-- At `blockSize == 0` the source divides by zero; `%` here leaves `len`, as UDIV and MLS do.
unfoldable pub pkcs7_unpad : Option (List ℕ) → ℕ → ℕ → ℕ
pkcs7_unpad none len block_size = 0
pkcs7_unpad (some buf) len block_size =
    let n = get_or buf (len - 1) 0 in
    if (len == 0) || not (len % block_size == 0)
    then 0
    else if (n == 0) || ltb block_size n || ltb len n
    then 0
    else if all_pad n 0 buf len n
    then len - n
    else 0
