-- ===== src/Hkdf.antt =====
-- src/backends/SoftHkdf.cpp: HKDF-SHA-256 (RFC 5869) over the software HMAC.
pub mod Reference
use arduino_nrf_crypto.Base.{ℕ, zero, suc, ◌+◌, ◌-◌, min, List, [], ◌∷◌, replicate, write_at, take}
use arduino_nrf_crypto.Base.{Slice, null, bytes, slice_len, length, u8, ltb, ◌==◌, if◌then◌else◌}
use arduino_nrf_crypto.Stream.{Stream}
use arduino_nrf_crypto.Sha256.{reset, update, finish, xor_key, hmac_sha256}

-- `if (a != nullptr && aLen > 0) inner.update(a, aLen);`
unfoldable pub update_part : Stream → Slice → Stream
update_part s (null n) = s
update_part s (bytes l) = if length l == 0 then s else update s (bytes l)

-- `hmacSha256Parts`; `memory` is what lies where its two local hash objects are put.
unfoldable pub hmac_sha256_parts : Stream → List ℕ → Slice → Slice → ℕ → List ℕ
hmac_sha256_parts memory key a b counter =
    let k0 = write_at (replicate 64 0) 0 key in
    let keyed = update (reset memory) (bytes (xor_key 0x36 k0)) in
    let inner = finish (update (update_part (update_part keyed a) b) (bytes (counter ∷ []))) in
    let outer = update (update (reset memory) (bytes (xor_key 0x5c k0))) (bytes inner.out) in
    (finish outer).out

-- `while (outOff < okmLen)`, with fuel for its rounds. `t` is null before the first round.
unfoldable pub expand : ℕ → Stream → List ℕ → Slice → Slice → ℕ → ℕ → ℕ → List ℕ → List ℕ
expand zero memory prk t info counter out_off okm_len okm = okm
expand (suc fuel) memory prk t info counter out_off okm_len okm =
    let t' = hmac_sha256_parts memory prk t info counter in
    let n = min (okm_len - out_off) 32 in
    let rest =
      expand fuel memory prk (bytes t') info (u8 (counter + 1)) (out_off + n) okm_len
        (write_at okm out_off (take n t')) in
    if ltb out_off okm_len then rest else okm

unfoldable pub extract : Stream → Slice → Slice → List ℕ
extract memory ikm salt =
    if slice_len salt == 0
    then hmac_sha256 memory (bytes (replicate 32 0)) ikm
    else hmac_sha256 memory salt ikm

-- What `okm` holds afterwards. A round writes a byte at least, so the length is fuel enough.
unfoldable pub hkdf_sha256 : Stream → Slice → Slice → Slice → List ℕ → List ℕ
hkdf_sha256 memory ikm salt info okm =
    expand (length okm) memory (extract memory ikm salt) (null 0) info 1 0 (length okm) okm
