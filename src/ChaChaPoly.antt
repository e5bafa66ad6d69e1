-- ===== src/ChaChaPoly.antt =====
-- src/backends/SoftChaChaPoly.cpp: the AEAD of RFC 8439.
pub mod RoundTrip
pub mod Standard
pub mod Tests
use arduino_nrf_crypto.Base.{
  ℕ, ◌+◌, ◌-◌, ◌*◌, ◌/◌, ◌%◌, ◌^◌, List, [], ◌∷◌, ◌++◌, take, replicate, write_at,
}
use arduino_nrf_crypto.Base.{u8, u64, ◌>>>◌, diff_loop, length, ◌==◌, ltb, if◌then◌else◌, tabulate}
use arduino_nrf_crypto.Base.{Option, none, some, true, false, Slice, contents, slice_len}
use arduino_nrf_crypto.ChaCha.{chacha_block, chacha_xor}
use arduino_nrf_crypto.Poly1305.{auth}
use arduino_nrf_crypto.Aead.{Outcome, bad_pointers}

abbrev pub pad_len : ℕ → ℕ
pad_len n = (16 - n % 16) % 16

-- The data that is authenticated: both texts, each padded by zeros to blocks, and their lengths.
unfoldable pub mac_data : List ℕ → List ℕ → List ℕ
mac_data aad ct =
    aad
    ++ (replicate (pad_len (length aad)) 0
        ++ (ct
            ++ (replicate (pad_len (length ct)) 0
                ++ (tabulate 8 0 (λ i. u8 (u64 (length aad) >>> (8 * i)))
                    ++ tabulate 8 0 (λ i. u8 (u64 (length ct) >>> (8 * i)))))))

abbrev pub buf_len : ℕ → ℕ → ℕ
buf_len aad_len ct_len = aad_len + pad_len aad_len + ct_len + pad_len ct_len + 16

-- What `tag` holds afterwards: data that the stack buffer cannot hold leaves it as it is.
unfoldable pub aead_poly1305 : List ℕ → List ℕ → List ℕ → List ℕ → List ℕ → List ℕ
aead_poly1305 tag key nonce aad ct =
    if ltb 512 (buf_len (length aad) (length ct))
    then tag
    else write_at tag 0 (auth (mac_data aad ct) (take 32 (chacha_block key nonce 0)))

unfoldable pub seal : List ℕ → List ℕ → Slice → Slice → Option (List ℕ) → List ℕ → Outcome
seal key nonce aad input none tag = record {
  ok = true;
  out = none;
  tag = some (aead_poly1305 tag key nonce (contents aad) []);
}
seal key nonce aad input (some out) tag =
    let out' = write_at out 0 (chacha_xor key nonce 1 (contents input)) in
    record {
      ok = true;
      out = some out';
      tag = some (aead_poly1305 tag key nonce (contents aad) (take (slice_len input) out'));
    }

unfoldable pub encrypt :
    Option (List ℕ) → Option (List ℕ) → Slice → Slice → Option (List ℕ) → Option (List ℕ) → Outcome
encrypt (some key) (some nonce) aad input out (some tag) =
    if bad_pointers (some key) (some nonce) (some tag) input out
    then record { ok = false; out = out; tag = some tag }
    else seal key nonce aad input out tag
encrypt key at_nonce aad input out tag = record { ok = false; out = out; tag = tag }

-- `decrypt` once the pointers are checked. `stack` is what the local array `expected` holds at first.
unfoldable pub open_sealed :
    List ℕ → List ℕ → List ℕ → Slice → Slice → Option (List ℕ) → List ℕ → Outcome
open_sealed stack key nonce aad input out tag =
    let expected = aead_poly1305 stack key nonce (contents aad) (contents input) in
    if diff_loop 16 tag expected 0 == 0
    then record {
      ok = true;
      out = elim out [
        | none ↦ none
        | some o ↦ some (write_at o 0 (chacha_xor key nonce 1 (contents input)))
      ];
      tag = some tag;
    }
    else record { ok = false; out = out; tag = some tag }

unfoldable pub decrypt :
    List ℕ
    → Option (List ℕ)
    → Option (List ℕ)
    → Slice
    → Slice
    → Option (List ℕ)
    → Option (List ℕ)
    → Outcome
decrypt stack (some key) (some nonce) aad input out (some tag) =
    if bad_pointers (some key) (some nonce) (some tag) input out
    then record { ok = false; out = out; tag = some tag }
    else open_sealed stack key nonce aad input out tag
decrypt stack key at_nonce aad input out tag = record { ok = false; out = out; tag = tag }
