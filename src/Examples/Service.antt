-- ===== src/Examples/Service.antt =====
-- The engine's theorems, applied on the OnChip backend.
use arduino_nrf_crypto.Base.{ℕ, [], ◌∷◌, ◌≡◌, refl, bytes, null, arith, take}
use arduino_nrf_crypto.Base.{replicate, some, none, true, false, write_at, Slice}
use arduino_nrf_crypto.Sha256.Digest.{reference, joined}
use arduino_nrf_crypto.Sha256.Hmac.{hmac_reference}
use arduino_nrf_crypto.Sha512.Digest as Long
use arduino_nrf_crypto.Hkdf.Reference.{expand_reference, extract_reference}
use arduino_nrf_crypto.Types.{ok, bad_param, RsaKeyPair}
use arduino_nrf_crypto.Types.{RsaPrivateKeyImport}
use arduino_nrf_crypto.Backend.{Backend, Pointer, reply, default_backend}
use arduino_nrf_crypto.OnChip.{Board, on_chip}
use arduino_nrf_crypto.Engine.{running, begin, end, any}
use arduino_nrf_crypto.Engine.Selection.{choice, soft_device, begin-active}
use arduino_nrf_crypto.Engine.Hash
use arduino_nrf_crypto.Engine.Context.{sha256_begin, sha256_update, sha256_finish}
use arduino_nrf_crypto.Engine.Fallback.{hmac_sha256-software, hkdf_sha256-software}
use arduino_nrf_crypto.Engine.Streaming.{feed_context, sha256_streaming}
use arduino_nrf_crypto.Engine.Served.{digests_lem}
use arduino_nrf_crypto.Examples.{abc, key, stream, hasher, memory, peripherals}

-- A backend without any software: a device on which every operation is left to the engine.
abbrev bare : Backend ℕ
bare = default_backend "Bare" (λ w. (false, w)) true

abbrev chip : Board ℕ
chip = record { hardware = 0; started = true }

abbrev down : Board ℕ
down = record { hardware = 0; started = false }

abbrev absent : Backend (Board ℕ)
absent = default_backend "CC310" (λ d. (false, d)) true

abbrev key_pair : RsaKeyPair
key_pair = record {
  slot = 1;
  public = record { modulus = []; exponent = []; mod_len = 256; exp_len = 3 };
}

abbrev material : RsaPrivateKeyImport
material = record {
  modulus = [];
  private_exponent = [];
  public_exponent = [];
  mod_len = 0;
  priv_exp_len = 0;
  pub_exp_len = 0;
}

begin-active_example :
    (begin absent (on_chip peripherals memory) any (record { active = none; device = down })).active
    ≡ choice absent
        (on_chip peripherals memory)
        any
        (absent.begin (end (record { active = none; device = down })).device).0
        ((on_chip peripherals memory).begin (
          soft_device absent
            (on_chip peripherals memory)
            any
            (end (record { active = none; device = down })).device)).0
begin-active_example =
    begin-active absent (on_chip peripherals memory) any (record { active = none; device = down })

hmac_sha256-software_example :
    Hash.hmac_sha256 (running bare 3) stream (bytes abc) (bytes key) (some (replicate 32 0))
    ≡ reply ok (some (write_at (replicate 32 0) 0 (hmac_reference abc key))) 3
unfolding default_backend
hmac_sha256-software_example =
    hmac_sha256-software bare 3 3 stream (bytes abc) (bytes key) (replicate 32 0) refl tt tt refl

hkdf_sha256-software_example :
    Hash.hkdf_sha256
      (running bare 3)
      stream
      (bytes abc)
      (null 0)
      (bytes key)
      (some (replicate 42 0))
    ≡ reply ok (some (take 42 (expand_reference 42 (extract_reference abc []) [] key 1))) 3
unfolding default_backend
hkdf_sha256-software_example =
    hkdf_sha256-software bare 3 3 stream (bytes abc) (null 0) (bytes key) (replicate 42 0) refl tt
      refl tt (omega arith) (omega arith) refl

sha256_streaming_example :
    let used =
      sha256_finish
        (feed_context
          (sha256_begin (record { hasher = stream; active = false })).1
          (bytes abc ∷ null 7 ∷ bytes key ∷ []))
        (some (replicate 32 0)) in
    (used.status ≡ ok)
    × (used.out
        ≡ some (
            write_at (replicate 32 0) 0 (reference (joined (bytes abc ∷ null 7 ∷ bytes key ∷ [])))))
    × ((input : Slice) → sha256_update used.context input ≡ (bad_param, used.context))
    × ((p : Pointer)
        → sha256_finish used.context p
          ≡ record { status = bad_param; context = used.context; out = p })
sha256_streaming_example =
    sha256_streaming (record { hasher = stream; active = false })
      (bytes abc ∷ null 7 ∷ bytes key ∷ []) (replicate 32 0) refl

digests_lem_example :
    let e = running (on_chip peripherals memory) chip in
    (Hash.sha256 e (bytes abc) (some (replicate 64 0))
      ≡ reply ok (some (write_at (replicate 64 0) 0 (reference abc))) chip)
    × (Hash.sha384 e hasher (bytes abc) (some (replicate 64 0))
        ≡ reply ok (some (write_at (replicate 64 0) 0 (Long.reference Long.sha384 abc))) chip)
    × (Hash.sha512 e hasher (bytes abc) (some (replicate 64 0))
        ≡ reply ok (some (write_at (replicate 64 0) 0 (Long.reference Long.sha512 abc))) chip)
    × (Hash.hmac_sha256 e stream (null 0) (bytes abc) (some (replicate 64 0))
        ≡ reply ok (some (write_at (replicate 64 0) 0 (hmac_reference [] abc))) chip)
digests_lem_example =
    digests_lem peripherals memory chip stream (null 0) (bytes abc) (replicate 64 0) refl refl refl
      refl tt
