-- ===== src/Examples/Digests.antt =====
-- The digests' theorems, applied.
use arduino_nrf_crypto.Base.{[], ◌∷◌, ◌≡◌, refl, bytes, null, foldl, arith, take, replicate}
use arduino_nrf_crypto.Sha256
use arduino_nrf_crypto.Sha256.Digest.{
  reference, Absorbed, reset-Absorbed, finish-Absorbed, finish-updates, joined,
}
use arduino_nrf_crypto.Sha256.Hmac.{hmac_reference, hmac_sha256-reference}
use arduino_nrf_crypto.Sha512
use arduino_nrf_crypto.Hkdf.{hkdf_sha256}
use arduino_nrf_crypto.Hkdf.Reference.{expand_reference, extract_reference, hkdf_sha256-reference}
use arduino_nrf_crypto.Sha256.Standard.{digest256}
use arduino_nrf_crypto.Sha256.Conforms.{hash-digest256}
use arduino_nrf_crypto.Sha512.Standard.{digest384, digest512}
use arduino_nrf_crypto.Sha512.Conforms.{hash384-digest384, hash512-digest512}
use arduino_nrf_crypto.Sha256.{hash}
use arduino_nrf_crypto.Examples.{abc, abc-IsBytes, stream, hasher}

finish-Absorbed_example :
    ((Sha256.finish (Sha256.reset stream)).out ≡ reference [])
    × Absorbed [] (Sha256.finish (Sha256.reset stream)).stream
finish-Absorbed_example = finish-Absorbed (Sha256.reset stream) [] (reset-Absorbed stream refl)

finish-updates_example :
    (Sha256.finish
      (foldl Sha256.update (Sha256.reset stream) (bytes abc ∷ null 4 ∷ bytes abc ∷ []))).out
    ≡ Sha256.hash stream (bytes (joined (bytes abc ∷ null 4 ∷ bytes abc ∷ [])))
finish-updates_example = finish-updates stream (bytes abc ∷ null 4 ∷ bytes abc ∷ []) refl

hmac_sha256-reference_example :
    Sha256.hmac_sha256 stream (bytes (replicate 70 3)) (bytes abc)
    ≡ hmac_reference (replicate 70 3) abc
hmac_sha256-reference_example =
    hmac_sha256-reference stream (bytes (replicate 70 3)) (bytes abc) refl tt

hash512-digest512_example : Sha512.hash512 hasher (bytes abc) ≡ digest512 abc
hash512-digest512_example = hash512-digest512 hasher (bytes abc) refl abc-IsBytes (omega arith)

hash384-digest384_example : Sha512.hash384 hasher (bytes abc) ≡ digest384 abc
hash384-digest384_example = hash384-digest384 hasher (bytes abc) refl abc-IsBytes (omega arith)

hash-digest256_example : hash stream (bytes abc) ≡ digest256 abc
hash-digest256_example = hash-digest256 stream (bytes abc) refl abc-IsBytes (omega arith)

hkdf_sha256-reference_example :
    hkdf_sha256 stream (bytes abc) (null 0) (bytes abc) (replicate 50 1)
    ≡ take 50 (expand_reference 50 (extract_reference abc []) [] abc 1)
hkdf_sha256-reference_example =
    hkdf_sha256-reference stream (bytes abc) (null 0) (bytes abc) (replicate 50 1) refl refl
      (omega arith)
