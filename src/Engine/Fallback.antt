-- ===== src/Engine/Fallback.antt =====
-- The calls of src/crypto/CryptoEngine.cpp that fall back to software.
use arduino_nrf_crypto.Base.{
  ℕ, List, [], some, Slice, ◌≡◌, refl, ap, length, write_at, contents, false, arith, ◌<◌, ◌≤◌, ◌*◌,
  take, ◌==◌,
}
use arduino_nrf_crypto.Stream.{Stream}
use arduino_nrf_crypto.Sha256.Hmac.{hmac_reference, hmac_sha256-reference, IsReadable}
use arduino_nrf_crypto.Sha512
use arduino_nrf_crypto.Sha512.Digest
use arduino_nrf_crypto.Hkdf.Reference.{expand_reference, extract_reference, hkdf_sha256-reference}
use arduino_nrf_crypto.Util.{is_missing}
use arduino_nrf_crypto.Types.{ok, unsupported}
use arduino_nrf_crypto.Backend.{Backend, reply}
use arduino_nrf_crypto.Engine.{running}
use arduino_nrf_crypto.Engine.Hash

-- A slice that is readable is not missing.
pub readable-is_missing : (s : Slice) → IsReadable s → is_missing s ≡ false
readable-is_missing (Slice.null n) h = ground arith
readable-is_missing (Slice.bytes l) h = refl

module _ {D : Type 0} (b : Backend D) (d d' : D) where
  -- If the backend answers Unsupported to HMAC and leaves the output alone, the call with readable slices
  -- answers Ok and puts out the HMAC of RFC 2104 over the reference digest.
  pub hmac_sha256-software :
      (memory : Stream) (key msg : Slice) (out : List ℕ)
      → length memory.buffer ≡ 64
      → IsReadable key
      → IsReadable msg
      → b.hmac_sha256 d key msg out ≡ reply unsupported (some out) d'
      → Hash.hmac_sha256 (running b d) memory key msg (some out)
        ≡ reply ok (some (write_at out 0 (hmac_reference (contents key) (contents msg)))) d'
  unfolding Hash.hmac_sha256
  hmac_sha256-software memory key msg out m rk rm e =
      rw (readable-is_missing key rk, readable-is_missing msg rm, e)
        (ap (λ t. reply ok (some (write_at out 0 t)) d')
          (hmac_sha256-reference memory key msg m rk))

  -- If the backend answers Unsupported to HKDF and leaves the output alone, the call with readable slices
  -- and an output of 1 byte to 255 blocks answers Ok and fills the buffer with the output of
  -- RFC 5869.
  pub hkdf_sha256-software :
      (memory : Stream) (ikm salt info : Slice) (okm : List ℕ)
      → length memory.buffer ≡ 64
      → IsReadable ikm
      → IsReadable salt
      → IsReadable info
      → 0 < length okm
      → length okm ≤ 255 * 32
      → b.hkdf_sha256 d ikm salt info okm ≡ reply unsupported (some okm) d'
      → Hash.hkdf_sha256 (running b d) memory ikm salt info (some okm)
        ≡ reply ok
            (some (
              take (length okm) (
                expand_reference
                  (length okm)
                  (extract_reference (contents ikm) (contents salt))
                  []
                  (contents info)
                  1)))
            d'
  unfolding Hash.hkdf_sha256
  hkdf_sha256-software memory ikm salt info okm m ri rs rn pos limit e =
      let some_bytes : (length okm == 0) ≡ false = ground arith in
      rw
        (
          some_bytes,
          readable-is_missing ikm ri,
          readable-is_missing salt rs,
          readable-is_missing info rn,
          e,
        )
        (ap (λ t. reply ok (some t) d') (hkdf_sha256-reference memory ikm salt info okm m rs limit))

  -- If the backend answers Unsupported to SHA-384 and SHA-512 and leaves the output alone, the calls with
  -- a readable slice answer Ok and put out the reference digests.
  pub sha512-software :
      (memory : Sha512.Hasher) (input : Slice) (out : List ℕ)
      → length memory.stream.buffer ≡ 128
      → IsReadable input
      → b.sha384 d input out ≡ reply unsupported (some out) d'
      → b.sha512 d input out ≡ reply unsupported (some out) d'
      → (Hash.sha384 (running b d) memory input (some out)
          ≡ reply ok (some (write_at out 0 (Digest.reference Digest.sha384 (contents input)))) d')
        × (Hash.sha512 (running b d) memory input (some out)
            ≡ reply ok (some (write_at out 0 (Digest.reference Digest.sha512 (contents input)))) d')
  unfolding Hash.sha384 Hash.sha512
  sha512-software memory input out m r e384 e512 = (
    rw (readable-is_missing input r, e384)
        (ap (λ t. reply ok (some (write_at out 0 t)) d') (Digest.hash384-reference memory input m)),
    rw (readable-is_missing input r, e512)
        (ap (λ t. reply ok (some (write_at out 0 t)) d') (Digest.hash512-reference memory input m)),
  )
