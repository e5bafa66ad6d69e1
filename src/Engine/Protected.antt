-- ===== src/Engine/Protected.antt =====
-- The AEAD packets of src/crypto/CryptoEngine.cpp on the backend of src/backends/OnChipBackend.cpp.
use arduino_nrf_crypto.Base.{ℕ, ◌≤◌, List, true, false, some, Slice, bytes, ◌≡◌, ◌≢◌, refl}
use arduino_nrf_crypto.Base.{length, take, contents, IsBytes}
use arduino_nrf_crypto.Base.{Bool-cases, inl, inr, arith}
use arduino_nrf_crypto.Sha256.Hmac.{IsReadable}
use arduino_nrf_crypto.AesGcm.{compute_tag, decrypt}
use arduino_nrf_crypto.AesGcm.RoundTrip.{gcm_decrypt-encrypt, gcm_decrypt-ok_iff}
use arduino_nrf_crypto.ChaChaPoly.{buf_len}
use arduino_nrf_crypto.ChaChaPoly.RoundTrip.{chacha_poly_decrypt-encrypt}
use arduino_nrf_crypto.Types.{ok, auth_failed}
use arduino_nrf_crypto.Backend.{reply, default_backend}
use arduino_nrf_crypto.OnChip.{Peripherals, Memory, Board, on_chip}
use arduino_nrf_crypto.Engine.{running}
use arduino_nrf_crypto.Engine.Fallback.{readable-is_missing}
use arduino_nrf_crypto.Engine.Cipher.{is_unbuffered}
use arduino_nrf_crypto.Engine.Sealed.{
  SealedMessage, aes_gcm_encrypt, aes_gcm_decrypt, aes_gcm_seal, aes_gcm_open,
}
use arduino_nrf_crypto.Engine.Sealed.{
  chacha_poly_encrypt, chacha_poly_decrypt, chacha_poly_seal, chacha_poly_open,
}

-- Buffers that are given are never missing.
buffered : (input out : List ℕ) → is_unbuffered (bytes input) (some out) ≡ false
buffered input out = ground arith

module _ {W : Type 0} (p : Peripherals W) (m : Memory) (w : W) where
  abbrev pub board : Board W
  board = record { hardware = w; started = true }

  -- On the started OnChip backend, with a key of 16 bytes, an aad that is null only if it is empty, a tag
  -- of 16 bytes and buffers with room, `aesGcmSeal` answers Ok, and `aesGcmOpen` of the output and
  -- the tag that it wrote answers Ok and recovers the data.
  pub aes_gcm_open-aes_gcm_seal :
      (key iv plain out out2 tag : List ℕ) (aad : Slice)
      → length key ≡ 16
      → IsBytes key
      → IsReadable aad
      → IsBytes plain
      → length plain ≤ length out
      → length plain ≤ length out2
      → length tag ≡ 16
      → let e = running (on_chip p m) board in
        (c t out' : List ℕ) × (aes_gcm_seal e (record {
          key = key;
          iv = iv;
          aad = aad;
          input = bytes plain;
          output = some out;
          tag = tag;
        })
          ≡ reply ok
              (record {
                key = key;
                iv = iv;
                aad = aad;
                input = bytes plain;
                output = some c;
                tag = t;
              })
              board)
        × (aes_gcm_open e (record {
          key = key;
          iv = iv;
          aad = aad;
          input = bytes (take (length plain) c);
          output = some out2;
          tag = t;
        })
            ≡ reply ok
                (record {
                  key = key;
                  iv = iv;
                  aad = aad;
                  input = bytes (take (length plain) c);
                  output = some out';
                  tag = t;
                })
                board)
        × (take (length plain) out' ≡ plain)
  unfolding aes_gcm_seal aes_gcm_open aes_gcm_encrypt aes_gcm_decrypt on_chip default_backend
  aes_gcm_open-aes_gcm_seal key iv plain out out2 tag aad size b r bp room room2 tag_size =
      let (c, t, out', sealed, opened, back) =
        gcm_decrypt-encrypt key size b iv plain out out2 tag aad bp room room2 tag_size in
      (
        c,
        t,
        out',
        rw (buffered plain out, readable-is_missing aad r, sealed) refl,
        rw (buffered (take (length plain) c) out2, readable-is_missing aad r, opened) refl,
        back,
      )

  -- On the started OnChip backend, with a key of 16 bytes and an aad that is null only if it is empty,
  -- `aesGcmOpen` with a tag other than the computed one answers AuthFailed and leaves the message, its
  -- output with it, and the device as they were.
  pub aes_gcm_open-AuthFailed :
      (key iv ct out tag : List ℕ) (aad : Slice)
      → length key ≡ 16
      → IsBytes key
      → IsReadable aad
      → 16 ≤ length tag
      → IsBytes tag
      → take 16 tag ≢ compute_tag key iv (contents aad) ct
      → let msg : SealedMessage = record {
        key = key;
        iv = iv;
        aad = aad;
        input = bytes ct;
        output = some out;
        tag = tag;
      } in
        aes_gcm_open (running (on_chip p m) board) msg ≡ reply auth_failed msg board
  unfolding aes_gcm_open aes_gcm_decrypt on_chip default_backend
  aes_gcm_open-AuthFailed key iv ct out tag aad size b r long bt forged =
      let (iff, kept) = gcm_decrypt-ok_iff key size b iv ct out tag aad long bt in
      let refused : (decrypt (some key) (some iv) aad (bytes ct) (some out) (some tag)).ok ≡ false =
        elim (Bool-cases (decrypt (some key) (some iv) aad (bytes ct) (some out) (some tag)).ok) [
          | inl held ↦ absurd (forged (iff.0 held))
          | inr failed ↦ failed
        ] in
      rw (buffered ct out, readable-is_missing aad r, refused, kept refused) refl

  -- On the started OnChip backend, with an aad that is null only if it is empty, a tag of 16 bytes,
  -- buffers with room and data whose authenticated form fits the stack buffer of 512 bytes,
  -- `chachaPolySeal` answers Ok, and `chachaPolyOpen` of the output and the tag that it wrote answers
  -- Ok and recovers the data.
  pub chacha_poly_open-chacha_poly_seal :
      (key iv plain out out2 tag : List ℕ) (aad : Slice)
      → IsReadable aad
      → IsBytes plain
      → length plain ≤ length out
      → length plain ≤ length out2
      → length tag ≡ 16
      → length m.expected ≡ 16
      → buf_len (length (contents aad)) (length plain) ≤ 512
      → let e = running (on_chip p m) board in
        (c t out' : List ℕ) × (chacha_poly_seal e (record {
          key = key;
          iv = iv;
          aad = aad;
          input = bytes plain;
          output = some out;
          tag = tag;
        })
          ≡ reply ok
              (record {
                key = key;
                iv = iv;
                aad = aad;
                input = bytes plain;
                output = some c;
                tag = t;
              })
              board)
        × (chacha_poly_open e (record {
          key = key;
          iv = iv;
          aad = aad;
          input = bytes (take (length plain) c);
          output = some out2;
          tag = t;
        })
            ≡ reply ok
                (record {
                  key = key;
                  iv = iv;
                  aad = aad;
                  input = bytes (take (length plain) c);
                  output = some out';
                  tag = t;
                })
                board)
        × (take (length plain) out' ≡ plain)
  unfolding chacha_poly_seal chacha_poly_open chacha_poly_encrypt chacha_poly_decrypt on_chip
      default_backend
  chacha_poly_open-chacha_poly_seal key iv plain out out2 tag aad r bp room room2 tag_size
        stack_size small =
      let (c, t, out', sealed, opened, back) =
        chacha_poly_decrypt-encrypt key iv m.expected plain out out2 tag aad bp room room2 tag_size
          stack_size small in
      (
        c,
        t,
        out',
        rw (buffered plain out, readable-is_missing aad r, sealed) refl,
        rw (buffered (take (length plain) c) out2, readable-is_missing aad r, opened) refl,
        back,
      )
