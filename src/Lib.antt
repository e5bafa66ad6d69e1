-- ===== src/Lib.antt =====
-- NiusCrypto (ArduinoNRF-Crypto): cryptography for the nRF52840, with the software implementations of
-- src/backends, the OnChip backend that combines them with the ECB and RNG peripherals, and the
-- engine of src/crypto that a sketch calls.
--
-- A sketch calls CryptoEngine, which checks the pointers and lengths and forwards to the active
-- backend (CC310Backend or OnChipBackend, both a CryptoBackend); what a backend does not support of
-- the digests, HMAC and HKDF the engine computes in software.
--
-- Base: arithmetic modulo 2 ^ w, bit operations, byte strings. A pointer with a length is a Slice,
--   null or the bytes it points to; an output pointer is an Option. An array that a call writes
--   is passed with its old contents, and returned as it stands after the call.
-- Stream, Sha256, Sha512: src/backends/SoftSha256.cpp and SoftSha512.cpp. Stream is what the two
--   classes share, the block buffer and the closing; the state of an object is a record that every
--   method takes and returns. In Sha256.Digest and Sha512.Digest the reference digest is the code's
--   compression function over the padding of FIPS 180-4; Stream.Standard, Sha256.Standard and
--   Sha512.Standard write FIPS 180-4 out apart from the code, and Conforms compares the two.
--   Sha256.Hmac has RFC 2104, over the reference digest.
-- Hkdf: src/backends/SoftHkdf.cpp; Hkdf.Reference is RFC 5869.
-- Aes128, AesGcm: src/backends/SoftAes128.cpp and SoftAesGcm.cpp.
-- ChaCha, Poly1305, ChaChaPoly: src/backends/SoftChaChaPoly.cpp. Poly1305.Clamp, Horner and Tag have the
--   numbers of RFC 8439, section 2.5, ChaCha.Standard
--   the block function of its section 2.3 and ChaChaPoly.Standard the data and the tag of 2.8.
-- Keystream, Aead: what the stream ciphers' loops share; the result of the AEAD classes.
-- Util: src/crypto/CryptoUtil.cpp, with a size_t of 32 bits.
-- Types, Backend: src/crypto/CryptoTypes.h, CryptoCapability.h and CryptoBackend.h. A backend is a
--   record of its methods over the state of the device.
-- OnChip: src/backends/OnChipBackend.cpp. NrfEcb and NrfRng, of the Arduino core, are the record
--   Peripherals; OnChip.Ctr.Encrypts says that the ECB peripheral computes AES-128.
-- Cc310: src/backends/CC310Backend.cpp and src/crypto/CryptoBackendError.cpp. The calls of the vendor's
--   CRYS and Oberon libraries are the record Cc310.Vendor.Crys, with the sizes of their buffers; a
--   call gives an error code, what its output then holds and the state of the hardware. The RSA
--   slots are a list; the scratch buffer is what a call copies to it, since every call reads only
--   bytes that it wrote. Cc310.Store runs the methods that change the slots, together with the
--   handles that their callers hold.
-- Engine: src/crypto/CryptoEngine.cpp, CryptoPackets.h and CryptoHash.h. A call returns its status,
--   its outputs and the device; nothing else of the engine changes.
-- SelfTest: src/crypto/CryptoSelfTestRunner.cpp, with its vectors. A test takes and returns a bench: the
--   report, the device and the arrays that the tests share.
-- Examples and the modules Tests: known answers and concrete inputs.
--
-- Loops run on fuel or on a count that is the number of rounds of the source: the bytes of the
-- input for the loops that consume at least one byte a round, the blocks for the CBC loops.
-- Memory without an initializer is a parameter (memory, stack, OnChip.Memory).
--
-- A null pointer with a length that the code would read through, as an aad of the AEAD classes, is out
-- of contract and read as empty.
--
-- Not modelled: input and output buffers that overlap; a copy that runs past the end
-- of the scratch buffer (a key of hmacSha256 that is longer); the sketches and host tools.
pub mod Base
pub mod Util
pub mod Stream
pub mod Sha256
pub mod Sha512
pub mod Hkdf
pub mod Aes128
pub mod Aead
pub mod AesGcm
pub mod ChaCha
pub mod Poly1305
pub mod Cc310
pub mod SelfTest
pub mod ChaChaPoly
pub mod Keystream
pub mod Types
pub mod Backend
pub mod OnChip
pub mod Engine
pub mod Examples
