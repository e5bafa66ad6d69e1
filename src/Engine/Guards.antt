-- ===== src/Engine/Guards.antt =====
-- The checks at the start of the calls of src/crypto/CryptoEngine.cpp.
use arduino_nrf_crypto.Backend.{Backend}
use arduino_nrf_crypto.Engine.Sealed.{}
