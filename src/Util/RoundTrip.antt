-- ===== src/Util/RoundTrip.antt =====
-- `pkcs7Pad` and `pkcs7Unpad` of src/crypto/CryptoUtil.cpp against each other.
use arduino_nrf_crypto.Base.{ℕ}
use arduino_nrf_crypto.Base.{List, length}
use arduino_nrf_crypto.Base.{write_at, replicate}
use arduino_nrf_crypto.Base.{u8}
use arduino_nrf_crypto.Util.{pad_len}

module _ (plain out : List ℕ) (block_size : ℕ) where
  abbrev n : ℕ
  n = pad_len (length plain) block_size

  abbrev filled : List ℕ
  filled = write_at (write_at out 0 plain) (length plain) (replicate n (u8 n))
