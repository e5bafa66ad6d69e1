-- ===== src/SelfTest.antt =====
-- src/crypto/CryptoSelfTestRunner.cpp: the known-answer tests that a sketch can run through the engine.
pub mod Count
pub mod Curves
pub mod Report
pub mod Runner
pub mod Symmetric
pub mod Tests
pub mod Vectors
use arduino_nrf_crypto.Base.{ℕ}
