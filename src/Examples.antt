-- ===== src/Examples.antt =====
-- Concrete inputs at which the theorems apply.
pub mod Digests
pub mod Ciphers
pub mod Utilities
pub mod Service
pub mod Accelerator
pub mod SelfTest
pub mod Sealing
use arduino_nrf_crypto.Base.{
  ℕ, ◌<◌, ◌≤◌, List, [], ◌∷◌, ◌≡◌, refl, replicate, IsBytes, IsBytes-replicate, arith, some, true,
}
use arduino_nrf_crypto.Stream.{Stream}
use arduino_nrf_crypto.Sha512
use arduino_nrf_crypto.Aes128.{encrypt_block}
use arduino_nrf_crypto.OnChip.{Peripherals, Memory, Board}
use arduino_nrf_crypto.OnChip.Ctr.{Encrypts}

abbrev pub abc : List ℕ
abc = b'a' ∷ b'b' ∷ b'c' ∷ []

pub abc-IsBytes : IsBytes abc
abc-IsBytes = (omega arith, (omega arith, (omega arith, tt)))

abbrev pub key : List ℕ
key = replicate 16 7

pub key-IsBytes : IsBytes key
key-IsBytes = IsBytes-replicate 16 7 (omega arith)

abbrev pub iv : List ℕ
iv = replicate 12 9

abbrev pub room : List ℕ
room = replicate 5 0xee

abbrev pub tag : List ℕ
tag = replicate 16 0xdd

pub tag-IsBytes : IsBytes tag
tag-IsBytes = IsBytes-replicate 16 0xdd (omega arith)

-- Memory that was never written: whatever the stack held.
abbrev pub stream : Stream
stream = record { state = []; bit_len = 7; buffer = replicate 64 0xaa; buffer_len = 3 }

abbrev pub hasher : Sha512.Hasher
hasher = record {
  stream = record { state = []; bit_len = 7; buffer = replicate 128 0xaa; buffer_len = 3 };
  digest_len = 5;
}

abbrev pub memory : Memory
memory = record { sha256 = stream; sha512 = hasher; expected = replicate 16 0x55 }

-- Peripherals that work; the state counts the calls.
abbrev pub peripherals : Peripherals ℕ
peripherals = record {
  self_test = λ w. (true, w);
  ecb = λ w k block. (some (encrypt_block k block), w);
  rng = λ w n. (replicate n 4, w);
}

pub peripherals-Encrypts : Encrypts peripherals
peripherals-Encrypts w k block e f = refl
