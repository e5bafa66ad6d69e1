-- ===== src/Sha256/Constants.antt =====
-- The constants of src/backends/SoftSha256.cpp against their definition in FIPS 180-4.
use arduino_nrf_crypto.Base.{◌≡◌, refl}
use arduino_nrf_crypto.Sha256.{k, initial_state}
use arduino_nrf_crypto.Stream.Standard.{root}
use arduino_nrf_crypto.Sha256.Standard.{round_constants, initial256}

pub k-round_constants : k ≡ round_constants
unfolding round_constants root
k-round_constants = refl

pub initial_state-initial256 : initial_state ≡ initial256
unfolding initial256 root
initial_state-initial256 = refl
