-- ===== src/Sha512/Constants.antt =====
-- The constants of src/backends/SoftSha512.cpp against their definition in FIPS 180-4.
use arduino_nrf_crypto.Base.{◌≡◌, refl}
use arduino_nrf_crypto.Sha512.{k, initial_state, initial_state384}
use arduino_nrf_crypto.Stream.Standard.{root}
use arduino_nrf_crypto.Sha512.Standard.{round_constants, initial512, initial384}

pub k-round_constants : k ≡ round_constants
unfolding round_constants root
k-round_constants = refl

pub initial_state-initial512 : initial_state ≡ initial512
unfolding initial512 root
initial_state-initial512 = refl

pub initial_state384-initial384 : initial_state384 ≡ initial384
unfolding initial384 root
initial_state384-initial384 = refl
