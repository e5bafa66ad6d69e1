-- ===== src/Examples/Utilities.antt =====
-- The utilities' theorems, applied.
use arduino_nrf_crypto.Base.{◌≡◌, ◌↔◌, arith, take}
use arduino_nrf_crypto.Base.{some, true}
use arduino_nrf_crypto.Util.{secure_equal}
use arduino_nrf_crypto.Util.Compare.{secure_equal_iff}
use arduino_nrf_crypto.Examples.{abc, abc-IsBytes, key, key-IsBytes}

secure_equal_iff_example : (secure_equal (some abc) (some key) 3 ≡ true) ↔ (take 3 abc ≡ take 3 key)
secure_equal_iff_example =
    secure_equal_iff abc key 3 (omega arith) (omega arith) abc-IsBytes key-IsBytes
