-- ===== src/Examples/SelfTest.antt =====
-- The self test's theorems, applied to the OnChip backend's engine.
use arduino_nrf_crypto.Base.{ℕ, List, ◌≤◌, replicate, true}
use arduino_nrf_crypto.Engine.{running}
use arduino_nrf_crypto.OnChip.{on_chip}
use arduino_nrf_crypto.SelfTest.Runner.{run_self_test}
use arduino_nrf_crypto.SelfTest.Count.{total, run_self_test-total}
use arduino_nrf_crypto.Examples.{memory, peripherals}

abbrev stack : ℕ → List ℕ
stack n = replicate n 0xcc

run_self_test-total_example :
    let e = running (on_chip peripherals memory) (record { hardware = 0; started = true }) in
    (20 ≤ total (run_self_test memory stack e)) × (total (run_self_test memory stack e) ≤ 23)
run_self_test-total_example =
    run_self_test-total memory stack
      (running (on_chip peripherals memory) (record { hardware = 0; started = true }))
