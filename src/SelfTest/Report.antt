-- ===== src/SelfTest/Report.antt =====
-- The report of src/crypto/CryptoSelfTestRunner.cpp and the state of a run.
use arduino_nrf_crypto.Base.{ℕ, ◌+◌, ◌%◌, ◌^◌, List, Bool, false, if◌then◌else◌, some, ◌==◌}
use arduino_nrf_crypto.Types.{Status, is_ok, is_unsupported}
use arduino_nrf_crypto.Backend.{Reply, Pointer}
use arduino_nrf_crypto.Engine.Hash.{array}
use arduino_nrf_crypto.Util.{secure_equal}

-- `SelfTestReport`, with counters of 16 bits.
pub record Report : Type 0 where
  pub passed : ℕ
  pub failed : ℕ
  pub skipped : ℕ

abbrev pub is_ok_report : Report → Bool
is_ok_report r = r.failed == 0

abbrev pub count_up : ℕ → ℕ
count_up n = (n + 1) % 2 ^ 16

-- `reportPassFail` and `reportSkip`
abbrev pub report_pass_fail : Bool → Report → Report
report_pass_fail good r =
    if good
    then record r { passed = count_up r.passed }
    else record r { failed = count_up r.failed }

abbrev pub report_skip : Report → Report
report_skip r = record r { skipped = count_up r.skipped }

-- The report, the engine's device, and the arrays `buf`, `buf2` and `tag`.
pub record Bench (D : Type 0) : Type 0 where
  pub report : Report
  pub device : D
  pub buf : List ℕ
  pub buf2 : List ℕ
  pub tag : List ℕ

module _ {D : Type 0} where
  -- A test that is passed or failed, or skipped.
  abbrev pub pass_fail : Bool → Bench D → Bench D
  pass_fail good s = record s { report = report_pass_fail good s.report }

  abbrev pub skip : Bench D → Bench D
  skip s = record s { report = report_skip s.report }

  -- What a call that writes to the start of `buf` leaves.
  abbrev pub wrote : Bench D → Reply D Pointer → Bench D
  wrote s r = record s { device = r.device; buf = array r.out s.buf }

  -- A known answer of `n` bytes in `buf`, after a call that must be Ok.
  abbrev pub known : Bench D → Status → List ℕ → ℕ → Bench D
  known s status answer n =
      if is_ok status
      then pass_fail (secure_equal (some s.buf) (some answer) n) s
      else pass_fail false s

  -- The same, where the backend may not support the call.
  abbrev pub known_or_skip : Bench D → Status → List ℕ → ℕ → Bench D
  known_or_skip s status answer n =
      if is_ok status
      then pass_fail (secure_equal (some s.buf) (some answer) n) s
      else if is_unsupported status
      then skip s
      else pass_fail false s
