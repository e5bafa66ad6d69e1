-- ===== src/Cc310/Device.antt =====
-- The state of src/backends/CC310Backend.cpp, with `begin`, `end`, `randomBytes` and the bounce buffer.
use arduino_nrf_crypto.Base.{ℕ, zero, suc, List, [], ◌∷◌, ◌++◌, Bool, true, false, some}
use arduino_nrf_crypto.Base.{Slice, null, bytes, length, take, drop}
use arduino_nrf_crypto.Base.{◌==◌, ltb, if◌then◌else◌, ◌⊎◌, inl, inr}
use arduino_nrf_crypto.Types.{Status, ok, not_started, bad_param, internal_error, Capability}
use arduino_nrf_crypto.Backend.{Reply, Pointer, reply}
use arduino_nrf_crypto.Cc310.Vendor.{Crys, KeyMaterial}

-- `RsaSlot`
pub record Slot (C : Type 0) : Type 0 where
  pub keys : KeyMaterial C
  pub ready : Bool

-- The state of the library, `started_`, `g_rsaSlots` and the 32 bits of `g_lastBackendError`.
pub record Device (W C : Type 0) : Type 0 where
  pub hardware : W
  pub started : Bool
  pub slots : List (Slot C)
  pub last_error : ℕ

module _ {W C : Type 0} (crys : Crys W C) where
  -- `memset(&g_rsaSlots[slot], 0, sizeof(RsaSlot))`, which also clears `ready`.
  abbrev pub empty_slot : Slot C
  empty_slot = record {
    keys = record { priv = crys.zeroed; public = crys.zeroed; generated = crys.zeroed };
    ready = false;
  }

  -- `rsaFreeAllSlots`
  unfoldable pub free_all : List (Slot C) → List (Slot C)
  free_all [] = []
  free_all (s ∷ slots) = empty_slot ∷ free_all slots

  unfoldable pub begin : Device W C → Bool × Device W C
  begin d =
      if d.started
      then (true, d)
      else (let lib = crys.lib_init (crys.power_up d.hardware) in
          let rnd = crys.rnd_init lib.hardware in
          if lib.error == 0
          then (if rnd.error == 0
              then (true, record d { hardware = rnd.hardware; started = true })
              else (false, record d { hardware = crys.lib_fini rnd.hardware }))
          else (false, record d { hardware = lib.hardware }))

  unfoldable pub end_device : Device W C → Device W C
  unfolding free_all
  end_device d =
      if d.started
      then record d {
        hardware = crys.lib_fini (crys.rnd_fini d.hardware);
        slots = free_all d.slots;
        started = false;
      }
      else d

  -- `while (len > 0)`, by requests of 0xFFFF bytes at most; `rest` is what is left of the buffer.
  unfoldable pub random_loop : ℕ → W → List ℕ → Status × (List ℕ × W)
  random_loop zero w rest = (ok, (rest, w))
  random_loop (suc fuel) w [] = (ok, ([], w))
  random_loop (suc fuel) w (x ∷ rest) =
      let r = crys.generate_vector w (take 0xFFFF (x ∷ rest)) in
      let later = drop 0xFFFF (x ∷ rest) in
      let t = random_loop fuel r.hardware later in
      if r.error == 0
      then (t.0, (r.value ++ t.1.0, t.1.1))
      else (internal_error, (r.value ++ later, r.hardware))

  unfoldable pub random_bytes : Device W C → List ℕ → Reply (Device W C) Pointer
  unfolding random_loop
  random_bytes d buf =
      let r = random_loop (length buf) d.hardware buf in
      if d.started
      then reply r.0 (some r.1.0) (record d { hardware = r.1.1 })
      else reply not_started (some buf) d

  -- `bounceMsg`: the message in RAM, or the status of the refusal.
  unfoldable pub bounce_msg : Slice → Status ⊎ List ℕ
  bounce_msg (null n) = if n == 0 then inr [] else inl bad_param
  bounce_msg (bytes msg) = if ltb crys.scratch_bytes (length msg) then inl bad_param else inr msg

  abbrev pub supported : Capability → Bool
  supported Capability.sha256_stream = false
  supported Capability.sha384_stream = false
  supported Capability.sha512_stream = false
  supported Capability.count = false
  supported cap = true

  abbrev pub supports_capability : Device W C → Capability → Bool
  supports_capability d cap = if d.started then supported cap else false

-- The status of a call, by whether it came to `CRYS_OK`.
abbrev pub status_of : Status → ℕ → Status
status_of bad e = if e == 0 then ok else bad

-- `detail::setBackendError`, `lastBackendError` and `clearBackendError`
abbrev pub set_backend_error : {W C : Type 0} → ℕ → Device W C → Device W C
set_backend_error e d = record d { last_error = e }

abbrev last_backend_error : {W C : Type 0} → Device W C → ℕ
last_backend_error d = d.last_error

abbrev clear_backend_error : {W C : Type 0} → Device W C → Device W C
clear_backend_error d = record d { last_error = 0 }

-- `recordCrys`
abbrev pub record_crys : {W C : Type 0} → ℕ → Device W C → Device W C
record_crys e d = if e == 0 then d else set_backend_error e d
