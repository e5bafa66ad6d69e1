-- ===== src/Cc310/Ciphers.antt =====
-- AES and the AEAD ciphers of src/backends/CC310Backend.cpp.
use arduino_nrf_crypto.Base.{ℕ, zero, suc, ◌+◌, ◌-◌, ◌*◌, ◌/◌, ◌%◌, List, [], ◌∷◌, ◌++◌}
use arduino_nrf_crypto.Base.{some, Slice, length, take, drop, replicate, write_at, ◌==◌, not}
use arduino_nrf_crypto.Base.{if◌then◌else◌}
use arduino_nrf_crypto.Types.{Status, ok, not_started, bad_param, internal_error, auth_failed}
use arduino_nrf_crypto.Backend.{Reply, Pointer, reply}
use arduino_nrf_crypto.Cc310.Vendor.{
  Crys, Direction, encrypting, decrypting, AesMode, cbc_mode, ctr_mode,
}
use arduino_nrf_crypto.Cc310.Device.{Device, status_of}

-- A chunk filled up with zeros to whole blocks.
abbrev pub padded : List ℕ → List ℕ
padded chunk = chunk ++ replicate ((length chunk + 15) / 16 * 16 - length chunk) 0

module _ {W C : Type 0} (crys : Crys W C) where
  -- A half of the scratch buffer, in whole blocks.
  abbrev pub half : ℕ
  half = crys.scratch_bytes / 2 / 16 * 16

  -- The status, what has been written to `out`, and the context.
  unfoldable pub aes_loop : ℕ → W → C → List ℕ → Status × (List ℕ × (C × W))
  aes_loop zero w ctx input = (ok, ([], (ctx, w)))
  aes_loop (suc fuel) w ctx [] = (ok, ([], (ctx, w)))
  aes_loop (suc fuel) w ctx (x ∷ input) =
      let real = take half (x ∷ input) in
      let r = crys.aes_block w ctx (padded real) in
      let t = aes_loop fuel r.hardware r.value.0 (drop half (x ∷ input)) in
      if r.error == 0
      then (t.0, (take (length real) r.value.1 ++ t.1.0, t.1.1))
      else (internal_error, ([], (r.value.0, r.hardware)))

  unfoldable pub aes_run :
      Direction → AesMode → List ℕ → List ℕ → List ℕ → List ℕ → W → Status × (List ℕ × W)
  unfolding aes_loop
  aes_run dir mode key iv input out w =
      let c = crys.aes_init w dir mode in
      let k = crys.aes_set_key c.hardware c.value (take 16 key) in
      let v = crys.aes_set_iv k.hardware k.value (take 16 iv) in
      let r = aes_loop (length input) v.hardware v.value input in
      let f = crys.aes_finish r.1.1.1 r.1.1.0 in
      if not (c.error == 0)
      then (internal_error, (out, c.hardware))
      else if not (k.error == 0)
      then (internal_error, (out, k.hardware))
      else if not (v.error == 0)
      then (internal_error, (out, v.hardware))
      else (r.0, (write_at out 0 r.1.0, crys.aes_free f.1 f.0))

  -- The AES methods once their guards are passed.
  unfoldable pub run_aes :
      Device W C
      → Direction
      → AesMode
      → List ℕ
      → List ℕ
      → List ℕ
      → List ℕ
      → Reply (Device W C) Pointer
  unfolding aes_run
  run_aes d dir mode key iv input out =
      let r = aes_run dir mode key iv input out d.hardware in
      reply r.0 (some r.1.0) (record d { hardware = r.1.1 })

  unfoldable pub aes128_cbc_encrypt :
      Device W C → List ℕ → List ℕ → List ℕ → List ℕ → Reply (Device W C) Pointer
  unfolding run_aes
  aes128_cbc_encrypt d key iv input out =
      if not d.started
      then reply not_started (some out) d
      else if length input % 16 == 0
      then run_aes d encrypting cbc_mode key iv input out
      else reply bad_param (some out) d

  unfoldable pub aes128_cbc_decrypt :
      Device W C → List ℕ → List ℕ → List ℕ → List ℕ → Reply (Device W C) Pointer
  unfolding run_aes
  aes128_cbc_decrypt d key iv input out =
      if not d.started
      then reply not_started (some out) d
      else if length input % 16 == 0
      then run_aes d decrypting cbc_mode key iv input out
      else reply bad_param (some out) d

  unfoldable pub aes128_ctr :
      Device W C → List ℕ → List ℕ → List ℕ → List ℕ → Reply (Device W C) Pointer
  unfolding run_aes
  aes128_ctr d key iv input out =
      if d.started
      then run_aes d encrypting ctr_mode key iv input out
      else reply not_started (some out) d

  unfoldable pub aes128_gcm_encrypt :
      Device W C
      → List ℕ
      → List ℕ
      → Slice
      → Slice
      → Pointer
      → List ℕ
      → Reply (Device W C) (Pointer × Pointer)
  aes128_gcm_encrypt d key iv aad input out tag =
      let r = crys.gcm_encrypt key iv aad input out tag in
      if d.started then reply ok (r.0, some r.1) d else reply not_started (out, some tag) d

  unfoldable pub aes128_gcm_decrypt :
      Device W C → List ℕ → List ℕ → Slice → Slice → Pointer → List ℕ → Reply (Device W C) Pointer
  aes128_gcm_decrypt d key iv aad input out tag =
      let r = crys.gcm_decrypt key iv aad input out tag in
      if d.started then reply (status_of auth_failed r.0) r.1 d else reply not_started out d

  unfoldable pub chacha_poly_encrypt :
      Device W C
      → List ℕ
      → List ℕ
      → Slice
      → Slice
      → Pointer
      → List ℕ
      → Reply (Device W C) (Pointer × Pointer)
  chacha_poly_encrypt d key at_nonce aad input out tag =
      let r = crys.chacha_encrypt key at_nonce aad input out tag in
      if d.started then reply ok (r.0, some r.1) d else reply not_started (out, some tag) d

  unfoldable pub chacha_poly_decrypt :
      Device W C → List ℕ → List ℕ → Slice → Slice → Pointer → List ℕ → Reply (Device W C) Pointer
  chacha_poly_decrypt d key at_nonce aad input out tag =
      let r = crys.chacha_decrypt key at_nonce aad input out tag in
      if d.started then reply (status_of auth_failed r.0) r.1 d else reply not_started out d
