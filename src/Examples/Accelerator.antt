-- ===== src/Examples/Accelerator.antt =====
-- The CryptoCell backend's theorems, applied on a library that always succeeds.
use arduino_nrf_crypto.Base.{ℕ, suc, ◌≡◌, List, [], ◌∷◌, refl, arith, length, some, none, take, ap}
use arduino_nrf_crypto.Base.{bytes, null, replicate, write_at, inr}
use arduino_nrf_crypto.Types.{ok, bad_param, internal_error, RsaKeyPair, clear_key}
use arduino_nrf_crypto.Backend.{reply}
use arduino_nrf_crypto.Cc310.Vendor.{sha256_mode, encrypting, ctr_mode}
use arduino_nrf_crypto.Cc310.Device.{Device, random_bytes}
use arduino_nrf_crypto.Cc310.Digests.{hash_digest, hkdf_sha256}
use arduino_nrf_crypto.Cc310.Ciphers.{aes_run, padded}
use arduino_nrf_crypto.Cc310.Rsa.{rsa_generate_key_pair, rsa_sign_with_key_pair, publish}
use arduino_nrf_crypto.Cc310.Rsa.{rsa_release_key_pair, export_slot_public, slot_at}
use arduino_nrf_crypto.Cc310.Store.{Store, Command, run, perform, IsStore, run-IsStore}
use arduino_nrf_crypto.Cc310.Store.{rsa_generate_key_pair-full}
use arduino_nrf_crypto.Cc310.Handles.{rsa_sign_with_key_pair-rsa_generate_key_pair, after_generate}
use arduino_nrf_crypto.Cc310.Handles.{rsa_release_key_pair_lem, freed}
use arduino_nrf_crypto.Cc310.OneShot.{hash_digest_lem}
use arduino_nrf_crypto.Cc310.Blocks.{aes_run_lem}
use arduino_nrf_crypto.Cc310.Random.{random_bytes_lem, Every}
use arduino_nrf_crypto.Cc310.KeyInputs.{hkdf_sha256-OneLong, hkdf_sha256-aliased, derived}
use arduino_nrf_crypto.Cc310.Tests.{toy, running, handle}
use arduino_nrf_crypto.Examples.{abc, key, room}

abbrev store : Store ℕ (List ℕ)
store = record { device = running; live = [] }

abbrev two_keys : List Command
two_keys = Command.generate handle ∷ Command.generate handle ∷ []

run-IsStore_example : IsStore toy (run toy two_keys store)
run-IsStore_example = run-IsStore toy two_keys store (refl, tt)

rsa_generate_key_pair-full_example :
    rsa_generate_key_pair toy (run toy two_keys store).device handle
    ≡ reply internal_error handle (run toy two_keys store).device
unfolding run perform rsa_generate_key_pair publish export_slot_public
rsa_generate_key_pair-full_example =
    rsa_generate_key_pair-full toy two_keys store handle (refl, tt) refl refl

rsa_sign_with_key_pair-rsa_generate_key_pair_example :
    rsa_sign_with_key_pair toy
      (after_generate toy running handle two_keys)
      (rsa_generate_key_pair toy running handle).out
      (bytes abc)
      []
    ≡ reply ok (some (0 ∷ abc)) (
        let now = after_generate toy running handle two_keys in
        record now { hardware = suc now.hardware })
unfolding run perform rsa_generate_key_pair publish export_slot_public
rsa_sign_with_key_pair-rsa_generate_key_pair_example =
    rsa_sign_with_key_pair-rsa_generate_key_pair toy running handle two_keys abc [] refl refl refl
      (omega arith)

abbrev made : Device ℕ (List ℕ)
unfolding rsa_generate_key_pair publish export_slot_public
made = (rsa_generate_key_pair toy running handle).device

abbrev first : RsaKeyPair
first = record handle { slot = 0 }

rsa_release_key_pair_lem_example :
    (rsa_release_key_pair toy made first ≡ reply ok (clear_key first) (freed toy made first))
    × (slot_at toy (freed toy made first).slots 0 ≡ slot_at toy running.slots 0)
    × (rsa_sign_with_key_pair toy (freed toy made first) (clear_key first) (bytes abc) []
        ≡ reply bad_param (some []) (freed toy made first))
    × (rsa_sign_with_key_pair toy (freed toy made first) first (bytes abc) []
        ≡ reply bad_param (some []) (freed toy made first))
unfolding made
rsa_release_key_pair_lem_example =
    rsa_release_key_pair_lem toy made first (bytes abc) [] refl refl refl

hash_digest_lem_example :
    ((hash_digest toy sha256_mode 2 16 (bytes (replicate 70 3)) room 0).0 ≡ ok)
    × ((hash_digest toy sha256_mode 2 16 (bytes (replicate 70 3)) room 0).1.0
        ≡ write_at room 0 (3 ∷ 3 ∷ []))
hash_digest_lem_example =
    hash_digest_lem toy sha256_mode (λ c. c) (λ text. text)
      (λ w. (refl, refl), λ w c chunk h k. (refl, refl), λ w c. (refl, refl)) 16 2 (omega arith)
      (omega arith) (bytes (replicate 70 3)) room 0

aes_run_lem_example :
    ((aes_run toy encrypting ctr_mode key key abc room 0).0 ≡ ok)
    × ((aes_run toy encrypting ctr_mode key key abc room 0).1.0
        ≡ write_at room 0 (take 3 (padded abc)))
aes_run_lem_example =
    aes_run_lem toy (λ c text. (c, text))
      (λ w c text h k l. (refl, refl), λ c front later h. refl, λ c text. refl) (omega arith)
      encrypting ctr_mode key key abc room 0 refl refl refl

sevens :
    (buf : List ℕ)
    → (length (toy.generate_vector 0 buf).value ≡ length buf)
      × Every (λ x. x ≡ 7) (toy.generate_vector 0 buf).value
sevens [] = (refl, tt)
sevens (x ∷ buf) = let rest = sevens buf in (ap suc rest.0, (refl, rest.1))

random_bytes_lem_example :
    (filled : List ℕ) × ((random_bytes toy running room).status ≡ ok)
    × ((random_bytes toy running room).out ≡ some filled)
    × (length filled ≡ 5)
    × Every (λ x. x ≡ 7) filled
random_bytes_lem_example =
    random_bytes_lem toy (λ x. x ≡ 7) (λ w buf h k. let r = sevens buf in (refl, r.0, r.1)) running
      room refl

hkdf_sha256-OneLong_example :
    hkdf_sha256 toy running (bytes abc) (null 0) (bytes (1 ∷ [])) room
    ≡ derived toy running none abc (some (1 ∷ [])) room
hkdf_sha256-OneLong_example =
    hkdf_sha256-OneLong toy running (bytes abc) (null 0) (bytes (1 ∷ [])) room
      (
        refl,
        omega arith,
        omega arith,
        refl,
        refl,
        refl,
        omega arith,
        omega arith,
        omega arith,
        omega arith,
      )
      (inr (inr (refl, refl)))

-- A key of three bytes and an info of four: the library derives from the front of the info.
hkdf_sha256-aliased_example :
    hkdf_sha256 toy running (bytes abc) (null 0) (bytes (1 ∷ 2 ∷ 3 ∷ 4 ∷ [])) room
    ≡ derived toy running none (1 ∷ 2 ∷ 3 ∷ []) (some (1 ∷ 2 ∷ 3 ∷ 4 ∷ [])) room
hkdf_sha256-aliased_example =
    hkdf_sha256-aliased toy running (bytes abc) (null 0) (bytes (1 ∷ 2 ∷ 3 ∷ 4 ∷ [])) room
      (
        refl,
        omega arith,
        omega arith,
        refl,
        refl,
        refl,
        omega arith,
        omega arith,
        omega arith,
        omega arith,
      )
      refl refl refl (omega arith)
