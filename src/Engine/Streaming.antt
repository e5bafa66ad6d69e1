-- ===== src/Engine/Streaming.antt =====
-- The incremental SHA-256 context of src/crypto/CryptoEngine.cpp, against the digest of the whole.
use arduino_nrf_crypto.Base.{ℕ, List, [], ◌∷◌, true, false, some, none, Slice, ◌≡◌, refl}
use arduino_nrf_crypto.Base.{ap, length, write_at, foldl}
use arduino_nrf_crypto.Stream.{Stream}
use arduino_nrf_crypto.Sha256
use arduino_nrf_crypto.Sha256.Digest.{
  reference, joined, reset-Absorbed, updates-Absorbed, finish-Absorbed,
}
use arduino_nrf_crypto.Types.{ok, bad_param}
use arduino_nrf_crypto.Backend.{Pointer}
use arduino_nrf_crypto.Engine.Context.{Context256, sha256_begin, sha256_update, sha256_finish}

-- A sequence of updates, with the statuses dropped.
abbrev pub feed_context : Context256 → List Slice → Context256
feed_context ctx inputs = foldl (λ c input. (sha256_update c input).1) ctx inputs

feed_context-active :
    (inputs : List Slice) (hasher : Stream)
    → feed_context (record { hasher = hasher; active = true }) inputs
      ≡ record { hasher = foldl Sha256.update hasher inputs; active = true }
unfolding sha256_update
feed_context-active [] hasher = refl
feed_context-active (x ∷ xs) hasher = feed_context-active xs (Sha256.update hasher x)

-- A context that is not active refuses updates and a finish.
pub inactive-refused :
    (hasher : Stream)
    → let ctx : Context256 = record { hasher = hasher; active = false } in
      ((input : Slice) → sha256_update ctx input ≡ (bad_param, ctx))
      × ((p : Pointer)
          → sha256_finish ctx p ≡ record { status = bad_param; context = ctx; out = p })
unfolding sha256_update sha256_finish
inactive-refused hasher = (λ input. refl, finish)
  where
    finish :
        (p : Pointer)
        → sha256_finish (record { hasher = hasher; active = false }) p ≡ record {
          status = bad_param;
          context = record { hasher = hasher; active = false };
          out = p;
        }
    finish none = refl
    finish (some q) = refl

-- Whatever the context, with a buffer of 64 bytes, held, `sha256Begin`, updates with any slices and `sha256Finish` put out the
-- reference digest of all the bytes in order. The context is then inactive: it refuses an
-- update and another finish, which leave it and the output as they were.
pub sha256_streaming :
    (ctx : Context256) (inputs : List Slice) (out : List ℕ)
    → length ctx.hasher.buffer ≡ 64
    → let used = sha256_finish (feed_context (sha256_begin ctx).1 inputs) (some out) in
      (used.status ≡ ok)
      × (used.out ≡ some (write_at out 0 (reference (joined inputs))))
      × ((input : Slice) → sha256_update used.context input ≡ (bad_param, used.context))
      × ((p : Pointer)
          → sha256_finish used.context p
            ≡ record { status = bad_param; context = used.context; out = p })
unfolding sha256_begin sha256_update sha256_finish
sha256_streaming ctx inputs out h =
    let all = feed_context-active inputs (Sha256.reset ctx.hasher) in
    let digest =
      (finish-Absorbed (foldl Sha256.update (Sha256.reset ctx.hasher) inputs) (joined inputs)
        (updates-Absorbed inputs (Sha256.reset ctx.hasher) [] (reset-Absorbed ctx.hasher h))).0 in
    let last = foldl Sha256.update (Sha256.reset ctx.hasher) inputs in
    let idle = inactive-refused (Sha256.finish last).stream in
    rw all (refl, ap (λ t. some (write_at out 0 t)) digest, idle.0, idle.1)
