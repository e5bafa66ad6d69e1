-- ===== src/Engine/Context.antt =====
-- src/crypto/CryptoHash.h and CryptoEngine.cpp: the incremental contexts, in software on every backend.
use arduino_nrf_crypto.Base.{Bool, true, false, none, some, Slice, write_at, if◌then◌else◌}
use arduino_nrf_crypto.Stream.{Stream}
use arduino_nrf_crypto.Sha256
use arduino_nrf_crypto.Sha512
use arduino_nrf_crypto.Types.{Status, ok, bad_param}
use arduino_nrf_crypto.Backend.{Pointer}

-- A context with its hasher, and what a call of it returns.
pub record Context (H : Type 0) : Type 0 where
  pub hasher : H
  pub active : Bool

pub record Step (H : Type 0) : Type 0 where
  pub status : Status
  pub context : Context H
  pub out : Pointer

-- `Sha256Context`, and `Sha384Context` or `Sha512Context`.
abbrev pub Context256 : Type 0
Context256 = Context Stream

abbrev pub Context512 : Type 0
Context512 = Context Sha512.Hasher

unfoldable pub reset256 : Context256 → Context256
reset256 ctx = record { hasher = Sha256.reset ctx.hasher; active = false }

unfoldable pub reset384 : Context512 → Context512
reset384 ctx = record { hasher = Sha512.reset384 ctx.hasher; active = false }

unfoldable pub reset512 : Context512 → Context512
reset512 ctx = record { hasher = Sha512.reset ctx.hasher; active = false }

unfoldable pub sha256_begin : Context256 → Status × Context256
sha256_begin ctx = (ok, record { hasher = Sha256.reset ctx.hasher; active = true })

unfoldable pub sha256_update : Context256 → Slice → Status × Context256
sha256_update ctx input =
    if ctx.active
    then (ok, record ctx { hasher = Sha256.update ctx.hasher input })
    else (bad_param, ctx)

unfoldable pub sha256_finish : Context256 → Pointer → Step Stream
sha256_finish ctx none = record { status = bad_param; context = ctx; out = none }
sha256_finish ctx (some out) =
    if ctx.active
    then (let f = Sha256.finish ctx.hasher in
        record {
          status = ok;
          context = record { hasher = f.stream; active = false };
          out = some (write_at out 0 f.out);
        })
    else record { status = bad_param; context = ctx; out = some out }

unfoldable pub sha384_begin : Context512 → Status × Context512
sha384_begin ctx = (ok, record { hasher = Sha512.reset384 ctx.hasher; active = true })

unfoldable pub sha384_update : Context512 → Slice → Status × Context512
sha384_update ctx input =
    if ctx.active
    then (ok, record ctx { hasher = Sha512.update ctx.hasher input })
    else (bad_param, ctx)

unfoldable pub sha384_finish : Context512 → Pointer → Step Sha512.Hasher
sha384_finish ctx none = record { status = bad_param; context = ctx; out = none }
sha384_finish ctx (some out) =
    if ctx.active
    then (let f = Sha512.finish ctx.hasher in
        record {
          status = ok;
          context = record { hasher = f.hasher; active = false };
          out = some (write_at out 0 f.out);
        })
    else record { status = bad_param; context = ctx; out = some out }

unfoldable pub sha512_begin : Context512 → Status × Context512
sha512_begin ctx = (ok, record { hasher = Sha512.reset ctx.hasher; active = true })

unfoldable pub sha512_update : Context512 → Slice → Status × Context512
sha512_update ctx input =
    if ctx.active
    then (ok, record ctx { hasher = Sha512.update ctx.hasher input })
    else (bad_param, ctx)

unfoldable pub sha512_finish : Context512 → Pointer → Step Sha512.Hasher
sha512_finish ctx none = record { status = bad_param; context = ctx; out = none }
sha512_finish ctx (some out) =
    if ctx.active
    then (let f = Sha512.finish ctx.hasher in
        record {
          status = ok;
          context = record { hasher = f.hasher; active = false };
          out = some (write_at out 0 f.out);
        })
    else record { status = bad_param; context = ctx; out = some out }
