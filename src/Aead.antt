-- ===== src/Aead.antt =====
-- What the two AEAD classes share: the result of `encrypt` and `decrypt`, and their checks of the
-- pointers (src/backends/SoftAesGcm.cpp, SoftChaChaPoly.cpp).
use arduino_nrf_crypto.Base.{
  ℕ, List, Bool, true, false, Option, none, some, Slice, null, bytes, not,
}
use arduino_nrf_crypto.Base.{◌≡◌, arith, slice_len, ◌==◌, ◌||◌, ◌&&◌}

-- The returned flag, and what `out` and `tag` hold afterwards; a null pointer is `none`.
pub record Outcome : Type 0 where
  pub ok : Bool
  pub out : Option (List ℕ)
  pub tag : Option (List ℕ)

abbrev pub is_null : Option (List ℕ) → Bool
is_null none = true
is_null (some p) = false

abbrev pub is_null_slice : Slice → Bool
is_null_slice (null n) = true
is_null_slice (bytes l) = false

-- `!key || !nonce || !tag || (len != 0 && (!in || !out))`
abbrev pub bad_pointers :
    Option (List ℕ) → Option (List ℕ) → Option (List ℕ) → Slice → Option (List ℕ) → Bool
bad_pointers key nonce tag input out =
    is_null key
    || is_null nonce
    || is_null tag
    || (not (slice_len input == 0) && (is_null_slice input || is_null out))

-- With every pointer given nothing is refused.
pub bad_pointers_given :
    (key nonce tag : List ℕ) (input : List ℕ) (out : List ℕ)
    → bad_pointers (some key) (some nonce) (some tag) (bytes input) (some out) ≡ false
bad_pointers_given key nonce tag input out = ground arith
