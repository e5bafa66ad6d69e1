-- ===== src/Poly1305/Shape.antt =====
-- The size of the tag of Poly1305 (src/backends/SoftChaChaPoly.cpp).
use arduino_nrf_crypto.Base.{ℕ, List, ◌++◌, ◌≡◌, refl, arith, length, IsBytes, IsBytes-append}
use arduino_nrf_crypto.Poly1305.{Limbs, store32, store_words, put_out, finish, auth}

store32-IsBytes : (t : ℕ) → IsBytes (store32 t)
store32-IsBytes t = (omega arith, (omega arith, (omega arith, (omega arith, tt))))

store_words_lem :
    (a b c d : ℕ) → (length (store_words a b c d) ≡ 16) × IsBytes (store_words a b c d)
unfolding store_words
store_words_lem a b c d = (
  refl,
  IsBytes-append (store32 a) (store32 b ++ (store32 c ++ store32 d)) (store32-IsBytes a) (
      IsBytes-append (store32 b) (store32 c ++ store32 d) (store32-IsBytes b)
        (IsBytes-append (store32 c) (store32 d) (store32-IsBytes c) (store32-IsBytes d))),
)

put_out_lem : (h : Limbs) (key : List ℕ) → (length (put_out h key) ≡ 16) × IsBytes (put_out h key)
unfolding put_out
put_out_lem h key = store_words_lem _ _ _ _

pub auth_lem : (msg key : List ℕ) → (length (auth msg key) ≡ 16) × IsBytes (auth msg key)
unfolding auth finish
auth_lem msg key = put_out_lem _ key
