-- ===== src/Poly1305.antt =====
-- src/backends/SoftChaChaPoly.cpp: Poly1305 (RFC 8439, 2.5) with five limbs of 26 bits in 32-bit
-- words, and 64-bit products.
pub mod Block
pub mod Carry
pub mod Clamp
pub mod Final
pub mod Horner
pub mod Product
pub mod Reduce
pub mod Shape
pub mod Step
pub mod Store
pub mod Tag
pub mod Tests
use arduino_nrf_crypto.Base.{ℕ, zero, suc, ◌+◌, ◌-◌, ◌*◌, ◌/◌, ◌%◌, ◌^◌, List, [], ◌∷◌, ◌++◌}
use arduino_nrf_crypto.Base.{bit_and, bit_or, get_or, take, drop, replicate, write_at, set, length}
use arduino_nrf_crypto.Base.{
  u8, u32, u64, not32, ◌<<<◌, ◌>>>◌, Bool, true, false, ◌==◌, if◌then◌else◌,
}
use arduino_nrf_crypto.ChaCha.{load32, add32}

-- `uint32_t r[5]` and `uint32_t h[5]`.
pub record Limbs : Type 0 where
  pub l0 : ℕ
  pub l1 : ℕ
  pub l2 : ℕ
  pub l3 : ℕ
  pub l4 : ℕ

abbrev shl32 : ℕ → ℕ → ℕ
shl32 x k = u32 (x <<< k)

-- `r` of `poly1305Init`; `h` starts at zero.
unfoldable pub init_r : List ℕ → Limbs
init_r key =
    let k = λ (i : ℕ). get_or key i 0 in
    record {
      l0 =
          bit_and (bit_or (bit_or (bit_or (k 0) (shl32 (k 1) 8)) (shl32 (k 2) 16)) (shl32 (k 3) 24))
            0x3ffffff;
      l1 =
          bit_and
            (bit_or (bit_or (bit_or (k 3 >>> 2) (shl32 (k 4) 6)) (shl32 (k 5) 14)) (shl32 (k 6) 22))
            0x3ffff03;
      l2 =
          bit_and
            (bit_or (bit_or (bit_or (k 6 >>> 4) (shl32 (k 7) 4)) (shl32 (k 8) 12)) (shl32 (k 9) 20))
            0x3ffc0ff;
      l3 =
          bit_and
            (bit_or (bit_or (bit_or (k 9 >>> 6) (shl32 (k 10) 2)) (shl32 (k 11) 10))
              (shl32 (k 12) 18))
            0x3f03fff;
      l4 =
          bit_and
            (bit_or (bit_or (bit_or (k 13) (shl32 (k 14) 8)) (shl32 (k 15) 16)) (shl32 (k 16) 24))
            0x00fffff;
    }

abbrev pub init_h : Limbs
init_h = record { l0 = 0; l1 = 0; l2 = 0; l3 = 0; l4 = 0 }

-- `h[0..4] += …`: a block of 16 bytes, split into limbs, with the padding bit.
unfoldable pub add_block : Limbs → List ℕ → Bool → Limbs
unfolding load32
add_block h block pad_bit =
    let t0 = load32 block 0 in
    let t1 = load32 block 4 in
    let t2 = load32 block 8 in
    let t3 = load32 block 12 in
    record {
      l0 = add32 h.l0 (bit_and t0 0x3ffffff);
      l1 = add32 h.l1 (bit_and (bit_or (t0 >>> 26) (shl32 t1 6)) 0x3ffffff);
      l2 = add32 h.l2 (bit_and (bit_or (t1 >>> 20) (shl32 t2 12)) 0x3ffffff);
      l3 = add32 h.l3 (bit_and (bit_or (t2 >>> 14) (shl32 t3 18)) 0x3ffffff);
      l4 = add32 h.l4 (bit_or (t3 >>> 8) (if pad_bit then 2 ^ 24 else 0));
    }

-- `d0` to `d4`: the product, with the limbs past 130 bits folded in by 5.
unfoldable pub products : Limbs → Limbs → Limbs
products h r =
    let s1 = u32 (r.l1 * 5) in
    let s2 = u32 (r.l2 * 5) in
    let s3 = u32 (r.l3 * 5) in
    let s4 = u32 (r.l4 * 5) in
    record {
      l0 = u64 (h.l0 * r.l0 + h.l1 * s4 + h.l2 * s3 + h.l3 * s2 + h.l4 * s1);
      l1 = u64 (h.l0 * r.l1 + h.l1 * r.l0 + h.l2 * s4 + h.l3 * s3 + h.l4 * s2);
      l2 = u64 (h.l0 * r.l2 + h.l1 * r.l1 + h.l2 * r.l0 + h.l3 * s4 + h.l4 * s3);
      l3 = u64 (h.l0 * r.l3 + h.l1 * r.l2 + h.l2 * r.l1 + h.l3 * r.l0 + h.l4 * s4);
      l4 = u64 (h.l0 * r.l4 + h.l1 * r.l3 + h.l2 * r.l2 + h.l3 * r.l1 + h.l4 * r.l0);
    }

-- The carries, from `d0` up, round from `d4` to `h[0]`, and once more into `h[1]`.
unfoldable pub carry : Limbs → Limbs
carry d =
    let c0 = u32 (d.l0 >>> 26) in
    let d1 = u64 (d.l1 + c0) in
    let c1 = u32 (d1 >>> 26) in
    let d2 = u64 (d.l2 + c1) in
    let c2 = u32 (d2 >>> 26) in
    let d3 = u64 (d.l3 + c2) in
    let c3 = u32 (d3 >>> 26) in
    let d4 = u64 (d.l4 + c3) in
    let c4 = u32 (d4 >>> 26) in
    let h0 = add32 (bit_and (u32 d.l0) 0x3ffffff) (u32 (c4 * 5)) in
    record {
      l0 = bit_and h0 0x3ffffff;
      l1 = add32 (bit_and (u32 d1) 0x3ffffff) (h0 >>> 26);
      l2 = bit_and (u32 d2) 0x3ffffff;
      l3 = bit_and (u32 d3) 0x3ffffff;
      l4 = bit_and (u32 d4) 0x3ffffff;
    }

-- `while (len >= 16)`, by the number of whole blocks.
unfoldable pub blocks : ℕ → Limbs → Limbs → List ℕ → Bool → Limbs
blocks zero h r input pad_bit = h
blocks (suc count) h r input pad_bit =
    blocks count (carry (products (add_block h (take 16 input) pad_bit) r)) r (drop 16 input)
      pad_bit

-- The first carries of `poly1305Finish`.
unfoldable pub settle : Limbs → Limbs
settle h =
    let h2 = add32 h.l2 (h.l1 >>> 26) in
    let h3 = add32 h.l3 (h2 >>> 26) in
    let h4 = add32 h.l4 (h3 >>> 26) in
    let h0 = add32 h.l0 (u32 ((h4 >>> 26) * 5)) in
    record {
      l0 = bit_and h0 0x3ffffff;
      l1 = add32 (bit_and h.l1 0x3ffffff) (h0 >>> 26);
      l2 = bit_and h2 0x3ffffff;
      l3 = bit_and h3 0x3ffffff;
      l4 = bit_and h4 0x3ffffff;
    }

-- `g = h + 5 - 2 ^ 130`, chosen by its sign without a branch.
unfoldable pub reduce : Limbs → Limbs
reduce h =
    let g0 = add32 h.l0 5 in
    let g1 = add32 h.l1 (g0 >>> 26) in
    let g2 = add32 h.l2 (g1 >>> 26) in
    let g3 = add32 h.l3 (g2 >>> 26) in
    let g4 = u32 (h.l4 + (g3 >>> 26) + 2 ^ 32 - 2 ^ 26) in
    let mask = u32 ((g4 >>> 31) + 2 ^ 32 - 1) in
    let keep = λ (x g : ℕ). bit_or (bit_and x (not32 mask)) (bit_and g mask) in
    record {
      l0 = keep h.l0 (bit_and g0 0x3ffffff);
      l1 = keep h.l1 (bit_and g1 0x3ffffff);
      l2 = keep h.l2 (bit_and g2 0x3ffffff);
      l3 = keep h.l3 (bit_and g3 0x3ffffff);
      l4 = keep h.l4 g4;
    }

abbrev pub store32 : ℕ → List ℕ
store32 t = u8 t ∷ u8 (t >>> 8) ∷ u8 (t >>> 16) ∷ u8 (t >>> 24) ∷ []

-- `tag[0]` to `tag[15]`.
unfoldable pub store_words : ℕ → ℕ → ℕ → ℕ → List ℕ
store_words a b c d = store32 a ++ (store32 b ++ (store32 c ++ store32 d))

-- The limbs as four words, plus the second half of the key, modulo `2 ^ 128`.
unfoldable pub put_out : Limbs → List ℕ → List ℕ
put_out h key =
    let t0 = bit_or h.l0 (shl32 h.l1 26) in
    let t1 = bit_or (h.l1 >>> 6) (shl32 h.l2 20) in
    let t2 = bit_or (h.l2 >>> 12) (shl32 h.l3 14) in
    let t3 = bit_or (h.l3 >>> 18) (shl32 h.l4 8) in
    let f0 = u64 (t0 + load32 key 16) in
    let f1 = u64 (t1 + load32 key 20 + (f0 >>> 32)) in
    let f2 = u64 (t2 + load32 key 24 + (f1 >>> 32)) in
    let f3 = u64 (t3 + load32 key 28 + (f2 >>> 32)) in
    store_words (u32 f0) (u32 f1) (u32 f2) (u32 f3)

unfoldable pub finish : Limbs → List ℕ → List ℕ
finish h key = put_out (reduce (settle h)) key

unfoldable pub auth : List ℕ → List ℕ → List ℕ
auth msg key =
    let r = init_r key in
    let rem = length msg % 16 in
    let full = length msg - rem in
    let h = blocks (full / 16) init_h r msg true in
    let tmp = set (write_at (replicate 16 0) 0 (take rem (drop full msg))) rem 1 in
    finish (if rem == 0 then h else blocks 1 h r tmp false) key
