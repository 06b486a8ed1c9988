-- ===== src/Serial/Buffer/Growth.antt =====
-- Bounds of `Utility::next_pow_of_2` in lib-linux/src/utility.h, by which `Buffer::realloc` of
-- buffer.h grows.
use hukong.Base.{ℕ, suc, ◌*◌, ◌/◌, ◌^◌, ◌≤◌, ◌<◌, bit_or, arith}
use native.Mathlib.Nat.{div-le_self}
use hukong.Base.Bits.{bit_or-le, bit_or-lt, highest, pow_double}
use hukong.Serial.Buffer.{smear, next_pow_of_2}

-- One shift of the smear, in a width that holds its operand.
spread : (k s x : ℕ) → 0 < s → x < 2 ^ k → (x ≤ bit_or x (x / s)) × (bit_or x (x / s) < 2 ^ k)
spread k s x p h =
    let below : x / s ≤ x = div-le_self x s in
    (bit_or-le k x (x / s) h, bit_or-lt k x (x / s) h (omega arith))

smear-bounds : (k x : ℕ) → x < 2 ^ k → (x ≤ smear x) × (smear x < 2 ^ k)
unfolding smear
smear-bounds k x h =
    let s1 = spread k 2 x (omega arith) h in
    let s2 = spread k 4 _ (omega arith) s1.1 in
    let s3 = spread k 16 _ (omega arith) s2.1 in
    let s4 = spread k 256 _ (omega arith) s3.1 in
    let s5 = spread k 65536 _ (omega arith) s4.1 in
    (omega (arith, s1.0, s2.0, s3.0, s4.0, s5.0), s5.1)

-- For 0 < x < 2 ^ 31 the result of `next_pow_of_2` lies between x and 2 * x.
pub next_pow_of_2-bounds :
    (x : ℕ) → 0 < x → x < 2 ^ 31 → (x ≤ next_pow_of_2 x) × (next_pow_of_2 x ≤ 2 * x)
unfolding next_pow_of_2
next_pow_of_2-bounds x p h =
    let (k, low, high) = highest x x p (omega arith) in
    let near = smear-bounds (suc k) x high in
    let small = smear-bounds 31 x h in ground (arith, pow_double k, near, small)
