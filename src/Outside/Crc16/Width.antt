-- ===== src/Outside/Crc16/Width.antt =====
-- The register of `crc16` of outside_env/src/protocol/crc16.cpp stays in its 16 bits.
use hukong.Base.{
  ℕ, zero, suc, ◌/◌, ◌^◌, ◌<◌, bit_and, bit_xor, ltb, ◌&&◌, Bool, true, ◌≡◌, refl, arith, List, [],
  ◌∷◌, get_or,
}
use hukong.Base.Bits.{bit_xor_step, pow_double}
use hukong.Outside.Crc16.{crc16_table, crc16_byte, crc16}

bit_xor-lt : (k a b : ℕ) → a < 2 ^ k → b < 2 ^ k → bit_xor a b < 2 ^ k
bit_xor-lt zero a b ha hb =
    let ea : a ≡ 0 = omega arith in let eb : b ≡ 0 = omega arith in rw (ea, eb) (omega arith)
bit_xor-lt (suc k) a b ha hb =
    let half =
      bit_xor-lt k (a / 2) (b / 2) (omega (arith, pow_double k)) (omega (arith, pow_double k)) in
    omega (arith, bit_xor_step a b, pow_double k, half)

all_below : List ℕ → Bool
all_below [] = true
all_below (x ∷ xs) = ltb x 65536 && all_below xs

get_or-lt : (xs : List ℕ) (i : ℕ) → all_below xs ≡ true → get_or xs i 0 < 65536
unfolding all_below
get_or-lt [] i h = omega arith
get_or-lt (x ∷ xs) zero h = ground arith
get_or-lt (x ∷ xs) (suc i) h = get_or-lt xs i (ground arith)

crc16_table-lt : (i : ℕ) → get_or crc16_table i 0 < 65536
unfolding crc16_table all_below
crc16_table-lt i = get_or-lt crc16_table i refl

pub crc16-lt : (bytes : List ℕ) (crc : ℕ) → crc < 2 ^ 16 → crc16 crc bytes < 2 ^ 16
unfolding crc16 crc16_byte
crc16-lt [] crc h = h
crc16-lt (b ∷ bytes) crc h =
    crc16-lt bytes _
      (bit_xor-lt 16 (crc / 2 ^ 8) _ (omega arith) (crc16_table-lt (bit_and (bit_xor crc b) 0xff)))
