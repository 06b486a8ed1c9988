-- ===== src/Ymodem/Crc16/Rounds.antt =====
-- The register of `crc16` in ymodem/src/ymodem.c: its width, and rounds that only shift.
use hukong.Base.{ℕ, zero, suc, ◌*◌, ◌^◌, ◌<◌, ◌≡◌, refl, ap, ◌∙◌, arith, List, [], ◌∷◌, ◌++◌}
use hukong.Base.Bits.{bit_and-pow_above, mul-pow_double, le-mul-pow}
use hukong.Ymodem.Crc16.{crc16_bit, crc16_bits, crc16_byte, crc16_loop}

pub crc16_bit_low : (crc : ℕ) → crc < 2 ^ 15 → crc16_bit crc ≡ crc * 2
unfolding crc16_bit
crc16_bit_low crc h = ground (arith, bit_and-pow_above 15 crc h)

-- Rounds that find the top bit clear only shift.
pub crc16_bits_low : (n crc : ℕ) → crc * 2 ^ n < 2 ^ 16 → crc16_bits n crc ≡ crc * 2 ^ n
unfolding crc16_bits
crc16_bits_low zero crc h = omega arith
crc16_bits_low (suc n) crc h =
    ap (crc16_bits n) (crc16_bit_low crc small)
    ∙ crc16_bits_low n (crc * 2) (omega (arith, shift))
    ∙ shift
  where
    shift : crc * 2 * 2 ^ n ≡ crc * 2 ^ suc n
    shift = omega (arith, mul-pow_double crc n)

    small : crc < 2 ^ 15
    small = omega (arith, mul-pow_double crc n, le-mul-pow crc n)

pub crc16_bit-lt : (crc : ℕ) → crc16_bit crc < 2 ^ 16
unfolding crc16_bit
crc16_bit-lt crc = ground arith

pub crc16_bits-lt : (n crc : ℕ) → crc < 2 ^ 16 → crc16_bits n crc < 2 ^ 16
unfolding crc16_bits
crc16_bits-lt zero crc h = h
crc16_bits-lt (suc n) crc h = crc16_bits-lt n (crc16_bit crc) (crc16_bit-lt crc)

pub crc16_byte-lt : (crc b : ℕ) → crc16_byte crc b < 2 ^ 16
unfolding crc16_byte
crc16_byte-lt crc b = crc16_bits-lt 8 _ (omega arith)

pub crc16_loop-lt : (buf : List ℕ) (crc : ℕ) → crc < 2 ^ 16 → crc16_loop buf crc < 2 ^ 16
unfolding crc16_loop
crc16_loop-lt [] crc h = h
crc16_loop-lt (b ∷ buf) crc h = crc16_loop-lt buf (crc16_byte crc b) (crc16_byte-lt crc b)

pub crc16_loop-append :
    (xs ys : List ℕ) (crc : ℕ) → crc16_loop (xs ++ ys) crc ≡ crc16_loop ys (crc16_loop xs crc)
unfolding crc16_loop
crc16_loop-append [] ys crc = refl
crc16_loop-append (x ∷ xs) ys crc = crc16_loop-append xs ys (crc16_byte crc x)
