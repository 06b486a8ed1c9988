-- ===== src/Ymodem/Remainder.antt =====
-- The remainder that a message of bytes leaves modulo the polynomial x^16 + x^12 + x^5 + 1, by
-- long division: the specification that the CRC of ymodem/src/ymodem.c is held against. Nothing here
-- is code of the repository.
pub mod Linear
pub mod Code
use hukong.Base.{ℕ, zero, suc, ◌+◌, ◌*◌, ◌/◌, ◌%◌, ◌^◌, bit_xor, ltb, if◌then◌else◌, List, [], ◌∷◌}

-- The next bit of the message comes in at the bottom of the register; the polynomial is taken off
-- when it fits.
unfoldable pub divide_bit : ℕ → ℕ → ℕ
divide_bit reg b = if ltb reg (2 ^ 15) then reg * 2 + b else bit_xor (reg * 2 + b) 0x11021

-- The lowest `n` bits of `v`, the highest of them first.
unfoldable pub divide_bits : ℕ → ℕ → ℕ → ℕ
divide_bits zero reg v = reg
divide_bits (suc n) reg v = divide_bit (divide_bits n reg (v / 2)) (v % 2)

unfoldable pub divide : List ℕ → ℕ → ℕ
divide [] reg = reg
divide (b ∷ bs) reg = divide bs (divide_bits 8 reg (b % 256))

unfoldable pub remainder : List ℕ → ℕ
remainder message = divide message 0
