-- ===== src/Ymodem/Crc16.antt =====
-- `crc16` of ymodem/src/ymodem.c, with the wrap of its `unsigned short` register written out.
pub mod Rounds
pub mod Detect
use hukong.Base.{ℕ, zero, suc, ◌*◌, ◌%◌, ◌^◌, bit_and, bit_xor, ◌==◌, if◌then◌else◌, List, [], ◌∷◌}

-- One round of the inner loop.
unfoldable pub crc16_bit : ℕ → ℕ
crc16_bit crc =
    if bit_and crc 0x8000 == 0 then crc * 2 % 2 ^ 16 else bit_xor (crc * 2) 0x1021 % 2 ^ 16

-- `for (i=0; i<8; i++)`, with the rounds left.
unfoldable pub crc16_bits : ℕ → ℕ → ℕ
crc16_bits zero crc = crc
crc16_bits (suc n) crc = crc16_bits n (crc16_bit crc)

-- The body of the outer loop.
unfoldable pub crc16_byte : ℕ → ℕ → ℕ
crc16_byte crc b = crc16_bits 8 (bit_xor crc (b * 2 ^ 8) % 2 ^ 16)

-- `while (count--)`; the list holds the `count` bytes at `buf`.
unfoldable pub crc16_loop : List ℕ → ℕ → ℕ
crc16_loop [] crc = crc
crc16_loop (b ∷ buf) crc = crc16_loop buf (crc16_byte crc b)

unfoldable pub crc16 : List ℕ → ℕ
crc16 buf = crc16_loop buf 0
