-- ===== src/Reflected.antt =====
-- Reflected cyclic redundancy checks, bit by bit: the definition that the table-driven routines of
-- ymodem/src/ymodem.c (`crc32`) and outside_env/src/protocol/crc16.cpp (`crc16_byte`) are to meet.
pub mod Linear
use hukong.Base.{ℕ, zero, suc, ◌+◌, ◌/◌, ◌%◌, bit_xor, ◌==◌, if◌then◌else◌, List, [], ◌∷◌}

module _ (poly : ℕ) where
  -- One bit is shifted out at the low end; a 1 there brings the polynomial in.
  unfoldable pub bit_step : ℕ → ℕ
  bit_step x = if x % 2 == 1 then bit_xor (x / 2) poly else x / 2

  unfoldable pub bit_steps : ℕ → ℕ → ℕ
  bit_steps zero x = x
  bit_steps (suc n) x = bit_steps n (bit_step x)

  -- A byte enters at the low end and is shifted through.
  unfoldable pub byte_step : ℕ → ℕ → ℕ
  byte_step crc b = bit_steps 8 (bit_xor crc b)

  unfoldable pub bytes : List ℕ → ℕ → ℕ
  bytes [] crc = crc
  bytes (b ∷ bs) crc = bytes bs (byte_step crc b)

-- The values of `f` from `i` on.
unfoldable pub tabulate : (ℕ → ℕ) → ℕ → ℕ → List ℕ
tabulate f zero i = []
tabulate f (suc n) i = f i ∷ tabulate f n (i + 1)
