-- ===== src/Ymodem/Decimal.antt =====
-- `u32_to_str` of ymodem/src/ymodem.c. The buffer `num_str[11]` is filled from its end, so the
-- list of digits grows at the front.
pub mod RoundTrip
use hukong.Base.{ℕ, zero, suc, ◌+◌, ◌/◌, ◌%◌, ◌^◌, ◌==◌, if◌then◌else◌, List, [], ◌∷◌}

-- The `while` loop: `pos` places are left before the start of the buffer.
unfoldable pub digits_loop : ℕ → ℕ → List ℕ → List ℕ
digits_loop zero val acc = acc
digits_loop (suc pos) val acc =
    if val == 0 then acc else digits_loop pos (val / 10) ((val % 10 + b'0') ∷ acc)

-- The argument is an `unsigned int`: what is passed is cut to 32 bits.
unfoldable pub u32_to_str : ℕ → List ℕ
u32_to_str size = let val = size % 2 ^ 32 in if val == 0 then b'0' ∷ [] else digits_loop 10 val []
