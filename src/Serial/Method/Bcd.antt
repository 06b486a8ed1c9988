-- ===== src/Serial/Method/Bcd.antt =====
-- `ProtocolMethod::BCD` of src/protocol/protocol_method.cpp against the decimal number its bytes
-- spell.
use hukong.Base.{ℕ, ◌+◌, ◌*◌, ◌/◌, ◌%◌, ◌^◌, ◌<◌, ◌≡◌, ◌∙◌, arith, List, [], ◌∷◌}
use hukong.Base.Bits.{bit_and_mask}
use hukong.Serial.Method.{bcd}

-- The high digit of a byte, then the low one.
unfoldable pub nibbles : List ℕ → List ℕ
nibbles [] = []
nibbles (b ∷ bs) = b / 16 ∷ b % 16 ∷ nibbles bs

unfoldable pub decimal : List ℕ → ℕ → ℕ
decimal [] acc = acc
decimal (d ∷ ds) acc = decimal ds (acc * 10 + d)

decimal-mod :
    (ds : List ℕ) (a b : ℕ)
    → a % 2 ^ 32 ≡ b % 2 ^ 32
    → decimal ds a % 2 ^ 32 ≡ decimal ds b % 2 ^ 32
unfolding decimal
decimal-mod [] a b e = e
decimal-mod (d ∷ ds) a b e = decimal-mod ds (a * 10 + d) (b * 10 + d) (omega arith)

bcd_from : (bs : List ℕ) (r : ℕ) → r < 2 ^ 32 → bcd bs r ≡ decimal (nibbles bs) r % 2 ^ 32
unfolding bcd decimal nibbles
bcd_from [] r h = omega arith
bcd_from (b ∷ bs) r h =
    bcd_from bs _ (omega arith) ∙ decimal-mod (nibbles bs) _ _ (omega (arith, bit_and_mask 4 b))

-- `BCD` reads two decimal digits from each byte, the high one first, most significant byte first;
-- the number is cut to 32 bits.
pub bcd-decimal : (bs : List ℕ) → bcd bs 0 ≡ decimal (nibbles bs) 0 % 2 ^ 32
bcd-decimal bs = bcd_from bs 0 (omega arith)
