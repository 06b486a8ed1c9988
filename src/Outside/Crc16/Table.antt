-- ===== src/Outside/Crc16/Table.antt =====
-- The table-driven `crc16` of outside_env/src/protocol/crc16.cpp against the bit-by-bit definition.
use hukong.Base.{ℕ, ◌≡◌, refl, ap, ◌∙◌, List, [], ◌∷◌, IsBytes}
use hukong.Reflected.{bit_step, bit_steps, bytes, tabulate}
use hukong.Reflected.Linear.{table_step}
use hukong.Outside.Crc16.{crc16_table, crc16_byte, crc16}

-- x^16 + x^15 + x^2 + 1, reflected.
abbrev pub modbus_poly : ℕ
modbus_poly = 0xa001

crc16_table-eq-tabulate : crc16_table ≡ tabulate (bit_steps modbus_poly 8) 256 0
unfolding crc16_table tabulate bit_steps bit_step
crc16_table-eq-tabulate = refl

-- On bytes, `crc16` with its 256-entry table continues the bit-by-bit CRC with the reflected
-- polynomial 0xA001 from any register.
pub crc16-eq-bytes :
    (buffer : List ℕ) (crc : ℕ) → IsBytes buffer → crc16 crc buffer ≡ bytes modbus_poly buffer crc
unfolding crc16 crc16_byte bytes
crc16-eq-bytes [] crc h = refl
crc16-eq-bytes (b ∷ buffer) crc (hb, h) =
    ap (λ t. crc16 t buffer) (table_step modbus_poly crc16_table crc b crc16_table-eq-tabulate hb)
    ∙ crc16-eq-bytes buffer _ h
