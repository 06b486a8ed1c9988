-- ===== src/Ymodem/Crc32/Table.antt =====
-- The table-driven `crc32` of ymodem/src/ymodem.c against the bit-by-bit definition.
use hukong.Base.{ℕ, bit_xor, ◌≡◌, refl, ap, ◌∙◌, List, [], ◌∷◌, IsBytes}
use hukong.Reflected.{bit_step, bit_steps, bytes, tabulate}
use hukong.Reflected.Linear.{table_step}
use hukong.Ymodem.Crc32.{crc_table, crc32_byte, crc32_loop, crc32}

-- The reflected polynomial of CRC-32.
abbrev pub poly : ℕ
poly = 0xedb8_8320

crc_table-eq-tabulate : crc_table ≡ tabulate (bit_steps poly 8) 256 0
unfolding crc_table tabulate bit_steps bit_step
crc_table-eq-tabulate = refl

crc32_loop-eq-bytes :
    (buf : List ℕ) (crc : ℕ) → IsBytes buf → crc32_loop buf crc ≡ bytes poly buf crc
unfolding crc32_loop crc32_byte bytes
crc32_loop-eq-bytes [] crc h = refl
crc32_loop-eq-bytes (b ∷ buf) crc (hb, h) =
    ap (crc32_loop buf) (table_step poly crc_table crc b crc_table-eq-tabulate hb)
    ∙ crc32_loop-eq-bytes buf _ h

-- On bytes, `crc32` with its 256-entry table computes the CRC-32 of the bit-by-bit definition:
-- register preset to all ones, polynomial 0xEDB88320 shifted in at the low end, result inverted.
pub crc32-eq-bitwise :
    (buf : List ℕ) → IsBytes buf → crc32 buf ≡ bit_xor (bytes poly buf 0xffff_ffff) 0xffff_ffff
unfolding crc32
crc32-eq-bitwise buf h = ap (λ t. bit_xor t 0xffff_ffff) (crc32_loop-eq-bytes buf 0xffff_ffff h)
