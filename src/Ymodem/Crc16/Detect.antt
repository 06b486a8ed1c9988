-- ===== src/Ymodem/Crc16/Detect.antt =====
-- What a wrong byte does to the CRC of ymodem/src/ymodem.c.
use hukong.Base.{
  ℕ, zero, suc, ◌+◌, ◌*◌, ◌%◌, ◌^◌, ◌<◌, bit_xor, ◌≡◌, ◌≢◌, sym, ap, ◌∙◌, arith, List, [], ◌∷◌,
  ◌++◌, IsBytes, dec_lt, ◌-◌,
}
use hukong.Base.Bits.{
  bit_and-pow, bit_xor_parts, bit_xor_assoc, bit_xor_self, bit_xor-zero, bit_xor_low, bit_xor_lt,
  bit_xor_comm,
}
use hukong.Ymodem.Crc16.{crc16_bit, crc16_bits, crc16_byte, crc16_loop, crc16}
use hukong.Ymodem.Crc16.Rounds.{
  crc16_bit_low, crc16_bit-lt, crc16_byte-lt, crc16_loop-lt, crc16_loop-append,
}

-- The same second operand on both sides cancels.
bit_xor_cancel : (a b c : ℕ) → bit_xor a c ≡ bit_xor b c → a ≡ b
bit_xor_cancel a b c e = sym (restore a) ∙ ap (λ t. bit_xor t c) e ∙ restore b
  where
    restore : (t : ℕ) → bit_xor (bit_xor t c) c ≡ t
    restore t = bit_xor_assoc t c c ∙ ap (bit_xor t) (bit_xor_self c) ∙ bit_xor-zero t

-- A round with the top bit set.
pub crc16_bit_high : (r : ℕ) → r < 2 ^ 15 → crc16_bit (2 ^ 15 + r) ≡ bit_xor (2 * r) 0x1021
unfolding crc16_bit
crc16_bit_high r h = ground (
  arith,
  bit_and-pow 15 1 r h,
  bit_xor_low 16 1 (2 * r) 0x1021 (omega arith) (omega arith),
  bit_xor_lt 16 (2 * r) 0x1021 (omega arith) (omega arith),
)

-- The lowest bit of a round's result tells which branch was taken.
bit_xor_poly_odd : (r : ℕ) → bit_xor (2 * r) 0x1021 % 2 ≡ 1
bit_xor_poly_odd r = omega (arith, bit_xor_parts (2 * r) 0x1021)

crc16_bit_injective : (a b : ℕ) → a < 2 ^ 16 → b < 2 ^ 16 → crc16_bit a ≡ crc16_bit b → a ≡ b
crc16_bit_injective a b ha hb e = elim (dec_lt a (2 ^ 15)) [
  | yes p ↦ elim (dec_lt b (2 ^ 15)) [
    | yes q ↦ omega (arith, crc16_bit_low a p, crc16_bit_low b q)
    | no q ↦ omega (arith, crc16_bit_low a p, high b hb q, bit_xor_poly_odd (b - 2 ^ 15))
  ]
  | no p ↦ elim (dec_lt b (2 ^ 15)) [
    | yes q ↦ omega (arith, crc16_bit_low b q, high a ha p, bit_xor_poly_odd (a - 2 ^ 15))
    | no q ↦ omega (
      arith,
      bit_xor_cancel (2 * (a - 2 ^ 15)) (2 * (b - 2 ^ 15)) 0x1021
          (sym (high a ha p) ∙ e ∙ high b hb q),
    )
  ]
]
  where
    high : (t : ℕ) → t < 2 ^ 16 → ¬ (t < 2 ^ 15) → crc16_bit t ≡ bit_xor (2 * (t - 2 ^ 15)) 0x1021
    high t ht n = ap crc16_bit (omega arith) ∙ crc16_bit_high (t - 2 ^ 15) (omega arith)

crc16_bits_injective :
    (n a b : ℕ) → a < 2 ^ 16 → b < 2 ^ 16 → crc16_bits n a ≡ crc16_bits n b → a ≡ b
unfolding crc16_bits
crc16_bits_injective zero a b ha hb e = e
crc16_bits_injective (suc n) a b ha hb e =
    crc16_bit_injective a b ha hb
      (crc16_bits_injective n (crc16_bit a) (crc16_bit b) (crc16_bit-lt a) (crc16_bit-lt b) e)

-- The register after a byte determines the register before it, given the byte.
crc16_byte_injective :
    (a b c : ℕ) → a < 2 ^ 16 → b < 2 ^ 16 → c < 2 ^ 8 → crc16_byte a c ≡ crc16_byte b c → a ≡ b
unfolding crc16_byte
crc16_byte_injective a b c ha hb hc e =
    bit_xor_cancel a b (c * 2 ^ 8)
      (sym (fits a ha) ∙ crc16_bits_injective 8 _ _ (omega arith) (omega arith) e ∙ fits b hb)
  where
    fits : (t : ℕ) → t < 2 ^ 16 → bit_xor t (c * 2 ^ 8) % 2 ^ 16 ≡ bit_xor t (c * 2 ^ 8)
    fits t ht = omega (arith, bit_xor_lt 16 t (c * 2 ^ 8) ht (omega arith))

-- ... and it determines the byte, given the register before it.
crc16_byte_injective_byte :
    (a c d : ℕ) → a < 2 ^ 16 → c < 2 ^ 8 → d < 2 ^ 8 → crc16_byte a c ≡ crc16_byte a d → c ≡ d
unfolding crc16_byte
crc16_byte_injective_byte a c d ha hc hd e = omega (
  arith,
  bit_xor_cancel (c * 2 ^ 8) (d * 2 ^ 8) a (
      bit_xor_comm (c * 2 ^ 8) a
      ∙ sym (fits c hc)
      ∙ crc16_bits_injective 8 _ _ (omega arith) (omega arith) e
      ∙ fits d hd
      ∙ bit_xor_comm a (d * 2 ^ 8)),
)
  where
    fits : (t : ℕ) → t < 2 ^ 8 → bit_xor a (t * 2 ^ 8) % 2 ^ 16 ≡ bit_xor a (t * 2 ^ 8)
    fits t ht = omega (arith, bit_xor_lt 16 a (t * 2 ^ 8) ha (omega arith))

crc16_loop_injective :
    (buf : List ℕ) (a b : ℕ)
    → IsBytes buf
    → a < 2 ^ 16
    → b < 2 ^ 16
    → crc16_loop buf a ≡ crc16_loop buf b
    → a ≡ b
unfolding crc16_loop
crc16_loop_injective [] a b h ha hb e = e
crc16_loop_injective (c ∷ buf) a b (hc, h) ha hb e =
    crc16_byte_injective a b c ha hb hc
      (crc16_loop_injective buf _ _ h (crc16_byte-lt a c) (crc16_byte-lt b c) e)

-- Two messages of bytes that differ in exactly one byte have different CRCs: every error that is
-- confined to one byte, at any place in the packet, is detected.
pub crc16_detects :
    (front back : List ℕ) (c d : ℕ)
    → IsBytes back
    → c < 256
    → d < 256
    → c ≢ d
    → crc16 (front ++ c ∷ back) ≢ crc16 (front ++ d ∷ back)
unfolding crc16 crc16_loop
crc16_detects front back c d h hc hd ne e = ne (
    crc16_byte_injective_byte reg c d (crc16_loop-lt front 0 (omega arith)) hc hd (
      crc16_loop_injective back _ _ h (crc16_byte-lt reg c) (crc16_byte-lt reg d)
        (sym (crc16_loop-append front (c ∷ back) 0) ∙ e ∙ crc16_loop-append front (d ∷ back) 0)))
  where
    reg : ℕ
    reg = crc16_loop front 0
