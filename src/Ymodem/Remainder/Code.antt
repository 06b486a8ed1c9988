-- ===== src/Ymodem/Remainder/Code.antt =====
-- The CRC that ymodem/src/ymodem.c computes makes a message divisible by the polynomial.
use hukong.Base.{
  ℕ, zero, suc, ◌+◌, ◌-◌, ◌*◌, ◌/◌, ◌%◌, ◌^◌, ◌<◌, bit_xor, ◌≡◌, refl, sym, ap, ◌∙◌, arith, dec_lt,
  List, [], ◌∷◌, ◌++◌,
}
use hukong.Base.Bits.{
  bit_xor_assoc, bit_xor_comm, bit_xor_self, bit_xor-zero, zero-bit_xor, bit_xor_lt, bit_xor_low,
  bit_xor_fields, pow_double,
}
use hukong.Ymodem.Crc16.{crc16_bit, crc16_bits, crc16_byte, crc16_loop, crc16}
use hukong.Ymodem.Crc16.Rounds.{crc16_bit_low, crc16_bits-lt, crc16_bits_low}
use hukong.Ymodem.Crc16.Detect.{crc16_bit_high}
use hukong.Ymodem.Remainder.{divide_bit, divide_bits, divide, remainder}
use hukong.Ymodem.Remainder.Linear.{bit_xor_swap, bit_xor_tops, crc16_bit_linear, crc16_bits_linear}

-- A bit below an even number.
even_bit : (x b : ℕ) → b < 2 → bit_xor (2 * x) b ≡ 2 * x + b
even_bit x b h =
    let shape : 2 * x ≡ x * 2 ^ 1 + 0 = omega arith in
    ap (λ t. bit_xor t b) shape
    ∙ bit_xor_low 1 x 0 b (omega arith) (omega arith)
    ∙ omega (arith, zero-bit_xor b)

-- When the polynomial fits, what it takes off is what a round of the code adds.
divide_bit_high :
    (r b : ℕ)
    → r < 2 ^ 15
    → b < 2
    → bit_xor (1 * 2 ^ 16 + (2 * r + b)) (1 * 2 ^ 16 + 0x1021) ≡ bit_xor (bit_xor (2 * r) 0x1021) b
divide_bit_high r b hr hb = omega (
  arith,
  bit_xor_tops 16 1 1 (2 * r + b) 0x1021 (omega arith) (omega arith),
  bit_xor_self 1,
  ap (λ t. bit_xor t 0x1021) (sym (even_bit r b hb)),
  bit_xor_swap (2 * r) b 0x1021,
)

-- One step of the division is one round of the code, with the bit put in below.
divide_bit_lem : (s b : ℕ) → s < 2 ^ 16 → b < 2 → divide_bit s b ≡ bit_xor (crc16_bit s) b
unfolding divide_bit
divide_bit_lem s b hs hb = elim (dec_lt s (2 ^ 15)) [
  | yes low ↦
      let shape : crc16_bit s ≡ 2 * s = omega (arith, crc16_bit_low s low) in
      rw shape (ground (arith, even_bit s b hb))
  | no high ↦
      let r = s - 2 ^ 15 in
      let shape : crc16_bit s ≡ bit_xor (2 * r) 0x1021 =
        ap crc16_bit (omega arith) ∙ crc16_bit_high r (omega arith) in
      let sum : s * 2 + b ≡ 1 * 2 ^ 16 + (2 * r + b) = omega arith in
      rw shape
        (ground (arith, ap (λ t. bit_xor t 0x11021) sum, divide_bit_high r b (omega arith) hb))
]

crc16_bits_last : (n c : ℕ) → crc16_bit (crc16_bits n c) ≡ crc16_bits (suc n) c
unfolding crc16_bits
crc16_bits_last zero c = refl
crc16_bits_last (suc n) c = crc16_bits_last n (crc16_bit c)

divide_bits_lem :
    (n s v : ℕ)
    → s < 2 ^ 16
    → v < 2 ^ 16
    → v < 2 ^ n
    → divide_bits n s v ≡ bit_xor (crc16_bits n s) v
unfolding divide_bits crc16_bits
divide_bits_lem zero s v hs hv fits =
    let none_set : v ≡ 0 = omega arith in rw none_set (sym (bit_xor-zero s))
divide_bits_lem (suc n) s v hs hv fits =
    ap (λ t. divide_bit t (v % 2))
      (divide_bits_lem n s (v / 2) hs (omega arith) (omega (arith, pow_double n)))
    ∙ divide_bit_lem (bit_xor reg (v / 2)) (v % 2) (bit_xor_lt 16 reg (v / 2) small (omega arith))
        (omega arith)
    ∙ ap (λ t. bit_xor t (v % 2)) (crc16_bit_linear reg (v / 2) small (omega arith))
    ∙ bit_xor_assoc (crc16_bit reg) (crc16_bit (v / 2)) (v % 2)
    ∙ ap (bit_xor (crc16_bit reg)) bottom
    ∙ ap (λ t. bit_xor t v) (crc16_bits_last n s)
  where
    reg : ℕ
    reg = crc16_bits n s

    small : reg < 2 ^ 16
    small = crc16_bits-lt n s hs

    bottom : bit_xor (crc16_bit (v / 2)) (v % 2) ≡ v
    bottom =
        let shape : crc16_bit (v / 2) ≡ 2 * (v / 2) =
          omega (arith, crc16_bit_low (v / 2) (omega arith)) in
        rw shape (omega (arith, even_bit (v / 2) (v % 2) (omega arith)))

byte_lem : (s b : ℕ) → s < 2 ^ 16 → divide_bits 8 s (b % 256) ≡ bit_xor (crc16_bits 8 s) (b % 256)
byte_lem s b hs = divide_bits_lem 8 s (b % 256) hs (omega arith) (omega arith)

divide_byte-lt : (s b : ℕ) → s < 2 ^ 16 → divide_bits 8 s (b % 256) < 2 ^ 16
divide_byte-lt s b hs =
    let bound = bit_xor_lt 16 (crc16_bits 8 s) (b % 256) (crc16_bits-lt 8 s hs) (omega arith) in
    omega (arith, byte_lem s b hs)

-- The code's register runs 16 zero bits ahead of the division.
abbrev ahead : ℕ → ℕ
ahead s = crc16_bits 8 (crc16_bits 8 s)

-- The byte that the code puts in on top, its bits above the eighth dropped.
byte_on_top : (c b : ℕ) → c < 2 ^ 16 → bit_xor c (b * 2 ^ 8) % 2 ^ 16 ≡ bit_xor c (b % 256 * 2 ^ 8)
byte_on_top c b hc =
    let split : b * 2 ^ 8 ≡ b / 256 * 2 ^ 16 + b % 256 * 2 ^ 8 = omega arith in
    let shape : bit_xor c (b * 2 ^ 8) ≡ b / 256 * 2 ^ 16 + bit_xor (b % 256 * 2 ^ 8) c =
      bit_xor_comm c (b * 2 ^ 8)
      ∙ ap (λ t. bit_xor t c) split
      ∙ bit_xor_low 16 (b / 256) (b % 256 * 2 ^ 8) c (omega arith) hc in
    omega (
      arith,
      shape,
      bit_xor_comm c (b % 256 * 2 ^ 8),
      bit_xor_lt 16 (b % 256 * 2 ^ 8) c (omega arith) hc,
    )

ahead-byte : (s b : ℕ) → s < 2 ^ 16 → ahead (divide_bits 8 s (b % 256)) ≡ crc16_byte (ahead s) b
unfolding crc16_byte
ahead-byte s b hs =
    ap (λ t. crc16_bits 8 (crc16_bits 8 t)) (byte_lem s b hs)
    ∙ ap (crc16_bits 8) (crc16_bits_linear 8 once (b % 256) once-lt (omega arith))
    ∙ ap (λ t. crc16_bits 8 (bit_xor (crc16_bits 8 once) t))
        (crc16_bits_low 8 (b % 256) (omega arith))
    ∙ ap (crc16_bits 8) (sym (byte_on_top (crc16_bits 8 once) b (crc16_bits-lt 8 once once-lt)))
  where
    once : ℕ
    once = crc16_bits 8 s

    once-lt : once < 2 ^ 16
    once-lt = crc16_bits-lt 8 s hs

ahead-divide : (buf : List ℕ) (s : ℕ) → s < 2 ^ 16 → ahead (divide buf s) ≡ crc16_loop buf (ahead s)
unfolding divide crc16_loop
ahead-divide [] s hs = refl
ahead-divide (b ∷ buf) s hs =
    ahead-divide buf (divide_bits 8 s (b % 256)) (divide_byte-lt s b hs)
    ∙ ap (crc16_loop buf) (ahead-byte s b hs)

divide-lt : (buf : List ℕ) (s : ℕ) → s < 2 ^ 16 → divide buf s < 2 ^ 16
unfolding divide
divide-lt [] s hs = hs
divide-lt (b ∷ buf) s hs = divide-lt buf (divide_bits 8 s (b % 256)) (divide_byte-lt s b hs)

divide-append : (xs ys : List ℕ) (s : ℕ) → divide (xs ++ ys) s ≡ divide ys (divide xs s)
unfolding divide
divide-append [] ys s = refl
divide-append (x ∷ xs) ys s = divide-append xs ys (divide_bits 8 s (x % 256))

-- The two bytes of what the register holds, 16 bits ahead, bring the division to zero.
divide-crc : (s : ℕ) → s < 2 ^ 16 → divide (ahead s / 2 ^ 8 ∷ ahead s % 2 ^ 8 ∷ []) s ≡ 0
unfolding divide
divide-crc s hs =
    byte_lem (divide_bits 8 s (crc / 2 ^ 8 % 256)) (crc % 2 ^ 8) (divide_byte-lt s (crc / 2 ^ 8) hs)
    ∙ ap (λ t. bit_xor t (crc % 2 ^ 8 % 256)) (first ∙ high_cleared)
    ∙ ap (bit_xor (crc % 2 ^ 8)) (omega arith)
    ∙ bit_xor_self (crc % 2 ^ 8)
  where
    crc : ℕ
    crc = ahead s

    crc-lt : crc < 2 ^ 16
    crc-lt = crc16_bits-lt 8 _ (crc16_bits-lt 8 s hs)

    first :
        crc16_bits 8 (divide_bits 8 s (crc / 2 ^ 8 % 256)) ≡ bit_xor crc (crc / 2 ^ 8 % 256 * 2 ^ 8)
    first =
        ap (crc16_bits 8) (byte_lem s (crc / 2 ^ 8) hs)
        ∙ crc16_bits_linear 8 (crc16_bits 8 s) (crc / 2 ^ 8 % 256) (crc16_bits-lt 8 s hs)
            (omega arith)
        ∙ ap (bit_xor crc) (crc16_bits_low 8 (crc / 2 ^ 8 % 256) (omega arith))

    high_cleared : bit_xor crc (crc / 2 ^ 8 % 256 * 2 ^ 8) ≡ crc % 2 ^ 8
    high_cleared =
        let same : crc / 2 ^ 8 % 256 ≡ crc / 2 ^ 8 = omega (arith, crc-lt) in
        let split : crc ≡ crc / 2 ^ 8 * 2 ^ 8 + crc % 2 ^ 8 = omega arith in
        rw same (
          ap (λ t. bit_xor t (crc / 2 ^ 8 * 2 ^ 8)) split
          ∙ bit_xor_fields 8 (crc / 2 ^ 8) (crc / 2 ^ 8) (crc % 2 ^ 8) (omega arith)
          ∙ omega (arith, bit_xor_self (crc / 2 ^ 8)))

-- Data with its CRC behind it, high byte first, leaves no remainder.
pub remainder-crc16 :
    (buf : List ℕ) → remainder (buf ++ crc16 buf / 2 ^ 8 ∷ crc16 buf % 2 ^ 8 ∷ []) ≡ 0
unfolding remainder crc16
remainder-crc16 buf =
    let clear : crc16_bits 8 0 ≡ 0 = crc16_bits_low 8 0 (omega arith) in
    let same : ahead (divide buf 0) ≡ crc16_loop buf 0 =
      ahead-divide buf 0 (omega arith) ∙ ap (crc16_loop buf) (ap (crc16_bits 8) clear ∙ clear) in
    divide-append buf _ 0
    ∙ ap (λ t. divide (t / 2 ^ 8 ∷ t % 2 ^ 8 ∷ []) (divide buf 0)) (sym same)
    ∙ divide-crc (divide buf 0) (divide-lt buf 0 (omega arith))
