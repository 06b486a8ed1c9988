-- ===== src/Ymodem/Remainder/Linear.antt =====
-- A round of `crc16` in ymodem/src/ymodem.c is linear: what it makes of a sum is the sum.
use hukong.Base.{
  ℕ, zero, suc, ◌+◌, ◌*◌, ◌/◌, ◌%◌, ◌^◌, ◌<◌, bit_xor, ◌≡◌, refl, sym, subst, ap, ◌∙◌, arith,
}
use hukong.Base.Bits.{
  bit_xor_fields, bit_xor_assoc, bit_xor_comm, bit_xor-zero, bit_xor_step, bit_xor_lt, bit_xor_low,
  bit_xor_join,
}
use hukong.Ymodem.Crc16.{crc16_bit, crc16_bits}
use hukong.Ymodem.Crc16.Rounds.{crc16_bit_low, crc16_bit-lt}
use hukong.Ymodem.Crc16.Detect.{crc16_bit_high}

pub bit_xor_double : (a b : ℕ) → bit_xor (2 * a) (2 * b) ≡ 2 * bit_xor a b
bit_xor_double a b =
    let half_a : 2 * a / 2 ≡ a = omega arith in
    let half_b : 2 * b / 2 ≡ b = omega arith in
    bit_xor_step (2 * a) (2 * b) ∙ rw half_a (rw half_b (omega arith))

-- A second term may go to the end.
pub bit_xor_swap : (a b c : ℕ) → bit_xor (bit_xor a b) c ≡ bit_xor (bit_xor a c) b
bit_xor_swap a b c =
    bit_xor_assoc a b c ∙ ap (bit_xor a) (bit_xor_comm b c) ∙ sym (bit_xor_assoc a c b)

-- Two numbers in terms of the bits from the `k`-th on and the `k` bits below it.
pub bit_xor_tops :
    (k p q r s : ℕ)
    → r < 2 ^ k
    → s < 2 ^ k
    → bit_xor (p * 2 ^ k + r) (q * 2 ^ k + s) ≡ bit_xor p q * 2 ^ k + bit_xor r s
bit_xor_tops k p q r s hr hs =
    ap (bit_xor (p * 2 ^ k + r)) (sym (bit_xor_join k q s hs))
    ∙ sym (bit_xor_assoc (p * 2 ^ k + r) s (q * 2 ^ k))
    ∙ ap (λ t. bit_xor t (q * 2 ^ k)) (bit_xor_low k p r s hr hs)
    ∙ bit_xor_fields k p q (bit_xor r s) (bit_xor_lt k r s hr hs)

-- What a round adds for the bit that leaves at the top.
poly_if : ℕ → ℕ
poly_if zero = 0
poly_if (suc n) = 0x1021

crc16_bit_top :
    (p r : ℕ) → p < 2 → r < 2 ^ 15 → crc16_bit (p * 2 ^ 15 + r) ≡ bit_xor (2 * r) (poly_if p)
unfolding poly_if
crc16_bit_top zero r hp h =
    let none_set : 0 * 2 ^ 15 + r ≡ r = omega arith in
    ap crc16_bit none_set ∙ omega (arith, crc16_bit_low r h, bit_xor-zero (2 * r))
crc16_bit_top (suc zero) r hp h = crc16_bit_high r h
crc16_bit_top (suc (suc p)) r hp h = absurd (omega arith)

poly_if_linear : (p q : ℕ) → p < 2 → q < 2 → bit_xor (poly_if p) (poly_if q) ≡ poly_if (bit_xor p q)
unfolding poly_if
poly_if_linear zero zero hp hq = refl
poly_if_linear zero (suc zero) hp hq = refl
poly_if_linear (suc zero) zero hp hq = refl
poly_if_linear (suc zero) (suc zero) hp hq = refl
poly_if_linear (suc (suc p)) q hp hq = absurd (omega arith)
poly_if_linear p (suc (suc q)) hp hq = absurd (omega arith)

-- The four terms of two sums, paired the other way.
bit_xor_pairs :
    (a b c d : ℕ) → bit_xor (bit_xor a b) (bit_xor c d) ≡ bit_xor (bit_xor a c) (bit_xor b d)
bit_xor_pairs a b c d =
    sym (bit_xor_assoc (bit_xor a b) c d)
    ∙ ap (λ t. bit_xor t d) (bit_xor_swap a b c)
    ∙ bit_xor_assoc (bit_xor a c) b d

tops_linear :
    (p q r s : ℕ)
    → p < 2
    → q < 2
    → r < 2 ^ 15
    → s < 2 ^ 15
    → crc16_bit (bit_xor (p * 2 ^ 15 + r) (q * 2 ^ 15 + s))
      ≡ bit_xor (crc16_bit (p * 2 ^ 15 + r)) (crc16_bit (q * 2 ^ 15 + s))
tops_linear p q r s hp hq hr hs =
    ap crc16_bit (bit_xor_tops 15 p q r s hr hs)
    ∙ crc16_bit_top (bit_xor p q) (bit_xor r s) (bit_xor_lt 1 p q hp hq) (bit_xor_lt 15 r s hr hs)
    ∙ ap (λ t. bit_xor t (poly_if (bit_xor p q))) (sym (bit_xor_double r s))
    ∙ ap (bit_xor (bit_xor (2 * r) (2 * s))) (sym (poly_if_linear p q hp hq))
    ∙ bit_xor_pairs (2 * r) (2 * s) (poly_if p) (poly_if q)
    ∙ ap (λ t. bit_xor t (bit_xor (2 * s) (poly_if q))) (sym (crc16_bit_top p r hp hr))
    ∙ ap (bit_xor (crc16_bit (p * 2 ^ 15 + r))) (sym (crc16_bit_top q s hq hs))

pub crc16_bit_linear :
    (a b : ℕ)
    → a < 2 ^ 16
    → b < 2 ^ 16
    → crc16_bit (bit_xor a b) ≡ bit_xor (crc16_bit a) (crc16_bit b)
crc16_bit_linear a b ha hb =
    let ea : a / 2 ^ 15 * 2 ^ 15 + a % 2 ^ 15 ≡ a = omega arith in
    let eb : b / 2 ^ 15 * 2 ^ 15 + b % 2 ^ 15 ≡ b = omega arith in
    subst (λ x. crc16_bit (bit_xor x b) ≡ bit_xor (crc16_bit x) (crc16_bit b)) ea
      (subst
        (λ y.
          crc16_bit (bit_xor (a / 2 ^ 15 * 2 ^ 15 + a % 2 ^ 15) y)
          ≡ bit_xor (crc16_bit (a / 2 ^ 15 * 2 ^ 15 + a % 2 ^ 15)) (crc16_bit y))
        eb
        (tops_linear (a / 2 ^ 15) (b / 2 ^ 15) (a % 2 ^ 15) (b % 2 ^ 15) (omega arith) (omega arith)
          (omega arith) (omega arith)))

pub crc16_bits_linear :
    (n a b : ℕ)
    → a < 2 ^ 16
    → b < 2 ^ 16
    → crc16_bits n (bit_xor a b) ≡ bit_xor (crc16_bits n a) (crc16_bits n b)
unfolding crc16_bits
crc16_bits_linear zero a b ha hb = refl
crc16_bits_linear (suc n) a b ha hb =
    ap (crc16_bits n) (crc16_bit_linear a b ha hb)
    ∙ crc16_bits_linear n (crc16_bit a) (crc16_bit b) (crc16_bit-lt a) (crc16_bit-lt b)
