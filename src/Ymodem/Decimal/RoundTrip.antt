-- ===== src/Ymodem/Decimal/RoundTrip.antt =====
-- Reading the digits of `u32_to_str` in ymodem/src/ymodem.c back.
use native.Mathlib.Nat.{pow-suc}
use hukong.Base.{
  ℕ, zero, suc, ◌+◌, ◌-◌, ◌*◌, ◌/◌, ◌%◌, ◌^◌, ◌≤◌, ◌<◌, ◌≡◌, refl, ap, ◌∙◌, arith, List, [], ◌∷◌,
  ◌==◌, Bool-cases, inl, inr, length, All,
}
use hukong.Ymodem.Decimal.{digits_loop, u32_to_str}

-- What a receiver makes of decimal digits, the first the highest.
unfoldable pub value : ℕ → List ℕ → ℕ
value acc [] = acc
value acc (c ∷ cs) = value (acc * 10 + (c - b'0')) cs

abbrev pub IsDigit : ℕ → Type 0
IsDigit c = (b'0' ≤ c) × (c ≤ b'9')

value-digits_loop :
    (pos val : ℕ) (acc : List ℕ)
    → val < 10 ^ pos
    → value 0 (digits_loop pos val acc) ≡ value val acc
unfolding digits_loop
value-digits_loop zero val acc h = ap (λ v. value v acc) (omega arith)
value-digits_loop (suc pos) val acc h = elim (Bool-cases (val == 0)) [
  | inl e ↦ rw e (ap (λ v. value v acc) (ground arith))
  | inr e ↦ rw e (
      value-digits_loop pos (val / 10) ((val % 10 + b'0') ∷ acc) (omega (arith, pow-suc 10 pos))
      ∙ unfold value in (ap (λ v. value v acc) (omega arith)))
]

digits_loop-IsDigit :
    (pos val : ℕ) (acc : List ℕ) → All IsDigit acc → All IsDigit (digits_loop pos val acc)
unfolding digits_loop
digits_loop-IsDigit zero val acc h = h
digits_loop-IsDigit (suc pos) val acc h = elim (Bool-cases (val == 0)) [
  | inl e ↦ rw e h
  | inr e ↦ rw e (digits_loop-IsDigit pos (val / 10) _ ((omega arith, omega arith), h))
]

length-digits_loop :
    (pos val : ℕ) (acc : List ℕ) → length (digits_loop pos val acc) ≤ length acc + pos
unfolding digits_loop
length-digits_loop zero val acc = omega arith
length-digits_loop (suc pos) val acc =
    ground (arith, length-digits_loop pos (val / 10) ((val % 10 + b'0') ∷ acc))

-- `u32_to_str` of a 32-bit number is the number in decimal: at most ten digits and nothing else,
-- which read back as the number. A larger number is printed modulo 2 ^ 32.
pub u32_to_str-value :
    (n : ℕ)
    → (value 0 (u32_to_str n) ≡ n % 2 ^ 32)
      × All IsDigit (u32_to_str n)
      × (length (u32_to_str n) ≤ 10)
unfolding u32_to_str
u32_to_str-value n = elim (Bool-cases (n % 2 ^ 32 == 0)) [
  | inl e ↦ unfold value in ground arith
  | inr e ↦ rw e (
    value-digits_loop 10 (n % 2 ^ 32) [] (omega arith) ∙ (unfold value in refl),
    digits_loop-IsDigit 10 (n % 2 ^ 32) [] tt,
    length-digits_loop 10 (n % 2 ^ 32) [],
  )
]
