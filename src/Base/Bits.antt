-- ===== src/Base/Bits.antt =====
-- Laws of the bit operations at every width, from the recursion on binary digits.
use Prim.Native.Nat.{
  ℕ, zero, suc, ◌+◌, ◌-◌, ◌*◌, ◌/◌, ◌%◌, ◌^◌, ◌≤◌, ◌<◌, bit_and, bit_or, bit_xor, digits, bitwise,
  bit_and-bitwise, bit_or-bitwise, bit_xor-bitwise, min, max, differ,
}
use mathlib.Core.Path.{◌≡◌, refl, ap, sym, ◌∙◌}
use native.Mathlib.Nat.{pow-suc, one-le-pow}
use native.Mathlib.Omega.{arith}

-- How one binary digit splits off. `extra` is fuel beyond the first operand: it changes nothing.
module _ (end : ℕ → ℕ) (digit : ℕ → ℕ → ℕ) where
  digits_empty : (fuel y : ℕ) → digits end digit fuel zero y ≡ end y
  digits_empty zero y = refl
  digits_empty (suc fuel) y = refl

  digits_deeper :
      (extra x y n : ℕ)
      → (x / 2 ≤ n
          → digits end digit (n + extra) (x / 2) (y / 2) ≡ digits end digit n (x / 2) (y / 2))
      → x ≤ suc n
      → digits end digit (suc (n + extra)) x y ≡ digits end digit (suc n) x y
  digits_deeper extra zero y n deeper h = refl
  digits_deeper extra (suc x) y n deeper h =
      ap (λ rest. rest * 2 + digit (suc x % 2) (y % 2)) (deeper (omega arith))

  digits_extra :
      (extra x y n : ℕ) → x ≤ n → digits end digit (n + extra) x y ≡ digits end digit n x y
  digits_extra extra zero y zero h =
      let e : 0 + extra ≡ extra = omega arith in rw e (digits_empty extra y)
  digits_extra extra (suc x) y zero h = absurd (omega arith)
  digits_extra extra x y (suc n) h =
      let e : suc n + extra ≡ suc (n + extra) = omega arith in
      rw e (digits_deeper extra x y n (λ q. digits_extra extra (x / 2) (y / 2) n q) h)

  split_low :
      (x y : ℕ)
      → bitwise end digit (suc x) y
        ≡ bitwise end digit (suc x / 2) (y / 2) * 2 + digit (suc x % 2) (y % 2)
  split_low x y =
      let half = suc x / 2 in
      let fuel : half + (x - half) ≡ x = omega arith in
      let shorter = digits_extra (x - half) half (y / 2) half (omega arith) in
      ap (λ rest. rest * 2 + digit (suc x % 2) (y % 2))
        (ap (λ k. digits end digit k half (y / 2)) (sym fuel) ∙ shorter)

pub bit_and_step : (x y : ℕ) → bit_and x y ≡ bit_and (x / 2) (y / 2) * 2 + min (x % 2) (y % 2)
bit_and_step zero y = simp bit_and-bitwise (omega arith)
bit_and_step (suc x) y = simp bit_and-bitwise (split_low (λ _. zero) min x y)

pub bit_or_step : (x y : ℕ) → bit_or x y ≡ bit_or (x / 2) (y / 2) * 2 + max (x % 2) (y % 2)
bit_or_step zero y = simp bit_or-bitwise (omega arith)
bit_or_step (suc x) y = simp bit_or-bitwise (split_low (λ rest. rest) max x y)

differ_digits : (a b : ℕ) → a < 2 → b < 2 → differ a b ≡ (a + b) % 2
differ_digits zero b p q = omega arith
differ_digits (suc zero) zero p q = refl
differ_digits (suc zero) (suc zero) p q = refl
differ_digits (suc zero) (suc (suc b)) p q = absurd (omega arith)
differ_digits (suc (suc a)) b p q = absurd (omega arith)

pub zero-bit_xor : (b : ℕ) → bit_xor 0 b ≡ b
zero-bit_xor b = bit_xor-bitwise 0 b

pub bit_xor_step : (a b : ℕ) → bit_xor a b ≡ bit_xor (a / 2) (b / 2) * 2 + (a + b) % 2
bit_xor_step zero b = omega (arith, zero-bit_xor b, zero-bit_xor (b / 2))
bit_xor_step (suc a) b = simp bit_xor-bitwise (
    omega (
      arith,
      split_low (λ rest. rest) differ a b,
      differ_digits (suc a % 2) (b % 2) (omega arith) (omega arith),
    ))

-- The half and the parity of an exclusive or.
pub bit_xor_parts :
    (a b : ℕ) → (bit_xor a b / 2 ≡ bit_xor (a / 2) (b / 2)) × (bit_xor a b % 2 ≡ (a + b) % 2)
bit_xor_parts a b = omega (arith, bit_xor_step a b)

-- Each law by recursion on a bound of the first operand: the step goes to the halves.
bit_xor-zero_fuel : (n a : ℕ) → a ≤ n → bit_xor a 0 ≡ a
bit_xor-zero_fuel zero a h = let e : a ≡ 0 = omega arith in rw e
bit_xor-zero_fuel (suc n) zero h = refl
bit_xor-zero_fuel (suc n) (suc a) h =
    omega (arith, bit_xor_step (suc a) 0, bit_xor-zero_fuel n (suc a / 2) (omega arith))

pub bit_xor-zero : (a : ℕ) → bit_xor a 0 ≡ a
bit_xor-zero a = bit_xor-zero_fuel a a (omega arith)

bit_xor_comm_fuel : (n a b : ℕ) → a ≤ n → bit_xor a b ≡ bit_xor b a
bit_xor_comm_fuel n zero b h = omega (arith, zero-bit_xor b, bit_xor-zero b)
bit_xor_comm_fuel zero (suc a) b h = absurd (omega arith)
bit_xor_comm_fuel (suc n) (suc a) b h = omega (
  arith,
  bit_xor_step (suc a) b,
  bit_xor_step b (suc a),
  bit_xor_comm_fuel n (suc a / 2) (b / 2) (omega arith),
)

pub bit_xor_comm : (a b : ℕ) → bit_xor a b ≡ bit_xor b a
bit_xor_comm a b = bit_xor_comm_fuel a a b (omega arith)

bit_xor_assoc_fuel : (n a b c : ℕ) → a ≤ n → bit_xor (bit_xor a b) c ≡ bit_xor a (bit_xor b c)
bit_xor_assoc_fuel n zero b c h = rw (zero-bit_xor b) (omega (arith, zero-bit_xor (bit_xor b c)))
bit_xor_assoc_fuel zero (suc a) b c h = absurd (omega arith)
bit_xor_assoc_fuel (suc n) (suc a) b c h = ground (
  arith,
  bit_xor_step (bit_xor (suc a) b) c,
  bit_xor_step (suc a) (bit_xor b c),
  bit_xor_parts (suc a) b,
  bit_xor_parts b c,
  bit_xor_assoc_fuel n (suc a / 2) (b / 2) (c / 2) (omega arith),
)

pub bit_xor_assoc : (a b c : ℕ) → bit_xor (bit_xor a b) c ≡ bit_xor a (bit_xor b c)
bit_xor_assoc a b c = bit_xor_assoc_fuel a a b c (omega arith)

bit_xor_self_fuel : (n a : ℕ) → a ≤ n → bit_xor a a ≡ 0
bit_xor_self_fuel n zero h = refl
bit_xor_self_fuel zero (suc a) h = absurd (omega arith)
bit_xor_self_fuel (suc n) (suc a) h =
    omega (arith, bit_xor_step (suc a) (suc a), bit_xor_self_fuel n (suc a / 2) (omega arith))

pub bit_xor_self : (a : ℕ) → bit_xor a a ≡ 0
bit_xor_self a = bit_xor_self_fuel a a (omega arith)

pub pow_double : (k : ℕ) → 2 ^ suc k ≡ 2 * 2 ^ k
pow_double k = omega (arith, pow-suc 2 k)

pub mul-pow_double : (q k : ℕ) → q * 2 ^ suc k ≡ 2 * (q * 2 ^ k)
mul-pow_double q k = omega (arith, ap (λ (t : ℕ). q * t) (pow-suc 2 k))

-- `x ^ (q << k)` changes only what stands above the lowest `k` digits.
pub bit_xor_fields :
    (k p q r : ℕ) → r < 2 ^ k → bit_xor (p * 2 ^ k + r) (q * 2 ^ k) ≡ bit_xor p q * 2 ^ k + r
bit_xor_fields zero p q r fits = let e : r ≡ 0 = omega arith in ground (arith, e)
bit_xor_fields (suc k) p q r fits = ground (
  arith,
  bit_xor_step (p * 2 ^ suc k + r) (q * 2 ^ suc k),
  mul-pow_double p k,
  mul-pow_double q k,
  mul-pow_double (bit_xor p q) k,
  pow_double k,
  bit_xor_fields k p q (r / 2) (omega arith),
)

pub bit_xor_lt : (k a b : ℕ) → a < 2 ^ k → b < 2 ^ k → bit_xor a b < 2 ^ k
bit_xor_lt zero a b p q = let e : a ≡ 0 = omega arith in rw e (omega (arith, zero-bit_xor b))
bit_xor_lt (suc k) a b p q = omega (
  arith,
  bit_xor_step a b,
  pow_double k,
  bit_xor_lt k (a / 2) (b / 2) (omega (arith, pow_double k)) (omega (arith, pow_double k)),
)

lt-pow : (x : ℕ) → x < 2 ^ x
lt-pow zero = omega arith
lt-pow (suc x) = omega (arith, pow_double x, lt-pow x)

-- By recursion on the width of the first operand.
bit_and-zero_within : (width x : ℕ) → x < 2 ^ width → bit_and x 0 ≡ 0
bit_and-zero_within zero x fits = let none_set : x ≡ 0 = omega arith in rw none_set
bit_and-zero_within (suc width) x fits =
    let half = bit_and-zero_within width (x / 2) (omega (arith, pow_double width)) in
    omega (arith, bit_and_step x 0, half)

pub bit_and-zero : (x : ℕ) → bit_and x 0 ≡ 0
bit_and-zero x = bit_and-zero_within x x (lt-pow x)

bit_and_fields : (k q r : ℕ) → r < 2 ^ k → bit_and (q * 2 ^ k + r) (2 ^ k - 1) ≡ r
bit_and_fields zero q r fits = rw bit_and-zero (omega arith)
bit_and_fields (suc k) q r fits = ground (
  arith,
  bit_and_step (q * 2 ^ suc k + r) (2 ^ suc k - 1),
  mul-pow_double q k,
  pow_double k,
  one-le-pow k 2,
  bit_and_fields k q (r / 2) (omega arith),
)

-- A mask of the `k` lowest digits is the remainder by `2 ^ k`.
pub bit_and_mask : (k a : ℕ) → bit_and a (2 ^ k - 1) ≡ a % 2 ^ k
bit_and_mask k a = ground (arith, one-le-pow k 2, bit_and_fields k (a / 2 ^ k) (a % 2 ^ k))

-- The test of one digit of a number that ends below it.
pub bit_and-pow_above : (k a : ℕ) → a < 2 ^ k → bit_and a (2 ^ k) ≡ 0
bit_and-pow_above zero a h = let e : a ≡ 0 = omega arith in rw e
bit_and-pow_above (suc k) a h = ground (
  arith,
  bit_and_step a (2 ^ suc k),
  pow_double k,
  bit_and-pow_above k (a / 2) (omega (arith, pow_double k)),
)

-- `r ^ (q << k)` is a sum when `r` fits `k` bits.
pub bit_xor_join : (k q r : ℕ) → r < 2 ^ k → bit_xor r (q * 2 ^ k) ≡ q * 2 ^ k + r
bit_xor_join k q r fits =
    let e : r ≡ 0 * 2 ^ k + r = omega arith in
    ap (λ t. bit_xor t (q * 2 ^ k)) e
    ∙ bit_xor_fields k 0 q r fits
    ∙ ap (λ t. t * 2 ^ k + r) (zero-bit_xor q)

-- Two terms of an exclusive or change places.
pub bit_xor_swap : (a b c : ℕ) → bit_xor (bit_xor a b) c ≡ bit_xor (bit_xor a c) b
bit_xor_swap a b c =
    bit_xor_assoc a b c ∙ ap (bit_xor a) (bit_xor_comm b c) ∙ sym (bit_xor_assoc a c b)

-- An exclusive or with a number that fits `k` bits leaves the digits above them alone.
pub bit_xor_low :
    (k p r b : ℕ) → r < 2 ^ k → b < 2 ^ k → bit_xor (p * 2 ^ k + r) b ≡ p * 2 ^ k + bit_xor r b
bit_xor_low k p r b hr hb =
    ap (λ t. bit_xor t b) (sym (bit_xor_join k p r hr))
    ∙ bit_xor_swap r (p * 2 ^ k) b
    ∙ bit_xor_join k p (bit_xor r b) (bit_xor_lt k r b hr hb)

pub le-mul-pow : (a k : ℕ) → a ≤ a * 2 ^ k
le-mul-pow a zero = omega arith
le-mul-pow a (suc k) = omega (arith, le-mul-pow a k, mul-pow_double a k)

-- The test of digit `k`.
pub bit_and-pow : (k q r : ℕ) → r < 2 ^ k → bit_and (q * 2 ^ k + r) (2 ^ k) ≡ q % 2 * 2 ^ k
bit_and-pow zero q r fits = let e : r ≡ 0 = omega arith in ground (arith, e, bit_and_mask 1 q)
bit_and-pow (suc k) q r fits = ground (
  arith,
  bit_and_step (q * 2 ^ suc k + r) (2 ^ suc k),
  mul-pow_double q k,
  mul-pow_double (q % 2) k,
  pow_double k,
  bit_and-pow k q (r / 2) (omega (arith, pow_double k)),
)

-- Bounds of an or: it is at least its first operand, and fits where both fit.
pub bit_or-le : (k a b : ℕ) → a < 2 ^ k → a ≤ bit_or a b
bit_or-le zero a b h = omega arith
bit_or-le (suc k) a b h =
    omega (arith, bit_or_step a b, bit_or-le k (a / 2) (b / 2) (omega (arith, pow_double k)))

pub zero-bit_or : (b : ℕ) → bit_or 0 b ≡ b
zero-bit_or b = bit_or-bitwise 0 b

pub bit_or-lt : (k a b : ℕ) → a < 2 ^ k → b < 2 ^ k → bit_or a b < 2 ^ k
bit_or-lt zero a b p q = let e : a ≡ 0 = omega arith in rw e (omega (arith, zero-bit_or b))
bit_or-lt (suc k) a b p q =
    let half =
      bit_or-lt k (a / 2) (b / 2) (omega (arith, pow_double k)) (omega (arith, pow_double k)) in
    omega (arith, bit_or_step a b, pow_double k, half)

bit_or-zero_within : (width a : ℕ) → a < 2 ^ width → bit_or a 0 ≡ a
bit_or-zero_within zero a h = let e : a ≡ 0 = omega arith in rw e (zero-bit_or 0)
bit_or-zero_within (suc width) a h =
    let half = bit_or-zero_within width (a / 2) (omega (arith, pow_double width)) in
    omega (arith, bit_or_step a 0, half)

pub bit_or-zero : (a : ℕ) → bit_or a 0 ≡ a
bit_or-zero a = bit_or-zero_within a a (lt-pow a)

-- The place of the highest digit.
pub highest : (fuel x : ℕ) → 0 < x → x ≤ fuel → (k : ℕ) × (2 ^ k ≤ x) × (x < 2 ^ suc k)
highest zero x p h = absurd (omega arith)
highest (suc fuel) (suc zero) p h = (0, omega arith, omega arith)
highest (suc fuel) zero p h = absurd (omega arith)
highest (suc fuel) (suc (suc x)) p h =
    let (k, low, high) = highest fuel (suc (suc x) / 2) (omega arith) (omega arith) in
    (suc k, omega (arith, pow_double k), omega (arith, pow_double (suc k)))
