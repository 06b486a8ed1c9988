-- ===== src/Serial/Method/Devices/Fields.antt =====
-- What `SET_BIT` and `SET_BITS` of src/protocol/protocol_config.h do to the number a byte is.
use hukong.Base.{
  ℕ, zero, suc, ◌+◌, ◌-◌, ◌*◌, ◌/◌, ◌%◌, ◌^◌, ◌<◌, bit_and, bit_or, ◌≡◌, ap, ap₂, ◌∙◌, arith,
}
use hukong.Base.Bits.{
  bit_and_step, bit_or_step, pow_double, mul-pow_double, bit_and_mask, bit_and-zero, bit_or-zero,
  zero-bit_or,
}
use native.Mathlib.Nat.{one-le-pow}
use hukong.Serial.Method.Devices.{set_bit, set_bits}

-- The digits above the lowest `k` and those below, each met by its own mask.
bit_and_parts :
    (k q m r s : ℕ)
    → r < 2 ^ k
    → s < 2 ^ k
    → bit_and (q * 2 ^ k + r) (m * 2 ^ k + s) ≡ bit_and q m * 2 ^ k + bit_and r s
bit_and_parts zero q m r s hr hs =
    let er : r ≡ 0 = omega arith in let es : s ≡ 0 = omega arith in ground (arith, er, es)
bit_and_parts (suc k) q m r s hr hs = ground (
  arith,
  bit_and_step (q * 2 ^ suc k + r) (m * 2 ^ suc k + s),
  bit_and_step r s,
  mul-pow_double q k,
  mul-pow_double m k,
  mul-pow_double (bit_and q m) k,
  pow_double k,
  bit_and_parts k q m (r / 2) (s / 2) (omega (arith, pow_double k)) (omega (arith, pow_double k)),
)

bit_or_parts :
    (k q m r s : ℕ)
    → r < 2 ^ k
    → s < 2 ^ k
    → bit_or (q * 2 ^ k + r) (m * 2 ^ k + s) ≡ bit_or q m * 2 ^ k + bit_or r s
bit_or_parts zero q m r s hr hs =
    let er : r ≡ 0 = omega arith in let es : s ≡ 0 = omega arith in ground (arith, er, es)
bit_or_parts (suc k) q m r s hr hs = ground (
  arith,
  bit_or_step (q * 2 ^ suc k + r) (m * 2 ^ suc k + s),
  bit_or_step r s,
  mul-pow_double q k,
  mul-pow_double m k,
  mul-pow_double (bit_or q m) k,
  pow_double k,
  bit_or_parts k q m (r / 2) (s / 2) (omega (arith, pow_double k)) (omega (arith, pow_double k)),
)

-- A byte is a field `f` of `w` digits, with `p` above it and the `lo` digits of `r` below. The mask
-- clears the field, and the or fills it.
fill_field :
    (lo w p f r v m : ℕ)
    → f < 2 ^ w
    → r < 2 ^ lo
    → v < 2 ^ w
    → bit_and p m ≡ p
    → bit_and r (2 ^ lo - 1) ≡ r
    → bit_or
        (bit_and ((p * 2 ^ w + f) * 2 ^ lo + r) ((m * 2 ^ w + 0) * 2 ^ lo + (2 ^ lo - 1)))
        (v * 2 ^ lo)
      ≡ (p * 2 ^ w + v) * 2 ^ lo + r
fill_field lo w p f r v m hf hr hv hp hm =
    let low : 0 < 2 ^ lo = omega (arith, one-le-pow lo 2) in
    let wide : 0 < 2 ^ w = omega (arith, one-le-pow w 2) in
    let inner : bit_and (p * 2 ^ w + f) (m * 2 ^ w + 0) ≡ p * 2 ^ w + 0 =
      bit_and_parts w p m f 0 hf wide ∙ ap₂ (λ a b. a * 2 ^ w + b) hp (bit_and-zero f) in
    let cleared : bit_and ((p * 2 ^ w + f) * 2 ^ lo + r) ((m * 2 ^ w + 0) * 2 ^ lo + (2 ^ lo - 1))
        ≡ (p * 2 ^ w + 0) * 2 ^ lo + r =
      bit_and_parts lo (p * 2 ^ w + f) (m * 2 ^ w + 0) r (2 ^ lo - 1) hr (omega arith)
      ∙ ap₂ (λ a b. a * 2 ^ lo + b) inner hm in
    let spread : v ≡ 0 * 2 ^ w + v = omega arith in
    let filled : bit_or (p * 2 ^ w + 0) v ≡ p * 2 ^ w + v =
      ap (bit_or (p * 2 ^ w + 0)) spread
      ∙ bit_or_parts w p 0 0 v wide hv
      ∙ ap₂ (λ a b. a * 2 ^ w + b) (bit_or-zero p) (zero-bit_or v) in
    let placed : v * 2 ^ lo ≡ v * 2 ^ lo + 0 = omega arith in
    ap₂ bit_or cleared placed
    ∙ bit_or_parts lo (p * 2 ^ w + 0) v r 0 hr low
    ∙ ap₂ (λ a b. a * 2 ^ lo + b) filled (bit_or-zero r)

-- The three fields that the settings keep in a byte.
pub set_bits-low : (b v : ℕ) → b < 256 → v < 8 → set_bits b 0 2 v ≡ b / 8 * 8 + v
unfolding set_bits
set_bits-low b v hb hv =
    let e : b ≡ (b / 8 * 2 ^ 3 + b % 8) * 2 ^ 0 + 0 = omega arith in
    let p_fits : bit_and (b / 8) 31 ≡ b / 8 = omega (arith, bit_and_mask 5 (b / 8)) in
    let filled =
      fill_field 0 3 (b / 8) (b % 8) 0 v 31 (omega arith) (omega arith) hv p_fits
        (bit_and-zero 0) in
    ap (λ t. bit_or (bit_and t 248) (v * 2 ^ 0)) e ∙ filled ∙ omega arith

pub set_bits-middle : (b v : ℕ) → b < 256 → v < 8 → set_bits b 3 5 v ≡ b / 64 * 64 + v * 8 + b % 8
unfolding set_bits
set_bits-middle b v hb hv =
    let e : b ≡ (b / 64 * 2 ^ 3 + b / 8 % 8) * 2 ^ 3 + b % 8 = omega arith in
    let p_fits : bit_and (b / 64) 3 ≡ b / 64 = omega (arith, bit_and_mask 2 (b / 64)) in
    let r_fits : bit_and (b % 8) 7 ≡ b % 8 = omega (arith, bit_and_mask 3 (b % 8)) in
    let filled =
      fill_field 3 3 (b / 64) (b / 8 % 8) (b % 8) v 3 (omega arith) (omega arith) hv p_fits
        r_fits in
    ap (λ t. bit_or (bit_and t 199) (v * 2 ^ 3)) e ∙ filled ∙ omega arith

pub set_bits-high : (b v : ℕ) → b < 256 → v < 8 → set_bits b 5 7 v ≡ v * 32 + b % 32
unfolding set_bits
set_bits-high b v hb hv =
    let e : b ≡ (0 * 2 ^ 3 + b / 32) * 2 ^ 5 + b % 32 = omega arith in
    let r_fits : bit_and (b % 32) 31 ≡ b % 32 = omega (arith, bit_and_mask 5 (b % 32)) in
    let filled =
      fill_field 5 3 0 (b / 32) (b % 32) v 0 (omega arith) (omega arith) hv (bit_and-zero 0)
        r_fits in
    ap (λ t. bit_or (bit_and t 31) (v * 2 ^ 5)) e ∙ filled ∙ omega arith

-- A field of two digits over two that are kept, and a digit over four, with nothing above them.
pub set_bits-second : (b v : ℕ) → b < 4 → v < 4 → set_bits b 2 3 v ≡ v * 4 + b
unfolding set_bits
set_bits-second b v hb hv =
    let e : b ≡ (0 * 2 ^ 2 + 0) * 2 ^ 2 + b = omega arith in
    let r_fits : bit_and b 3 ≡ b = omega (arith, bit_and_mask 2 b) in
    let filled =
      fill_field 2 2 0 0 b v 15 (omega arith) (omega arith) hv (bit_and_mask 4 0) r_fits in
    ap (λ t. bit_or (bit_and t 243) (v * 2 ^ 2)) e ∙ filled ∙ omega arith

pub set_bit-fifth : (b v : ℕ) → b < 16 → v < 2 → set_bit b 4 v ≡ v * 16 + b
unfolding set_bit
set_bit-fifth b v hb hv =
    let e : b ≡ (0 * 2 ^ 1 + 0) * 2 ^ 4 + b = omega arith in
    let r_fits : bit_and b 15 ≡ b = omega (arith, bit_and_mask 4 b) in
    let value : v % 2 ≡ v = omega arith in
    let filled =
      fill_field 4 1 0 0 b v 7 (omega arith) (omega arith) hv (bit_and_mask 3 0) r_fits in
    ap₂ (λ t u. bit_or (bit_and t 239) (u * 2 ^ 4)) e value ∙ filled ∙ omega arith
