-- ===== src/Reflected/Linear.antt =====
-- The bitwise step of ymodem/src/ymodem.c (`crc32`) and outside_env/src/protocol/crc16.cpp under an
-- exclusive or of higher bits, and what a table of 256 entries can hold of it.
use hukong.Base.{
  ℕ, zero, suc, ◌+◌, ◌*◌, ◌/◌, ◌%◌, ◌^◌, ◌<◌, bit_and, bit_xor, ◌≡◌, sym, ap, ◌∙◌, arith, List,
  get_or,
}
use hukong.Base.Bits.{
  bit_xor_parts, bit_xor_comm, bit_xor_swap, bit_xor_join, bit_xor_low, bit_xor_lt, bit_and_mask,
  pow_double,
}
use hukong.Reflected.{bit_step, bit_steps, byte_step, tabulate}

module _ (poly : ℕ) where
  bit_step-bit_xor : (x y : ℕ) → bit_step poly (bit_xor x (2 * y)) ≡ bit_xor (bit_step poly x) y
  unfolding bit_step
  bit_step-bit_xor x y = ground (arith, bit_xor_parts x (2 * y), bit_xor_swap (x / 2) y poly)

  bit_steps-bit_xor :
      (n x y : ℕ) → bit_steps poly n (bit_xor x (2 ^ n * y)) ≡ bit_xor (bit_steps poly n x) y
  unfolding bit_steps
  bit_steps-bit_xor zero x y = ap (bit_xor x) (omega arith)
  bit_steps-bit_xor (suc n) x y =
      ap (λ t. bit_steps poly n (bit_step poly (bit_xor x t))) shift
      ∙ ap (bit_steps poly n) (bit_step-bit_xor x (2 ^ n * y))
      ∙ bit_steps-bit_xor n (bit_step poly x) y
    where
      shift : 2 ^ suc n * y ≡ 2 * (2 ^ n * y)
      shift = omega (arith, ap (λ (t : ℕ). t * y) (pow_double n))

  -- The eight steps, split into the high part and the low byte of the register.
  bit_steps_split : (x : ℕ) → bit_steps poly 8 x ≡ bit_xor (bit_steps poly 8 (x % 256)) (x / 256)
  bit_steps_split x =
      ap (bit_steps poly 8) (sym recombine) ∙ bit_steps-bit_xor 8 (x % 256) (x / 256)
    where
      recombine : bit_xor (x % 256) (2 ^ 8 * (x / 256)) ≡ x
      recombine = ground (arith, bit_xor_join 8 (x / 256) (x % 256) (omega arith))

get_or-tabulate : (f : ℕ → ℕ) (n i k : ℕ) → k < n → get_or (tabulate f n i) k 0 ≡ f (i + k)
unfolding tabulate
get_or-tabulate f zero i k h = absurd (omega arith)
get_or-tabulate f (suc n) i zero h = ap f (omega arith)
get_or-tabulate f (suc n) i (suc k) h =
    get_or-tabulate f n (i + 1) k (omega arith) ∙ ap f (omega arith)

-- A byte below 256 leaves the high part of the register alone.
bit_xor_high : (crc b : ℕ) → b < 256 → bit_xor crc b / 256 ≡ crc / 256
bit_xor_high crc b h =
    ap (λ t. bit_xor t b / 256) split
    ∙ omega (
      arith,
      bit_xor_low 8 (crc / 256) (crc % 256) b (omega arith) h,
      bit_xor_lt 8 (crc % 256) b (omega arith) h,
    )
  where
    split : crc ≡ crc / 256 * 2 ^ 8 + crc % 256
    split = omega arith

-- The table-driven step is the bitwise one, for a table of the eight steps of each byte.
pub table_step :
    (poly : ℕ) (table : List ℕ) (crc b : ℕ)
    → table ≡ tabulate (bit_steps poly 8) 256 0
    → b < 256
    → bit_xor (crc / 2 ^ 8) (get_or table (bit_and (bit_xor crc b) 0xff) 0) ≡ byte_step poly crc b
unfolding byte_step
table_step poly table crc b e h =
    ap (bit_xor (crc / 2 ^ 8)) entry
    ∙ bit_xor_comm (crc / 2 ^ 8) (bit_steps poly 8 (x % 256))
    ∙ ap (bit_xor (bit_steps poly 8 (x % 256))) (sym (bit_xor_high crc b h))
    ∙ sym (bit_steps_split poly x)
  where
    x : ℕ
    x = bit_xor crc b

    entry : get_or table (bit_and x 0xff) 0 ≡ bit_steps poly 8 (x % 256)
    entry =
        ap (λ t. get_or t (bit_and x 0xff) 0) e
        ∙ ap (λ i. get_or (tabulate (bit_steps poly 8) 256 0) i 0) (bit_and_mask 8 x)
        ∙ get_or-tabulate (bit_steps poly 8) 256 0 (x % 256) (omega arith)
        ∙ ap (bit_steps poly 8) (omega arith)
