-- ===== src/Repeat/Bytes/Halves.antt =====
-- The binding tables of src/repeat_comm.cpp, two entries to a byte.
use hukong.Base.{ℕ, ◌+◌, ◌*◌, ◌/◌, ◌%◌, ◌^◌, ◌≡◌, ap₂, arith, List}
use hukong.Repeat.Bytes.{get, get_bits}

-- Entry `k` of the table that starts at `base`.
abbrev pub half : List ℕ → ℕ → ℕ → ℕ
half bytes base k = get bytes (base + k / 2) / 2 ^ (k % 2 * 4) % 16

module _ (bytes : List ℕ) (base i : ℕ) where
  pub half_low : half bytes base (2 * i) ≡ get_bits (get bytes (base + i)) 0 3
  half_low =
      let e : 2 * i / 2 ≡ i = omega arith in
      let z : 2 * i % 2 * 4 ≡ 0 = omega arith in ap₂ (λ j p. get bytes (base + j) / 2 ^ p % 16) e z

  pub half_high : half bytes base (2 * i + 1) ≡ get_bits (get bytes (base + i)) 4 7
  half_high =
      let e : (2 * i + 1) / 2 ≡ i = omega arith in
      let z : (2 * i + 1) % 2 * 4 ≡ 4 = omega arith in
      ap₂ (λ j p. get bytes (base + j) / 2 ^ p % 16) e z
