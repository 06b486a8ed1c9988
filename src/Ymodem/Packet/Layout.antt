-- ===== src/Ymodem/Packet/Layout.antt =====
-- The size and the contents of block 0 of ymodem/src/ymodem.c.
use hukong.Base.{
  ℕ, zero, suc, ◌+◌, ◌-◌, ◌%◌, ◌^◌, ◌≤◌, ◌≡◌, ◌≢◌, refl, ap, ap₂, ◌∙◌, arith, List, [], ◌∷◌, ◌++◌,
  Option, none, some, length, take, replicate, All, All-take, length-append, length-replicate,
  append_assoc,
}
use hukong.Ymodem.Decimal.{u32_to_str}
use hukong.Ymodem.Decimal.RoundTrip.{value, u32_to_str-value, IsDigit}
use hukong.Ymodem.Packet.{copy_name, fill_block, block0}
use hukong.Ymodem.Receiver.{c_string, after_nul, read_block0}

length-copy_name :
    (filename : List ℕ) (count : ℕ) → count ≤ 110 → length (copy_name filename count) ≤ 110 - count
unfolding copy_name
length-copy_name [] count h = omega arith
length-copy_name (c ∷ filename) count h = ground (arith, length-copy_name filename (count + 1))

length-fill_block : (block : List ℕ) → length block ≤ 128 → length (fill_block block) ≡ 128
unfolding fill_block
length-fill_block block h = omega (
  arith,
  length-append block (replicate (128 - length block) 0),
  length-replicate (128 - length block) (zero),
)

-- The part of block 0 before the filling.
named : (filename : List ℕ) (size : ℕ) → length (copy_name filename 0 ++ 0 ∷ u32_to_str size) ≤ 121
named filename size = omega (
  arith,
  length-append (copy_name filename 0) (0 ∷ u32_to_str size),
  length-copy_name filename 0 (omega arith),
  (u32_to_str-value size).2,
)

-- Whatever the filename and the size, `block` is filled exactly: no write goes past its 128 bytes.
pub length-block0 : (filename : Option (List ℕ)) (size : ℕ) → length (block0 filename size) ≡ 128
unfolding block0
length-block0 none size = length-fill_block [] (omega arith)
length-block0 (some filename) size = length-fill_block _ (omega (arith, named filename size))

abbrev pub IsNonzero : ℕ → Type 0
IsNonzero c = c ≢ 0

-- The bound in the loop counts up, `take` counts down.
copy_name-take :
    (filename : List ℕ) (left count : ℕ)
    → left + count ≡ 110
    → All IsNonzero filename
    → copy_name filename count ≡ take left filename
unfolding copy_name take
copy_name-take [] zero count e h = refl
copy_name-take [] (suc left) count e h = refl
copy_name-take (c ∷ filename) zero count e (hc, h) = ground arith
copy_name-take (c ∷ filename) (suc left) count e (hc, h) =
    ground (arith, copy_name-take filename left (count + 1) (omega arith) h)

c_string-append :
    (xs ys : List ℕ)
    → All IsNonzero xs
    → (c_string (xs ++ 0 ∷ ys) ≡ xs) × (after_nul (xs ++ 0 ∷ ys) ≡ ys)
unfolding c_string after_nul
c_string-append [] ys h = (refl, refl)
c_string-append (x ∷ xs) ys (hx, h) = ground (arith, c_string-append xs ys h)

IsDigit-IsNonzero : (cs : List ℕ) → All IsDigit cs → All IsNonzero cs
IsDigit-IsNonzero [] h = tt
IsDigit-IsNonzero (c ∷ cs) (hc, h) = ((λ e. omega arith), IsDigit-IsNonzero cs h)

-- The filling behind the number, which is never empty, starts with its NUL.
fill_block-zero :
    (block : List ℕ) → length block ≤ 121 → (rest : List ℕ) × (fill_block block ≡ block ++ 0 ∷ rest)
unfolding fill_block replicate
fill_block-zero block h =
    let e : 128 - length block ≡ suc (127 - length block) = omega arith in
    (replicate (127 - length block) 0, ap (λ n. block ++ replicate n 0) (e))

-- A receiver reads from block 0 the filename, which holds no NUL, cut at 110 bytes, and the size modulo 2 ^ 32.
pub read_block0-block0 :
    (filename : List ℕ) (size : ℕ)
    → All IsNonzero filename
    → read_block0 (block0 (some filename) size) ≡ (take 110 filename, size % 2 ^ 32)
unfolding read_block0 block0
read_block0-block0 filename size h =
    let (rest, filled) =
      fill_block-zero (copy_name filename 0 ++ 0 ∷ digits) (named filename size) in
    let parts =
      c_string-append (take 110 filename) (digits ++ 0 ∷ rest) (All-take _ 110 filename h) in
    ap (λ b. (c_string b, value 0 (c_string (after_nul b)))) (filled ∙ regroup rest)
    ∙ ap₂ (λ a b. (a, value 0 (c_string b))) parts.0 parts.1
    ∙ ap (λ t. (take 110 filename, value 0 t))
        (c_string-append digits rest (IsDigit-IsNonzero digits (u32_to_str-value size).1)).0
    ∙ ap (λ t. (take 110 filename, t)) (u32_to_str-value size).0
  where
    digits : List ℕ
    digits = u32_to_str size

    regroup :
        (rest : List ℕ)
        → (copy_name filename 0 ++ 0 ∷ digits) ++ 0 ∷ rest
          ≡ take 110 filename ++ 0 ∷ (digits ++ 0 ∷ rest)
    regroup rest =
        append_assoc (copy_name filename 0) (0 ∷ digits) (0 ∷ rest)
        ∙ ap (λ t. t ++ 0 ∷ (digits ++ 0 ∷ rest)) (copy_name-take filename 110 0 (omega arith) h)
