-- ===== src/Repeat/Bytes/Stores.antt =====
-- What a store and a copy leave of the arrays of src/repeat_comm.cpp.
use hukong.Base.{
  ℕ, zero, suc, ◌+◌, ◌%◌, ◌^◌, ◌≤◌, ◌<◌, ◌≡◌, refl, ap, ◌≢◌, arith, List, [], ◌∷◌, ◌++◌, length,
  get_or, set, take, drop, All, IsBytes, length-set, length-append, length-take, length-drop,
  All-append, All-take, All-drop,
}
use hukong.Repeat.Bytes.{get, store, copy_at}

pub get_or-set_self : (xs : List ℕ) (i v d : ℕ) → i < length xs → get_or (set xs i v) i d ≡ v
get_or-set_self [] i v d h = absurd (omega arith)
get_or-set_self (x ∷ xs) zero v d h = refl
get_or-set_self (x ∷ xs) (suc i) v d h = get_or-set_self xs i v d (omega arith)

pub get_or-set_ne : (xs : List ℕ) (i j v d : ℕ) → i ≢ j → get_or (set xs i v) j d ≡ get_or xs j d
get_or-set_ne [] i j v d ne = refl
get_or-set_ne (x ∷ xs) zero zero v d ne = absurd (ne refl)
get_or-set_ne (x ∷ xs) zero (suc j) v d ne = refl
get_or-set_ne (x ∷ xs) (suc i) zero v d ne = refl
get_or-set_ne (x ∷ xs) (suc i) (suc j) v d ne = get_or-set_ne xs i j v d (λ e. ne (ap suc e))

All-set : (P : ℕ → Type 0) (xs : List ℕ) (i v : ℕ) → All P xs → P v → All P (set xs i v)
All-set P [] i v h p = h
All-set P (x ∷ xs) zero v h p = (p, h.1)
All-set P (x ∷ xs) (suc i) v h p = (h.0, All-set P xs i v h.1 p)

pub get-lt : (xs : List ℕ) (i : ℕ) → IsBytes xs → get xs i < 256
get-lt [] i h = omega arith
get-lt (x ∷ xs) zero h = h.0
get-lt (x ∷ xs) (suc i) h = get-lt xs i h.1

pub get-store : (xs : List ℕ) (i v : ℕ) → i < length xs → get (store xs i v) i ≡ v % 2 ^ 8
unfolding store
get-store xs i v h = get_or-set_self xs i (v % 2 ^ 8) 0 h

pub get-store_ne : (xs : List ℕ) (i j v : ℕ) → i ≢ j → get (store xs i v) j ≡ get xs j
unfolding store
get-store_ne xs i j v ne = get_or-set_ne xs i j (v % 2 ^ 8) 0 ne

pub length-store : (xs : List ℕ) (i v : ℕ) → length (store xs i v) ≡ length xs
unfolding store
length-store xs i v = length-set xs i (v % 2 ^ 8)

pub store-IsBytes : (xs : List ℕ) (i v : ℕ) → IsBytes xs → IsBytes (store xs i v)
unfolding store
store-IsBytes xs i v h = All-set (λ b. b < 256) xs i (v % 2 ^ 8) h (omega arith)

pub length-copy_at :
    (xs : List ℕ) (at : ℕ) (from : List ℕ)
    → at + length from ≤ length xs
    → length (copy_at xs at from) ≡ length xs
unfolding copy_at
length-copy_at xs at from h = omega (
  arith,
  length-append (take at xs) (from ++ drop (at + length from) xs),
  length-append from (drop (at + length from) xs),
  length-take at xs,
  length-drop (at + length from) xs,
)

pub copy_at-IsBytes :
    (xs : List ℕ) (at : ℕ) (from : List ℕ)
    → IsBytes xs
    → IsBytes from
    → IsBytes (copy_at xs at from)
unfolding copy_at
copy_at-IsBytes xs at from h k =
    let P : ℕ → Type 0 = λ b. b < 256 in
    All-append P (take at xs) (from ++ drop (at + length from) xs) (All-take P at xs h)
      (All-append P from (drop (at + length from) xs) k (All-drop P (at + length from) xs h))

-- Reading behind or at a prefix.
get_or-append_left : (xs ys : List ℕ) (i : ℕ) → i < length xs → get (xs ++ ys) i ≡ get xs i
get_or-append_left [] ys i h = absurd (omega arith)
get_or-append_left (x ∷ xs) ys zero h = refl
get_or-append_left (x ∷ xs) ys (suc i) h = get_or-append_left xs ys i (omega arith)

-- A copy to the start is what the start reads.
pub get-copy_at_start :
    (xs from : List ℕ) (i : ℕ) → i < length from → get (copy_at xs 0 from) i ≡ get from i
unfolding copy_at take
get-copy_at_start xs from i h = get_or-append_left from (drop (0 + length from) xs) i h
