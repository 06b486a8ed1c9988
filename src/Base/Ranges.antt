-- ===== src/Base/Ranges.antt =====
-- A number of a range with a property, found one number at a time.
use Prim.Native.Nat.{ℕ, ◌+◌, ◌≤◌, ◌<◌}
use mathlib.Core.Path.{subst}
use mathlib.Core.Logic.{◌↔◌, ◌⊎◌, inl, inr}
use native.Mathlib.Omega.{arith}
use native.Mathlib.Decide.{ℕ_discrete}

abbrev pub Within : (ℕ → Type 0) → ℕ → ℕ → Type 0
Within P low high = (k : ℕ) × (low ≤ k) × (k < high) × P k

pub iff_trans : {A B C : Type 0} → A ↔ B → B ↔ C → A ↔ C
iff_trans f g = ((λ a. g.0 (f.0 a)), (λ c. f.1 (g.1 c)))

-- Before the range, or in it.
abbrev pub Found : Type 0 → (ℕ → Type 0) → ℕ → ℕ → Type 0
Found Before P low high = Before ⊎ Within P low high

module _ {Now Before : Type 0} (P : ℕ → Type 0) (k : ℕ) (high : ℕ) (below : k < high) where
  -- The first number of the range is taken into account.
  pub Found-next : Now ↔ (Before ⊎ P k) → Found Now P (k + 1) high ↔ Found Before P k high
  Found-next step = (
    (λ s. elim s [
      | inl now ↦ elim (step.0 now) [
        | inl before ↦ inl before
        | inr here ↦ inr (k, omega arith, below, here)
      ]
      | inr (j, from, to, there) ↦ inr (j, omega arith, to, there)
    ]),
    (λ s. elim s [
      | inl before ↦ inl (step.1 (inl before))
      | inr (j, from, to, there) ↦ elim (ℕ_discrete j k) [
        | yes e ↦ inl (step.1 (inr (subst P e there)))
        | no ne ↦ inr (j, omega (arith, ne), to, there)
      ]
    ]),
  )

-- Nothing is in an empty range.
pub Found-empty : {Before : Type 0} (P : ℕ → Type 0) (k : ℕ) → Before ↔ Found Before P k k
Found-empty P k =
    (inl, (λ s. elim s [ inl b ↦ b | inr (j, from, to, there) ↦ absurd (omega arith) ]))
