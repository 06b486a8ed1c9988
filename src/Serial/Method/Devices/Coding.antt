-- ===== src/Serial/Method/Devices/Coding.antt =====
-- What the commands of src/protocol/protocol_method.cpp mean, and where the decoder of the curtain
-- answer leaves its table.
use hukong.Base.{
  ℕ, zero, suc, ◌+◌, ◌-◌, ◌*◌, ◌/◌, ◌%◌, ◌^◌, ◌≤◌, ◌<◌, ◌≡◌, ◌↔◌, ◌⊎◌, inl, inr, refl, arith, ◌==◌,
  ◌≢◌, leb, ◌&&◌, ◌||◌, true, List, [], ◌∷◌, none, some, get_elem?,
}
use hukong.Serial.Method.Devices.{shifted, light_data, light_switch, status_code, curtain_status}

-- Three bytes as a number, the lowest first.
abbrev pub number : List ℕ → ℕ
number [] = 0
number (b ∷ bs) = b + 256 * number bs

-- A shift by -1 to -16 has no low byte, as on machines that count the places modulo 32.
abbrev pub NoLowByte : (ℕ → ℕ) → Type 0
NoLowByte shift_back = (n : ℕ) → 1 ≤ n → n ≤ 16 → shift_back n % 2 ^ 8 ≡ 0

light_data-number :
    (sb : ℕ → ℕ) (index mode : ℕ)
    → NoLowByte sb
    → 1 ≤ index
    → index ≤ 6
    → mode < 2
    → number (light_data sb index mode) ≡ 2 ^ (2 * (index - 1) + (1 - mode))
unfolding light_data shifted
light_data-number sb zero mode low i1 i6 m = absurd (omega arith)
light_data-number sb index (suc (suc mode)) low i1 i6 m = absurd (omega arith)
light_data-number sb (suc zero) (suc zero) low i1 i6 m =
    omega (arith, low 8 (omega arith) (omega arith), low 16 (omega arith) (omega arith))
light_data-number sb (suc zero) zero low i1 i6 m =
    omega (arith, low 7 (omega arith) (omega arith), low 15 (omega arith) (omega arith))
light_data-number sb (suc (suc zero)) (suc zero) low i1 i6 m =
    omega (arith, low 6 (omega arith) (omega arith), low 14 (omega arith) (omega arith))
light_data-number sb (suc (suc zero)) zero low i1 i6 m =
    omega (arith, low 5 (omega arith) (omega arith), low 13 (omega arith) (omega arith))
light_data-number sb (suc (suc (suc zero))) (suc zero) low i1 i6 m =
    omega (arith, low 4 (omega arith) (omega arith), low 12 (omega arith) (omega arith))
light_data-number sb (suc (suc (suc zero))) zero low i1 i6 m =
    omega (arith, low 3 (omega arith) (omega arith), low 11 (omega arith) (omega arith))
light_data-number sb (suc (suc (suc (suc zero)))) (suc zero) low i1 i6 m =
    omega (arith, low 2 (omega arith) (omega arith), low 10 (omega arith) (omega arith))
light_data-number sb (suc (suc (suc (suc zero)))) zero low i1 i6 m =
    omega (arith, low 1 (omega arith) (omega arith), low 9 (omega arith) (omega arith))
light_data-number sb (suc (suc (suc (suc (suc zero))))) (suc zero) low i1 i6 m =
    omega (arith, low 8 (omega arith) (omega arith))
light_data-number sb (suc (suc (suc (suc (suc zero))))) zero low i1 i6 m =
    omega (arith, low 7 (omega arith) (omega arith))
light_data-number sb (suc (suc (suc (suc (suc (suc zero)))))) (suc zero) low i1 i6 m =
    omega (arith, low 6 (omega arith) (omega arith))
light_data-number sb (suc (suc (suc (suc (suc (suc zero)))))) zero low i1 i6 m =
    omega (arith, low 5 (omega arith) (omega arith))
light_data-number sb (suc (suc (suc (suc (suc (suc (suc index))))))) mode low i1 i6 m =
    absurd (omega arith)

-- On a machine where a shift by a negative count leaves no low byte, the command for one light sets
-- exactly one of 24 bits: bit 2 * (index - 1) to switch it on, the next one to switch it off.
pub light_switch-number :
    (shift_back : ℕ → ℕ) (dest index mode : ℕ)
    → NoLowByte shift_back
    → 1 ≤ dest
    → dest ≤ 8
    → 1 ≤ index
    → index ≤ 6
    → mode < 2
    → (data_bytes : List ℕ) × (light_switch shift_back dest index mode ≡ some data_bytes)
      × (number data_bytes ≡ 2 ^ (2 * (index - 1) + (1 - mode)))
unfolding light_switch
light_switch-number shift_back dest index mode low d1 d8 i1 i6 m = (
  light_data shift_back index mode,
  rw (allowed mode m) refl,
  light_data-number shift_back index mode low i1 i6 m,
)
  where
    allowed :
        (mode : ℕ)
        → mode < 2
        → ((mode == 1 || mode == 0) && ((leb 1 dest && leb dest 8) && leb index 6)) ≡ true
    allowed mode m = ground arith

status_code-entry :
    (n : ℕ)
    → n < 8
    → ((n ≡ 7) × (get_elem? status_code n ≡ none))
      ⊎ ((n ≢ 7) × ((c : ℕ) × (get_elem? status_code n ≡ some c)))
status_code-entry zero h = inr ((λ e. omega arith), (_, refl))
status_code-entry (suc zero) h = inr ((λ e. omega arith), (_, refl))
status_code-entry (suc (suc zero)) h = inr ((λ e. omega arith), (_, refl))
status_code-entry (suc (suc (suc zero))) h = inr ((λ e. omega arith), (_, refl))
status_code-entry (suc (suc (suc (suc zero)))) h = inr ((λ e. omega arith), (_, refl))
status_code-entry (suc (suc (suc (suc (suc zero))))) h = inr ((λ e. omega arith), (_, refl))
status_code-entry (suc (suc (suc (suc (suc (suc zero)))))) h = inr ((λ e. omega arith), (_, refl))
status_code-entry (suc (suc (suc (suc (suc (suc (suc zero))))))) h = inl (refl, refl)
status_code-entry (suc (suc (suc (suc (suc (suc (suc (suc n)))))))) h = absurd (omega arith)

-- The decoder of a curtain's answer reads outside its table of seven codes exactly if one of the two
-- three-bit fields is 7.
curtain_status_overreads : (b : ℕ) → (curtain_status b ≡ none) ↔ ((b % 8 ≡ 7) ⊎ (b / 8 % 8 ≡ 7))
unfolding curtain_status
curtain_status_overreads b = elim (status_code-entry (b % 8) (omega arith)) [
  | inl (e, f) ↦ rw (curtain_status, f) ((λ _. inl e), (λ _. refl))
  | inr (n, (c, f)) ↦ elim (status_code-entry (b / 8 % 8) (omega arith)) [
    | inl (e, g) ↦ rw (curtain_status, f, g) ((λ _. inr e), (λ _. refl))
    | inr (n', (c', g)) ↦
        rw (curtain_status, f, g) ((λ t. absurd cc), (λ h. absurd (either n n' h)))
  ]
]
  where
    either : {P Q : Type 0} → (P → ⊥) → (Q → ⊥) → P ⊎ Q → ⊥
    either p q (inl x) = p x
    either p q (inr y) = q y
