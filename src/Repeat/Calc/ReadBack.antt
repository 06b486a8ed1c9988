-- ===== src/Repeat/Calc/ReadBack.antt =====
-- What can be read from the records that the calls of src/repeat_comm.cpp on floating-point numbers
-- fill.
use hukong.Base.{
  ℕ, zero, suc, ◌+◌, ◌*◌, ◌/◌, ◌%◌, ◌^◌, ◌≤◌, ◌<◌, ◌≡◌, refl, sym, ap, ◌∙◌, arith, List, [], ◌∷◌,
  ◌++◌, length, take, drop, subst,
}
use hukong.Repeat.Bytes.{get, word, copy_at}
use hukong.Repeat.State.{State}
use hukong.Repeat.Calc.{
  put_calc, put_price, aircondition_number, meter_number, set_calc_aircondition, set_calc_power_gas,
  set_calc_water, set_price,
}

-- The bytes from a place on, one by one.
gets : ℕ → ℕ → List ℕ → List ℕ
gets zero i xs = []
gets (suc n) i xs = get xs i ∷ gets n (suc i) xs

drop-get : (xs : List ℕ) (i : ℕ) → i < length xs → drop i xs ≡ get xs i ∷ drop (suc i) xs
unfolding drop
drop-get [] i h = absurd (omega arith)
drop-get (x ∷ xs) zero h = refl
drop-get (x ∷ xs) (suc i) h = drop-get xs i (omega arith)

drop-gets : (n i : ℕ) (xs : List ℕ) → i + n ≤ length xs → drop i xs ≡ gets n i xs ++ drop (i + n) xs
unfolding gets
drop-gets zero i xs h = let e : i + 0 ≡ i = omega arith in ap (λ k. drop k xs) (sym e)
drop-gets (suc n) i xs h =
    let e : suc i + n ≡ i + suc n = omega arith in
    drop-get xs i (omega arith)
    ∙ ap (λ l. get xs i ∷ l)
        (drop-gets n (suc i) xs (omega arith) ∙ ap (λ k. gets n (suc i) xs ++ drop k xs) e)

-- The 24 bits from a place on.
abbrev pub three : List ℕ → ℕ → ℕ
three bytes i = word bytes i + get bytes (i + 2) * 2 ^ 16

-- The twelve numbers, each cut to its place.
abbrev pub Says : (ℕ → ℕ) → List ℕ → Type 0
Says n bytes =
    (word bytes 0 ≡ n 0 % 2 ^ 16)
    × (word bytes 2 ≡ n 1 % 2 ^ 16)
    × (word bytes 4 ≡ n 2 % 2 ^ 16)
    × (word bytes 6 ≡ n 3 % 2 ^ 16)
    × (three bytes 8 ≡ n 4 % 2 ^ 24)
    × (three bytes 11 ≡ n 5 % 2 ^ 24)
    × (word bytes 14 ≡ n 6 % 2 ^ 16)
    × (word bytes 16 ≡ n 7 % 2 ^ 16)
    × (word bytes 18 ≡ n 8 % 2 ^ 16)
    × (word bytes 20 ≡ n 9 % 2 ^ 16)
    × (three bytes 22 ≡ n 10 % 2 ^ 24)
    × (three bytes 25 ≡ n 11 % 2 ^ 24)

abbrev pub Prices : ℕ → ℕ → List ℕ → Type 0
Prices a b bytes = (word bytes 28 ≡ a % 2 ^ 16) × (word bytes 30 ≡ b % 2 ^ 16)

word-cut : (n : ℕ) → n % 2 ^ 8 + n / 2 ^ 8 % 2 ^ 8 * 2 ^ 8 ≡ n % 2 ^ 16
word-cut n = omega arith

three-cut :
    (n : ℕ) → n % 2 ^ 8 + n / 2 ^ 8 % 2 ^ 8 * 2 ^ 8 + n / 2 ^ 16 % 2 ^ 8 * 2 ^ 16 ≡ n % 2 ^ 24
three-cut n = omega arith

put_calc-Says : (bytes : List ℕ) (n : ℕ → ℕ) → 32 ≤ length bytes → Says n (put_calc bytes n)
unfolding put_calc copy_at take drop gets
put_calc-Says bytes n h =
    subst (λ l. Says n (put_calc l n)) (sym (drop-gets 32 0 bytes h))
      (
        word-cut (n 0),
        word-cut (n 1),
        word-cut (n 2),
        word-cut (n 3),
        three-cut (n 4),
        three-cut (n 5),
        word-cut (n 6),
        word-cut (n 7),
        word-cut (n 8),
        word-cut (n 9),
        three-cut (n 10),
        three-cut (n 11),
      )

put_calc-Prices :
    (bytes : List ℕ) (n : ℕ → ℕ)
    → 32 ≤ length bytes
    → (word (put_calc bytes n) 28 ≡ word bytes 28) × (word (put_calc bytes n) 30 ≡ word bytes 30)
unfolding put_calc copy_at take drop gets
put_calc-Prices bytes n h =
    subst (λ l. (word (put_calc l n) 28 ≡ word l 28) × (word (put_calc l n) 30 ≡ word l 30))
      (sym (drop-gets 32 0 bytes h)) (refl, refl)

put_price-Prices : (bytes : List ℕ) (a b : ℕ) → 32 ≤ length bytes → Prices a b (put_price bytes a b)
unfolding put_price copy_at take drop gets
put_price-Prices bytes a b h =
    subst (λ l. Prices a b (put_price l a b)) (sym (drop-gets 32 0 bytes h))
      (word-cut a, word-cut b)

put_price-Says :
    (bytes : List ℕ) (n : ℕ → ℕ) (a b : ℕ)
    → 32 ≤ length bytes
    → Says n bytes
    → Says n (put_price bytes a b)
unfolding put_price copy_at take drop gets
put_price-Says bytes n a b h =
    subst (λ l. Says n l → Says n (put_price l a b)) (sym (drop-gets 32 0 bytes h)) (λ s. s)

-- A record has room for the numbers and the prices.
abbrev pub IsRoomy : List ℕ → Type 0
IsRoomy bytes = 32 ≤ length bytes

put_calc-IsRoomy : (bytes : List ℕ) (n : ℕ → ℕ) → IsRoomy bytes → IsRoomy (put_calc bytes n)
unfolding put_calc copy_at take drop gets
put_calc-IsRoomy bytes n h =
    subst (λ l. IsRoomy (put_calc l n)) (sym (drop-gets 32 0 bytes h)) (omega arith)

put_price-IsRoomy : (bytes : List ℕ) (a b : ℕ) → IsRoomy bytes → IsRoomy (put_price bytes a b)
unfolding put_price copy_at take drop gets
put_price-IsRoomy bytes a b h =
    subst (λ l. IsRoomy (put_price l a b)) (sym (drop-gets 32 0 bytes h)) (omega arith)

-- The numbers and the prices can be read from a record.
abbrev pub SaysBoth : (ℕ → ℕ) → ℕ → ℕ → List ℕ → Type 0
SaysBoth n a b bytes = Says n bytes × Prices a b bytes

either_order :
    (bytes : List ℕ) (n : ℕ → ℕ) (a b : ℕ)
    → IsRoomy bytes
    → SaysBoth n a b (put_price (put_calc bytes n) a b)
      × SaysBoth n a b (put_calc (put_price bytes a b) n)
either_order bytes n a b h =
    let room = put_calc-IsRoomy bytes n h in
    let priced = put_price-IsRoomy bytes a b h in
    let kept = put_calc-Prices (put_price bytes a b) n priced in
    let prices = put_price-Prices bytes a b h in
    (
      (
        put_price-Says (put_calc bytes n) n a b room (put_calc-Says bytes n h),
        put_price-Prices (put_calc bytes n) a b room,
      ),
      (put_calc-Says (put_price bytes a b) n priced, (kept.0 ∙ prices.0, kept.1 ∙ prices.1)),
    )

-- A call that sets the numbers and one that sets the prices, in either order: what one of the
-- records says.
abbrev pub InEitherOrder :
    (State → State) → (State → State) → (State → List ℕ) → (ℕ → ℕ) → ℕ → ℕ → State → Type 0
InEitherOrder set_numbers set_prices bytes n a b s =
    SaysBoth n a b (bytes (set_prices (set_numbers s)))
    × SaysBoth n a b (bytes (set_numbers (set_prices s)))

-- After `SetPrice` and one of the calls that set the twelve numbers of air conditioning, of power
-- and gas, or of water, in either order, every number and both prices can be read back from the
-- record: the four numbers of 24 bits, the others and the prices of 16, cut to that. The last bytes
-- of the `DWORD`s do no harm. The three records have at least 32 bytes.
pub calc-read_back :
    {D : Type 0} (rounded : D → ℕ → ℕ → ℕ) (calc price : ℕ → D) (s : State)
    → IsRoomy s.m_data_calc_aircondition
    → IsRoomy s.m_data_calc_power_gas
    → IsRoomy s.m_data_calc_water
    → InEitherOrder
        (set_calc_aircondition rounded calc)
        (set_price rounded price)
        (λ t. t.m_data_calc_aircondition)
        (aircondition_number rounded calc)
        (rounded (price 0) 100 1)
        (rounded (price 1) 100 1)
        s
      × InEitherOrder
          (set_calc_power_gas rounded calc)
          (set_price rounded price)
          (λ t. t.m_data_calc_power_gas)
          (meter_number rounded calc)
          (rounded (price 2) 100 1)
          (rounded (price 3) 100 1)
          s
      × InEitherOrder
          (set_calc_water rounded calc)
          (set_price rounded price)
          (λ t. t.m_data_calc_water)
          (meter_number rounded calc)
          (rounded (price 4) 100 1)
          (rounded (price 5) 100 1)
          s
unfolding set_price set_calc_aircondition set_calc_power_gas set_calc_water
calc-read_back rounded calc price s air power water =
    let cents : ℕ → ℕ = λ i. rounded (price i) 100 1 in
    (
      either_order s.m_data_calc_aircondition (aircondition_number rounded calc) (cents 0) (cents 1)
          air,
      either_order s.m_data_calc_power_gas (meter_number rounded calc) (cents 2) (cents 3) power,
      either_order s.m_data_calc_water (meter_number rounded calc) (cents 4) (cents 5) water,
    )
