-- ===== src/Repeat/Calc.antt =====
-- The calls of src/repeat_comm.cpp on floating-point numbers. `rounded x times by` is what the code
-- stores of a `double` that it multiplies, divides and rounds, and `over a b d` the `double` that is
-- `(a - b) / d`. A vector is a function from its indices; its size is not looked at.
pub mod ReadBack
use hukong.Base.{ℕ, ◌==◌, leb, ◌&&◌, ◌||◌, if◌then◌else◌, ◌+◌, ◌*◌, ◌/◌, ◌%◌, ◌^◌, List, [], ◌∷◌}
use hukong.Repeat.Bytes.{get, word, store, copy_at}
use hukong.Repeat.State.{State}

-- The bytes of a `WORD`, of the 24 bits that the requests have, and of a `DWORD`, low byte first.
abbrev pub word_bytes : ℕ → List ℕ
word_bytes n = n % 2 ^ 8 ∷ n / 2 ^ 8 % 2 ^ 8 ∷ []

abbrev pub three_bytes : ℕ → List ℕ
three_bytes n = n % 2 ^ 8 ∷ n / 2 ^ 8 % 2 ^ 8 ∷ n / 2 ^ 16 % 2 ^ 8 ∷ []

abbrev pub dword_bytes : ℕ → List ℕ
dword_bytes n = n % 2 ^ 8 ∷ n / 2 ^ 8 % 2 ^ 8 ∷ n / 2 ^ 16 % 2 ^ 8 ∷ n / 2 ^ 24 % 2 ^ 8 ∷ []

-- The twelve numbers of a record, in the order of the code: each `DWORD` is written over by the
-- number behind it.
unfoldable pub put_calc : List ℕ → (ℕ → ℕ) → List ℕ
put_calc bytes n =
    let b2 = copy_at (copy_at bytes 0 (word_bytes (n 0))) 2 (word_bytes (n 1)) in
    let b4 = copy_at (copy_at b2 4 (word_bytes (n 2))) 6 (word_bytes (n 3)) in
    let b6 = copy_at (copy_at b4 8 (dword_bytes (n 4))) 11 (dword_bytes (n 5)) in
    let b8 = copy_at (copy_at b6 14 (word_bytes (n 6))) 16 (word_bytes (n 7)) in
    let b10 = copy_at (copy_at b8 18 (word_bytes (n 8))) 20 (word_bytes (n 9)) in
    copy_at (copy_at b10 22 (dword_bytes (n 10))) 25 (three_bytes (n 11))

-- Two prices behind them.
unfoldable pub put_price : List ℕ → ℕ → ℕ → List ℕ
put_price bytes a b = copy_at (copy_at bytes 28 (word_bytes a)) 30 (word_bytes b)

module _ {D : Type 0} (rounded : D → ℕ → ℕ → ℕ) where
  -- The third to the sixth are hundreds, the seventh and the eighth hundredths.
  abbrev pub aircondition_number : (ℕ → D) → ℕ → ℕ
  aircondition_number calc i =
      if leb 2 i && leb i 5
      then rounded (calc i) 1 100
      else if i == 6 || i == 7
      then rounded (calc i) 100 1
      else rounded (calc i) 1 1

  -- Of power and gas, and of water: the first two numbers and the seventh and eighth in hundredths.
  abbrev pub meter_number : (ℕ → D) → ℕ → ℕ
  meter_number calc i =
      if (i == 0 || i == 1) || (i == 6 || i == 7)
      then rounded (calc i) 100 1
      else rounded (calc i) 1 1

  unfoldable pub set_calc_aircondition : (ℕ → D) → State → State
  set_calc_aircondition calc s = record s {
    m_data_calc_aircondition = put_calc s.m_data_calc_aircondition (aircondition_number calc);
  }

  unfoldable pub set_calc_power_gas : (ℕ → D) → State → State
  set_calc_power_gas calc s = record s {
    m_data_calc_power_gas = put_calc s.m_data_calc_power_gas (meter_number calc);
  }

  unfoldable pub set_calc_water : (ℕ → D) → State → State
  set_calc_water calc s = record s {
    m_data_calc_water = put_calc s.m_data_calc_water (meter_number calc);
  }

  unfoldable pub set_price : (ℕ → D) → State → State
  set_price price s =
      let cents : ℕ → ℕ = λ i. rounded (price i) 100 1 in
      record s {
        m_data_calc_aircondition = put_price s.m_data_calc_aircondition (cents 0) (cents 1);
        m_data_calc_power_gas = put_price s.m_data_calc_power_gas (cents 2) (cents 3);
        m_data_calc_water = put_price s.m_data_calc_water (cents 4) (cents 5);
      }

pub record AirQuality (D : Type 0) : Type 0 where
  pub inner_pm03 : ℕ
  pub inner_pm25 : ℕ
  pub inner_pm10 : ℕ
  pub inner_voc : D
  pub inner_co2 : ℕ
  pub inner_temp : D
  pub inner_humidity : ℕ

pub record XinfengWindspeed (D : Type 0) : Type 0 where
  pub windspeed : D
  pub area : D

module _ {D : Type 0} (over : ℕ → ℕ → ℕ → D) where
  unfoldable pub get_air_quality : State → AirQuality D
  get_air_quality s =
      let p_data = s.m_data_query_setting in
      record {
        inner_pm03 = word p_data 11 + get p_data 13 * 2 ^ 16;
        inner_pm25 = word p_data 14;
        inner_pm10 = word p_data 16;
        inner_voc = over (word p_data 18) 0 100;
        inner_co2 = word p_data 20;
        inner_temp = over (get p_data 22) 50 2;
        inner_humidity = get p_data 23;
      }

  unfoldable pub get_xinfeng_wind_speed : State → XinfengWindspeed D
  get_xinfeng_wind_speed s = record {
    windspeed = over (word s.m_data_xinfeng 10) 0 10;
    area = over (word s.m_data_setting 12) 0 1000;
  }
