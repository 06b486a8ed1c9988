-- ===== src/Serial/Method/Meter/Reading.antt =====
-- The data of a meter, as `query_meter` of src/protocol/protocol_method.cpp reads them, and what its
-- caller is to be told.
use hukong.Base.{ℕ, ◌+◌, ◌*◌, ◌/◌, ◌%◌, ◌^◌, ◌<◌, List, [], ◌∷◌, ◌++◌}
use hukong.Serial.Method.Meter.{Double, MeterStatus}

-- The two lowest decimal digits of a number, in a byte.
abbrev pub digits : ℕ → ℕ
digits n = n / 10 % 10 * 16 + n % 10

-- The units, with the bytes that the meter sends for them.
pub data EnergyUnit : Type 0 where
  kwh mwh hundred_mwh : EnergyUnit

pub data PowerUnit : Type 0 where
  kw w mw : PowerUnit

abbrev pub energy_byte : EnergyUnit → ℕ
energy_byte kwh = 0x05
energy_byte mwh = 0x08
energy_byte hundred_mwh = 0x0a

abbrev pub power_byte : PowerUnit → ℕ
power_byte kw = 0x17
power_byte w = 0x14
power_byte mw = 0x1a

-- What the meter counts: rates in ten thousandths, totals and temperatures in hundredths of the
-- unit, and the gas total in whole cubic metres.
pub record Reading : Type 0 where
  pub cold_cur_rate : ℕ
  pub hot_cur_rate : ℕ
  pub cold_totoal : ℕ
  pub hot_totoal : ℕ
  pub hot_input_temp : ℕ
  pub hot_output_temp : ℕ
  pub hot_totoal_degree : ℕ
  pub energy_unit : EnergyUnit
  pub hot_cur_power : ℕ
  pub power_unit : PowerUnit
  pub cur_totoal_power : ℕ
  pub forward_totoal_degree : ℕ
  pub gas_cur_rate : ℕ
  pub gas_totoal_rate : ℕ

-- The numbers fit their digits.
pub record IsFit (r : Reading) : Type 0 where
  pub cold_cur_rate : r.cold_cur_rate < 10 ^ 8
  pub hot_cur_rate : r.hot_cur_rate < 10 ^ 8
  pub cold_totoal : r.cold_totoal < 10 ^ 8
  pub hot_totoal : r.hot_totoal < 10 ^ 8
  pub hot_input_temp : r.hot_input_temp < 10 ^ 6
  pub hot_output_temp : r.hot_output_temp < 10 ^ 6
  pub hot_totoal_degree : r.hot_totoal_degree < 10 ^ 8
  pub hot_cur_power : r.hot_cur_power < 10 ^ 8
  pub cur_totoal_power : r.cur_totoal_power < 10 ^ 6
  pub forward_totoal_degree : r.forward_totoal_degree < 10 ^ 8
  pub gas_cur_rate : r.gas_cur_rate < 10 ^ 8
  pub gas_totoal_rate : r.gas_totoal_rate < 10 ^ 8

-- Six or eight digits, the lowest two first.
abbrev pub six_digits : ℕ → List ℕ
six_digits n = digits n ∷ digits (n / 100) ∷ digits (n / 10000) ∷ []

abbrev pub eight_digits : ℕ → List ℕ
eight_digits n = digits n ∷ digits (n / 100) ∷ digits (n / 10000) ∷ digits (n / 1000000) ∷ []

-- The 51 bytes of data: `flow` and `volume` are the bytes of the units of water, which are not read.
unfoldable pub meter_data : ℕ → ℕ → Reading → List ℕ
meter_data flow volume r =
    eight_digits r.cold_cur_rate
    ++ flow
      ∷ (eight_digits r.hot_cur_rate
          ++ flow
            ∷ (eight_digits r.cold_totoal
                ++ volume
                  ∷ (eight_digits r.hot_totoal
                      ++ volume
                        ∷ (six_digits r.hot_input_temp
                            ++ (six_digits r.hot_output_temp
                                ++ (eight_digits r.hot_totoal_degree
                                    ++ energy_byte r.energy_unit
                                      ∷ (eight_digits r.hot_cur_power
                                          ++ power_byte r.power_unit
                                            ∷ (six_digits r.cur_totoal_power
                                                ++ (eight_digits r.forward_totoal_degree
                                                    ++ (eight_digits r.gas_cur_rate
                                                        ++ eight_digits r.gas_totoal_rate))))))))))

module _ (F : Double) where
  abbrev pub energy : EnergyUnit → ℕ → F.Carrier
  energy kwh n = F.over n 100
  energy mwh n = F.times (F.over n 100) 1000
  energy hundred_mwh n = F.times (F.over n 100) 100000

  abbrev pub power : PowerUnit → ℕ → F.Carrier
  power kw n = F.over n 100
  power w n = F.by (F.over n 100) 1000
  power mw n = F.times (F.over n 100) 1000

  -- What the caller is to be told.
  abbrev pub told : Reading → MeterStatus F.Carrier
  told r = record {
    cold_cur_rate = F.over r.cold_cur_rate 10000;
    hot_cur_rate = F.over r.hot_cur_rate 10000;
    cold_totoal = F.over r.cold_totoal 100;
    hot_totoal = F.over r.hot_totoal 100;
    hot_input_temp = F.over r.hot_input_temp 100;
    hot_output_temp = F.over r.hot_output_temp 100;
    hot_totoal_degree = energy r.energy_unit r.hot_totoal_degree;
    hot_cur_power = power r.power_unit r.hot_cur_power;
    cur_totoal_power = F.over r.cur_totoal_power 10000;
    forward_totoal_degree = F.over r.forward_totoal_degree 100;
    gas_cur_rate = F.over r.gas_cur_rate 10000;
    gas_totoal_rate = F.over r.gas_totoal_rate 1;
  }

-- A byte that is no part of the number stays below the width of `BCD`.
abbrev pub IsSmall : ℕ → Type 0
IsSmall unit = unit / 16 * 10 + unit % 16 < 42
