-- ===== src/Serial/Method/Meter/Told.antt =====
-- `query_meter` of src/protocol/protocol_method.cpp on the data of a meter.
use hukong.Base.{
  ℕ, ◌+◌, leb, Bool, true, ◌*◌, ◌/◌, ◌%◌, ◌^◌, ◌≤◌, ◌<◌, ◌≡◌, refl, ap, ◌∙◌, arith, List, [], ◌∷◌,
  ◌++◌, none, some, take, drop,
}
use hukong.Serial.Method.{Method, Result, bcd, transform}
use hukong.Serial.Method.Bcd.{nibbles, decimal, bcd-decimal}
use hukong.Serial.Method.Meter.{
  Double, MeterStatus, reversed, reverse_all, bcd_at, in_kwh, in_kw, meter_status, status_of,
  query_meter,
}
use hukong.Serial.Method.Meter.Reading.{
  digits, EnergyUnit, kwh, mwh, hundred_mwh, PowerUnit, kw, w, mw, energy_byte, power_byte, Reading,
  IsFit, meter_data, energy, power, told, IsSmall,
}

-- A byte in front of eight digits: the unit, or another one that is no part of the number.
five :
    (n unit : ℕ)
    → n < 10 ^ 8
    → unit / 16 * 10 + unit % 16 < 42
    → bcd (unit ∷ digits (n / 1000000) ∷ digits (n / 10000) ∷ digits (n / 100) ∷ digits n ∷ []) 0
        % 100000000
      ≡ n
unfolding nibbles decimal
five n unit h u =
    let e =
      bcd-decimal
        (unit ∷ digits (n / 1000000) ∷ digits (n / 10000) ∷ digits (n / 100) ∷ digits n ∷ []) in
    omega (arith, e)

four :
    (n : ℕ)
    → n < 10 ^ 8
    → bcd (digits (n / 1000000) ∷ digits (n / 10000) ∷ digits (n / 100) ∷ digits n ∷ []) 0 ≡ n
unfolding nibbles decimal
four n h =
    let e =
      bcd-decimal (digits (n / 1000000) ∷ digits (n / 10000) ∷ digits (n / 100) ∷ digits n ∷ []) in
    omega (arith, e)

three : (n : ℕ) → n < 10 ^ 6 → bcd (digits (n / 10000) ∷ digits (n / 100) ∷ digits n ∷ []) 0 ≡ n
unfolding nibbles decimal
three n h =
    let e = bcd-decimal (digits (n / 10000) ∷ digits (n / 100) ∷ digits n ∷ []) in omega (arith, e)

module _ (F : Double) where
  hundredths : {m n : ℕ} → m ≡ n → F.over m 100 ≡ F.over n 100
  hundredths e = ap (λ n. F.over n 100) e

  parts : {m n : ℕ} → m ≡ n → F.over m 10000 ≡ F.over n 10000
  parts e = ap (λ n. F.over n 10000) e

  in_kwh-energy : (u : EnergyUnit) (n : ℕ) → in_kwh F (energy_byte u) (F.over n 100) ≡ energy F u n
  unfolding in_kwh
  in_kwh-energy kwh n = refl
  in_kwh-energy mwh n = refl
  in_kwh-energy hundred_mwh n = refl

  in_kw-power : (u : PowerUnit) (n : ℕ) → in_kw F (power_byte u) (F.over n 100) ≡ power F u n
  unfolding in_kw
  in_kw-power kw n = refl
  in_kw-power w n = refl
  in_kw-power mw n = refl

energy_byte-lt : (u : EnergyUnit) → energy_byte u / 16 * 10 + energy_byte u % 16 < 42
energy_byte-lt kwh = omega arith
energy_byte-lt mwh = omega arith
energy_byte-lt hundred_mwh = omega arith

power_byte-lt : (u : PowerUnit) → power_byte u / 16 * 10 + power_byte u % 16 < 42
power_byte-lt kw = omega arith
power_byte-lt w = omega arith
power_byte-lt mw = omega arith

-- Two states of the meter with the same numbers.
same_status :
    {D : Type 0} (s t : MeterStatus D)
    → s.cold_cur_rate ≡ t.cold_cur_rate
    → s.hot_cur_rate ≡ t.hot_cur_rate
    → s.cold_totoal ≡ t.cold_totoal
    → s.hot_totoal ≡ t.hot_totoal
    → s.hot_input_temp ≡ t.hot_input_temp
    → s.hot_output_temp ≡ t.hot_output_temp
    → s.hot_totoal_degree ≡ t.hot_totoal_degree
    → s.hot_cur_power ≡ t.hot_cur_power
    → s.cur_totoal_power ≡ t.cur_totoal_power
    → s.forward_totoal_degree ≡ t.forward_totoal_degree
    → s.gas_cur_rate ≡ t.gas_cur_rate
    → s.gas_totoal_rate ≡ t.gas_totoal_rate
    → s ≡ t
same_status s t p0 p1 p2 p3 p4 p5 p6 p7 p8 p9 p10 p11 = λ i. record {
  cold_cur_rate = p0 i;
  hot_cur_rate = p1 i;
  cold_totoal = p2 i;
  hot_totoal = p3 i;
  hot_input_temp = p4 i;
  hot_output_temp = p5 i;
  hot_totoal_degree = p6 i;
  hot_cur_power = p7 i;
  cur_totoal_power = p8 i;
  forward_totoal_degree = p9 i;
  gas_cur_rate = p10 i;
  gas_totoal_rate = p11 i;
}

meter_status-told :
    (F : Double) (flow volume : ℕ) (r : Reading) (rest : List ℕ)
    → IsSmall flow
    → IsSmall volume
    → IsFit r
    → meter_status F (meter_data flow volume r ++ rest) ≡ told F r
unfolding meter_status meter_data reverse_all reversed bcd_at take drop
meter_status-told F flow volume r rest f v fit =
    same_status (meter_status F (meter_data flow volume r ++ rest)) (told F r)
      (parts F (five r.cold_cur_rate flow fit.cold_cur_rate f))
      (parts F (five r.hot_cur_rate flow fit.hot_cur_rate f))
      (hundredths F (five r.cold_totoal volume fit.cold_totoal v))
      (hundredths F (five r.hot_totoal volume fit.hot_totoal v))
      (hundredths F (three r.hot_input_temp fit.hot_input_temp))
      (hundredths F (three r.hot_output_temp fit.hot_output_temp))
      (ap (in_kwh F (energy_byte r.energy_unit)) (
          hundredths F (
            five r.hot_totoal_degree (energy_byte r.energy_unit) fit.hot_totoal_degree
              (energy_byte-lt r.energy_unit)))
        ∙ in_kwh-energy F r.energy_unit r.hot_totoal_degree)
      (ap (in_kw F (power_byte r.power_unit)) (
          hundredths F (
            five r.hot_cur_power (power_byte r.power_unit) fit.hot_cur_power
              (power_byte-lt r.power_unit)))
        ∙ in_kw-power F r.power_unit r.hot_cur_power)
      (parts F (three r.cur_totoal_power fit.cur_totoal_power))
      (hundredths F (four r.forward_totoal_degree fit.forward_totoal_degree))
      (parts F (four r.gas_cur_rate fit.gas_cur_rate))
      (ap (λ n. F.over n 1) (four r.gas_totoal_rate fit.gas_totoal_rate))

-- When `transform` gives a packet whose data are those of a meter, `query_meter` tells what the meter
-- counts, in kWh and kW whatever the units are that it sends: each number of at most eight digits,
-- or six for the temperatures and the electric power. The bytes of the units of water are not part
-- of the numbers; with both digits together they are below 42.
pub query_meter-told :
    (F : Double) (fuel : ℕ) (m : Method) (dest : ℕ) (save_in_buffer sent : Bool)
    (later : List (List (List ℕ))) (call : Result) (packet : List ℕ) (flow volume : ℕ) (r : Reading)
    (rest : List ℕ)
    → 1 ≤ dest
    → dest ≤ 4
    → transform fuel m 0x00 dest 0x1f 0x02 none save_in_buffer true sent later ≡ some call
    → call.value ≡ some packet
    → drop 7 packet ≡ meter_data flow volume r ++ rest
    → IsSmall flow
    → IsSmall volume
    → IsFit r
    → query_meter F fuel m dest save_in_buffer sent later ≡ some (call, some (told F r))
unfolding query_meter
query_meter-told F fuel m dest save_in_buffer sent later call packet flow volume r rest lo hi t e d
      f v fit =
    let low : leb 1 dest ≡ true = ground arith in
    let high : leb dest 4 ≡ true = ground arith in
    rw (query_meter, low, high, t)
      (ap (λ v. some (call, status_of F v)) e
        ∙ ap (λ s. some (call, some s))
            (ap (meter_status F) d ∙ meter_status-told F flow volume r rest f v fit))
