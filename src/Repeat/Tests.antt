-- ===== src/Repeat/Tests.antt =====
-- Runs of src/repeat_comm.cpp at concrete inputs.
mod Threads
use hukong.Base.{
  ℕ, ◌+◌, ◌*◌, ◌%◌, ◌/◌, ◌^◌, ◌≤◌, ◌<◌, ◌==◌, ◌≡◌, refl, arith, true, false, List, [], ◌∷◌, ◌++◌,
  Option, none, some, length, take, drop, set, replicate, length-replicate, IsBytes, All-replicate,
  bit_and,
}
use hukong.Base.Ranges.{Within}
use hukong.Serial.Packet.{
  is_check_sum_ok, get_packet_len, build_packet, fill_packet, close_packet, write, calc_check_sum,
  check_sum, accumulate,
}
use hukong.Repeat.Bytes.{get, store, copy_at}
use hukong.Repeat.State.{DevInfo, light, curtain, aircondition, meter, State, defaults, store_bits}
use hukong.Repeat.File.{repeat_comm, save, write_at, read_into, any_set, load}
use hukong.Repeat.File.Load.{load_mixes, load-save}
use hukong.Repeat.State.{data_setting, data_hukong}
use hukong.Repeat.Sensors.{process_sen, is_has_man_by_xinfeng, sense, sense_loop}
use hukong.Repeat.Sensors.Inputs.{process_sen-active}
use hukong.Repeat.Sensors.Rooms.{process_sen-occupied}
use hukong.Repeat.Settings.{
  set_light_off_time, set_curtain_off_time, set_dust_time, query_light_off_time,
  query_curtain_off_time, query_dust_time, set_device_count,
}
use hukong.Repeat.Steps.Invariant.{default_setting-IsRecord}
use hukong.Repeat.Settings.ReadBack.{energy_times, fields, energy_times-read_back}
use hukong.Repeat.Devices.{human_sen_to_dev, light_at, xinfeng_at}
use hukong.Repeat.Calc.{
  aircondition_number, meter_number, set_calc_aircondition, set_calc_power_gas, set_calc_water,
  set_price,
}
use hukong.Repeat.Calc.ReadBack.{InEitherOrder, calc-read_back}
use hukong.Repeat.Devices.Bound.{bound, bound_light, bound_xinfeng, human_sen_to_dev-bound}

-- The first input of this box is wired to people sensor 1, which is bound to unit 1; the second to
-- the gas sensor.
abbrev binds : List ℕ
binds = store (store (replicate 300 0) 7 0xd1) 53 0x01

-- Both contacts are open.
abbrev home : State
home = record defaults { m_data_hukong = binds; m_data_switch_status = replicate 300 0x0c }

process_sen-active_example : get (process_sen home).m_data_sen_status 13 ≡ 1
unfolding store replicate
process_sen-active_example =
    (process_sen-active home 13 (omega arith, omega arith)).1
      (1, omega arith, omega arith, (refl, refl))

process_sen-occupied_example : is_has_man_by_xinfeng (process_sen home) 1 ≡ true
unfolding store replicate
process_sen-occupied_example =
    (process_sen-occupied home 1).1
      (0, omega arith, omega arith, (refl, (0, omega arith, omega arith, (refl, refl))))

energy_times-read_back_example :
    ((set_light_off_time 2 home).0 ≡ true)
    × ((set_curtain_off_time 4 home).0 ≡ true)
    × ((set_dust_time 3 home).0 ≡ true)
    × (energy_times (set_light_off_time 2 home).1
        ≡ (2, query_curtain_off_time home, query_dust_time home))
    × (energy_times (set_curtain_off_time 4 home).1
        ≡ (query_light_off_time home, 4, query_dust_time home))
    × (energy_times (set_dust_time 3 home).1
        ≡ (query_light_off_time home, query_curtain_off_time home, 3))
unfolding defaults
energy_times-read_back_example =
    energy_times-read_back home 2 4 3 (omega (arith, default_setting-IsRecord.0))
      default_setting-IsRecord.1 (omega arith) (omega arith) (omega arith) (omega arith)
      (omega arith) (omega arith)

human_sen_to_dev-bound_example :
    human_sen_to_dev 1 256 home
    ≡ bound bound_light binds 25 1 0 48 ++ bound bound_xinfeng binds 53 1 0 8
human_sen_to_dev-bound_example = human_sen_to_dev-bound home 1 256 (omega arith) (omega arith)

-- Only the settings were ever saved: the bindings become the settings.
abbrev settings_only : List ℕ
settings_only = 0xf7 ∷ 0xf8 ∷ 32 ∷ 0 ∷ 0 ∷ 0x1d ∷ 0x81 ∷ 0x20 ∷ []

load_mixes_example :
    (load (some settings_only) [] defaults).m_data_hukong
    ≡ (load (some settings_only) [] defaults).m_data_setting
unfolding read_into copy_at take drop any_set
load_mixes_example = load_mixes settings_only [] defaults (omega arith) refl

load-save_example :
    (take 2
        (load
          (some (save true data_setting (5 ∷ 6 ∷ 7 ∷ []) 2 settings_only))
          []
          defaults).m_data_setting
      ≡ take 2 (5 ∷ 6 ∷ 7 ∷ []))
    × (take 2
          (load
            (some (save true data_hukong (5 ∷ 6 ∷ 7 ∷ []) 2 settings_only))
            []
            defaults).m_data_hukong
        ≡ take 2 (5 ∷ 6 ∷ 7 ∷ []))
unfolding any_set take
load-save_example =
    load-save settings_only [] (5 ∷ 6 ∷ 7 ∷ []) 2 defaults (omega arith) (omega arith) refl

-- Records of zeros.
abbrev blank_calc : State
blank_calc = record defaults {
  m_data_calc_aircondition = replicate 300 0;
  m_data_calc_power_gas = replicate 300 0;
  m_data_calc_water = replicate 300 0;
}

-- Whole numbers in place of those with a fraction.
abbrev scaled : ℕ → ℕ → ℕ → ℕ
scaled x times by = x * times / by

abbrev readings : ℕ → ℕ
readings i = i * 1000 + 7

abbrev price_list : ℕ → ℕ
price_list i = i + 1

calc-read_back_example :
    InEitherOrder
      (set_calc_aircondition scaled readings)
      (set_price scaled price_list)
      (λ t. t.m_data_calc_aircondition)
      (aircondition_number scaled readings)
      100
      200
      blank_calc
    × InEitherOrder
        (set_calc_power_gas scaled readings)
        (set_price scaled price_list)
        (λ t. t.m_data_calc_power_gas)
        (meter_number scaled readings)
        300
        400
        blank_calc
    × InEitherOrder
        (set_calc_water scaled readings)
        (set_price scaled price_list)
        (λ t. t.m_data_calc_water)
        (meter_number scaled readings)
        500
        600
        blank_calc
calc-read_back_example =
    calc-read_back scaled readings price_list blank_calc
      (omega (arith, length-replicate {A = ℕ} 300 0))
      (omega (arith, length-replicate {A = ℕ} 300 0))
      (omega (arith, length-replicate {A = ℕ} 300 0))
