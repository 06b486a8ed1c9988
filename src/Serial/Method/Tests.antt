-- ===== src/Serial/Method/Tests.antt =====
-- Runs of src/protocol/protocol_method.cpp at concrete inputs.
use hukong.Base.{
  ℕ, ◌+◌, ◌-◌, ◌*◌, ◌^◌, ◌≡◌, refl, arith, false, true, inl, inr, List, [], ◌∷◌, some, none, ◌++◌,
  true, drop,
}
use hukong.Serial.Method.Aircon.{AirCommand, aircondition}
use hukong.Serial.Method.Aircon.Coding.{Says, aircondition-Says}
use hukong.Serial.Method.Devices.{
  light_switch, light_data, shifted, light_status, get_bit, set_bit, curtain_byte,
}
use hukong.Serial.Method.Devices.Coding.{NoLowByte, number, light_switch-number}
use hukong.Serial.Method.{Method, Result, transform}
use hukong.Serial.Method.Meter.{Double, query_meter}
use hukong.Serial.Method.Meter.Reading.{mwh, w, Reading, IsFit, meter_data, told}
use hukong.Serial.Method.Meter.Told.{query_meter-told}

-- Places counted modulo 32: 1 shifted by 32 - n places.
abbrev modulo_32 : ℕ → ℕ
modulo_32 n = 2 ^ (16 - n) * 2 ^ 16

modulo_32-NoLowByte : NoLowByte modulo_32
modulo_32-NoLowByte n low high = omega arith

light_switch-number_example :
    (data_bytes : List ℕ) × (light_switch modulo_32 3 5 0 ≡ some data_bytes)
    × (number data_bytes ≡ 2 ^ (2 * (5 - 1) + (1 - 0)))
light_switch-number_example =
    light_switch-number modulo_32 3 5 0 modulo_32-NoLowByte (omega arith) (omega arith)
      (omega arith) (omega arith) (omega arith)

light_switch-5_off : light_switch modulo_32 3 5 0 ≡ some (0 ∷ 2 ∷ 0 ∷ [])
unfolding light_switch light_data shifted
light_switch-5_off = refl

light_status-first_and_last : light_status 0x21 ≡ 1 ∷ 0 ∷ 0 ∷ 0 ∷ 0 ∷ 1 ∷ []
unfolding light_status get_bit
light_status-first_and_last = refl

-- ON for the inner curtain, STOP for the outer one, nobody in, winter, no sun.
curtain_byte-on_stop : curtain_byte 1 2 false 1 false ≡ 0b0110_1101
unfolding curtain_byte set_bit
curtain_byte-on_stop = refl

-- Heat unit 2 to 22 degrees with fresh air, at one degree below zero by the controller.
abbrev heating : AirCommand
heating = record {
  switch_mode = 1;
  aircondition_mode = 1;
  xinfeng_mode = 3;
  temp = 22;
  has_one = true;
  energy_save_mode = 5;
  inner_temp = record { below = true; size = 1 };
  fire_alarm = false;
}

aircondition-Says_example :
    (bytes : List ℕ) × (aircondition 2 heating ≡ some bytes) × Says heating bytes
aircondition-Says_example =
    aircondition-Says 2 heating (omega arith) (omega arith)
      (inr (inl refl), omega arith, omega arith, omega arith, omega arith, omega arith, omega arith)

-- A division, and what is done to its result, written down.
abbrev written_down : Double
written_down = record {
  Carrier = List ℕ;
  over = λ n d. n ∷ d ∷ [];
  times = λ x n. 0 ∷ n ∷ x;
  by = λ x n. 1 ∷ n ∷ x;
}

abbrev counters : Reading
counters = record {
  cold_cur_rate = 12345678;
  hot_cur_rate = 0;
  cold_totoal = 99999999;
  hot_totoal = 100;
  hot_input_temp = 4550;
  hot_output_temp = 3825;
  hot_totoal_degree = 777;
  energy_unit = mwh;
  hot_cur_power = 1500;
  power_unit = w;
  cur_totoal_power = 23000;
  forward_totoal_degree = 55555;
  gas_cur_rate = 4321;
  gas_totoal_rate = 1234;
}

counters-IsFit : IsFit counters
counters-IsFit = record {
  cold_cur_rate = omega arith;
  hot_cur_rate = omega arith;
  cold_totoal = omega arith;
  hot_totoal = omega arith;
  hot_input_temp = omega arith;
  hot_output_temp = omega arith;
  hot_totoal_degree = omega arith;
  hot_cur_power = omega arith;
  cur_totoal_power = omega arith;
  forward_totoal_degree = omega arith;
  gas_cur_rate = omega arith;
  gas_totoal_rate = omega arith;
}

-- The answer of meter 2, with the units of m3/h and m3 behind the flows and the volumes.
abbrev meter_answer : List ℕ
meter_answer = 0xf7 ∷ 0xf8 ∷ 56 ∷ 2 ∷ 0 ∷ 0x1f ∷ 0x02 ∷ (meter_data 0x35 0x2c counters ++ 0xfd ∷ [])

-- The cache holds it.
abbrev knows : Method
knows = record {
  comm = record {
    m_buffer = record { buf = 0 ∷ []; max_size = 1; cur_pos = 0 };
    m_queue = [];
    m_resend = true;
    m_packet = [];
  };
  query_packet_map = λ id. some meter_answer;
  query_packet_block_set = λ _. true;
  cmd_packet_trans_map = λ _. none;
}

abbrev cached : Result
cached = record { method = knows; value = some meter_answer; written = []; later = [] }

transform-knows : transform 1 knows 0x00 2 0x1f 0x02 none false true true [] ≡ some cached
unfolding transform
transform-knows = refl

query_meter-told_example :
    query_meter written_down 1 knows 2 false true []
    ≡ some (cached, some (told written_down counters))
query_meter-told_example =
    query_meter-told written_down 1 knows 2 false true [] cached meter_answer 0x35 0x2c counters
      (0xfd ∷ []) (omega arith) (omega arith) transform-knows refl (unfold drop in refl)
      (omega arith) (omega arith) counters-IsFit
