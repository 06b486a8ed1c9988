-- ===== src/Serial/Method/Aircon.antt =====
-- The air-conditioner commands and queries of src/protocol/protocol_method.cpp and the queries
-- of the other devices' types. An exception is `none`. A temperature
-- below zero is kept as a sign and a size.
pub mod Coding
use hukong.Base.{
  ℕ, ◌+◌, ◌-◌, ◌*◌, ◌/◌, ◌%◌, ◌^◌, bit_and, bit_or, ◌==◌, leb, ◌&&◌, ◌||◌, if◌then◌else◌, Bool,
  true, false, List, [], ◌∷◌, Option, none, some, get_or,
}
use hukong.Serial.Method.Devices.{get_bit, set_bit, get_bits, set_bits, bit_of}

-- A temperature: below zero or not, and how far from it.
pub record Celsius : Type 0 where
  pub below : Bool
  pub size : ℕ

-- `temp*2 + 50`, cut to a `BYTE`.
unfoldable pub celsius_byte : Celsius → ℕ
celsius_byte t = (if t.below then 306 - t.size * 2 % 256 else t.size * 2 + 50) % 2 ^ 8

pub record AirCommand : Type 0 where
  pub switch_mode : ℕ
  pub aircondition_mode : ℕ
  pub xinfeng_mode : ℕ
  pub temp : ℕ
  pub has_one : Bool
  pub energy_save_mode : ℕ
  pub inner_temp : Celsius
  pub fire_alarm : Bool

-- The six bytes that `aircondition` sends; ON is 1, OFF 0, NONE 3.
unfoldable pub aircondition_data : AirCommand → List ℕ
aircondition_data c =
    let switched = if c.switch_mode == 3 then 0 else if c.switch_mode == 1 then 0x01 else 0x02 in
    let fresh = set_bits switched 2 3 c.xinfeng_mode % 2 ^ 8 in
    let manned = set_bit fresh 4 (bit_of c.has_one) in
    let saving = set_bits manned 5 7 c.energy_save_mode % 2 ^ 8 in
    let mode = set_bit (set_bit 0 0 c.aircondition_mode) 1 1 in
    saving
    ∷ set_bit mode 2 (bit_of c.fire_alarm)
    ∷ c.temp * 2
    ∷ celsius_byte c.inner_temp
    ∷ 0
    ∷ 0
    ∷ []

unfoldable pub aircondition : ℕ → AirCommand → Option (List ℕ)
aircondition dest c =
    if (leb 1 dest && leb dest 8)
      && ((c.switch_mode == 1 || (c.switch_mode == 0 || c.switch_mode == 3))
          && ((c.aircondition_mode == 0 || c.aircondition_mode == 1)
              && ((leb 1 c.xinfeng_mode && leb c.xinfeng_mode 3)
                  && (leb 5 c.temp && leb c.temp 35))))
    then some (aircondition_data c)
    else none

-- The two bytes that `query_aircondition` sends.
unfoldable pub query_aircondition : ℕ → Bool → Celsius → Option (List ℕ)
query_aircondition dest has_one inner_temp =
    if leb 1 dest && leb dest 8
    then some (set_bit 0 4 (bit_of has_one) ∷ celsius_byte inner_temp ∷ [])
    else none

pub record AirStatus : Type 0 where
  pub switch_mode : ℕ
  pub xinfeng_mode : ℕ
  pub energy_save_mode : ℕ
  pub aircondition_mode : ℕ
  pub temp_setting : ℕ
  pub xinfeng_switch : ℕ
  pub tiaofeng_switch : ℕ
  pub paifeng_switch : ℕ
  pub fire_alarm : ℕ
  pub alarm1 : ℕ
  pub alarm2 : ℕ

-- What is read from the data of the answer.
unfoldable pub air_status : List ℕ → AirStatus
air_status p_data =
    let byte : ℕ → ℕ = λ i. get_or p_data i 0 in
    record {
      switch_mode = byte 0 % 2;
      xinfeng_mode = get_bits (byte 0) 2 3;
      energy_save_mode = get_bits (byte 0) 5 7;
      aircondition_mode = byte 1 % 2;
      temp_setting = byte 9 / 2;
      xinfeng_switch = get_bit (byte 2) 0;
      tiaofeng_switch = get_bit (byte 2) 1;
      paifeng_switch = get_bit (byte 2) 2;
      fire_alarm = get_bit (byte 1) 2;
      alarm1 = byte 7;
      alarm2 = byte 8;
    }

-- `query_type` on the first byte of the answer; another byte leaves the type at zero.
unfoldable pub hardware_type : ℕ → ℕ
hardware_type b =
    if b == 0x0a
    then 0x0a
    else if b == 0x0b
    then 0x0b
    else if b == 0x0c
    then 0x0c
    else if b == 0x0d
    then 0x0d
    else 0
