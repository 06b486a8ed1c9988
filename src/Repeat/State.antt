-- ===== src/Repeat/State.antt =====
-- The state of `RepeatComm` (src/repeat_comm.h) and what its constructor puts there. The arrays are
-- lists of bytes. `m_outside_temp`, a floating-point number, is left out: the operations that read
-- it take the byte that the code makes of it. A -1 in `m_sync_xinfeng_temp` and
-- `m_sync_xinfeng_mode` is `none`; the maps are functions, and a missing key is `none`.
use hukong.Base.{
  ℕ, ◌*◌, ◌+◌, ◌/◌, ◌==◌, if◌then◌else◌, Bool, true, false, List, Option, none, replicate,
}
use hukong.Repeat.Bytes.{get, set_bit, set_bits, store, copy_at}

-- `TYPE_LIGHT` to `TYPE_NULL`.
pub data DevType : Type 0 where
  light curtain aircondition meter human_group leak_water leak_gas null : DevType

-- The place of a record in the data file: `DATA_SETTING` and so on.
pub data DataType : Type 0 where
  data_setting data_query data_hukong data_others : DataType

abbrev pub data_record : ℕ
data_record = 300

abbrev pub count_max_light : ℕ
count_max_light = 8

abbrev pub count_max_curtain : ℕ
count_max_curtain = 8

abbrev pub count_max_aircondition : ℕ
count_max_aircondition = 8

abbrev pub count_max_meter : ℕ
count_max_meter = 4

abbrev pub count_max_human_dev : ℕ
count_max_human_dev = 34

abbrev pub count_max_leak_dev : ℕ
count_max_leak_dev = 34

abbrev pub count_max_human_group : ℕ
count_max_human_group = 8

abbrev pub max_room : ℕ
max_room = 250

abbrev pub max_floor : ℕ
max_floor = 220

pub record DevInfo : Type 0 where
  pub type : DevType
  pub addr : ℕ
  pub opt : ℕ

pub record DevCount : Type 0 where
  pub type : DevType
  pub count : ℕ

pub record State : Type 0 where
  pub m_data_setting : List ℕ
  pub m_data_query_setting : List ℕ
  pub m_data_hukong : List ℕ
  pub m_data_xinfeng : List ℕ
  pub m_data_switch_status : List ℕ
  pub m_data_sen_status : List ℕ
  pub m_data_calc_aircondition : List ℕ
  pub m_data_calc_power_gas : List ℕ
  pub m_data_calc_water : List ℕ
  pub m_data_outside_env : List ℕ
  pub m_data_outside_sen : List ℕ
  pub m_season : ℕ
  pub m_east_sun : Bool
  pub m_south_sun : Bool
  pub m_west_sun : Bool
  pub m_inner_air_detection : Bool
  pub m_fire_alarm : Bool
  pub m_broadcast_fire_alarm : Bool
  pub m_is_internet : Bool
  pub m_is_bind_change : Bool
  pub m_is_dev_change : Bool
  pub m_is_meter_sync_time : Bool
  pub m_sync_xinfeng_temp : Option ℕ
  pub m_sync_xinfeng_mode : Option ℕ
  pub m_fix_auto_xinfeng_bug : ℕ → Option ℕ
  pub m_fix_auto_xinfeng_bug_count : ℕ → Option ℕ
  pub m_is_kongguan_set_cmd : Bool

-- A closed contact is 1 and does not trigger; a gpio that reads 1 is open.
abbrev pub tran_sen_active : ℕ → Bool
tran_sen_active status = status == 0

abbrev pub tran_switch_status : Bool → ℕ
tran_switch_status active = if active then 0 else 1

abbrev pub tran_gpio_to_switch_status : ℕ → ℕ
tran_gpio_to_switch_status gpio = if gpio == 1 then 0 else 1

-- A store that sets one bit, or one field, of a byte of an array.
unfoldable pub store_bit : List ℕ → ℕ → ℕ → ℕ → List ℕ
store_bit bytes i seq v = store bytes i (set_bit (get bytes i) seq v)

unfoldable pub store_bits : List ℕ → ℕ → ℕ → ℕ → ℕ → List ℕ
store_bits bytes i begin end v = store bytes i (set_bits (get bytes i) begin end v)

-- `*(WORD *)&bytes[i] = __cpu_to_le16(w)`
unfoldable pub store_word : List ℕ → ℕ → ℕ → List ℕ
store_word bytes i w = store (store bytes i w) (i + 1) (w / 256)

unfoldable pub default_setting : List ℕ
default_setting =
    let dust = store_bits (replicate data_record 0) 7 5 7 0x01 in
    let curtain = store_bits dust 8 0 2 0x02 in
    let lamp = store_bits curtain 8 3 5 0x03 in
    let cold = store_bit lamp 9 2 1 in
    let sensed = store_bit (store_bit cold 10 6 1) 10 7 1 in
    let temp = store sensed 11 (25 * 2) in
    let area = store temp 12 18 in
    let xinfeng = store (store area 14 8) 15 30 in
    let inner = store xinfeng 27 (25 * 2 + 50) in store_word (store inner 30 20) 32 1800

unfoldable pub default_hukong : List ℕ
default_hukong =
    let boxes = copy_at (replicate data_record 0) 7 (replicate 18 0b11101110) in
    let lights = copy_at boxes 25 (replicate 28 0b10011001) in
    let xinfengs = copy_at lights 53 (replicate 4 0b10011001) in
    let east = store (store xinfengs 57 0xff) 58 0xff in
    let none_yet = store (store east 59 0) 60 0 in
    let counts = store (store (store (store none_yet 61 1) 62 1) 63 5) 64 4 in
    let placed = store (store counts 65 1) 66 1 in
    store_bits (store_bits (store_bits placed 7 0 3 1) 25 0 3 1) 53 0 3 1

unfoldable pub default_calc : ℕ → ℕ → List ℕ
default_calc low high = store_word (store_word (replicate 33 0) 28 low) 30 high

-- The state that the constructor has before it calls `Load`.
unfoldable pub defaults : State
defaults = record {
  m_data_setting = default_setting;
  m_data_query_setting = replicate data_record 0;
  m_data_hukong = default_hukong;
  m_data_xinfeng = replicate data_record 0;
  m_data_switch_status =
      replicate data_record (if tran_switch_status false == 1 then 0x0f else 0x00);
  m_data_sen_status = replicate data_record 0;
  m_data_calc_aircondition = default_calc 10 50;
  m_data_calc_power_gas = default_calc 100 400;
  m_data_calc_water = default_calc 50 500;
  m_data_outside_env = replicate 16 0xff;
  m_data_outside_sen = replicate 16 0;
  m_season = 0;
  m_east_sun = false;
  m_south_sun = false;
  m_west_sun = false;
  m_inner_air_detection = false;
  m_fire_alarm = false;
  m_broadcast_fire_alarm = false;
  m_is_internet = false;
  m_is_bind_change = true;
  m_is_dev_change = true;
  m_is_meter_sync_time = false;
  m_sync_xinfeng_temp = none;
  m_sync_xinfeng_mode = none;
  m_fix_auto_xinfeng_bug = λ _. none;
  m_fix_auto_xinfeng_bug_count = λ _. none;
  m_is_kongguan_set_cmd = false;
}
