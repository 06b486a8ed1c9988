-- ===== src/Repeat/Settings.antt =====
-- The parameters that other threads read and set through `RepeatComm` (src/repeat_comm.cpp): the
-- energy-saving times, the fresh-air times, floor and room, the device counts, the sensors outside
-- and the alarms. Each call holds the lock, and is one step. An argument that is stored in a `BYTE`
-- is a natural number here; a failed check returns `false` before anything is stored.
pub mod ReadBack
use hukong.Base.{
  ℕ, ◌+◌, ◌*◌, ◌%◌, ◌^◌, ◌==◌, ltb, leb, ◌&&◌, ◌||◌, not, if◌then◌else◌, Bool, true, false, List,
  [], ◌∷◌, ◌++◌, take, drop, length, min,
}
use hukong.Serial.Method.Devices.{bit_of}
use hukong.Repeat.Bytes.{get, get_bit, get_bits, word, store, copy_at}
use hukong.Repeat.State.{
  DevCount, light, curtain, aircondition, meter, human_group, State, store_bits, store_word,
  count_max_light, count_max_curtain, count_max_aircondition, count_max_meter,
  count_max_human_group,
}

-- A setter returns whether it accepted the index.
abbrev pub Call : Type 0
Call = State → Bool × State

unfoldable pub light_code : ℕ → ℕ
light_code index = if index == 1 then 0x03 else 0x02

unfoldable pub set_light_off_time : ℕ → Call
set_light_off_time index s = if ltb index 1 || ltb 2 index then (false, s) else (
  true,
  record s {
    m_data_setting = store_bits s.m_data_setting 8 3 5 (light_code index);
    m_is_bind_change = true;
  },
)

unfoldable pub query_light_off_time : State → ℕ
query_light_off_time s =
    let time = get_bits (get s.m_data_setting 8) 3 5 in
    if time == 0x03 then 1 else if time == 0x02 then 2 else 0

unfoldable pub curtain_code : ℕ → ℕ
curtain_code index =
    if index == 1 then 0x5 else if index == 2 then 0x2 else if index == 3 then 0x3 else 0x4

unfoldable pub set_curtain_off_time : ℕ → Call
set_curtain_off_time index s = if ltb index 1 || ltb 4 index then (false, s) else (
  true,
  record s { m_data_setting = store_bits s.m_data_setting 8 0 2 (curtain_code index) },
)

unfoldable pub query_curtain_off_time : State → ℕ
query_curtain_off_time s =
    let time = get_bits (get s.m_data_setting 8) 0 2 in
    if time == 0x05
    then 1
    else if time == 0x02
    then 2
    else if time == 0x03
    then 3
    else if time == 0x04
    then 4
    else 0

unfoldable pub dust_code : ℕ → ℕ
dust_code index =
    if index == 1 then 0x3 else if index == 2 then 0x1 else if index == 3 then 0x2 else 0x7

unfoldable pub set_dust_time : ℕ → Call
set_dust_time index s =
    if ltb index 1 || ltb 4 index
    then (false, s)
    else (true, record s { m_data_setting = store_bits s.m_data_setting 7 5 7 (dust_code index) })

unfoldable pub query_dust_time : State → ℕ
query_dust_time s =
    let time = get_bits (get s.m_data_setting 7) 5 7 in
    if time == 0x03
    then 1
    else if time == 0x01
    then 2
    else if time == 0x02
    then 3
    else if time == 0x07
    then 4
    else 0

-- In seconds; the test build has the same times.
unfoldable pub get_light_off_time : State → ℕ
get_light_off_time s =
    let time = get_bits (get s.m_data_setting 8) 3 5 in
    if time == 0x02 then 2 * 60 * 60 else if time == 0x03 then 10 * 60 else 0

pub record XinfengTime : Type 0 where
  pub off : ℕ
  pub on : ℕ

-- Outside the test build.
unfoldable pub get_xinfeng_time : State → XinfengTime
get_xinfeng_time s = record {
  on = get s.m_data_setting 14 * 60 * 60;
  off = get s.m_data_setting 15 * 60;
}

pub record XinfengTimeCtrl : Type 0 where
  pub leave : ℕ
  pub auto_run : ℕ

unfoldable pub query_xinfeng_time_ctrl : State → XinfengTimeCtrl
query_xinfeng_time_ctrl s = record {
  leave = get s.m_data_setting 14;
  auto_run = get s.m_data_setting 15;
}

unfoldable pub set_xinfeng_time_ctrl : XinfengTimeCtrl → Call
set_xinfeng_time_ctrl time s =
    if (leb 4 time.leave && leb time.leave 24) && (leb 10 time.auto_run && leb time.auto_run 60)
    then (
      true,
      record s { m_data_setting = store (store s.m_data_setting 14 time.leave) 15 time.auto_run },
    )
    else (false, s)

-- `WORD wArea = area * 1000`, already cut to the `WORD`.
unfoldable pub set_xinfeng_windarea : ℕ → State → State
set_xinfeng_windarea area s = record s { m_data_setting = store_word s.m_data_setting 12 area }

pub record FloorRoom : Type 0 where
  pub floor : ℕ
  pub room : ℕ

unfoldable pub get_floor_room : State → FloorRoom
get_floor_room s = record { floor = get s.m_data_hukong 66; room = get s.m_data_hukong 65 }

-- The caller's array has room for them: `nLen >= 6` is asserted.
unfoldable pub raw_get_device_count : State → List DevCount
raw_get_device_count s =
    let counts : ℕ → ℕ = λ i. get s.m_data_hukong (59 + i) in
    record { type = light; count = min (counts 0) count_max_light }
    ∷ record { type = curtain; count = min (counts 1) count_max_curtain }
    ∷ record { type = aircondition; count = min (counts 2) count_max_aircondition }
    ∷ record { type = meter; count = min (counts 3) count_max_meter }
    ∷ record { type = human_group; count = min (counts 4) count_max_human_group }
    ∷ []

-- Without the save to the file.
unfoldable pub set_device_count : ℕ → ℕ → ℕ → ℕ → State → State
set_device_count n_light n_curtain n_meter n_xinfeng s =
    let lights = store (store s.m_data_hukong 59 n_light) 60 n_curtain in
    record s {
      m_data_hukong = store (store lights 61 n_xinfeng) 62 n_meter;
      m_is_bind_change = true;
      m_is_dev_change = true;
    }

-- The flags that a reader takes and clears.
unfoldable pub is_bind_change : Call
is_bind_change s = (s.m_is_bind_change, record s { m_is_bind_change = false })

unfoldable pub is_dev_change : Call
is_dev_change s = (s.m_is_dev_change, record s { m_is_dev_change = false })

unfoldable pub is_meter_sync_time : Call
is_meter_sync_time s = (s.m_is_meter_sync_time, record s { m_is_meter_sync_time = false })

-- The states of the sensors, as many as the table counts, and no more than fit the caller's array.
unfoldable pub get_sen_status : ℕ → State → List ℕ
get_sen_status n_len s =
    let count = get s.m_data_hukong 63 in
    take (if ltb n_len count then n_len else count) (drop 1 s.m_data_sen_status)

-- Ten values, as an assertion says. `std::copy` cuts them to bytes.
unfoldable pub cut : List ℕ → List ℕ
cut [] = []
cut (v ∷ vs) = v % 2 ^ 8 ∷ cut vs

unfoldable pub set_outside_sen : List ℕ → State → State
set_outside_sen values s = record s {
  m_data_outside_sen = copy_at s.m_data_outside_sen 0 (cut values);
  m_season = get values 0 % 2 ^ 8;
  m_east_sun = get values 1 == 1;
  m_south_sun = get values 2 == 1;
  m_west_sun = get values 3 == 1;
}

unfoldable pub set_inner_air_detection : State → State
set_inner_air_detection s = record s { m_inner_air_detection = true }

unfoldable pub set_fire_alarm : Bool → State → State
set_fire_alarm alarm s = record s { m_broadcast_fire_alarm = alarm }

unfoldable pub query_outside_alarm : State → List ℕ
query_outside_alarm s =
    let sen : ℕ → ℕ = λ i. get s.m_data_outside_sen (i + 4) in
    sen 0 ∷ sen 1 ∷ sen 2 ∷ sen 3 ∷ sen 4 ∷ sen 5 ∷ []

unfoldable pub query_inner_alarm : State → List ℕ
query_inner_alarm s =
    let alarm : ℕ → ℕ = get_bit (get s.m_data_setting 10) in
    let sen : ℕ → ℕ = get s.m_data_sen_status in
    let leak_water = sen 9 + sen 10 + sen 11 + sen 12 in
    alarm 0 ∷ alarm 1 ∷ alarm 2 ∷ alarm 3 ∷ alarm 4 ∷ bit_of (ltb 0 leak_water) ∷ sen 13 ∷ []

unfoldable pub query_inner_alarm_new : State → List ℕ
query_inner_alarm_new s =
    let alarm : ℕ → ℕ = get_bit (get s.m_data_setting 10) in
    let sen : ℕ → ℕ = get s.m_data_sen_status in
    let leak_water = sen 9 + sen 10 + sen 11 + sen 12 in
    let fault : ℕ → ℕ = get_bit (get s.m_data_xinfeng 14) in
    alarm 0
    ∷ alarm 1
    ∷ alarm 2
    ∷ alarm 3
    ∷ alarm 4
    ∷ bit_of (ltb 0 leak_water)
    ∷ sen 13
    ∷ bit_of (not (alarm 5 == 0) || s.m_broadcast_fire_alarm)
    ∷ fault 0
    ∷ fault 1
    ∷ fault 2
    ∷ fault 3
    ∷ fault 4
    ∷ fault 5
    ∷ fault 6
    ∷ fault 7
    ∷ get_bit (get s.m_data_xinfeng 15) 0
    ∷ []
