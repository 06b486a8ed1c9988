-- ===== src/Repeat/Inner/Clock.antt =====
-- The requests 0x51 (set the clock), 0x50 (read it) and 0x05 (real-time data) of `InnerProcess`,
-- src/repeat_comm.cpp. The conversions of the C library between a time and its fields are not
-- modelled: the fields are what is set and what is read.
use hukong.Base.{
  ℕ, ◌+◌, ◌%◌, ◌==◌, ltb, not, if◌then◌else◌, Bool, true, List, [], ◌∷◌, ◌++◌, Option, none, some,
}
use hukong.Serial.Method.Devices.{bit_of}
use hukong.Serial.Packet.{get_function}
use hukong.Outside.Packet.{le16}
use hukong.Repeat.Bytes.{get}
use hukong.Repeat.State.{State}
use hukong.Repeat.Inner.Setting.{Response, respond}

-- `struct tm`, with the year and the month as they are counted.
pub record TimeOf : Type 0 where
  pub year : ℕ
  pub month : ℕ
  pub day : ℕ
  pub hour : ℕ
  pub minute : ℕ
  pub second : ℕ

-- The data of a packet starts at byte 7, and its length byte counts five more.
unfoldable pub time_in : List ℕ → TimeOf
time_in packet = record {
  year = 2000 + get packet 7;
  month = get packet 8;
  day = get packet 9;
  hour = get packet 10;
  minute = get packet 11;
  second = get packet 12;
}

unfoldable pub time_data : Bool → Option TimeOf → List ℕ
time_data internet none = bit_of internet ∷ 0 ∷ 0 ∷ 0 ∷ 0 ∷ 0 ∷ 0 ∷ []
time_data internet (some t) =
    bit_of internet ∷ t.year % 100 ∷ t.month ∷ t.day ∷ t.hour ∷ t.minute ∷ t.second ∷ []

-- A clock that follows the internet is not set. A wrong length has no response.
unfoldable pub time_request :
    Option TimeOf → List ℕ → State → State × Option Response × Option TimeOf
time_request now packet s =
    let set = get_function packet == 0x51 in
    let wrong = if set then not (get packet 2 == 11) else ltb 5 (get packet 2) in
    if wrong then (s, none, none) else (
      record s { m_is_meter_sync_time = true },
      some (respond packet (time_data s.m_is_internet now)),
      if set then (if s.m_is_internet then none else some (time_in packet)) else none,
    )

-- Wind speed and temperature, then the four words of the meter if it answered.
unfoldable pub real_time_request : Option (ℕ × ℕ × ℕ × ℕ) → List ℕ → State → Option Response
real_time_request meter packet s =
    let xinfeng : ℕ → ℕ = get s.m_data_xinfeng in
    let words : List ℕ = elim meter [
      | none ↦ 0 ∷ 0 ∷ 0 ∷ 0 ∷ 0 ∷ 0 ∷ 0 ∷ 0 ∷ []
      | some (power, hot, cold, gas) ↦ le16 power ++ (le16 hot ++ (le16 cold ++ le16 gas))
    ] in
    if ltb 5 (get packet 2)
    then none
    else some (respond packet (xinfeng 10 ∷ xinfeng 12 ∷ xinfeng 13 ∷ (words ++ 0 ∷ [])))
