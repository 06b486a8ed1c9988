-- ===== src/Repeat/Climate.antt =====
-- `RepeatComm::curtain`, `aircondition` and `query_aircondition` of src/repeat_comm.cpp: what they
-- add to the call of `ProtocolMethod`, and what they keep. The part under the lock is one step.
use hukong.Base.{
  ℕ, ◌+◌, ◌-◌, ◌/◌, ◌==◌, ltb, leb, ◌&&◌, ◌||◌, if◌then◌else◌, Bool, true, Option, none, some,
}
use hukong.Serial.Method.{update}
use hukong.Serial.Method.Aircon.{Celsius, AirCommand}
use hukong.Repeat.Bytes.{get, get_bit}
use hukong.Repeat.State.{State}
use hukong.Repeat.Sensors.{is_has_man_by_xinfeng, is_has_man_by_curtain, is_curtain_has_sunshine}

-- What a curtain is told beside its modes; the temperature outside is left out.
pub record CurtainEnv : Type 0 where
  pub has_one : Bool
  pub season : ℕ
  pub sunshine : Bool

unfoldable pub curtain_env : ℕ → State → CurtainEnv
curtain_env dest s = record {
  has_one = is_has_man_by_curtain s dest;
  season = s.m_season;
  sunshine = is_curtain_has_sunshine s dest;
}

-- `((int)(m_data_query_setting[22])-50)/2`, which C rounds to zero.
unfoldable pub inner_kongguang_temp : State → Celsius
inner_kongguang_temp s =
    let q = get s.m_data_query_setting 22 in
    record { below = ltb q 50; size = if ltb q 50 then (50 - q) / 2 else (q - 50) / 2 }

-- The command, and the state with what is kept: for unit 1 the temperature, from 5 to 35, and the
-- mode; for the automatic mode that somebody is there.
unfoldable pub air_command : ℕ → ℕ → ℕ → ℕ → ℕ → ℕ → Bool → State → AirCommand × State
air_command dest switch_mode mode xinfeng_mode temp energy fix s =
    let fixed = fix && (switch_mode == 1) in
    let marked =
      if fixed
      then record s {
        m_fix_auto_xinfeng_bug = update s.m_fix_auto_xinfeng_bug dest (some 1);
        m_fix_auto_xinfeng_bug_count = update s.m_fix_auto_xinfeng_bug_count dest (some 0);
      }
      else s in
    let mild = if ltb 35 temp then 35 else if ltb temp 5 then 5 else temp in
    (
      record {
        switch_mode = switch_mode;
        aircondition_mode = mode;
        xinfeng_mode = xinfeng_mode;
        temp = if dest == 1 then mild else temp;
        has_one = if fixed then true else is_has_man_by_xinfeng s dest;
        energy_save_mode = energy;
        inner_temp = inner_kongguang_temp s;
        fire_alarm = (get_bit (get s.m_data_setting 10) 5 == 1) || s.m_broadcast_fire_alarm;
      },
      if dest == 1
          then record marked { m_sync_xinfeng_temp = some mild; m_sync_xinfeng_mode = some mode }
          else marked,
    )

abbrev pub counted : Option ℕ → ℕ
counted none = 0
counted (some n) = n

-- Is somebody said to be there: the sensors say so, or the unit is marked, and the mark has not yet
-- been used twice.
unfoldable pub query_has_one : ℕ → State → Bool × State
query_has_one dest s =
    let n = counted (s.m_fix_auto_xinfeng_bug_count dest) + 1 in
    let marks =
      if leb 2 n then update s.m_fix_auto_xinfeng_bug dest (some 0) else s.m_fix_auto_xinfeng_bug in
    if counted (s.m_fix_auto_xinfeng_bug dest) == 1
    then (
      true,
      record s {
        m_fix_auto_xinfeng_bug = marks;
        m_fix_auto_xinfeng_bug_count = update s.m_fix_auto_xinfeng_bug_count dest (some n);
      },
    )
    else (is_has_man_by_xinfeng s dest, s)
