-- ===== src/Repeat/Steps.antt =====
-- The threads of src/repeat_comm.cpp on the shared object, as steps in any order: a round of `Run`, a
-- round of the query thread, and the calls of the RPC threads. Each holds the lock, or only takes a
-- flag.
pub mod Records
pub mod Frames
pub mod Requests
pub mod Invariant
use hukong.Base.{ℕ, ◌≤◌, Bool, ◌≡◌, List, Option, none, some, length, IsBytes}
use hukong.Repeat.State.{State}
use hukong.Repeat.Settings.{
  XinfengTimeCtrl, set_light_off_time, set_curtain_off_time, set_dust_time, set_xinfeng_time_ctrl,
  set_xinfeng_windarea, set_device_count, is_bind_change, set_outside_sen, set_inner_air_detection,
  set_fire_alarm,
}
use hukong.Repeat.Climate.{air_command, query_has_one}
use hukong.Repeat.Polling.{World, Poll, round}
use hukong.Repeat.Run.{Site, run_once}

-- A packet is bytes.
abbrev pub IsPacket : Option (List ℕ) → Type 0
IsPacket none = Unit
IsPacket (some packet) = IsBytes packet

pub data Step (s t : State) : Type 0 where
  run :
      (w : Site) (packet : Option (List ℕ))
      → IsPacket packet
      → t ≡ (run_once w packet s).outcome.state
      → Step s t
  poll : (w : World) (p : Poll) → t ≡ (round s w p).2 → Step s t
  light_time : (index : ℕ) → t ≡ (set_light_off_time index s).1 → Step s t
  curtain_time : (index : ℕ) → t ≡ (set_curtain_off_time index s).1 → Step s t
  dust_time : (index : ℕ) → t ≡ (set_dust_time index s).1 → Step s t
  xinfeng_time : (time : XinfengTimeCtrl) → t ≡ (set_xinfeng_time_ctrl time s).1 → Step s t
  windarea : (area : ℕ) → t ≡ set_xinfeng_windarea area s → Step s t
  device_count :
      (lights curtains meters units : ℕ)
      → t ≡ set_device_count lights curtains meters units s
      → Step s t
  bind_change : t ≡ (is_bind_change s).1 → Step s t
  outside_sen : (values : List ℕ) → t ≡ set_outside_sen values s → Step s t
  air_detection : t ≡ set_inner_air_detection s → Step s t
  fire_alarm : (alarm : Bool) → t ≡ set_fire_alarm alarm s → Step s t
  air_set :
      (dest switch_mode mode xinfeng_mode temp energy : ℕ) (fix : Bool)
      → t ≡ (air_command dest switch_mode mode xinfeng_mode temp energy fix s).1
      → Step s t
  air_query : (dest : ℕ) → t ≡ (query_has_one dest s).1 → Step s t

pub data Reach (s : State) : State → Type 0 where
  here : Reach s s
  next : {t u : State} → Reach s t → Step t u → Reach s u
