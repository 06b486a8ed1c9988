-- ===== src/Repeat/Tests/Threads.antt =====
-- Rounds of the two threads of src/repeat_comm.cpp at concrete inputs.
use hukong.Base.{
  true, ◌&&◌, length, ℕ, ◌<◌, ◌==◌, if◌then◌else◌, ◌≡◌, refl, arith, false, List, [], ◌∷◌, ◌++◌,
  none, some, replicate, IsBytes, All-replicate,
}
use hukong.Repeat.State.{DevInfo, light, meter, State, defaults}
use hukong.Repeat.File.{repeat_comm}
use hukong.Repeat.Polling.{answered, failed, threw, World, Poll, rounds}
use hukong.Repeat.Polling.Turns.{ids, asked_ids, Served, rounds-turns}
use hukong.Repeat.Settings.{set_device_count}
use hukong.Repeat.Settings.ReadBack.{fields}
use hukong.Repeat.Inner.{Outside}
use hukong.Repeat.Inner.Setting.{set_frame}
use hukong.Repeat.Inner.Restore.{pick_all, set_frame-fields}
use hukong.Serial.Method.{Method, transform}
use hukong.Repeat.Run.{Bus, bus_of, Site, run_once}
use hukong.Repeat.Steps.{here, next, run, device_count}
use hukong.Repeat.Steps.Frames.{IsWell}
use hukong.Repeat.Steps.Invariant.{Reach-IsWell, repeat_comm-IsWell, default_setting-IsRecord}

-- The first query fails, the second is answered.
abbrev second_try : World
second_try = record {
  cmd_seen = λ _. false;
  query = λ k. if k == 0 then failed else answered;
  command = λ _. threw;
}

abbrev still : State
still = record defaults { m_is_dev_change = false }

abbrev lamp : DevInfo
lamp = record { type = light; addr = 3; opt = 0 }

abbrev gauge : DevInfo
gauge = record { type = meter; addr = 1; opt = 1 }

abbrev two_devices : Poll
two_devices = record { devices = lamp ∷ gauge ∷ []; alarms = λ _. none }

rounds-turns_example :
    (asked_ids (rounds ((still, second_try) ∷ (still, second_try) ∷ []) two_devices).0
      ≡ (light, 3) ∷ (meter, 1) ∷ [])
    × Served
        ((still, second_try) ∷ (still, second_try) ∷ [])
        (rounds ((still, second_try) ∷ (still, second_try) ∷ []) two_devices).0
    × (ids (rounds ((still, second_try) ∷ (still, second_try) ∷ []) two_devices).1.devices
        ≡ [] ++ (light, 3) ∷ (meter, 1) ∷ [])
unfolding ids
rounds-turns_example =
    rounds-turns ((still, second_try) ∷ (still, second_try) ∷ []) two_devices
      ((light, 3) ∷ (meter, 1) ∷ []) [] (refl, (refl, tt)) refl
      ((omega arith, omega arith), ((omega arith, omega arith), tt)) refl

-- The controller queries light box 2.
abbrev light_query : List ℕ
light_query = 0xf7 ∷ 0xf8 ∷ 5 ∷ 0 ∷ 2 ∷ 0x1d ∷ 0x44 ∷ 0x68 ∷ 0xfd ∷ replicate 253 0

light_query-IsBytes : IsBytes light_query
light_query-IsBytes = (
  omega arith,
  (
    omega arith,
    (
      omega arith,
      (
        omega arith,
        (
          omega arith,
          (
            omega arith,
            (
              omega arith,
              (omega arith, (omega arith, All-replicate (λ x. x < 256) 253 0 (omega arith))),
            ),
          ),
        ),
      ),
    ),
  ),
)

-- Every device answers with the packet of the query.
abbrev echo : Bus
echo src dest type function bytes = some light_query

-- Only box 2 answers, and only to a query of its lights that carries no data.
abbrev choosy : Bus
choosy src dest type function bytes =
    if dest == 2 && (type == 0x1e && (function == 0x01 && length bytes == 0))
    then some light_query
    else none

abbrev nowhere : Outside
nowhere = record { ip_change = false; now = none; meter = none }

abbrev site : Site
site = record {
  gpios = 0x30 ∷ 0x31 ∷ [];
  bus = echo;
  temp_byte = 100;
  bounded_byte = 100;
  outside = nowhere;
}

-- The bus of the program, with an answer in the cache.
abbrev cached : Method
cached = record {
  comm = record {
    m_buffer = record { buf = 0 ∷ []; max_size = 1; cur_pos = 0 };
    m_queue = [];
    m_resend = true;
    m_packet = [];
  };
  query_packet_map = λ id. some light_query;
  query_packet_block_set = λ _. true;
  cmd_packet_trans_map = λ _. none;
}

bus_of-cached : bus_of 1 cached true [] 0 2 0x1e 0x01 [] ≡ some light_query
unfolding bus_of transform
bus_of-cached = refl

-- Dust 3, nothing for the curtain, light 2.
abbrev set_packet : List ℕ
set_packet = 0xf7 ∷ 0xf8 ∷ 32 ∷ 0 ∷ 0 ∷ 0x1d ∷ 0x81 ∷ 0x60 ∷ 0x10 ∷ replicate 253 0

set_packet-IsBytes : IsBytes set_packet
set_packet-IsBytes = (
  omega arith,
  (
    omega arith,
    (
      omega arith,
      (
        omega arith,
        (
          omega arith,
          (
            omega arith,
            (
              omega arith,
              (omega arith, (omega arith, All-replicate (λ x. x < 256) 253 0 (omega arith))),
            ),
          ),
        ),
      ),
    ),
  ),
)

set_frame-fields_example :
    fields (set_frame set_packet defaults).0.m_data_setting
    ≡ pick_all (fields set_packet) (fields defaults.m_data_setting)
unfolding defaults
set_frame-fields_example =
    set_frame-fields set_packet defaults set_packet-IsBytes (omega arith) (omega arith)
      default_setting-IsRecord

abbrev fresh : State
fresh = repeat_comm none []

Reach-IsWell_example :
    IsWell (run_once site (some light_query) (set_device_count 300 2 1 9 fresh)).outcome.state
Reach-IsWell_example =
    Reach-IsWell
      (next (next here (device_count 300 2 1 9 refl))
        (run site (some light_query) light_query-IsBytes refl))
      (repeat_comm-IsWell [])
