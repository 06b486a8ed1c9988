-- ===== src/Repeat/Polling.antt =====
-- `RepeatComm::TimerQuery::Run` of src/repeat_comm.cpp: the thread that asks the devices one after
-- the other. Each round is given the shared object as it finds it, and what the line and the other
-- threads do during the round. What `query_aircondition` and `aircondition` do to the shared object,
-- under its lock, are steps of their own (Climate). The sleeps and the test build's LED are left out.
pub mod Tries
pub mod Turns
pub mod Valid
use hukong.Base.{
  ℕ, zero, suc, ◌+◌, ◌==◌, leb, ◌||◌, not, if◌then◌else◌, Bool, true, false, List, [], ◌∷◌, ◌++◌,
  Option, none, some,
}
use hukong.Serial.Method.{update}
use hukong.Repeat.State.{
  DevType, light, curtain, aircondition, meter, human_group, leak_water, leak_gas, null, DevInfo,
  DevCount, State,
}
use hukong.Repeat.Settings.{raw_get_device_count}

-- A call of the protocol returns true, returns false, or throws.
pub data Reply : Type 0 where
  answered failed threw : Reply

-- At try `k` of a round: is `m_isKongguanSetCmd` seen, and what does the query give. Then what the
-- commands that carry the fire alarm give.
pub record World : Type 0 where
  pub cmd_seen : ℕ → Bool
  pub query : ℕ → Reply
  pub command : ℕ → Reply

-- The variables of the thread.
pub record Poll : Type 0 where
  pub devices : List DevInfo
  pub alarms : ℕ → Option Bool

-- What a round puts on the line: queries, alarm commands, a time synchronisation.
pub record Asked : Type 0 where
  pub type : DevType
  pub addr : ℕ
  pub queries : ℕ
  pub commands : ℕ
  pub synced : Bool

-- The addresses from `addr` on, `n` of them.
unfoldable pub addresses : DevType → ℕ → ℕ → List DevInfo
addresses type addr zero = []
addresses type addr (suc n) =
    record { type = type; addr = addr; opt = 0 } ∷ addresses type (addr + 1) n

abbrev pub is_polled : DevType → Bool
is_polled light = true
is_polled curtain = true
is_polled aircondition = true
is_polled meter = true
is_polled _ = false

unfoldable pub rebuild : List DevCount → List DevInfo
rebuild [] = []
rebuild (c ∷ cs) =
    let rest = rebuild cs in if is_polled c.type then addresses c.type 1 c.count ++ rest else rest

unfoldable pub mark : DevInfo → DevInfo
mark info = elim info.type [ meter ↦ record info { opt = 1 } | _ ↦ info ]

unfoldable pub mark_all : List DevInfo → List DevInfo
mark_all [] = []
mark_all (info ∷ infos) = mark info ∷ mark_all infos

-- The queries sent, and how the last ended. `n` tries are left.
unfoldable pub tries : World → ℕ → ℕ → ℕ × Reply
tries w zero k = (k, failed)
tries w (suc n) k =
    let again = tries w n (suc k) in
    if w.cmd_seen k
    then (k, failed)
    else elim (w.query k) [ answered ↦ (suc k, answered) | failed ↦ again | threw ↦ (suc k, threw) ]

-- Each command is sent if the one before it was answered.
unfoldable pub alarm_commands : World → ℕ
alarm_commands w = elim (w.command 0) [
  | answered ↦ elim (w.command 1) [ answered ↦ 3 | _ ↦ 2 ]
  | _ ↦ 1
]

abbrev pub differ : Bool → Bool → Bool
differ true b = not b
differ false b = b

-- An absent entry of the map is made, and is false.
abbrev pub known : Option Bool → Bool
known none = false
known (some b) = b

unfoldable pub ask :
    World → Bool → DevInfo → (ℕ → Option Bool) → Asked × DevInfo × (ℕ → Option Bool)
ask w fire info alarms =
    let (sent, ended) = tries w 3 0 in
    let queried : Asked = record {
      type = info.type;
      addr = info.addr;
      queries = sent;
      commands = 0;
      synced = false;
    } in
    let old = known (alarms info.addr) in
    let alarm : Asked × DevInfo × (ℕ → Option Bool) =
      if differ old fire
      then (
        record queried { commands = alarm_commands w },
        info,
        update alarms info.addr (some fire),
      )
      else (queried, info, update alarms info.addr (some old)) in
    elim info.type [
      | light ↦ (queried, info, alarms)
      | curtain ↦ (queried, info, alarms)
      | aircondition ↦ elim ended [ answered ↦ alarm | _ ↦ (queried, info, alarms) ]
      | meter ↦
          if info.opt == 0
          then (queried, info, alarms)
          else (record queried { queries = 0; synced = true }, record info { opt = 0 }, alarms)
      | _ ↦ (record queried { queries = 0 }, info, alarms)
    ]

-- The part of a round that needs a device. Whatever happens, the device goes to the end.
unfoldable pub turn :
    World → Bool → (ℕ → Option Bool) → State → List DevInfo → Option Asked × Poll × State
turn w fire alarms s [] = (none, record { devices = []; alarms = alarms }, s)
turn w fire alarms s (info ∷ rest) =
    let (asked, info', alarms') = ask w fire info alarms in
    (
      some asked,
      record { devices = rest ++ info' ∷ []; alarms = alarms' },
      record s { m_is_kongguan_set_cmd = false },
    )

-- One round: what was asked, if any device is known, the thread, and the shared object.
unfoldable pub round : State → World → Poll → Option Asked × Poll × State
round s w p =
    let fresh = if s.m_is_dev_change then rebuild (raw_get_device_count s) else p.devices in
    let marked = if s.m_is_meter_sync_time then mark_all fresh else fresh in
    let read = record s { m_is_dev_change = false; m_is_meter_sync_time = false } in
    turn w (s.m_fire_alarm || s.m_broadcast_fire_alarm) p.alarms read marked

-- Rounds that find the shared object in these states.
unfoldable pub rounds : List (State × World) → Poll → List Asked × Poll
rounds [] p = ([], p)
rounds ((s, w) ∷ more) p =
    let (asked, p', s') = round s w p in
    let (later, end) = rounds more p' in (elim asked [ none ↦ later | some a ↦ a ∷ later ], end)

-- At the start of `Run` no device is known yet.
abbrev pub start : Poll
start = record { devices = []; alarms = λ _. none }
