-- ===== src/Repeat/Polling/Valid.antt =====
-- Which devices `TimerQuery::Run` of src/repeat_comm.cpp asks, and how often.
use hukong.Base.{
  refl, ℕ, zero, suc, ◌+◌, ◌≤◌, if◌then◌else◌, Bool, true, false, ◌||◌, ◌≡◌, arith, Bool-cases, inl,
  inr, List, [], ◌∷◌, Option, none, some, All, All-append, min,
}
use hukong.Repeat.Bytes.{get}
use hukong.Repeat.State.{DevType, light, curtain, aircondition, meter, DevInfo, DevCount, State}
use hukong.Repeat.Settings.{raw_get_device_count}
use hukong.Repeat.Polling.{
  World, Poll, Asked, addresses, is_polled, rebuild, mark, mark_all, turn, tries, alarm_commands,
  ask, round,
}
use hukong.Repeat.Polling.Tries.{Serves, ask-Serves}

-- The addresses that the protocol has for a type: at most `COUNT_MAX_LIGHT` and so on.
abbrev pub last_addr : DevType → ℕ
last_addr light = 8
last_addr curtain = 8
last_addr aircondition = 8
last_addr meter = 4
last_addr _ = 0

abbrev pub IsAddr : DevType → ℕ → Type 0
IsAddr type addr = (1 ≤ addr) × (addr ≤ last_addr type)

abbrev pub IsDevice : DevInfo → Type 0
IsDevice info = IsAddr info.type info.addr

-- What a round may put on the line: it concerns a device of the protocol, with at most three
-- queries and three commands.
abbrev pub IsFair : Asked → Type 0
IsFair a = IsAddr a.type a.addr × (a.queries ≤ 3) × (a.commands ≤ 3)

abbrev IsCounted : DevCount → Type 0
IsCounted c = is_polled c.type ≡ true → c.count ≤ last_addr c.type

addresses-IsDevice :
    (type : DevType) (n addr : ℕ)
    → 1 ≤ addr
    → addr + n ≤ suc (last_addr type)
    → All IsDevice (addresses type addr n)
unfolding addresses
addresses-IsDevice type zero addr low high = tt
addresses-IsDevice type (suc n) addr low high =
    ((low, omega arith), addresses-IsDevice type n (addr + 1) (omega arith) (omega arith))

rebuild-IsDevice : (counts : List DevCount) → All IsCounted counts → All IsDevice (rebuild counts)
unfolding rebuild
rebuild-IsDevice [] h = tt
rebuild-IsDevice (c ∷ cs) h = elim (Bool-cases (is_polled c.type)) [
  | inl e ↦
      let few = h.0 e in
      let deeper = rebuild-IsDevice cs h.1 in
      let here = addresses-IsDevice c.type c.count 1 (omega arith) (omega arith) in
      rw e (All-append IsDevice (addresses c.type 1 c.count) (rebuild cs) here deeper)
  | inr e ↦ rw e (rebuild-IsDevice cs h.1)
]

raw_get_device_count-IsCounted : (s : State) → All IsCounted (raw_get_device_count s)
unfolding raw_get_device_count
raw_get_device_count-IsCounted s =
    let few : (n last : ℕ) → true ≡ true → min n last ≤ last = λ n last e. omega arith in
    let at : ℕ → ℕ = λ i. get s.m_data_hukong (59 + i) in
    (
      few (at 0) 8,
      (few (at 1) 8, (few (at 2) 8, (few (at 3) 4, ((λ e. absurd (ground arith)), tt)))),
    )

mark-IsDevice : (info : DevInfo) → IsDevice info → IsDevice (mark info)
unfolding mark
mark-IsDevice info h = ground arith

mark_all-IsDevice : (infos : List DevInfo) → All IsDevice infos → All IsDevice (mark_all infos)
unfolding mark_all
mark_all-IsDevice [] h = tt
mark_all-IsDevice (info ∷ infos) h = (mark-IsDevice info h.0, mark_all-IsDevice infos h.1)

tries-le : (w : World) (n k : ℕ) → (tries w n k).0 ≤ k + n
unfolding tries
tries-le w zero k = omega arith
tries-le w (suc n) k = let deeper = tries-le w n (suc k) in ground arith

alarm_commands-le : (w : World) → alarm_commands w ≤ 3
unfolding alarm_commands
alarm_commands-le w = ground arith

ask-IsFair :
    (w : World) (fire : Bool) (info : DevInfo) (alarms : ℕ → Option Bool)
    → IsDevice info
    → IsFair (ask w fire info alarms).0 × IsDevice (ask w fire info alarms).1
unfolding ask
ask-IsFair w fire info alarms h =
    let few = tries-le w 3 0 in let commands = alarm_commands-le w in ground arith

-- Nothing was asked, since no device is known, or what was asked is fair, and it was queried or
-- sent the time.
abbrev pub IsFairTurn : World → List DevInfo → Option Asked → Type 0
IsFairTurn w infos none = infos ≡ []
IsFairTurn w infos (some a) = IsFair a × Serves w a

IsDevice-is_polled : (info : DevInfo) → IsDevice info → is_polled info.type ≡ true
IsDevice-is_polled info h = ground arith

turn-IsFair :
    (w : World) (fire : Bool) (alarms : ℕ → Option Bool) (s : State) (infos : List DevInfo)
    → All IsDevice infos
    → IsFairTurn w (turn w fire alarms s infos).1.devices (turn w fire alarms s infos).0
      × All IsDevice (turn w fire alarms s infos).1.devices
unfolding turn
turn-IsFair w fire alarms s [] h = (refl, tt)
turn-IsFair w fire alarms s (info ∷ rest) h =
    let (fair, keeps) = ask-IsFair w fire info alarms h.0 in
    let serves = ask-Serves w fire info alarms (IsDevice-is_polled info h.0) in
    ((fair, serves), All-append IsDevice rest ((ask w fire info alarms).1 ∷ []) h.1 (keeps, tt))

marked-IsDevice :
    (sync : Bool) (infos : List DevInfo)
    → All IsDevice infos
    → All IsDevice (if sync then mark_all infos else infos)
marked-IsDevice true infos h = mark_all-IsDevice infos h
marked-IsDevice false infos h = h

fresh-IsDevice :
    (change : Bool) (s : State) (infos : List DevInfo)
    → All IsDevice infos
    → All IsDevice (if change then rebuild (raw_get_device_count s) else infos)
fresh-IsDevice true s infos h =
    rebuild-IsDevice (raw_get_device_count s) (raw_get_device_count-IsCounted s)
fresh-IsDevice false s infos h = h

pub round-IsFair :
    (s : State) (w : World) (p : Poll)
    → All IsDevice p.devices
    → IsFairTurn w (round s w p).1.devices (round s w p).0 × All IsDevice (round s w p).1.devices
unfolding round
round-IsFair s w p h =
    let fresh = if s.m_is_dev_change then rebuild (raw_get_device_count s) else p.devices in
    let marked = if s.m_is_meter_sync_time then mark_all fresh else fresh in
    let read = record s { m_is_dev_change = false; m_is_meter_sync_time = false } in
    turn-IsFair w (s.m_fire_alarm || s.m_broadcast_fire_alarm) p.alarms read marked (
      marked-IsDevice s.m_is_meter_sync_time fresh (fresh-IsDevice s.m_is_dev_change s p.devices h))

-- Each of the rounds asks a device, unless none is known at its end.
abbrev pub FairRounds : List (State × World) → Poll → Type 0
FairRounds [] p = Unit
FairRounds ((s, w) ∷ ins) p =
    IsFairTurn w (round s w p).1.devices (round s w p).0 × FairRounds ins (round s w p).1
