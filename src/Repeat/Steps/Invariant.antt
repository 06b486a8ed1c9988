-- ===== src/Repeat/Steps/Invariant.antt =====
-- What no step of src/repeat_comm.cpp breaks.
use hukong.Base.{
  ℕ, ◌+◌, ◌≤◌, ◌<◌, ◌==◌, ltb, leb, ◌&&◌, ◌||◌, if◌then◌else◌, Bool, false, ◌≡◌, sym, subst, arith,
  Bool-cases, if-keeps, inl, inr, List, [], ◌∷◌, Option, none, replicate, length-replicate,
  All-replicate, take, drop,
}
use hukong.Repeat.Bytes.{get, set_bits, store, copy_at}
use hukong.Repeat.Bytes.Stores.{get-store_ne}
use hukong.Repeat.State.{
  State, DevInfo, data_record, default_setting, default_hukong, defaults, store_bits, store_word,
}
use hukong.Repeat.File.{repeat_comm, load, facing}
use hukong.Repeat.Settings.{
  XinfengTimeCtrl, light_code, curtain_code, dust_code, set_light_off_time, set_curtain_off_time,
  set_dust_time, set_xinfeng_time_ctrl, set_xinfeng_windarea, set_device_count, is_bind_change,
  set_outside_sen, set_inner_air_detection, set_fire_alarm, raw_get_device_count,
}
use hukong.Repeat.Climate.{air_command, counted, query_has_one}
use hukong.Repeat.Polling.{World, Poll, rebuild, mark_all, turn, round}
use hukong.Repeat.Run.{run_once}
use hukong.Repeat.Steps.{
  Step, run, poll, light_time, curtain_time, dust_time, xinfeng_time, windarea, device_count,
  bind_change, outside_sen, air_detection, fire_alarm, air_set, air_query, Reach, here, next,
}
use hukong.Repeat.Steps.Records.{
  IsRecord, IsPlaced, store-IsRecord, store_bits-IsRecord, store_bit-IsRecord, store_word-IsRecord,
  copy_at-IsRecord,
}
use hukong.Repeat.Steps.Frames.{IsWell}
use hukong.Repeat.Steps.Requests.{run_once-IsWell}

-- The stores that change the settings only.
set-IsWell :
    (s : State) (b : List ℕ) → IsRecord b → IsWell s → IsWell (record s { m_data_setting = b })
set-IsWell s b h (set, query, placed, xinfeng, switches, sen) =
    (h, query, placed, xinfeng, switches, sen)

light_time-IsWell : (i : ℕ) (s : State) → IsWell s → IsWell (set_light_off_time i s).1
unfolding set_light_off_time
light_time-IsWell i s h = elim (Bool-cases (ltb i 1 || ltb 2 i)) [
  | inl e ↦ rw e h
  | inr e ↦ rw e (
      set-IsWell s (store_bits s.m_data_setting 8 3 5 (light_code i))
        (store_bits-IsRecord s.m_data_setting 8 3 5 (light_code i) h.0) h)
]

curtain_time-IsWell : (i : ℕ) (s : State) → IsWell s → IsWell (set_curtain_off_time i s).1
unfolding set_curtain_off_time
curtain_time-IsWell i s h = elim (Bool-cases (ltb i 1 || ltb 4 i)) [
  | inl e ↦ rw e h
  | inr e ↦ rw e (
      set-IsWell s (store_bits s.m_data_setting 8 0 2 (curtain_code i))
        (store_bits-IsRecord s.m_data_setting 8 0 2 (curtain_code i) h.0) h)
]

dust_time-IsWell : (i : ℕ) (s : State) → IsWell s → IsWell (set_dust_time i s).1
unfolding set_dust_time
dust_time-IsWell i s h = elim (Bool-cases (ltb i 1 || ltb 4 i)) [
  | inl e ↦ rw e h
  | inr e ↦ rw e (
      set-IsWell s (store_bits s.m_data_setting 7 5 7 (dust_code i))
        (store_bits-IsRecord s.m_data_setting 7 5 7 (dust_code i) h.0) h)
]

xinfeng_time-IsWell :
    (time : XinfengTimeCtrl) (s : State) → IsWell s → IsWell (set_xinfeng_time_ctrl time s).1
unfolding set_xinfeng_time_ctrl
xinfeng_time-IsWell time s h =
    let left = store s.m_data_setting 14 time.leave in
    let first : IsRecord left = store-IsRecord s.m_data_setting 14 time.leave h.0 in
    elim (Bool-cases
      ((leb 4 time.leave && leb time.leave 24) && (leb 10 time.auto_run && leb time.auto_run 60))) [
        | inl e ↦ rw e (
            set-IsWell s (store left 15 time.auto_run) (store-IsRecord left 15 time.auto_run first)
              h)
        | inr e ↦ rw e h
      ]

windarea-IsWell : (area : ℕ) (s : State) → IsWell s → IsWell (set_xinfeng_windarea area s)
unfolding set_xinfeng_windarea
windarea-IsWell area s h =
    set-IsWell s (store_word s.m_data_setting 12 area)
      (store_word-IsRecord s.m_data_setting 12 area h.0) h

-- A store before the room leaves the place alone.
store-IsPlaced : (b : List ℕ) (i v : ℕ) → i < 65 → IsPlaced b → IsPlaced (store b i v)
store-IsPlaced b i v before (good, r1, r2, f1, f2) =
    let room = get-store_ne b i 65 v (omega arith) in
    let floor = get-store_ne b i 66 v (omega arith) in
    (store-IsRecord b i v good, omega arith, omega arith, omega arith, omega arith)

device_count-IsWell : (l c m u : ℕ) (s : State) → IsWell s → IsWell (set_device_count l c m u s)
unfolding set_device_count
device_count-IsWell l c m u s (set, query, placed, xinfeng, switches, sen) =
    let b = s.m_data_hukong in
    let b1 = store b 59 l in
    let h1 = store-IsPlaced b 59 l (omega arith) placed in
    let b2 = store b1 60 c in
    let h2 = store-IsPlaced b1 60 c (omega arith) h1 in
    let b3 = store b2 61 u in
    let h3 = store-IsPlaced b2 61 u (omega arith) h2 in
    (set, query, store-IsPlaced b3 62 m (omega arith) h3, xinfeng, switches, sen)

turn-IsWell :
    (w : World) (fire : Bool) (alarms : ℕ → Option Bool) (s : State) (infos : List DevInfo)
    → IsWell s
    → IsWell (turn w fire alarms s infos).2
unfolding turn
turn-IsWell w fire alarms s [] h = h
turn-IsWell w fire alarms s (info ∷ rest) h = h

round-IsWell : (s : State) (w : World) (p : Poll) → IsWell s → IsWell (round s w p).2
unfolding round
round-IsWell s w p h =
    let fresh = if s.m_is_dev_change then rebuild (raw_get_device_count s) else p.devices in
    let marked = if s.m_is_meter_sync_time then mark_all fresh else fresh in
    let read = record s { m_is_dev_change = false; m_is_meter_sync_time = false } in
    turn-IsWell w (s.m_fire_alarm || s.m_broadcast_fire_alarm) p.alarms read marked h

air_set-IsWell :
    (dest switch_mode mode xinfeng_mode temp energy : ℕ) (fix : Bool) (s : State)
    → IsWell s
    → IsWell (air_command dest switch_mode mode xinfeng_mode temp energy fix s).1
unfolding air_command
air_set-IsWell dest switch_mode mode xinfeng_mode temp energy fix s h =
    elim (Bool-cases (dest == 1)) [
      | inl e ↦
          rw e (elim (Bool-cases (fix && (switch_mode == 1))) [ inl f ↦ rw f h | inr f ↦ rw f h ])
      | inr e ↦
          rw e (elim (Bool-cases (fix && (switch_mode == 1))) [ inl f ↦ rw f h | inr f ↦ rw f h ])
    ]

air_query-IsWell : (dest : ℕ) (s : State) → IsWell s → IsWell (query_has_one dest s).1
unfolding query_has_one
air_query-IsWell dest s h = elim (Bool-cases (counted (s.m_fix_auto_xinfeng_bug dest) == 1)) [
  | inl e ↦ rw e h
  | inr e ↦ rw e h
]

-- What equals a well state is well.
from : (s t : State) → t ≡ s → IsWell s → IsWell t
from s t e h = subst IsWell (sym e) h

Step-IsWell : (s t : State) → Step s t → IsWell s → IsWell t
unfolding is_bind_change set_outside_sen set_inner_air_detection set_fire_alarm
Step-IsWell s t (run w packet bytes e) h =
    from (run_once w packet s).outcome.state t e (run_once-IsWell w packet s bytes h).well
Step-IsWell s t (poll w p e) h = from (round s w p).2 t e (round-IsWell s w p h)
Step-IsWell s t (light_time i e) h = from (set_light_off_time i s).1 t e (light_time-IsWell i s h)
Step-IsWell s t (curtain_time i e) h =
    from (set_curtain_off_time i s).1 t e (curtain_time-IsWell i s h)
Step-IsWell s t (dust_time i e) h = from (set_dust_time i s).1 t e (dust_time-IsWell i s h)
Step-IsWell s t (xinfeng_time time e) h =
    from (set_xinfeng_time_ctrl time s).1 t e (xinfeng_time-IsWell time s h)
Step-IsWell s t (windarea area e) h =
    from (set_xinfeng_windarea area s) t e (windarea-IsWell area s h)
Step-IsWell s t (device_count l c m u e) h =
    from (set_device_count l c m u s) t e (device_count-IsWell l c m u s h)
Step-IsWell s t (bind_change e) h = from (is_bind_change s).1 t e h
Step-IsWell s t (outside_sen values e) h = from (set_outside_sen values s) t e h
Step-IsWell s t (air_detection e) h = from (set_inner_air_detection s) t e h
Step-IsWell s t (fire_alarm alarm e) h = from (set_fire_alarm alarm s) t e h
Step-IsWell s t (air_set d sm m x temp en fix e) h =
    from (air_command d sm m x temp en fix s).1 t e (air_set-IsWell d sm m x temp en fix s h)
Step-IsWell s t (air_query d e) h = from (query_has_one d s).1 t e (air_query-IsWell d s h)

-- From a state whose records have their 300 bytes and whose floor and room make an address (a floor
-- from 1 to 220, a room from 1 to 250), the same holds after any sequence of rounds of the two
-- threads and of calls from outside, in any order, whatever packets of bytes arrive.
pub Reach-IsWell : {s t : State} → Reach s t → IsWell s → IsWell t
Reach-IsWell here h = h
Reach-IsWell (next r st) h = Step-IsWell _ _ st (Reach-IsWell r h)

blank : IsRecord (replicate data_record 0)
blank = (
  length-replicate {A = ℕ} data_record 0,
  All-replicate (λ b. b < 256) data_record 0 (omega arith),
)

pub default_setting-IsRecord : IsRecord default_setting
unfolding default_setting
default_setting-IsRecord =
    search (store_word-IsRecord, store_bits-IsRecord, store_bit-IsRecord, store-IsRecord, blank)
      depth 24

fill-IsRecord :
    (b : List ℕ) (at n v : ℕ)
    → at + n ≤ 300
    → v < 256
    → IsRecord b
    → IsRecord (copy_at b at (replicate n v))
fill-IsRecord b at n v fits small h =
    copy_at-IsRecord b at (replicate n v) (omega (arith, length-replicate {A = ℕ} n v))
      (All-replicate (λ x. x < 256) n v small) h

default_hukong-IsRecord : IsRecord default_hukong
unfolding default_hukong
default_hukong-IsRecord =
    let boxes =
      fill-IsRecord (replicate data_record 0) 7 18 0b11101110 (omega arith) (omega arith) blank in
    let lights = fill-IsRecord _ 25 28 0b10011001 (omega arith) (omega arith) boxes in
    let xinfengs = fill-IsRecord _ 53 4 0b10011001 (omega arith) (omega arith) lights in
    search (store_bits-IsRecord, store-IsRecord, xinfengs) depth 24

default_hukong-IsPlaced : IsPlaced default_hukong
unfolding default_hukong store_bits store copy_at take drop replicate set_bits
default_hukong-IsPlaced =
    (default_hukong-IsRecord, omega arith, omega arith, omega arith, omega arith)

facing-IsPlaced : (b : List ℕ) (i : ℕ) → i < 65 → IsPlaced b → IsPlaced (facing b i)
facing-IsPlaced b i before h =
    if-keeps IsPlaced (get b i == 0) (store b i 0xff) b (store-IsPlaced b i 0xff before h) h

-- A box without a data file starts well.
pub repeat_comm-IsWell : (temp : List ℕ) → IsWell (repeat_comm none temp)
unfolding repeat_comm load defaults
repeat_comm-IsWell temp = (
  default_setting-IsRecord,
  blank,
  facing-IsPlaced (facing default_hukong 57) 58 (omega arith)
      (facing-IsPlaced default_hukong 57 (omega arith) default_hukong-IsPlaced),
  blank.0,
  length-replicate {A = ℕ} 300 0x0f,
  blank.0,
)
