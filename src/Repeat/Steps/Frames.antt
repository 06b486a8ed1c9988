-- ===== src/Repeat/Steps/Frames.antt =====
-- What the requests of `InnerProcess` of src/repeat_comm.cpp leave of the shared object.
use hukong.Base.{
  ℕ, zero, suc, ◌+◌, ◌*◌, ◌%◌, ◌/◌, ◌≤◌, ◌<◌, ◌==◌, ltb, ◌||◌, not, if◌then◌else◌, Bool, ◌≡◌, refl,
  ◌∙◌, arith, Bool-cases, if-keeps, Option-cases, inl, inr, List, Option, length, take, drop,
  replicate, IsBytes, All-take, All-drop, length-take, length-replicate,
}
use hukong.Serial.Packet.{get_function}
use hukong.Repeat.Bytes.{get, get_bit, get_bits, store}
use hukong.Repeat.Bytes.Stores.{length-store}
use hukong.Repeat.State.{State, data_record, store_bit}
use hukong.Repeat.Sensors.{sense, sense_loop, process_sen, sample, get_switch_status}
use hukong.Repeat.Sensors.Inputs.{length-sense}
use hukong.Repeat.Inner.{Outside, Outcome, TimeOf, inner_process}
use hukong.Repeat.Inner.Setting.{record_of, set_frame, query_frame, sync_xinfeng, setting_request}
use hukong.Repeat.Inner.Binding.{bind_frame, binding_request}
use hukong.Repeat.Inner.Clock.{time_request}
use hukong.Repeat.Steps.Records.{
  IsRecord, IsPlaced, store-IsRecord, store_bit-IsRecord, copy_at-IsRecord, record_of-IsRecord,
  restore-IsRecord, checked-IsPlaced,
}

-- The records have their 300 bytes, and the floor and the room make an address: neither is 0, the
-- room is at most 250 and the floor at most 220.
abbrev pub IsWell : State → Type 0
IsWell s =
    IsRecord s.m_data_setting
    × IsRecord s.m_data_query_setting
    × IsPlaced s.m_data_hukong
    × (length s.m_data_xinfeng ≡ 300)
    × (length s.m_data_switch_status ≡ 300)
    × (length s.m_data_sen_status ≡ 300)

length-sense_loop :
    (binds switches : List ℕ) (n i : ℕ) (status : List ℕ)
    → length (sense_loop binds switches i n status) ≡ length status
unfolding sense_loop
length-sense_loop binds switches zero i status = refl
length-sense_loop binds switches (suc n) i status =
    let bind = get binds (7 + i) in
    let box = get switches (i / 2) in
    let low = sense status (get_bits bind 0 3) (get_bit box (i % 2 * 2)) in
    length-sense_loop binds switches n (i + 1)
      (sense low (get_bits bind 4 7) (get_bit box (i % 2 * 2 + 1)))
    ∙ length-sense low (get_bits bind 4 7) (get_bit box (i % 2 * 2 + 1))
    ∙ length-sense status (get_bits bind 0 3) (get_bit box (i % 2 * 2))

pub process_sen-IsWell : (s : State) → IsWell s → IsWell (process_sen s)
unfolding process_sen
process_sen-IsWell s (set, query, placed, xinfeng, switches, sen) =
    let all =
      length-sense_loop s.m_data_hukong s.m_data_switch_status 18 0 (replicate data_record 0)
      ∙ length-replicate {A = ℕ} data_record 0 in
    (set, query, placed, xinfeng, switches, all)

pub sample-IsWell : (gpios : List ℕ) (s : State) → IsWell s → IsWell (sample gpios s)
unfolding sample
sample-IsWell gpios s (set, query, placed, xinfeng, switches, sen) =
    let value = get_switch_status gpios 0 0 in
    let sampled = record s { m_data_switch_status = store s.m_data_switch_status 0 value } in
    process_sen-IsWell sampled
      (set, query, placed, xinfeng, length-store s.m_data_switch_status 0 value ∙ switches, sen)

set_frame-IsWell :
    (packet : List ℕ) (s : State) → IsBytes packet → IsWell s → IsWell (set_frame packet s).0
unfolding set_frame
set_frame-IsWell packet s bytes (set, query, placed, xinfeng, switches, sen) =
    let copied = record_of packet s.m_data_setting in
    (
      restore-IsRecord packet s.m_data_setting copied
          (record_of-IsRecord packet s.m_data_setting bytes set),
      query,
      placed,
      xinfeng,
      switches,
      sen,
    )

query_frame-IsWell :
    (packet : List ℕ) (s : State) → IsBytes packet → IsWell s → IsWell (query_frame packet s)
unfolding query_frame
query_frame-IsWell packet s bytes (set, query, placed, xinfeng, switches, sen) =
    let copied = record_of packet s.m_data_query_setting in
    let good = record_of-IsRecord packet s.m_data_query_setting bytes query in
    let P : ℕ → Type 0 = λ b. b < 256 in
    let part = take 13 (drop 11 copied) in
    let short : 16 + length part ≤ 300 = omega (arith, length-take 13 (drop 11 copied)) in
    (
      copy_at-IsRecord s.m_data_setting 16 part short
          (All-take P 13 (drop 11 copied) (All-drop P 11 copied good.1)) set,
      good,
      placed,
      xinfeng,
      switches,
      sen,
    )

sync_xinfeng-IsWell : (s : State) → IsWell s → IsWell (sync_xinfeng s)
unfolding sync_xinfeng
sync_xinfeng-IsWell s h = elim (Option-cases s.m_sync_xinfeng_temp) [
  | inl e ↦ rw e h
  | inr (temp, e) ↦ rw e (elim (Option-cases s.m_sync_xinfeng_mode) [
    | inl e' ↦ rw e' h
    | inr (mode, e') ↦ rw e' (
        let cold = if mode == 0 then 1 else 0 in
        let hot = if mode == 0 then 0 else 1 in
        let first = store_bit-IsRecord s.m_data_setting 9 2 cold h.0 in
        let second = store_bit-IsRecord (store_bit s.m_data_setting 9 2 cold) 9 3 hot first in
        (
          store-IsRecord (store_bit (store_bit s.m_data_setting 9 2 cold) 9 3 hot) 11 (temp * 2)
              second,
          h.1,
          h.2,
          h.3,
          h.4,
          h.5,
        ))
  ])
]

setting_request-IsWell :
    (packet : List ℕ) (s : State) → IsBytes packet → IsWell s → IsWell (setting_request packet s).0
unfolding setting_request
setting_request-IsWell packet s bytes h = elim (Bool-cases (get_function packet == 0x81)) [
  | inl e ↦ rw e (sync_xinfeng-IsWell (set_frame packet s).0 (set_frame-IsWell packet s bytes h))
  | inr e ↦ rw e (sync_xinfeng-IsWell (query_frame packet s) (query_frame-IsWell packet s bytes h))
]

bind_frame-IsWell :
    (ip_change : Bool) (packet : List ℕ) (s : State)
    → IsBytes packet
    → IsWell s
    → IsWell (bind_frame ip_change packet s).0
unfolding bind_frame
bind_frame-IsWell ip_change packet s bytes (set, query, placed, xinfeng, switches, sen) =
    let copied = record_of packet s.m_data_hukong in
    (
      set,
      query,
      checked-IsPlaced copied (record_of-IsRecord packet s.m_data_hukong bytes placed.0),
      xinfeng,
      switches,
      sen,
    )

binding_request-IsWell :
    (ip_change : Bool) (packet : List ℕ) (s : State)
    → IsBytes packet
    → IsWell s
    → IsWell (binding_request ip_change packet s).0
unfolding binding_request
binding_request-IsWell ip_change packet s bytes h =
    elim (Bool-cases (get_function packet == 0x41)) [
      | inl e ↦ rw e (bind_frame-IsWell ip_change packet s bytes h)
      | inr e ↦ rw e h
    ]

time_request-IsWell :
    (now : Option TimeOf) (packet : List ℕ) (s : State)
    → IsWell s
    → IsWell (time_request now packet s).0
unfolding time_request
time_request-IsWell now packet s h =
    let set = get_function packet == 0x51 in
    let wrong = if set then not (get packet 2 == 11) else ltb 5 (get packet 2) in
    elim (Bool-cases wrong) [ inl e ↦ rw e h | inr e ↦ rw e h ]

pub inner_process-IsWell :
    (o : Outside) (packet : List ℕ) (s : State)
    → IsBytes packet
    → IsWell s
    → IsWell (inner_process o packet s).state
unfolding inner_process
inner_process-IsWell o packet s bytes h =
    let function = get_function packet in
    let set = setting_request-IsWell packet s bytes h in
    let bound = binding_request-IsWell o.ip_change packet s bytes h in
    let timed = time_request-IsWell o.now packet s h in
    let P : Outcome → Type 0 = λ r. IsWell r.state in
    if-keeps P (function == 0x81 || function == 0x01) _ _ set (
      if-keeps P (function == 0x41 || function == 0x42) _ _ bound (
        if-keeps P (function == 0x51 || function == 0x50) _ _ timed (
          if-keeps P (function == 0x05) _ _ h (
            if-keeps P (function == 0x02) _ _ h
              (if-keeps P (function == 0x03) _ _ h (if-keeps P (function == 0x04) _ _ h h))))))
