-- ===== src/Repeat/Steps/Requests.antt =====
-- What a round of `RepeatComm::Run` of src/repeat_comm.cpp leaves of the shared object.
use hukong.Base.{
  ℕ, ◌+◌, ◌≤◌, ◌==◌, ltb, not, if◌then◌else◌, true, ◌∙◌, arith, Bool-cases, if-keeps, Option-cases,
  inl, inr, List, [], ◌∷◌, Option, none, some, length, take, min, IsBytes, length-take,
}
use hukong.Serial.Packet.{get_packet_len, get_src_addr, get_dest_addr, get_function, build_packet}
use hukong.Repeat.Bytes.{get, get_bit, set_bit, store, copy_at}
use hukong.Repeat.Bytes.Stores.{length-store, length-copy_at}
use hukong.Repeat.State.{State, data_record}
use hukong.Serial.Method.Devices.{bit_of}
use hukong.Repeat.Climate.{curtain_env}
use hukong.Repeat.Sensors.{process_sen, sample, is_has_man_by_xinfeng}
use hukong.Repeat.Run.{
  Bus, Round, transform_by_kongguan, address, told_byte, light_request, curtain_request,
  xinfeng_request, debug_request, meter_request, Site, serve, run_once,
}
use hukong.Repeat.Steps.{IsPacket}
use hukong.Repeat.Steps.Records.{store-IsRecord}
use hukong.Repeat.Steps.Frames.{IsWell, process_sen-IsWell, sample-IsWell, inner_process-IsWell}

-- The state behind a round is well.
pub record KeepsWell (r : Round) : Type 0 where
  pub well : IsWell r.outcome.state

light_request-IsWell :
    (bus : Bus) (packet : List ℕ) (s : State) → IsWell s → KeepsWell (light_request bus packet s)
unfolding light_request
light_request-IsWell bus packet s h =
    let s1 = if get_function packet == 0x43 then record s { m_is_kongguan_set_cmd = true } else s in
    let h1 : IsWell s1 =
      if-keeps IsWell (get_function packet == 0x43) (record s { m_is_kongguan_set_cmd = true }) s h
        h in
    let setting = get_function packet == 0x43 in
    let wrong = if setting then not (get packet 2 == 8) else ltb 5 (get packet 2) in
    let out = address 0x1e (if setting then 0x81 else 0x01) packet in
    elim (Bool-cases wrong) [
      | inl e ↦ rw e (record { well = h1 })
      | inr e ↦ rw e (elim (Option-cases (transform_by_kongguan bus out)) [
        | inl q ↦ rw q (record { well = h1 })
        | inr (ret, q) ↦ rw q (
            let box = get_dest_addr ret in
            let kept = record s1 {
              m_data_switch_status = store s1.m_data_switch_status box (get ret 8);
            } in
            let hk : IsWell kept = (
              h1.0,
              h1.1,
              h1.2,
              h1.3,
              length-store s1.m_data_switch_status box (get ret 8) ∙ h1.4,
              h1.5,
            ) in
            record {
              well =
                  if-keeps IsWell (ltb 0 box) (process_sen kept) s1 (process_sen-IsWell kept hk) h1;
            })
      ])
    ]

curtain_request-IsWell :
    (bus : Bus) (temp bounded : ℕ) (packet : List ℕ) (s : State)
    → IsWell s
    → KeepsWell (curtain_request bus temp bounded packet s)
unfolding curtain_request
curtain_request-IsWell bus temp bounded packet s h =
    let h1 =
      if-keeps IsWell (get_function packet == 0x45) (record s { m_is_kongguan_set_cmd = true }) s h
        h in
    let setting = get_function packet == 0x45 in
    let wrong = if setting then not (get packet 2 == 7) else ltb 5 (get packet 2) in
    let told =
      store (store packet 7 (told_byte (curtain_env (get_dest_addr packet) s) (get packet 7))) 8
        temp in
    let out = if setting then address 0x19 0x81 told else address 0x19 0x01 packet in
    elim (Bool-cases wrong) [
      | inl e ↦ rw e (record { well = h1 })
      | inr e ↦ rw e (elim (Option-cases (transform_by_kongguan bus out)) [
        | inl q ↦ rw q (record { well = h1 })
        | inr (ret, q) ↦
            rw q (if-keeps KeepsWell _ _ _ (record { well = h1 }) (record { well = h1 }))
      ])
    ]

xinfeng_request-IsWell :
    (bus : Bus) (packet : List ℕ) (s : State) → IsWell s → KeepsWell (xinfeng_request bus packet s)
unfolding xinfeng_request
xinfeng_request-IsWell bus packet s h =
    let told = record s {
      m_is_kongguan_set_cmd = true;
      m_data_setting = store s.m_data_setting 11 (get packet 9);
    } in
    let ht : IsWell told =
      (store-IsRecord s.m_data_setting 11 (get packet 9) h.0, h.1, h.2, h.3, h.4, h.5) in
    let s1 = if get_function packet == 0x47 then told else s in
    let h1 : IsWell s1 = if-keeps IsWell (get_function packet == 0x47) told s ht h in
    let has_human = bit_of (is_has_man_by_xinfeng s (get_dest_addr packet)) in
    let human = if get_bit (get packet 7) 4 == 1 then 1 else has_human in
    let query =
      (build_packet packet (get_src_addr packet) (get_dest_addr packet) 0x1c 0x01
        (some (set_bit 0 4 has_human ∷ get packet 7 ∷ []))).0 in
    let out =
      if get_function packet == 0x47
      then address 0x1c 0x81 (store packet 7 (set_bit (get packet 7) 4 human))
      else address 0x1c 0x01 query in
    elim (Option-cases (transform_by_kongguan bus out)) [
      | inl q ↦ rw (xinfeng_request, q) (record { well = h1 })
      | inr (ret, q) ↦
          rw (xinfeng_request, q)
            (let n = min (get_packet_len ret) data_record in
              let cut = take n ret in
              let kept = record s1 { m_data_xinfeng = copy_at s1.m_data_xinfeng 0 cut } in
              let fits : 0 + length cut ≤ length s1.m_data_xinfeng =
                omega (arith, length-take n ret, h1.3) in
              let hk : IsWell kept = (
                h1.0,
                h1.1,
                h1.2,
                length-copy_at s1.m_data_xinfeng 0 cut fits ∙ h1.3,
                h1.4,
                h1.5,
              ) in
              record { well = if-keeps IsWell (get_dest_addr ret == 1) kept s1 hk h1 })
    ]

debug_request-IsWell :
    (bus : Bus) (packet : List ℕ) (s : State) → IsWell s → KeepsWell (debug_request bus packet s)
unfolding debug_request
debug_request-IsWell bus packet s h = elim (Option-cases (transform_by_kongguan bus packet)) [
  | inl q ↦ rw (debug_request, q) (record { well = h })
  | inr (ret, q) ↦ rw (debug_request, q) (record { well = h })
]

meter_request-IsWell :
    (bus : Bus) (packet : List ℕ) (s : State) → IsWell s → KeepsWell (meter_request bus packet s)
unfolding meter_request
meter_request-IsWell bus packet s h = elim (Bool-cases (ltb 5 (get packet 2))) [
  | inl e ↦ rw e (record { well = h })
  | inr e ↦ rw e (elim (Option-cases (transform_by_kongguan bus (address 0x1f 0x02 packet))) [
    | inl q ↦ rw q (record { well = h })
    | inr (ret, q) ↦ rw q (record { well = h })
  ])
]

serve-IsWell :
    (w : Site) (packet : List ℕ) (s : State)
    → IsBytes packet
    → IsWell s
    → KeepsWell (serve w packet s)
unfolding serve
serve-IsWell w packet s bytes h = if-keeps KeepsWell _ _ _ (light_request-IsWell w.bus packet s h) (
    if-keeps KeepsWell _ _ _ (curtain_request-IsWell w.bus w.temp_byte w.bounded_byte packet s h) (
      if-keeps KeepsWell _ _ _ (xinfeng_request-IsWell w.bus packet s h) (
        if-keeps KeepsWell _ _ _ (debug_request-IsWell w.bus packet s h) (
          if-keeps KeepsWell _ _ _ (meter_request-IsWell w.bus packet s h) (
            if-keeps KeepsWell _ _ _
              (record { well = inner_process-IsWell w.outside packet s bytes h })
              (record { well = h }))))))

pub run_once-IsWell :
    (w : Site) (packet : Option (List ℕ)) (s : State)
    → IsPacket packet
    → IsWell s
    → KeepsWell (run_once w packet s)
unfolding run_once
run_once-IsWell w none s bytes h = record { well = sample-IsWell w.gpios s h }
run_once-IsWell w (some packet) s bytes h =
    let sampled = sample-IsWell w.gpios s h in
    if-keeps KeepsWell _ _ _ (serve-IsWell w packet (sample w.gpios s) bytes sampled)
      (record { well = sampled })
