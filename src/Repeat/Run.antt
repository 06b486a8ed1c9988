-- ===== src/Repeat/Run.antt =====
-- `RepeatComm::Run` of src/repeat_comm.cpp: one round of the loop, which samples the contacts and
-- serves a request of the air controller, most of them by passing them on to a device.
-- The bus is an argument: what `ProtocolMethod::transform` answers to a source, a destination, a type,
-- a function and data, if it does. `bus_of` is that of the model of `transform`.
pub mod Forward
pub mod Asks
use hukong.Base.{
  ℕ, ◌+◌, ◌-◌, ◌*◌, ◌/◌, ◌%◌, ◌==◌, ltb, ◌&&◌, ◌||◌, not, if◌then◌else◌, Bool, true, false, List,
  [], ◌∷◌, ◌++◌, Option, none, some, set, take, drop, min,
}
use hukong.Serial.Method.Devices.{bit_of}
use hukong.Serial.Packet.{
  get_packet_len, checksum_at, get_src_addr, get_dest_addr, get_type, get_function, calc_check_sum,
  build_packet,
}
use hukong.Serial.Send.{get_data}
use hukong.Serial.Method.{Method, transform}
use hukong.Repeat.Bytes.{get, get_bit, get_bits, set_bit, set_bits, store, copy_at}
use hukong.Repeat.State.{data_record, State}
use hukong.Repeat.Sensors.{
  sample, process_sen, is_has_man_by_xinfeng, is_has_man_by_curtain, is_curtain_has_sunshine,
}
use hukong.Repeat.Climate.{CurtainEnv, curtain_env}
use hukong.Repeat.Inner.{Response, Outside, Outcome, inner_process}

abbrev pub Bus : Type 0
Bus = ℕ → ℕ → ℕ → ℕ → List ℕ → Option (List ℕ)

-- Not saved, and sent once.
unfoldable pub bus_of : ℕ → Method → Bool → List (List (List ℕ)) → Bus
bus_of fuel m sent later src dest type function bytes =
    elim (transform fuel m src dest type function (some bytes) false true sent later) [
      | none ↦ none
      | some r ↦ r.value
    ]

-- The packet's own checksum is not looked at.
unfoldable pub transform_by_kongguan : Bus → List ℕ → Option (List ℕ)
transform_by_kongguan bus packet =
    bus (get_src_addr packet) (get_dest_addr packet) (get_type packet) (get_function packet)
      (get_data packet)

-- The packet for the device: another type and function, and the checksum again.
unfoldable pub address : ℕ → ℕ → List ℕ → List ℕ
address type function packet =
    let p = set (set packet 5 type) 6 function in set p (checksum_at p) (calc_check_sum p)

-- The data of a packet, and its length cut to the `BYTE` that the next packet is built with.
unfoldable pub data_of : ℕ → List ℕ → List ℕ
data_of less packet = take ((get packet 2 + 251 - less) % 256) (drop 7 packet)

-- A response of the controller's own type.
unfoldable pub reply : ℕ → List ℕ → List ℕ → Response
reply function ret bytes = record {
  src = get_src_addr ret;
  dest = get_dest_addr ret;
  type = 0x1d;
  function = function;
  data_bytes = bytes;
}

-- What a round does: the outcome for the controller, and the command to the curtain of this
-- address.
pub record Round : Type 0 where
  pub outcome : Outcome
  pub to_curtain : Option (ℕ × CurtainEnv)

abbrev pub round_of : State → Option Response → Round
round_of s r = record {
  outcome = record { state = s; response = r; saves = []; commands = []; clock = none };
  to_curtain = none;
}

-- The ten bytes of a light's answer as the controller knows them: the fields follow without gaps.
unfoldable pub light_answer : List ℕ → List ℕ
light_answer ret =
    let detect = get ret 8 in
    set_bits (get ret 7) 6 7 (get_bits detect 0 1) % 256
    ∷ set_bits (get_bits detect 2 3) 2 7 (get_bits (get ret 9) 0 5) % 256
    ∷ take 8 (drop 10 ret)

-- 0x43 sets, 0x44 queries. The contacts of the box are kept.
unfoldable pub light_request : Bus → List ℕ → State → Round
light_request bus packet s =
    let setting = get_function packet == 0x43 in
    let s1 = if setting then record s { m_is_kongguan_set_cmd = true } else s in
    let wrong = if setting then not (get packet 2 == 8) else ltb 5 (get packet 2) in
    if wrong
    then round_of s1 none
    else elim (transform_by_kongguan bus (address 0x1e (if setting then 0x81 else 0x01) packet)) [
      | none ↦ round_of s1 none
      | some ret ↦
          let box = get_dest_addr ret in
          let kept =
            process_sen (record s1 {
              m_data_switch_status = store s1.m_data_switch_status box (get ret 8);
            }) in
          round_of (if ltb 0 box then kept else s1)
            (some (reply (get_function packet) ret (light_answer ret)))
    ]

-- The first data byte of a curtain command with what this box knows.
unfoldable pub told_byte : CurtainEnv → ℕ → ℕ
told_byte env b =
    let one = set_bit (set_bit b 4 (bit_of env.has_one)) 5 (bit_of (not env.has_one)) in
    set_bit (set_bit one 6 env.season) 7 (bit_of env.sunshine)

-- Does the curtain's answer differ from what this box knows?
unfoldable pub outdated : CurtainEnv → ℕ → List ℕ → Bool
outdated env temp_byte ret =
    let b = get ret 11 in
    not (bit_of env.has_one == get_bit b 0)
    || (not (env.season == get_bit b 4)
        || (not (bit_of env.sunshine == get_bit b 5) || not (temp_byte == get ret 12)))

-- 0x45 sets, 0x46 queries. The byte of the temperature outside is an argument; the one that is sent
-- is not bounded, the one that is compared is.
unfoldable pub curtain_request : Bus → ℕ → ℕ → List ℕ → State → Round
curtain_request bus temp_byte bounded_byte packet s =
    let setting = get_function packet == 0x45 in
    let s1 = if setting then record s { m_is_kongguan_set_cmd = true } else s in
    let wrong = if setting then not (get packet 2 == 7) else ltb 5 (get packet 2) in
    let told =
      store (store packet 7 (told_byte (curtain_env (get_dest_addr packet) s) (get packet 7))) 8
        temp_byte in
    let out = if setting then address 0x19 0x81 told else address 0x19 0x01 packet in
    if wrong then round_of s1 none else elim (transform_by_kongguan bus out) [
      | none ↦ round_of s1 none
      | some ret ↦
          let r = round_of s1 (some (reply (get_function packet) ret (data_of 1 ret))) in
          let env = curtain_env (get_dest_addr ret) s1 in
          if not setting && ((get ret 2 == 11) && outdated env bounded_byte ret)
          then record r { to_curtain = some (get_dest_addr ret, env) }
          else r
    ]

-- 0x47 sets, 0x48 queries. Somebody is there if the sensors or the controller say so.
unfoldable pub xinfeng_request : Bus → List ℕ → State → Round
xinfeng_request bus packet s =
    let setting = get_function packet == 0x47 in
    let has_human = bit_of (is_has_man_by_xinfeng s (get_dest_addr packet)) in
    let human = if get_bit (get packet 7) 4 == 1 then 1 else has_human in
    let s1 =
      if setting
      then record s {
        m_is_kongguan_set_cmd = true;
        m_data_setting = store s.m_data_setting 11 (get packet 9);
      }
      else s in
    let query =
      (build_packet packet (get_src_addr packet) (get_dest_addr packet) 0x1c 0x01
        (some (set_bit 0 4 has_human ∷ get packet 7 ∷ []))).0 in
    let out =
      if setting
      then address 0x1c 0x81 (store packet 7 (set_bit (get packet 7) 4 human))
      else address 0x1c 0x01 query in
    elim (transform_by_kongguan bus out) [
      | none ↦ round_of s1 none
      | some ret ↦
          let cut = take (min (get_packet_len ret) data_record) ret in
          let kept = record s1 { m_data_xinfeng = copy_at s1.m_data_xinfeng 0 cut } in
          let manned = store ret 7 (set_bit (get ret 7) 4 has_human) in
          round_of (if get_dest_addr ret == 1 then kept else s1)
            (some (reply (get_function packet) manned (data_of 0 manned)))
    ]

-- 0x31: passed on as it is.
unfoldable pub debug_request : Bus → List ℕ → State → Round
debug_request bus packet s = elim (transform_by_kongguan bus packet) [
  | none ↦ round_of s none
  | some ret ↦
      round_of s
        (some (record (reply (get_function ret) ret (data_of 0 ret)) { type = get_type ret }))
]

-- 0x49: the meter.
unfoldable pub meter_request : Bus → List ℕ → State → Round
meter_request bus packet s =
    if ltb 5 (get packet 2)
    then round_of s none
    else elim (transform_by_kongguan bus (address 0x1f 0x02 packet)) [
      | none ↦ round_of s none
      | some ret ↦ round_of s (some (reply (get_function packet) ret (data_of 0 ret)))
    ]

-- What the round finds outside: the gpios, the bus, the temperature, and what `InnerProcess` asks.
pub record Site : Type 0 where
  pub gpios : List ℕ
  pub bus : Bus
  pub temp_byte : ℕ
  pub bounded_byte : ℕ
  pub outside : Outside

abbrev pub is_inner : ℕ → Bool
is_inner f =
    (f == 0x81 || f == 0x01)
    || ((f == 0x41 || f == 0x42)
        || ((f == 0x51 || f == 0x50) || ((f == 0x02 || f == 0x03) || (f == 0x04 || f == 0x05))))

unfoldable pub serve : Site → List ℕ → State → Round
serve w packet s =
    let f = get_function packet in
    if f == 0x43 || f == 0x44
    then light_request w.bus packet s
    else if f == 0x45 || f == 0x46
    then curtain_request w.bus w.temp_byte w.bounded_byte packet s
    else if f == 0x47 || f == 0x48
    then xinfeng_request w.bus packet s
    else if f == 0x31
    then debug_request w.bus packet s
    else if f == 0x49
    then meter_request w.bus packet s
    else if is_inner f
    then record { outcome = inner_process w.outside packet s; to_curtain = none }
    else round_of s none

-- A packet of another type is not served.
unfoldable pub run_once : Site → Option (List ℕ) → State → Round
run_once w none s = round_of (sample w.gpios s) none
run_once w (some packet) s =
    if get_type packet == 0x1d
    then serve w packet (sample w.gpios s)
    else round_of (sample w.gpios s) none
