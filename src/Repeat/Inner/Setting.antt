-- ===== src/Repeat/Inner/Setting.antt =====
-- The requests 0x81 (set) and 0x01 (query) of `InnerProcess`, src/repeat_comm.cpp.
use hukong.Base.{
  ℕ, ◌+◌, ◌*◌, ◌==◌, ◌&&◌, ◌||◌, not, if◌then◌else◌, Bool, false, List, [], ◌∷◌, none, some, take,
  drop, replicate, min,
}
use hukong.Serial.Method.Devices.{bit_of}
use hukong.Serial.Packet.{get_packet_len, get_src_addr, get_dest_addr, get_type, get_function}
use hukong.Repeat.Bytes.{get, get_bit, get_bits, word, store, copy_at}
use hukong.Repeat.State.{DataType, data_setting, data_record, State, store_bit, store_bits}

-- A frame back to the one who asked.
pub record Response : Type 0 where
  pub src : ℕ
  pub dest : ℕ
  pub type : ℕ
  pub function : ℕ
  pub data_bytes : List ℕ

unfoldable pub respond : List ℕ → List ℕ → Response
respond packet bytes = record {
  src = get_src_addr packet;
  dest = get_dest_addr packet;
  type = get_type packet;
  function = get_function packet;
  data_bytes = bytes;
}

-- A call of `Save`: the record, its bytes, and how many of them.
pub record Save : Type 0 where
  pub type : DataType
  pub bytes : List ℕ
  pub count : ℕ

-- `memcpy` of the packet, at most as much as the record has.
unfoldable pub record_of : List ℕ → List ℕ → List ℕ
record_of packet bytes = copy_at bytes 0 (take (min (get_packet_len packet) data_record) packet)

abbrev pub dust : List ℕ → ℕ
dust bytes = get_bits (get bytes 7) 5 7

abbrev pub gere : List ℕ → ℕ
gere bytes = get_bits (get bytes 8) 0 2

abbrev pub zhaoming : List ℕ → ℕ
zhaoming bytes = get_bits (get bytes 8) 3 5

-- A field of zero in the packet is no value: the old one is put back.
unfoldable pub restore : List ℕ → List ℕ → List ℕ → List ℕ
restore packet old bytes =
    let dusted = if dust packet == 0 then store_bits bytes 7 5 7 (dust old) else bytes in
    let closed = if gere packet == 0 then store_bits dusted 8 0 2 (gere old) else dusted in
    if zhaoming packet == 0 then store_bits closed 8 3 5 (zhaoming old) else closed

-- Does the packet bring anything that is to be kept?
unfoldable pub news : List ℕ → List ℕ → Bool
news packet old =
    not (dust old == dust packet)
    || (not (gere old == gere packet)
        || (not (zhaoming old == zhaoming packet)
            || (not (get old 10 == get packet 10)
                || (not (word old 12 == word packet 12)
                    || (not (get old 14 == get packet 14)
                        || (not (get old 15 == get packet 15)
                            || (not (word old 30 == word packet 30)
                                || not (word old 32 == word packet 32))))))))

unfoldable pub set_frame : List ℕ → State → State × List Save
set_frame packet s =
    let old = s.m_data_setting in
    let bytes = restore packet old (record_of packet old) in
    let changed = not (zhaoming packet == 0) && not (zhaoming packet == zhaoming old) in
    (
      record s {
        m_data_setting = bytes;
        m_is_bind_change = changed || s.m_is_bind_change;
        m_fire_alarm = get_bit (get bytes 10) 5 == 1;
      },
      if news packet old
          then record { type = data_setting; bytes = bytes; count = get_packet_len packet } ∷ []
          else [],
    )

-- The measurements of the query go into the settings as well.
unfoldable pub query_frame : List ℕ → State → State
query_frame packet s =
    let query = record_of packet s.m_data_query_setting in
    record s {
      m_data_query_setting = query;
      m_data_setting = copy_at s.m_data_setting 16 (take 13 (drop 11 query));
    }

-- What the last RPC set takes the place of what the controller says, once.
unfoldable pub sync_xinfeng : State → State
sync_xinfeng s = elim s.m_sync_xinfeng_temp [
  | none ↦ s
  | some temp ↦ elim s.m_sync_xinfeng_mode [
    | none ↦ s
    | some mode ↦
        let cold = if mode == 0 then 1 else 0 in
        let set =
          store_bit (store_bit s.m_data_setting 9 2 cold) 9 3 (if mode == 0 then 0 else 1) in
        record s {
          m_data_setting = store set 11 (temp * 2);
          m_sync_xinfeng_temp = none;
          m_sync_xinfeng_mode = none;
        }
  ]
]

-- Bits of `m_data_outside_sen` from item `from` on, `n` of them, to byte `at` from bit `seq` on.
unfoldable pub put_bits : List ℕ → ℕ → ℕ → List ℕ → List ℕ
put_bits bytes at seq [] = bytes
put_bits bytes at seq (v ∷ vs) = put_bits (store_bit bytes at seq v) at (seq + 1) vs

-- `responeData`, of which the bytes 7 to 27 are sent.
unfoldable pub setting_data : State → List ℕ
setting_data s =
    let set = s.m_data_setting in
    let sen : ℕ → ℕ = get s.m_data_outside_sen in
    let blank = copy_at (replicate 30 0) 12 (replicate 16 0xff) in
    let sensed =
      store_bit (store_bit blank 7 6 (get_bit (get set 10) 6)) 7 7 (get_bit (get set 10) 7) in
    let dusted = store_bits (store sensed 8 (get set 8)) 9 0 2 (dust set) in
    let moded = if get_bit (get set 9) 3 == 1 then store_bit dusted 9 3 1 else dusted in
    let aired = store (store (store moded 12 (get set 11)) 13 (get set 12)) 14 (get set 13) in
    let outside = copy_at aired 15 (take 11 s.m_data_outside_env) in
    let sunny = put_bits outside 9 4 (sen 0 ∷ sen 1 ∷ sen 2 ∷ sen 3 ∷ []) in
    let alarmed = put_bits sunny 10 0 (
      bit_of (s.m_fire_alarm || s.m_broadcast_fire_alarm)
      ∷ sen 4
      ∷ sen 5
      ∷ sen 6
      ∷ sen 7
      ∷ sen 8
      ∷ sen 9
      ∷ []) in
    let detected = if s.m_inner_air_detection then store_bit alarmed 11 2 1 else alarmed in
    take 21 (drop 7 (store (store detected 26 8) 27 (get set 14)))

unfoldable pub setting_request : List ℕ → State → State × Response × List Save
setting_request packet s =
    let (set, saves) =
      if get_function packet == 0x81 then set_frame packet s else (query_frame packet s, []) in
    let synced = sync_xinfeng set in
    (record synced { m_inner_air_detection = false }, respond packet (setting_data synced), saves)
