-- ===== src/Outside/PacketBuffer.antt =====
-- `PacketBuffer` of outside_env/src/protocol/protocol_packet.cpp and the lengths of protocol_packet.h:
-- answers cut out of the bytes received. `PreProcess` is constantly false, so no packet is dropped
-- there. A failed assertion on the command is `none` and `aborted`.
pub mod Accept
use hukong.Base.{ℕ, ◌+◌, ◌-◌, ◌==◌, ltb, leb, if◌then◌else◌, List, Option, none, some, take}
use hukong.Repeat.Bytes.{get, word}
use hukong.Serial.Buffer.{Buffer, copy_to, del}
use hukong.Outside.Packet.{modbus_sum}

-- `m_btCmd` and `m_Data` in the 258 bytes of the struct.
abbrev pub cmd_of : List ℕ → ℕ
cmd_of p = get p 1

abbrev pub m_data : List ℕ → ℕ → ℕ
m_data p i = get p (2 + i)

unfoldable pub get_packet_len : List ℕ → Option ℕ
get_packet_len p =
    if cmd_of p == 0x10 then some 8 else if cmd_of p == 0x03 then some (m_data p 0 + 5) else none

unfoldable pub get_data_len : List ℕ → Option ℕ
get_data_len p =
    if cmd_of p == 0x10 then some 0 else if cmd_of p == 0x03 then some (m_data p 0) else none

-- Where the data begin in the struct.
unfoldable pub get_data : List ℕ → Option ℕ
get_data p = if cmd_of p == 0x10 then some 6 else if cmd_of p == 0x03 then some 3 else none

abbrev pub packet_minlen : ℕ
packet_minlen = 6

-- The result of `PacketVaild`.
pub data Check : Type 0 where
  valid invalid exception_packet aborted : Check

-- `wCRC == wCalCRC`: the two bytes behind the data against the sum of those before.
unfoldable pub crc_test : List ℕ → ℕ → Check
crc_test p len = elim (get_data p) [
  | none ↦ aborted
  | some data_at ↦ elim (get_data_len p) [
    | none ↦ aborted
    | some data_len ↦
        if word p (data_at + data_len) == modbus_sum (take (len - 2) p)
        then valid
        else exception_packet
  ]
]

-- `raw()` is the whole memory of the buffer.
unfoldable pub packet_vaild : Buffer → Check
packet_vaild b =
    if ltb 0 b.cur_pos
    then if leb packet_minlen b.cur_pos
      then elim (get_packet_len b.buf) [
        | none ↦ aborted
        | some len ↦ if leb len b.cur_pos then crc_test b.buf len else invalid
      ]
      else invalid
    else invalid

-- The result of `GetPacket` with the packet and the buffer that it leaves; `fault` is a copy outside
-- the 258 bytes of the packet.
pub data Got : Type 0 where
  got : List ℕ → Buffer → Got
  nothing thrown failed fault : Got

-- The packet behind the copy, and the buffer behind `del`.
abbrev pub copied : Option (List ℕ) → Option Buffer → Got
copied none rest = fault
copied (some packet) none = fault
copied (some packet) (some rest) = got packet rest

unfoldable pub get_packet : Buffer → List ℕ → Got
get_packet b packet = elim (packet_vaild b) [
  | valid ↦ elim (get_packet_len b.buf) [
    | none ↦ failed
    | some len ↦ copied (copy_to packet 0 (take len b.buf)) (del b len)
  ]
  | invalid ↦ nothing
  | exception_packet ↦ thrown
  | aborted ↦ failed
]
