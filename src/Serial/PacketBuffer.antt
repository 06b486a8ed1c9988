-- ===== src/Serial/PacketBuffer.antt =====
-- `PacketBuffer` of src/protocol/protocol_packet.cpp: packets cut out of the bytes received.
-- `PreProcess` is constantly false, so no packet is dropped there.
pub mod Accept
use hukong.Base.{
  ℕ, zero, suc, ◌+◌, ◌==◌, ◌&&◌, ltb, leb, if◌then◌else◌, Bool, List, ◌∷◌, Option, none, some,
  get_or, take,
}
use hukong.Serial.Buffer.{Buffer, copy_to, del}
use hukong.Serial.Packet.{packet_minlen, packet_end, get_packet_len, checksum_at, is_check_sum_ok}

-- The result of `PacketVaild`; the last is the exception that it throws.
pub data Check : Type 0 where
  valid invalid exception_packet : Check

-- `raw()` is the whole memory of the buffer: it is read as a packet up to what the tests allow.
unfoldable pub packet_vaild : Buffer → Check
packet_vaild b =
    if ltb 0 b.cur_pos
    then if ltb b.cur_pos 2
      then invalid
      else if get_or b.buf 0 0 == 0xf7 && get_or b.buf 1 0 == 0xf8
      then if leb packet_minlen b.cur_pos && leb (get_packet_len b.buf) b.cur_pos
        then if is_check_sum_ok b.buf && get_or b.buf (checksum_at b.buf + 1) 0 == packet_end
          then valid
          else exception_packet
        else invalid
      else exception_packet
    else invalid

-- The result of `GetPacket` with the packet and the buffer that it leaves; `fault` is a copy outside
-- its memory.
pub data Got : Type 0 where
  got : List ℕ → Buffer → Got
  nothing thrown fault : Got

-- The packet behind the copy, and the buffer behind `del`.
abbrev pub copied : Option (List ℕ) → Option Buffer → Got
copied none rest = fault
copied (some packet) none = fault
copied (some packet) (some rest) = got packet rest

unfoldable pub get_packet : Buffer → List ℕ → Got
get_packet b packet = elim (packet_vaild b) [
  | valid ↦
      copied (copy_to packet 0 (take (get_packet_len b.buf) b.buf)) (del b (get_packet_len b.buf))
  | invalid ↦ nothing
  | exception_packet ↦ thrown
]
