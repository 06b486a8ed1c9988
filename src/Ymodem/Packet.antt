-- ===== src/Ymodem/Packet.antt =====
-- `send_packet` and `send_packet0` of ymodem/src/ymodem.c, as compiled with _ALWAY_128.
pub mod Layout
pub mod Frame
use hukong.Base.{
  ℕ, suc, ◌+◌, ◌-◌, ◌/◌, ◌%◌, ◌^◌, ◌==◌, ltb, not, ◌&&◌, if◌then◌else◌, List, [], ◌∷◌, ◌++◌, Option,
  none, some, length, take, replicate,
}
use hukong.Ymodem.Control.{soh, packet_size, file_size_length}
use hukong.Ymodem.Crc16.{crc16}
use hukong.Ymodem.Decimal.{u32_to_str}
use hukong.Ymodem.Port.{Io, put_chars, stop, fault, ◌>>=◌, ◌>>◌}

-- `btHead`: the start code, the low byte of `block_no`, and that of its complement.
unfoldable pub head : ℕ → List ℕ
head block_no = soh ∷ block_no % 2 ^ 8 ∷ (2 ^ 32 - 1 - block_no) % 2 ^ 8 ∷ []

-- `mem` is the readable memory from the pointer on; the packet is its first 128 bytes.
unfoldable pub send_packet : List ℕ → ℕ → Io (Unit {0})
send_packet mem block_no = if ltb (length mem) packet_size then stop fault else do
  let bytes = take packet_size mem
  let crc = crc16 bytes
  put_chars (head block_no)
  put_chars bytes
  put_chars (crc / 2 ^ 8 ∷ crc % 2 ^ 8 ∷ [])

-- `while (*filename && (count < PACKET_SIZE-FILE_SIZE_LENGTH-2))`
unfoldable pub copy_name : List ℕ → ℕ → List ℕ
copy_name [] count = []
copy_name (c ∷ filename) count =
    if not (c == 0) && ltb count (packet_size - file_size_length - 2)
    then c ∷ copy_name filename (count + 1)
    else []

-- `while (count < PACKET_SIZE) block[count++] = 0`
unfoldable pub fill_block : List ℕ → List ℕ
fill_block block = block ++ replicate (packet_size - length block) 0

-- The contents of `block` when it is sent; a null `filename` is `none`.
unfoldable pub block0 : Option (List ℕ) → ℕ → List ℕ
block0 none size = fill_block []
block0 (some filename) size = fill_block (copy_name filename 0 ++ 0 ∷ u32_to_str size)

unfoldable pub send_packet0 : Option (List ℕ) → ℕ → Io (Unit {0})
send_packet0 filename size = send_packet (block0 filename size) 0
