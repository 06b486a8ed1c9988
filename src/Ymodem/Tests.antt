-- ===== src/Ymodem/Tests.antt =====
-- Runs of ymodem/src/ymodem.c at concrete inputs.
use hukong.Base.{
  take, ℕ, zero, suc, ◌+◌, ◌/◌, ◌%◌, ◌^◌, ◌≡◌, ◌≢◌, refl, arith, bit_xor, List, [], ◌∷◌, ◌++◌,
  Option, none, some, length, take, replicate, All, length-append, length-replicate,
}
use hukong.Reflected.{bytes}
use hukong.Ymodem.Control.{crc, ack, nak}
use hukong.Ymodem.Crc16.{crc16, crc16_loop, crc16_byte, crc16_bits, crc16_bit}
use hukong.Ymodem.Crc16.Detect.{crc16_detects}
use hukong.Ymodem.Crc32.{crc32, crc32_loop, crc32_byte, crc_table}
use hukong.Ymodem.Crc32.Table.{poly, crc32-eq-bitwise}
use hukong.Ymodem.Decimal.{u32_to_str, digits_loop}
use hukong.Ymodem.Packet.{block0, send_packet}
use hukong.Ymodem.Packet.Layout.{read_block0-block0}
use hukong.Ymodem.Packet.Frame.{frame, bytes_put, send_packet-read_frame}
use hukong.Ymodem.Receiver.{read_block0, read_frame, receive, acked}
use hukong.Ymodem.Port.{done, prepend}
use hukong.Ymodem.Port.Laws.{Ended, Returns}
use hukong.Ymodem.Sender.{IsReadable, ymodem_send, send_blocks}
use hukong.Ymodem.Sender.Total.{ymodem_send-Ended}
use hukong.Ymodem.Sender.Session.{session, closing, ymodem_send-session}
use hukong.Ymodem.Sender.Received.{ymodem_send-received, ymodem_send_overreads}
use hukong.Ymodem.Sender.Retry.{sendings, send_blocks_retries}
use hukong.Ymodem.Sender.Complete.{closing_replies, ymodem_send_complete}

-- "123456789", whose check values are the published ones of CRC-16/XMODEM and CRC-32.
abbrev check : List ℕ
check = b'1' ∷ b'2' ∷ b'3' ∷ b'4' ∷ b'5' ∷ b'6' ∷ b'7' ∷ b'8' ∷ b'9' ∷ []

crc16-check : crc16 check ≡ 0x31c3
unfolding crc16 crc16_loop crc16_byte crc16_bits crc16_bit
crc16-check = refl

crc32-check : crc32 check ≡ 0xcbf4_3926
unfolding crc32 crc32_loop crc32_byte crc_table
crc32-check = refl

u32_to_str-2026 : u32_to_str 2026 ≡ b'2' ∷ b'0' ∷ b'2' ∷ b'6' ∷ []
unfolding u32_to_str digits_loop
u32_to_str-2026 = refl

crc16_detects_example : crc16 (b'h' ∷ b'i' ∷ b'!' ∷ []) ≢ crc16 (b'h' ∷ b'o' ∷ b'!' ∷ [])
crc16_detects_example =
    crc16_detects (b'h' ∷ []) (b'!' ∷ []) b'i' b'o' (omega arith, tt) (omega arith) (omega arith)
      (λ e. omega arith)

crc32-eq-bitwise_example : crc32 check ≡ bit_xor (bytes poly check 0xffff_ffff) 0xffff_ffff
crc32-eq-bitwise_example = crc32-eq-bitwise check (ground arith)

abbrev name : List ℕ
name = b'a' ∷ b'.' ∷ b'b' ∷ []

name-IsNonzero : All (λ c. c ≢ 0) name
name-IsNonzero = ((λ e. omega arith), ((λ e. omega arith), ((λ e. omega arith), tt)))

read_block0-block0_example : read_block0 (block0 (some name) 130) ≡ (take 110 name, 130 % 2 ^ 32)
read_block0-block0_example = read_block0-block0 name 130 name-IsNonzero

-- A file of two bytes, in a buffer of one packet and in one of its own length.
abbrev file : List ℕ
file = b'h' ∷ b'i' ∷ []

abbrev slack : List ℕ
slack = replicate 126 0

length-buffer : length (file ++ slack) ≡ 128
length-buffer = omega (arith, length-append file slack, length-replicate 126 zero)

buffer-IsReadable : IsReadable (file ++ slack) 2
buffer-IsReadable = omega (arith, length-buffer)

send_packet-read_frame_example :
    read_frame (bytes_put (send_packet (file ++ slack) 257 []).events)
    ≡ some (257 % 256, take 128 (file ++ slack))
send_packet-read_frame_example =
    send_packet-read_frame (file ++ slack) 257 [] (omega (arith, length-buffer)) (omega arith)

abbrev script : List (Option ℕ)
script =
    some crc ∷ some ack ∷ some crc ∷ (replicate ((2 + 127) / 128) (some ack) ++ closing_replies)

ymodem_send_complete_example :
    Returns (ymodem_send 3 (file ++ slack) 2 (some name)) script (some 2) []
ymodem_send_complete_example =
    ymodem_send_complete 3 (file ++ slack) 2 (some name) (omega arith) buffer-IsReadable

script_returns : (ymodem_send 3 (file ++ slack) 2 (some name) script).value ≡ done (some 2)
script_returns =
    (ymodem_send_complete 3 (file ++ slack) 2 (some name) (omega arith) buffer-IsReadable).value

ymodem_send-Ended_example :
    Ended (ymodem_send 4 (file ++ slack) 2 none (some crc ∷ some nak ∷ some ack ∷ [])).value
ymodem_send-Ended_example =
    ymodem_send-Ended 4 (file ++ slack) 2 none (some crc ∷ some nak ∷ some ack ∷ []) (omega arith)
      buffer-IsReadable

ymodem_send-session_example :
    (length file ≡ length file)
    × IsReadable (file ++ slack) 2
    × ((k : ℕ) × (acked [] (ymodem_send 3 (file ++ slack) 2 (some name) script).events
          ≡ session (file ++ slack) 2 (some name) k))
ymodem_send-session_example =
    ymodem_send-session 3 (file ++ slack) 2 (some name) script 2 script_returns

ymodem_send-received_example :
    (k : ℕ) × (frames : List (List ℕ)) × (bytes : List ℕ) × (acked []
        (ymodem_send 3 (file ++ slack) (length file) (some name) script).events
      ≡ replicate (suc k) (frame (block0 (some name) (length file)) 0) ++ (frames ++ closing))
    × (receive 1 frames ≡ some bytes)
    × (take (length file) bytes ≡ file)
ymodem_send-received_example =
    ymodem_send-received 3 file slack (some name) script 2 (omega arith) script_returns

ymodem_send_overreads_example : (ymodem_send 3 file 2 (some name) script).value ≢ done (some 2)
ymodem_send_overreads_example = ymodem_send_overreads 3 file (some name) script 2 (λ e. omega arith)

send_blocks_retries_example :
    send_blocks (1000 + 1) (file ++ slack) 2 1 (replicate 1000 (some nak) ++ [])
    ≡ prepend (sendings 1000 (file ++ slack) 1 (some nak)) (send_blocks 1 (file ++ slack) 2 1 [])
send_blocks_retries_example =
    send_blocks_retries 1000 1 (file ++ slack) 2 1 nak [] (omega arith)
      (omega (arith, length-buffer)) (λ e. omega arith) (λ e. omega arith)
