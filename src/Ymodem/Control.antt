-- ===== src/Ymodem/Control.antt =====
-- The control codes and sizes of ymodem/src/ymodem.h.
use hukong.Base.{ℕ}

-- SOH: start of a 128-byte data packet.
abbrev pub soh : ℕ
soh = 0x01

-- EOT: end of transmission.
abbrev pub eot : ℕ
eot = 0x04

-- ACK: received.
abbrev pub ack : ℕ
ack = 0x06

-- NAK: receiver error.
abbrev pub nak : ℕ
nak = 0x15

-- CAN: two of these abort the transfer.
abbrev pub can : ℕ
can = 0x18

-- CRC, the letter C: the receiver asks for a CRC transfer.
abbrev pub crc : ℕ
crc = 0x43

abbrev pub packet_size : ℕ
packet_size = 128

abbrev pub file_size_length : ℕ
file_size_length = 16
