-- ===== src/Ymodem.antt =====
-- The YMODEM sender of ymodem/src: its checksums, its packets, the serial line, a receiver to
-- measure it by, and the transfer.
pub mod Control
pub mod Crc16
pub mod Crc32
pub mod Remainder
pub mod Decimal
pub mod Port
pub mod Receiver
pub mod Packet
pub mod Sender
pub mod Tool
mod Tests
