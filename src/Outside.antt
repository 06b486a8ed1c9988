-- ===== src/Outside.antt =====
-- The Modbus client of outside_env/src for the box with the outdoor sensors.
pub mod Crc16
pub mod Comm
pub mod Packet
pub mod PacketBuffer
mod Tests
