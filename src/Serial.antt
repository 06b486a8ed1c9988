-- ===== src/Serial.antt =====
-- The serial protocol of src/protocol, with the buffer of lib-linux/src that it is built on.
pub mod Buffer
pub mod Packet
pub mod Queue
pub mod PacketBuffer
pub mod Comm
pub mod Send
pub mod Method
mod Tests
