-- ===== src/Repeat.antt =====
-- `RepeatComm` of src/repeat_comm.h and src/repeat_comm.cpp.
pub mod Bytes
pub mod State
pub mod Sensors
pub mod Settings
pub mod Calc
pub mod Climate
pub mod Run
pub mod Inner
pub mod Polling
pub mod File
pub mod Devices
pub mod Steps
mod Tests
