-- ===== src/Repeat/Bytes.antt =====
-- Bytes and bit fields of the records of src/repeat_comm.cpp: the macros of
-- src/protocol/protocol_config.h, a store to a `BYTE` of an array, a `WORD` read from two of them,
-- and `memcpy` to the start of an array.
pub mod Halves
pub mod Stores
use hukong.Base.{
  ℕ, ◌+◌, ◌-◌, ◌*◌, ◌/◌, ◌%◌, ◌^◌, bit_and, bit_or, List, ◌++◌, length, get_or, set, take, drop,
}
unfoldable pub use hukong.Serial.Method.Devices.{get_bit, set_bit, get_bits, set_bits}

abbrev pub get : List ℕ → ℕ → ℕ
get bytes i = get_or bytes i 0

-- `bytes[i] = v`, cut to a `BYTE`.
unfoldable pub store : List ℕ → ℕ → ℕ → List ℕ
store bytes i v = set bytes i (v % 2 ^ 8)

-- `__le16_to_cpu(*(WORD *)&bytes[i])`
abbrev pub word : List ℕ → ℕ → ℕ
word bytes i = get bytes i + get bytes (i + 1) * 2 ^ 8

-- `memcpy(bytes + at, from, length from)`
unfoldable pub copy_at : List ℕ → ℕ → List ℕ → List ℕ
copy_at bytes at from = take at bytes ++ (from ++ drop (at + length from) bytes)
