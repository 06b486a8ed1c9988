-- ===== src/Outside/Packet.antt =====
-- `struct Packet` of outside_env/src/protocol/protocol_packet.h and protocol_packet.cpp: its 258
-- bytes, `m_btAddr`, `m_btCmd` and `m_Data[256]`. The caller keeps the data short
-- enough for them: at most 249 bytes.
pub mod Request
use hukong.Base.{
  ℕ, ◌+◌, ◌/◌, ◌%◌, ◌^◌, ◌==◌, if◌then◌else◌, List, [], ◌∷◌, ◌++◌, Option, none, some, length,
  get_or, take,
}
use hukong.Serial.Packet.{write}
use hukong.Outside.Crc16.{crc16}

-- Modbus starts from all ones.
unfoldable pub modbus_sum : List ℕ → ℕ
modbus_sum bytes = crc16 0xffff bytes

-- Big-endian and little-endian halves of a `WORD`.
abbrev pub be16 : ℕ → List ℕ
be16 w = w / 2 ^ 8 % 2 ^ 8 ∷ w % 2 ^ 8 ∷ []

abbrev pub le16 : ℕ → List ℕ
le16 w = w % 2 ^ 8 ∷ w / 2 ^ 8 % 2 ^ 8 ∷ []

-- The bytes before the checksum; a null `pData` is `none`.
unfoldable pub request_body : ℕ → ℕ → ℕ → ℕ → Option (List ℕ) → List ℕ
request_body addr cmd reg_addr reg_addr_count p_data =
    addr
    ∷ cmd
    ∷ (be16 reg_addr
        ++ (be16 reg_addr_count ++ elim p_data [ none ↦ [] | some bytes ↦ length bytes ∷ bytes ]))

-- The struct and the number of bytes to send.
unfoldable pub build_request : List ℕ → ℕ → ℕ → ℕ → ℕ → Option (List ℕ) → List ℕ × ℕ
build_request p addr cmd reg_addr reg_addr_count p_data =
    let body = request_body addr cmd reg_addr reg_addr_count p_data in
    let filled = write p 0 body in
    let len = length body in (write filled len (le16 (modbus_sum (take len filled))), len + 2)
