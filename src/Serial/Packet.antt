-- ===== src/Serial/Packet.antt =====
-- `struct Packet` of src/protocol/protocol_packet.h and protocol_packet.cpp. The struct is packed, so
-- it is its 262 bytes: the two bytes of `m_wHead`, `m_btLen`, `m_btSrcAddr`, `m_btDestAddr`,
-- `m_btType`, `m_btFunction`, and 255 bytes of `m_Data`. `m_Data[GetDataLen()]` is then the byte at
-- `m_btLen + 2`, also where `GetDataLen()` is negative.
pub mod Wire
use hukong.Base.{
  ℕ, zero, suc, ◌+◌, ◌*◌, ◌%◌, ◌^◌, ◌==◌, Bool, List, [], ◌∷◌, ◌++◌, Option, none, some, length,
  get_or, set, take, drop,
}

-- `PACKET_MINLEN` and `PACKET_END`.
abbrev pub packet_minlen : ℕ
packet_minlen = 9

abbrev pub packet_end : ℕ
packet_end = 0xfd

abbrev pub get_packet_len : List ℕ → ℕ
get_packet_len p = get_or p 2 0 + 4

-- The place of `m_Data[GetDataLen()]`.
abbrev pub checksum_at : List ℕ → ℕ
checksum_at p = get_or p 2 0 + 2

-- The fields that say who speaks to whom about what.
abbrev pub get_src_addr : List ℕ → ℕ
get_src_addr p = get_or p 3 0

abbrev pub get_dest_addr : List ℕ → ℕ
get_dest_addr p = get_or p 4 0

abbrev pub get_type : List ℕ → ℕ
get_type p = get_or p 5 0

abbrev pub get_function : List ℕ → ℕ
get_function p = get_or p 6 0

unfoldable pub accumulate : List ℕ → ℕ → ℕ
accumulate [] sum = sum
accumulate (b ∷ bs) sum = accumulate bs (sum + b)

-- The sum is cut to a `BYTE`.
unfoldable pub check_sum : List ℕ → ℕ
check_sum bytes = accumulate bytes 0 % 2 ^ 8

-- From `m_btLen` on, as many bytes as that says.
unfoldable pub calc_check_sum : List ℕ → ℕ
calc_check_sum p = check_sum (take (get_or p 2 0) (drop 2 p))

abbrev pub is_check_sum_ok : List ℕ → Bool
is_check_sum_ok p = calc_check_sum p == get_or p (checksum_at p) 0

-- `memcpy` into the struct, whose bounds the caller keeps.
unfoldable pub write : List ℕ → ℕ → List ℕ → List ℕ
write p pos bytes = take pos p ++ (bytes ++ drop (pos + length bytes) p)

-- The fields up to the data; `m_btLen` is a `BYTE`, and a null `pData` is `none`.
unfoldable pub fill_packet : List ℕ → ℕ → ℕ → ℕ → ℕ → Option (List ℕ) → List ℕ
fill_packet p src dest type function p_data =
    let header = write p 0 (0xf7 ∷ 0xf8 ∷ 5 ∷ src ∷ dest ∷ type ∷ function ∷ []) in
    elim p_data [
      | none ↦ header
      | some bytes ↦ set (write header 7 bytes) 2 ((5 + length bytes) % 2 ^ 8)
    ]

-- The checksum, and the end mark behind it.
unfoldable pub close_packet : List ℕ → List ℕ
close_packet p =
    let summed = set p (checksum_at p) (calc_check_sum p) in
    set summed (checksum_at summed + 1) packet_end

-- The packet and the number of bytes to send.
unfoldable pub build_packet : List ℕ → ℕ → ℕ → ℕ → ℕ → Option (List ℕ) → List ℕ × ℕ
build_packet p src dest type function p_data =
    let closed = close_packet (fill_packet p src dest type function p_data) in
    (closed, get_packet_len closed)
