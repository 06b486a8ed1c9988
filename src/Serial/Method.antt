-- ===== src/Serial/Method.antt =====
-- `ProtocolMethod` of src/protocol/protocol_method.cpp: `WaitCheckResult`, `transform` with its
-- query cache, `SetCmdPacketTransMap` and `BCD`. The maps are functions; a missing key is `none`.
-- The locks are left out: each call is one step.
pub mod Cache
pub mod Bcd
pub mod Devices
pub mod Aircon
pub mod Meter
mod Tests
use hukong.Base.{
  ℕ, zero, suc, ◌+◌, ◌*◌, ◌/◌, ◌%◌, ◌^◌, bit_and, bit_or, ◌==◌, ◌&&◌, not, if◌then◌else◌, Bool,
  true, false, List, [], ◌∷◌, ◌++◌, Option, none, some, set,
}
use hukong.Serial.Comm.{Comm}
use hukong.Serial.Packet.{
  checksum_at, get_src_addr, get_dest_addr, get_type, get_function, calc_check_sum,
}
use hukong.Serial.Send.{Answer, Sent, send_frame, wait_response}

pub record Method : Type 0 where
  pub comm : Comm
  pub query_packet_map : ℕ → Option (List ℕ)
  pub query_packet_block_set : ℕ → Bool
  pub cmd_packet_trans_map : ℕ → Option ℕ

-- `map[key] = value`, `erase` and `insert`.
unfoldable pub update {ℓ} : {A : Type ℓ} → (ℕ → A) → ℕ → A → ℕ → A
update map key value k = if k == key then value else map k

-- `Packet::GetPacketTypeID`
unfoldable pub packet_type_id : ℕ → ℕ → ℕ → ℕ → ℕ
packet_type_id src dest type function =
    bit_or (bit_or (bit_or (src * 2 ^ 24) (dest * 2 ^ 16)) (type * 2 ^ 8)) function

unfoldable pub type_id_of : List ℕ → ℕ
type_id_of p = packet_type_id (get_src_addr p) (get_dest_addr p) (get_type p) (get_function p)

-- The key of a type and a function.
unfoldable pub code_key : ℕ → ℕ → ℕ
code_key type function = bit_or (type * 2 ^ 8) function

-- The answer must come from the device, and be about the command.
unfoldable pub check_result : ℕ → ℕ → ℕ → Option (List ℕ) → Option (List ℕ)
check_result dest type function none = none
check_result dest type function (some p) =
    if get_dest_addr p == dest && (get_type p == type && get_function p == function)
    then some p
    else none

-- The rest of a call: the object, the packet that is returned with `true`, the frames written, and
-- what is still to arrive.
pub record Result : Type 0 where
  pub method : Method
  pub value : Option (List ℕ)
  pub written : List (List ℕ)
  pub later : List (List (List ℕ))

-- The exchange on the line, with resending switched off for it if so asked.
unfoldable pub exchange :
    ℕ
    → Method
    → ℕ
    → ℕ
    → ℕ
    → ℕ
    → Option (List ℕ)
    → Bool
    → Bool
    → List (List (List ℕ))
    → Option Result
exchange fuel m src dest type function p_data stop_resend_temp sent later =
    let resend = m.comm.m_resend in
    let quiet = record m.comm { m_resend = if stop_resend_temp then false else resend } in
    let s = send_frame quiet src dest type function p_data true sent in
    if s.ok
    then elim (wait_response fuel s.comm later) [
      | none ↦ none
      | some a ↦ some (record {
        method = record m { comm = record s.comm { m_queue = a.queue; m_resend = resend } };
        value = check_result dest type function a.value;
        written = s.written ++ a.written;
        later = a.later;
      })
    ]
    else some (record {
      method = record m { comm = record s.comm { m_resend = resend } };
      value = none;
      written = s.written;
      later = later;
    })

-- The query that a command's answer also answers: its type, its function, a new checksum.
unfoldable pub translate : List ℕ → ℕ → List ℕ
translate p to =
    let q = set (set p 5 (to / 2 ^ 8 % 2 ^ 8)) 6 (to % 2 ^ 8) in
    set q (checksum_at q) (calc_check_sum q)

-- The cache behind the exchange, `save_in_buffer` or not.
unfoldable pub remember : Method → ℕ → ℕ → ℕ → Bool → Option (List ℕ) → Method
remember m id type function true (some p) = record m {
  query_packet_map = update m.query_packet_map (type_id_of p) (some p);
  query_packet_block_set = update m.query_packet_block_set (code_key type function) true;
}
remember m id type function true none = record m {
  query_packet_map = update m.query_packet_map id none;
  query_packet_block_set = update m.query_packet_block_set (code_key type function) true;
}
remember m id type function false none = m
remember m id type function false (some p) =
    elim (m.cmd_packet_trans_map (code_key type function)) [
      | none ↦ m
      | some to ↦ record m {
        query_packet_map =
            update m.query_packet_map (type_id_of (translate p to)) (some (translate p to));
      }
    ]

unfoldable pub transform :
    ℕ
    → Method
    → ℕ
    → ℕ
    → ℕ
    → ℕ
    → Option (List ℕ)
    → Bool
    → Bool
    → Bool
    → List (List (List ℕ))
    → Option Result
transform fuel m src dest type function p_data save_in_buffer stop_resend_temp sent later =
    let id = packet_type_id src dest type function in
    let on_line : Option Result =
      elim (exchange fuel m src dest type function p_data stop_resend_temp sent later) [
        | none ↦ none
        | some r ↦
            some (record r { method = remember r.method id type function save_in_buffer r.value })
      ] in
    let unsent : Option (List ℕ) → Option Result =
      λ v. some (record { method = m; value = v; written = []; later = later }) in
    if save_in_buffer then on_line else elim (m.query_packet_map id) [
      | some p ↦ unsent (some p)
      | none ↦ if m.query_packet_block_set (code_key type function) then unsent none else on_line
    ]

-- The assertion that the command has no entry yet is `none`.
unfoldable pub set_cmd_packet_trans_map : Method → ℕ → ℕ → ℕ → ℕ → Option Method
set_cmd_packet_trans_map m from_type from_function to_type to_function =
    elim (m.cmd_packet_trans_map (code_key from_type from_function)) [
      | some to ↦ none
      | none ↦ some (record m {
        cmd_packet_trans_map =
            update m.cmd_packet_trans_map (code_key from_type from_function)
              (some (code_key to_type to_function));
      })
    ]

-- Two decimal digits in a byte; the `unsigned int` wraps.
unfoldable pub bcd : List ℕ → ℕ → ℕ
bcd [] result = result
bcd (b ∷ bs) result = bcd bs ((result * 100 + b / 2 ^ 4 * 10 + bit_and b 0x0f) % 2 ^ 32)
