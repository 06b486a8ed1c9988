-- ===== src/Serial/Send.antt =====
-- The sending half of `CProtocolComm` in src/protocol/protocol_comm.cpp. What is written to the
-- line is a list of frames; `sent` is whether `::write` took a frame. `none` is the end of the fuel
-- of the inner loop.
pub mod Resend
use hukong.Base.{
  ℕ, zero, suc, ◌+◌, ◌-◌, ◌%◌, ◌^◌, ◌==◌, if◌then◌else◌, Bool, true, false, List, [], ◌∷◌, ◌++◌,
  Option, none, some, get_or, take, drop,
}
use hukong.Base.Partial.{◌>>=◌}
use hukong.Serial.Comm.{Comm}
use hukong.Serial.Packet.{
  get_packet_len, checksum_at, get_src_addr, get_dest_addr, get_type, get_function, build_packet,
}
use hukong.Serial.Queue.{Popped, push, wait_pop_last}

-- `Packet::GetData` and `GetDataLen`, which `SendFrame` takes as a `BYTE`.
unfoldable pub get_data : List ℕ → List ℕ
get_data p = take ((get_or p 2 0 + (2 ^ 8 - 5)) % 2 ^ 8) (drop 7 p)

-- `Packet::GetPacketID`
unfoldable pub get_packet_id : List ℕ → ℕ
get_packet_id p = get_or p (checksum_at p) 0

-- The first `GetPacketLen()` bytes of a packet: what a write of it puts on the line.
unfoldable pub frame_of : List ℕ → List ℕ
frame_of p = take (get_packet_len p) p

pub record Sent : Type 0 where
  pub comm : Comm
  pub written : List (List ℕ)
  pub ok : Bool

unfoldable pub send_frame : Comm → ℕ → ℕ → ℕ → ℕ → Option (List ℕ) → Bool → Bool → Sent
send_frame c src dest type function p_data clear_recv_queue sent =
    let (packet, len) = build_packet c.m_packet src dest type function p_data in
    record {
      comm = record c { m_queue = if clear_recv_queue then [] else c.m_queue; m_packet = packet };
      written = take len packet ∷ [];
      ok = sent;
    }

-- The result of a wait: the answer, if there was one, and the frames written again.
pub record Answer : Type 0 where
  pub value : Option (List ℕ)
  pub queue : List (List ℕ)
  pub later : List (List (List ℕ))
  pub written : List (List ℕ)

-- `RESEND_COUNT`
abbrev pub resend_count : ℕ
resend_count = 3

-- The loop of `WaitResponse`, with the repeats that are left before `count` is 0.
unfoldable pub wait_resend : ℕ → List ℕ → ℕ → List (List ℕ) → List (List (List ℕ)) → Option Answer
wait_resend fuel frame zero queue later = do
  r ← wait_pop_last fuel queue later
  some (record { value = r.value; queue = r.queue; later = r.later; written = [] })
wait_resend fuel frame (suc left) queue later = elim (wait_pop_last fuel queue later) [
  | none ↦ none
  | some r ↦ elim r.value [
    | some p ↦ some (record { value = some p; queue = r.queue; later = r.later; written = [] })
    | none ↦ elim (wait_resend fuel frame left r.queue r.later) [
      | none ↦ none
      | some a ↦ some (record a { written = frame ∷ a.written })
    ]
  ]
]

unfoldable pub wait_response : ℕ → Comm → List (List (List ℕ)) → Option Answer
wait_response fuel c later =
    wait_resend fuel (frame_of c.m_packet) (if c.m_resend then resend_count - 1 else 0) c.m_queue
      later

-- A reply is sent unless another request came in meanwhile; that one goes back to the queue.
unfoldable pub send_response_frame :
    ℕ → Comm → ℕ → List ℕ → List (List (List ℕ)) → Bool → Option (Sent × List (List (List ℕ)))
send_response_frame fuel c request_id packet later sent = do
  r ← wait_pop_last fuel c.m_queue later
  let emptied = record c { m_queue = r.queue }
  let reply =
      send_frame emptied (get_src_addr packet) (get_dest_addr packet) (get_type packet)
        (get_function packet) (some (get_data packet)) false sent
  elim r.value [
    | none ↦ some (reply, r.later)
    | some remain ↦
        if get_packet_id remain == request_id
        then some (reply, r.later)
        else some (
          record {
            comm = record emptied { m_queue = push r.queue remain };
            written = [];
            ok = false;
          },
          r.later,
        )
  ]
