-- ===== src/Outside/Comm.antt =====
-- `CProtocolComm` of outside_env/src/protocol/protocol_comm.cpp: the thread that takes the answers
-- from the serial line, and the requests. The queue is the one that `Serial.Queue` describes; `sent`
-- is whether the write gave a positive number.
pub mod Receive
pub mod Query
use hukong.Base.{
  ℕ, zero, suc, ◌+◌, ◌-◌, ◌==◌, ltb, if◌then◌else◌, Bool, true, false, List, [], ◌∷◌, ◌++◌, Option,
  none, some, take,
}
use hukong.Base.Partial.{◌>>=◌}
use hukong.Serial.Buffer.{Buffer, realloc, free_size, store, clear}
use hukong.Serial.Queue.{push, wait_pop}
use hukong.Serial.Send.{Answer}
use hukong.Outside.Packet.{build_request}
use hukong.Outside.PacketBuffer.{
  Got, got, nothing, thrown, failed, fault, get_packet_len, get_packet,
}

pub record Comm : Type 0 where
  pub m_buffer : Buffer
  pub m_queue : List (List ℕ)
  pub m_packet : List ℕ

-- How the loop in the `try` block is left.
pub data Drained : Type 0 where
  drained caught : Buffer → List (List ℕ) → Drained
  asserted broken out_of_fuel : Drained

unfoldable pub drain : ℕ → Buffer → List ℕ → List (List ℕ) → Drained
drain zero b packet queue = out_of_fuel
drain (suc fuel) b packet queue = elim (get_packet b packet) [
  | got q rest ↦ drain fuel rest q (push queue q)
  | nothing ↦ drained b queue
  | thrown ↦ caught b queue
  | failed ↦ asserted
  | fault ↦ broken
]

-- `aborted` is a failed assertion, `faulted` a position or a copy outside the memory.
pub data Received : Type 0 where
  returned : Comm → Received
  aborted faulted endless : Received

-- `packet` is the local variable, uninitialised.
unfoldable pub take_packets : Comm → Buffer → List ℕ → Received
take_packets c b packet = elim (drain (b.cur_pos + 1) b packet c.m_queue) [
  | drained rest queue ↦ returned (record c { m_buffer = rest; m_queue = queue })
  | caught rest queue ↦ returned (record c { m_buffer = clear rest; m_queue = queue })
  | asserted ↦ aborted
  | broken ↦ faulted
  | out_of_fuel ↦ endless
]

-- `read` is what the call of `::read` does: -1, or the bytes it puts into the free space.
unfoldable pub on_receive : ℕ → List ℕ → Comm → ℕ → Option (List ℕ) → Received
on_receive fresh packet c len read =
    let b = if ltb (free_size c.m_buffer) len then realloc fresh c.m_buffer len else c.m_buffer in
    if free_size b == 0 then aborted else elim read [
      | none ↦
          if b.cur_pos == 0
          then faulted
          else take_packets c (record b { cur_pos = b.cur_pos - 1 }) packet
      | some [] ↦ returned (record c { m_buffer = b })
      | some (x ∷ bytes) ↦ elim (store b (x ∷ bytes)) [
        | none ↦ faulted
        | some filled ↦ take_packets c filled packet
      ]
    ]

-- The receive queue is emptied, and the request written: the object and the bytes.
unfoldable pub send_frame : Comm → ℕ → ℕ → ℕ → ℕ → Option (List ℕ) → Comm × List ℕ
send_frame c addr cmd reg_addr reg_addr_count p_data =
    let (packet, len) = build_request c.m_packet addr cmd reg_addr reg_addr_count p_data in
    (record c { m_queue = []; m_packet = packet }, take len packet)

-- `RESEND_COUNT`
abbrev pub resend_count : ℕ
resend_count = 1

-- `Write((char *)&m_packet, m_packet.GetPacketLen())`
unfoldable pub frame_of : List ℕ → Option (List ℕ)
frame_of p = do len ← get_packet_len p; some (take len p)

-- The loop of `WaitResponse`, with the repeats that are left before `count` is 0; `none` is a failed
-- assertion.
unfoldable pub wait_resend : ℕ → List ℕ → List (List ℕ) → List (List (List ℕ)) → Option Answer
wait_resend zero p queue later =
    let r = wait_pop queue later in
    some (record { value = r.value; queue = r.queue; later = r.later; written = [] })
wait_resend (suc left) p queue later =
    let r = wait_pop queue later in
    elim r.value [
      | some q ↦ some (record { value = some q; queue = r.queue; later = r.later; written = [] })
      | none ↦ elim (frame_of p) [
        | none ↦ none
        | some frame ↦ elim (wait_resend left p r.queue r.later) [
          | none ↦ none
          | some a ↦ some (record a { written = frame ∷ a.written })
        ]
      ]
    ]

unfoldable pub wait_response : Comm → List (List (List ℕ)) → Option Answer
wait_response c later = wait_resend (resend_count - 1) c.m_packet c.m_queue later

-- A request and the answer to it: the object, what is still to arrive, the frames written, and the
-- packet, if one came in time.
pub record Exchange : Type 0 where
  pub comm : Comm
  pub later : List (List (List ℕ))
  pub written : List (List ℕ)
  pub packet : Option (List ℕ)

-- `SendFrame(...) && WaitResponse(packet)`
unfoldable pub exchange :
    Comm → ℕ → ℕ → ℕ → ℕ → Option (List ℕ) → Bool → List (List (List ℕ)) → Option Exchange
exchange c addr cmd reg_addr reg_addr_count p_data sent later =
    let (asked, frame) = send_frame c addr cmd reg_addr reg_addr_count p_data in
    if sent
    then elim (wait_response asked later) [
      | none ↦ none
      | some a ↦ some (record {
        comm = record asked { m_queue = a.queue };
        later = a.later;
        written = frame ∷ a.written;
        packet = a.value;
      })
    ]
    else some (record { comm = asked; later = later; written = frame ∷ []; packet = none })
