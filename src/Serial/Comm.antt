-- ===== src/Serial/Comm.antt =====
-- `CProtocolComm` of src/protocol/protocol_comm.cpp: the thread that takes bytes from the serial
-- line. A read that fails gives -1; what the queue holds is the whole `struct Packet`.
pub mod Drain
pub mod Stream
use hukong.Base.{
  ℕ, zero, suc, ◌+◌, ◌-◌, ◌==◌, ltb, if◌then◌else◌, Bool, List, [], ◌∷◌, ◌++◌, Option, none, some,
  length,
}
use hukong.Serial.Buffer.{Buffer, realloc, free_size, store, clear}
use hukong.Serial.PacketBuffer.{Got, got, nothing, thrown, fault, get_packet}

pub record Comm : Type 0 where
  pub m_buffer : Buffer
  pub m_queue : List (List ℕ)
  pub m_resend : Bool
  pub m_packet : List ℕ

-- How the loop in the `try` block is left.
pub data Drained : Type 0 where
  drained : Buffer → List (List ℕ) → Drained
  caught : Buffer → List (List ℕ) → Drained
  broken out_of_fuel : Drained

-- `while (true) { if (GetPacket(packet)) Push(packet) else break }`
unfoldable pub drain : ℕ → Buffer → List ℕ → List (List ℕ) → Drained
drain zero b packet queue = out_of_fuel
drain (suc fuel) b packet queue = elim (get_packet b packet) [
  | got q rest ↦ drain fuel rest q (queue ++ q ∷ [])
  | nothing ↦ drained b queue
  | thrown ↦ caught b queue
  | fault ↦ broken
]

-- `aborted` is a failed assertion, `faulted` a position or a copy outside the memory.
pub data Received : Type 0 where
  returned : Comm → Received
  aborted faulted endless : Received

-- `packet` is the local variable, uninitialised.
unfoldable pub take_packets : Comm → Buffer → List ℕ → Received
take_packets c b packet = elim (drain (b.cur_pos + 1) b packet c.m_queue) [
  | drained rest queue ↦ returned (record c { m_buffer = rest; m_queue = queue })
  | caught rest queue ↦ returned (record c { m_buffer = clear rest; m_queue = queue })
  | broken ↦ faulted
  | out_of_fuel ↦ endless
]

-- `read` is what the call of `::read` does: -1, or the bytes it puts into the free space.
unfoldable pub on_receive : ℕ → List ℕ → Comm → ℕ → Option (List ℕ) → Received
on_receive fresh packet c len read =
    let b = if ltb (free_size c.m_buffer) len then realloc fresh c.m_buffer len else c.m_buffer in
    if free_size b == 0 then aborted else elim read [
      | none ↦
          if b.cur_pos == 0
          then faulted
          else take_packets c (record b { cur_pos = b.cur_pos - 1 }) packet
      | some [] ↦ returned (record c { m_buffer = b })
      | some (x ∷ bytes) ↦ elim (store b (x ∷ bytes)) [
        | none ↦ faulted
        | some filled ↦ take_packets c filled packet
      ]
    ]
