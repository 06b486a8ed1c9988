-- ===== src/Outside/Comm/Receive.antt =====
-- `OnReceive` of outside_env/src/protocol/protocol_comm.cpp on a read that gives whole answers.
use hukong.Base.{
  ℕ, zero, suc, ◌+◌, ◌^◌, ◌≤◌, ◌<◌, ◌==◌, false, ◌≡◌, refl, ap, ◌∙◌, arith, List, [], ◌∷◌, ◌++◌,
  some, All, length, take, length-append, append_assoc, append-nil,
}
use hukong.Serial.Buffer.{Buffer, free_size}
use hukong.Serial.Buffer.Refine.{IsValid, contents, length-contents, store-appends}
use hukong.Serial.Queue.{push}
use hukong.Serial.Comm.Stream.{IsRead, roomy, roomy-room}
use hukong.Outside.PacketBuffer.{nothing, packet_vaild, get_packet}
use hukong.Outside.PacketBuffer.Accept.{IsAnswer, wire, length-wire, Carries, get_packet-answer}
use hukong.Outside.Comm.{Comm, drained, drain, take_packets, returned, on_receive}

-- Answers one behind the other on the line.
unfoldable pub wires : List (List ℕ) → List ℕ
wires [] = []
wires (body ∷ bodies) = wire body ++ wires bodies

-- The queue carries these answers, in this order.
abbrev pub Carried : List (List ℕ) → List (List ℕ) → Type 0
Carried [] [] = Unit
Carried [] (q ∷ qs) = ⊥
Carried (body ∷ bodies) [] = ⊥
Carried (body ∷ bodies) (q ∷ qs) = Carries body q × Carried bodies qs

get_packet-empty : (b : Buffer) (packet : List ℕ) → b.cur_pos ≡ 0 → get_packet b packet ≡ nothing
unfolding get_packet packet_vaild
get_packet-empty b packet e = rw e refl

drain-wires :
    (fuel : ℕ) (b : Buffer) (packet : List ℕ) (queue bodies : List (List ℕ))
    → IsValid b
    → length packet ≡ 258
    → All IsAnswer bodies
    → contents b ≡ wires bodies
    → b.cur_pos < fuel
    → (qs : List (List ℕ)) × (c : Buffer) × (drain fuel b packet queue ≡ drained c (queue ++ qs))
      × Carried bodies qs
      × IsValid c
      × (c.cur_pos ≡ 0)
unfolding drain wires push
drain-wires zero b packet queue bodies v size ok e f = absurd (omega arith)
drain-wires (suc fuel) b packet queue [] v size ok e f =
    let none : b.cur_pos ≡ 0 = omega (arith, length-contents b v, ap length e) in
    ([], b, rw (drain, get_packet-empty b packet none) (rw append-nil refl), tt, v, none)
drain-wires (suc fuel) b packet queue (body ∷ bodies) v size (a, ok) e f =
    let (q, c, g, k, held) = get_packet-answer b packet body (wires bodies) v size a e in
    let shorter : c.cur_pos < fuel = omega (
      arith,
      length-contents c held.0,
      ap length held.1,
      length-contents b v,
      ap length e,
      length-append (wire body) (wires bodies),
      length-wire body,
    ) in
    let (qs, d, r, carried, valid, done) =
      drain-wires fuel c q (queue ++ q ∷ []) bodies held.0 k.size ok held.1 shorter in
    (
      q ∷ qs,
      d,
      rw (drain, g) (r ∙ ap (drained d) (append_assoc queue (q ∷ []) qs)),
      (k, carried),
      valid,
      done,
    )

take_packets-wires :
    (c : Comm) (b : Buffer) (packet : List ℕ) (bodies : List (List ℕ))
    → IsValid b
    → length packet ≡ 258
    → All IsAnswer bodies
    → contents b ≡ wires bodies
    → (qs : List (List ℕ)) × (d : Comm) × (take_packets c b packet ≡ returned d)
      × (d.m_queue ≡ c.m_queue ++ qs)
      × Carried bodies qs
      × (d.m_buffer.cur_pos ≡ 0)
unfolding take_packets
take_packets-wires c b packet bodies v size ok e =
    let (qs, rest, r, carried, valid, done) =
      drain-wires (b.cur_pos + 1) b packet c.m_queue bodies v size ok e (omega arith) in
    (
      qs,
      record c { m_buffer = rest; m_queue = c.m_queue ++ qs },
      rw (take_packets, r) refl,
      refl,
      carried,
      done,
    )

-- Answers with at most 253 bytes of data that one read gives, one behind the other, are queued, all
-- of them, in order and byte for byte, and the buffer is empty again. It was empty, with at most
-- 2 ^ 20 bytes of memory; the read gives at least one byte, at most the announced number, and that is
-- at most 2 ^ 16.
pub on_receive-answers :
    (fresh : ℕ) (packet : List ℕ) (c : Comm) (n : ℕ) (bytes : List ℕ) (bodies : List (List ℕ))
    → length packet ≡ 258
    → IsValid c.m_buffer
    → c.m_buffer.max_size ≤ 2 ^ 20
    → c.m_buffer.cur_pos ≡ 0
    → All IsAnswer bodies
    → IsRead (n, bytes)
    → bytes ≡ wires bodies
    → (qs : List (List ℕ)) × (d : Comm) × (on_receive fresh packet c n (some bytes) ≡ returned d)
      × (d.m_queue ≡ c.m_queue ++ qs)
      × Carried bodies qs
      × (d.m_buffer.cur_pos ≡ 0)
unfolding on_receive
on_receive-answers fresh packet c n [] bodies size v small start ok r e =
    absurd (omega (arith, r.some_read))
on_receive-answers fresh packet c n (x ∷ bytes) bodies size v small start ok r e =
    let (w, same, room, _) =
      roomy-room fresh c.m_buffer n v small (omega (arith, start)) r.bounded in
    let (b, stored, (valid, filled, _)) =
      store-appends (roomy fresh c.m_buffer n) (x ∷ bytes) w (omega (arith, room, r.announced)) in
    let empty : contents c.m_buffer ≡ [] = unfold contents take in rw start refl in
    let whole : contents b ≡ wires bodies = filled ∙ ap (λ t. t ++ x ∷ bytes) (same ∙ empty) ∙ e in
    let free : (free_size (roomy fresh c.m_buffer n) == 0) ≡ false =
      unfold free_size in ground (arith, room, r.announced) in
    rw (on_receive, free, stored) (take_packets-wires c b packet bodies valid size ok whole)
