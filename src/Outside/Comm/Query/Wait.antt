-- ===== src/Outside/Comm/Query/Wait.antt =====
-- `QueryEnv` of outside_env/src/protocol/protocol_comm.cpp while the answer arrives.
use hukong.Base.{
  ℕ, ◌^◌, ◌≤◌, true, ◌≡◌, refl, sym, ap, ◌∙◌, List, [], ◌∷◌, ◌++◌, none, some, length, drop,
  take-append-drop, append_assoc, append-nil,
}
use hukong.Serial.Buffer.Refine.{IsValid}
use hukong.Serial.Comm.Stream.{IsRead}
use hukong.Serial.Queue.{wait_pop, front}
use hukong.Outside.Packet.{modbus_sum, le16, request_body}
use hukong.Outside.Packet.Request.{build_request-frame}
use hukong.Outside.PacketBuffer.{get_data_len}
use hukong.Outside.PacketBuffer.Accept.{wire, Carries}
use hukong.Outside.Comm.{
  Comm, Exchange, send_frame, wait_resend, wait_response, exchange, returned, on_receive,
}
use hukong.Outside.Comm.Receive.{Carried, wires, on_receive-answers}
use hukong.Outside.Comm.Query.{env_of, query_env}
use hukong.Outside.Comm.Query.Reading.{
  IsFit, registers_of, answer, answer-IsAnswer, told, env_of-answer,
}

-- The state in which `QueryEnv` waits.
abbrev pub asked : Comm → Comm
asked c = (send_frame c 0x01 0x03 0x01 0x11 none).0

get_data_len-answer : (r : ℕ → ℕ) (rest : List ℕ) → get_data_len (answer r ++ rest) ≡ some 34
unfolding get_data_len answer registers_of
get_data_len-answer r rest = refl

module _ {D : Type 0} (over : ℕ → ℕ → ℕ → D) (c : Comm) (r : ℕ → ℕ) (q : List ℕ)
    (qs : List (List ℕ)) (later : List (List (List ℕ))) (fit : IsFit r)
    (k : Carries (answer r) q) where
  packet-shape : (rest : List ℕ) × (q ≡ answer r ++ rest)
  packet-shape =
      let n = length (wire (answer r)) in
      (
        le16 (modbus_sum (answer r)) ++ drop n q,
        sym (take-append-drop n q)
            ∙ ap (λ l. l ++ drop n q) k.bytes
            ∙ (unfold wire in append_assoc (answer r) (le16 (modbus_sum (answer r))) (drop n q)),
      )

  query_env-packet :
      (x : Exchange) × (query_env over c true ((q ∷ qs) ∷ later)
        ≡ some (record { after = x; info = some (told over r) }))
      × (x.comm.m_queue ≡ qs)
      × (x.written ≡ wire (request_body 0x01 0x03 0x01 0x11 none) ∷ [])
  unfolding query_env exchange wait_response wait_resend wait_pop front send_frame
  query_env-packet =
      let (rest, e) = packet-shape in
      let size : get_data_len q ≡ some 34 = ap get_data_len e ∙ get_data_len-answer r rest in
      let info : env_of over q ≡ told over r = ap (env_of over) e ∙ env_of-answer over r rest fit in
      let frame = build_request-frame c.m_packet 0x01 0x03 0x01 0x11 none in
      (
        record {
          comm = record (asked c) { m_queue = qs };
          later = later;
          written = (send_frame c 0x01 0x03 0x01 0x11 none).1 ∷ [];
          packet = some q;
        },
        rw (size, info) refl,
        refl,
        ap (λ f. f ∷ []) (unfold wire in frame),
      )

-- The box answers with 17 registers of 16 bits, each high byte first, in one read while `QueryEnv`
-- waits. Then `QueryEnv` writes one request and tells registers 3 to 8 with the two bytes of each
-- exchanged, and registers 1 and 2, exchanged in the same way, as the low and the high half of the
-- dust count; the season, the sun and the faults are the bits of register 13. The buffer was empty,
-- with at most 2 ^ 20 bytes of memory.
pub query_env-registers :
    {D : Type 0} (over : ℕ → ℕ → ℕ → D) (fresh : ℕ) (packet : List ℕ) (c : Comm) (n : ℕ) (r : ℕ → ℕ)
    (later : List (List (List ℕ)))
    → length packet ≡ 258
    → IsValid c.m_buffer
    → c.m_buffer.max_size ≤ 2 ^ 20
    → c.m_buffer.cur_pos ≡ 0
    → IsFit r
    → IsRead (n, wire (answer r))
    → (d : Comm) × (x : Exchange) × (on_receive fresh packet (asked c) n (some (wire (answer r)))
        ≡ returned d)
      × (query_env over c true (d.m_queue ∷ later)
          ≡ some (record { after = x; info = some (told over r) }))
      × (x.written ≡ wire (request_body 0x01 0x03 0x01 0x11 none) ∷ [])
unfolding send_frame
query_env-registers over fresh packet c n r later size v small start fit read =
    let whole : wire (answer r) ≡ wires (answer r ∷ []) =
      unfold wires in sym (append-nil (wire (answer r))) in
    let (qs, d, result, queue, carried, _) =
      on_receive-answers fresh packet (asked c) n (wire (answer r)) (answer r ∷ []) size v small
        start (answer-IsAnswer r, tt) read whole in
    let (q, one, k) = single (answer r) qs carried in
    let (x, told_r, _, written) = query_env-packet over c r q [] later fit k in
    (d, x, result, rw (queue, one) told_r, written)
  where
    single :
        (body : List ℕ) (qs : List (List ℕ))
        → Carried (body ∷ []) qs
        → (q : List ℕ) × (qs ≡ q ∷ []) × Carries body q
    single body [] h = absurd h
    single body (q ∷ []) h = (q, refl, h.0)
    single body (q ∷ p ∷ qs) h = absurd h.1
