-- ===== src/Serial/PacketBuffer/Accept.antt =====
-- What `GetPacket` of src/protocol/protocol_packet.cpp makes of a buffer that starts with a packet,
-- or with a part of one.
use hukong.Base.{
  ==_iff, ℕ, suc, ◌+◌, ◌≤◌, ◌<◌, ◌&&◌, ltb, leb, true, false, ◌≡◌, refl, sym, ap, ◌∙◌, subst, arith,
  List, [], ◌∷◌, ◌++◌, length, get_or, take, drop, length-append, append_assoc, take-append,
  drop-append, get_or-append, get_or-append_next, take-append-drop,
}
use hukong.Serial.Buffer.{Buffer}
use hukong.Serial.Buffer.Refine.{
  IsValid, contents, HoldsIn, del-drops, length-contents, copy_to-inside,
}
use hukong.Serial.Packet.{packet_end, packet_minlen, get_packet_len, check_sum}
use hukong.Serial.Packet.Wire.{IsBody, wire, wire-append, length-wire, calc_check_sum-body}
use hukong.Serial.PacketBuffer.{valid, invalid, packet_vaild, got, nothing, get_packet}

memory-contents : (b : Buffer) → b.buf ≡ contents b ++ drop b.cur_pos b.buf
unfolding contents
memory-contents b = sym (take-append-drop b.cur_pos b.buf)

vaild-wire :
    (b : Buffer) (body rest : List ℕ)
    → IsBody body
    → b.buf ≡ 0xf7 ∷ 0xf8 ∷ (body ++ check_sum body ∷ packet_end ∷ rest)
    → length body + 4 ≤ b.cur_pos
    → packet_vaild b ≡ valid
unfolding packet_vaild
vaild-wire b [] rest v e h = absurd v
vaild-wire b (len ∷ body) rest v e h =
    let more : ltb 0 b.cur_pos ≡ true = ground arith in
    let head : ltb b.cur_pos 2 ≡ false = ground arith in
    let least : leb packet_minlen b.cur_pos ≡ true = ground (arith, v) in
    let whole : leb (len + 4) b.cur_pos ≡ true = ground (arith, v) in
    let sum =
      calc_check_sum-body 0xf7 0xf8 (len ∷ body) (check_sum (len ∷ body) ∷ packet_end ∷ rest) v in
    let place : len + 2 ≡ length (0xf7 ∷ 0xf8 ∷ len ∷ body) = omega (arith, v.0) in
    let at =
      get_or-append (0xf7 ∷ 0xf8 ∷ len ∷ body) (packet_end ∷ rest) (check_sum (len ∷ body)) 0 in
    let end =
      get_or-append_next (0xf7 ∷ 0xf8 ∷ len ∷ body) rest (check_sum (len ∷ body)) packet_end 0 in
    let same = (==_iff (check_sum (len ∷ body)) (check_sum (len ∷ body))).1 refl in
    rw (e, more, head, least, whole, sum, place, at, end, same) refl

-- A buffer with less than a packet whose beginning is right.
vaild-partial :
    (b : Buffer) (xs junk more body tail : List ℕ)
    → IsBody body
    → b.buf ≡ xs ++ junk
    → b.cur_pos ≡ length xs
    → xs ++ more ≡ wire body ++ tail
    → length xs < length body + 4
    → packet_vaild b ≡ invalid
unfolding packet_vaild wire
vaild-partial b [] junk more body tail v e c p h = rw c refl
vaild-partial b (x ∷ []) junk more body tail v e c p h = rw c refl
vaild-partial b (x ∷ y ∷ zs) junk more [] tail v e c p h = absurd v
vaild-partial b (x ∷ y ∷ []) junk more (len ∷ body) tail v e c p h =
    let f7 : x ≡ 0xf7 = ap (λ l. get_or l 0 0) p in
    let f8 : y ≡ 0xf8 = ap (λ l. get_or l 1 0) p in rw (e, c, f7, f8) refl
vaild-partial b (x ∷ y ∷ z ∷ zs) junk more (len ∷ body) tail v e c p h =
    let f7 : x ≡ 0xf7 = ap (λ l. get_or l 0 0) p in
    let f8 : y ≡ 0xf8 = ap (λ l. get_or l 1 0) p in
    let third : z ≡ len = ap (λ l. get_or l 2 0) p in
    let nonempty : ltb 0 b.cur_pos ≡ true = ground arith in
    let head : ltb b.cur_pos 2 ≡ false = ground arith in
    let cut : (leb packet_minlen b.cur_pos && leb (len + 4) b.cur_pos) ≡ false =
      ground (arith, v) in
    rw (e, f7, f8, third, nonempty, head, cut) refl

-- A packet in the queue: the whole struct, which begins with the bytes that came over the wire.
pub record Carries (body packet : List ℕ) : Type 0 where
  pub bytes : take (length (wire body)) packet ≡ wire body
  pub size : length packet ≡ 262

-- `GetPacket` on a buffer that starts with a packet: it takes it, and leaves what is behind it.
pub get_packet-whole :
    (b : Buffer) (packet body tail : List ℕ)
    → IsValid b
    → length packet ≡ 262
    → IsBody body
    → contents b ≡ wire body ++ tail
    → (q : List ℕ) × (c : Buffer) × (get_packet b packet ≡ got q c)
      × Carries body q
      × HoldsIn b.max_size tail c
unfolding get_packet
get_packet-whole b packet [] tail v size w e = absurd w
get_packet-whole b packet (len ∷ body) tail v size w e =
    let n : len + 4 ≡ length (wire (len ∷ body)) = omega (arith, length-wire (len ∷ body), w.0) in
    let rest = drop b.cur_pos b.buf in
    let memory =
      memory-contents b ∙ ap (λ l. l ++ rest) e ∙ append_assoc (wire (len ∷ body)) tail rest in
    let shape = memory ∙ sym (wire-append (len ∷ body) (tail ++ rest)) in
    let (new, copy, same, front) =
      copy_to-inside packet 0 (wire (len ∷ body))
        (omega (arith, length-wire (len ∷ body), w, size)) in
    let (c, deleted, held) = del-drops b (get_packet_len b.buf) v in
    let ok = vaild-wire b (len ∷ body) (tail ++ rest) w shape (enough n) in
    let place : get_packet_len b.buf ≡ length (wire (len ∷ body)) = ap get_packet_len shape ∙ n in
    let cut : take (get_packet_len b.buf) b.buf ≡ wire (len ∷ body) =
      ap (λ k. take k b.buf) place
      ∙ ap (take (length (wire (len ∷ body)))) memory
      ∙ take-append (wire (len ∷ body)) (tail ++ rest) in
    let dropped : drop (get_packet_len b.buf) (contents b) ≡ tail =
      ap (λ k. drop k (contents b)) place
      ∙ ap (drop (length (wire (len ∷ body)))) e
      ∙ drop-append (wire (len ∷ body)) tail in
    let z : 0 + length (wire (len ∷ body)) ≡ length (wire (len ∷ body)) = omega arith in
    (
      new,
      c,
      rw (get_packet, ok, cut, copy, deleted) refl,
      record {
        bytes = ap (λ k. take k new) (sym z) ∙ front ∙ (unfold take in refl);
        size = same ∙ size;
      },
      subst (λ l. HoldsIn b.max_size l c) dropped held,
    )
  where
    enough : len + 4 ≡ length (wire (len ∷ body)) → suc (length body) + 4 ≤ b.cur_pos
    enough n =
        omega
          (arith, length-contents b v, ap length e, length-append (wire (len ∷ body)) tail, n, w.0)

-- `GetPacket` on a buffer that holds less than a packet, which begins rightly: it waits.
pub get_packet-partial :
    (b : Buffer) (packet more body tail : List ℕ)
    → IsValid b
    → IsBody body
    → contents b ++ more ≡ wire body ++ tail
    → b.cur_pos < length (wire body)
    → get_packet b packet ≡ nothing
unfolding get_packet
get_packet-partial b packet more body tail v w e h =
    let size = length-contents b v in
    let waits =
      vaild-partial b (contents b) (drop b.cur_pos b.buf) more body tail w (memory-contents b)
        (sym size) e (omega (arith, size, length-wire body)) in
    rw (get_packet, waits) refl
