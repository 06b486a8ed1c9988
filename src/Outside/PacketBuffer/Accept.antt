-- ===== src/Outside/PacketBuffer/Accept.antt =====
-- What `GetPacket` of outside_env/src/protocol/protocol_packet.cpp makes of a buffer that starts
-- with an answer of the box.
use hukong.Base.{
  ==_iff, ℕ, ◌+◌, ◌-◌, ◌/◌, ◌%◌, ◌^◌, ◌≤◌, ltb, leb, true, ◌≡◌, refl, sym, ap, ap₂, ◌∙◌, subst,
  arith, List, [], ◌∷◌, ◌++◌, some, length, take, drop, length-append, append_assoc, take-append,
  drop-append, get_or-append, get_or-append_next, take-append-drop,
}
use hukong.Repeat.Bytes.{word}
use hukong.Serial.Buffer.{Buffer}
use hukong.Serial.Buffer.Refine.{
  IsValid, contents, HoldsIn, del-drops, length-contents, copy_to-inside,
}
use hukong.Outside.Crc16.Width.{crc16-lt}
use hukong.Outside.Packet.{modbus_sum, le16}
use hukong.Outside.PacketBuffer.{
  packet_minlen, get_packet_len, get_data_len, get_data, valid, crc_test, packet_vaild, got,
  get_packet,
}

-- The two answers of Modbus that the program asks for, up to the checksum: the registers that were
-- read, behind the number of their bytes, and the echo of what was written.
pub data IsAnswer : List ℕ → Type 0 where
  registers :
      (addr : ℕ) (bytes : List ℕ)
      → 1 ≤ length bytes
      → length bytes ≤ 253
      → IsAnswer (addr ∷ 0x03 ∷ length bytes ∷ bytes)
  echo : (addr a b c d : ℕ) → IsAnswer (addr ∷ 0x10 ∷ a ∷ b ∷ c ∷ d ∷ [])

-- An answer on the line, with its checksum.
unfoldable pub wire : List ℕ → List ℕ
wire body = body ++ le16 (modbus_sum body)

pub length-wire : (body : List ℕ) → length (wire body) ≡ length body + 2
unfolding wire
length-wire body = omega (arith, length-append body (le16 (modbus_sum body)))

-- The sum behind the bytes that it covers, as `wCRC` reads it.
word-sum : (body rest : List ℕ) → word (wire body ++ rest) (length body) ≡ modbus_sum body
unfolding wire modbus_sum
word-sum body rest =
    let s = modbus_sum body in
    let shape = append_assoc body (le16 s) rest in
    let low = get_or-append body (s / 2 ^ 8 % 2 ^ 8 ∷ rest) (s % 2 ^ 8) 0 in
    let high = get_or-append_next body rest (s % 2 ^ 8) (s / 2 ^ 8 % 2 ^ 8) 0 in
    rw (shape, low, high) (omega (arith, crc16-lt body 0xffff (omega arith)))

-- The lengths that the header of a packet gives.
record Shape (body memory : List ℕ) : Type 0 where
  pub len : get_packet_len memory ≡ some (length body + 2)
  pub at : ℕ
  pub data_at : get_data memory ≡ some at
  pub count : ℕ
  pub data_len : get_data_len memory ≡ some count
  pub sum_at : at + count ≡ length body
  pub least : 4 ≤ length body
  pub most : length body ≤ 256

answer-Shape : (body rest : List ℕ) → IsAnswer body → Shape body (wire body ++ rest)
unfolding wire get_packet_len get_data get_data_len
answer-Shape body rest (registers addr bytes some_byte short) = record {
  len = ap some (omega arith);
  at = 3;
  data_at = refl;
  count = length bytes;
  data_len = refl;
  sum_at = omega arith;
  least = omega arith;
  most = omega arith;
}
answer-Shape body rest (echo addr a b c d) = record {
  len = refl;
  at = 6;
  data_at = refl;
  count = 0;
  data_len = refl;
  sum_at = refl;
  least = omega arith;
  most = omega arith;
}

module _ (body rest memory : List ℕ) (a : IsAnswer body) (e : memory ≡ wire body ++ rest) where
  memory-Shape : Shape body memory
  memory-Shape = subst (Shape body) (sym e) (answer-Shape body rest a)

  take-memory : take (length body + 2 - 2) memory ≡ body
  unfolding wire
  take-memory =
      let n : length body + 2 - 2 ≡ length body = omega arith in
      ap₂ take n (e ∙ append_assoc body (le16 (modbus_sum body)) rest)
      ∙ take-append body (le16 (modbus_sum body) ++ rest)

  crc_test-answer : crc_test memory (length body + 2) ≡ valid
  unfolding crc_test
  crc_test-answer =
      let s = memory-Shape in
      let sum : word memory (s.at + s.count) ≡ modbus_sum body =
        ap₂ word e s.sum_at ∙ word-sum body rest in
      let same = (==_iff (modbus_sum body) (modbus_sum body)).1 refl in
      rw (crc_test, s.data_at, s.data_len, sum, take-memory, same) refl

vaild-answer :
    (b : Buffer) (body rest : List ℕ)
    → IsAnswer body
    → b.buf ≡ wire body ++ rest
    → length body + 2 ≤ b.cur_pos
    → packet_vaild b ≡ valid
unfolding packet_vaild
vaild-answer b body rest a e h =
    let s = memory-Shape body rest b.buf a e in
    let some_data : ltb 0 b.cur_pos ≡ true = ground arith in
    let least : leb packet_minlen b.cur_pos ≡ true = ground (arith, s.least) in
    let whole : leb (length body + 2) b.cur_pos ≡ true = ground arith in
    rw (packet_vaild, some_data, least, s.len, whole) (crc_test-answer body rest b.buf a e)

-- A packet in the queue: the whole struct, which begins with the bytes that came over the line.
pub record Carries (body packet : List ℕ) : Type 0 where
  pub bytes : take (length (wire body)) packet ≡ wire body
  pub size : length packet ≡ 258

-- `GetPacket` on a buffer that starts with an answer, whose data have at most 253 bytes, takes it
-- out of the buffer, byte for byte, and leaves what is behind it.
pub get_packet-answer :
    (b : Buffer) (packet body tail : List ℕ)
    → IsValid b
    → length packet ≡ 258
    → IsAnswer body
    → contents b ≡ wire body ++ tail
    → (q : List ℕ) × (c : Buffer) × (get_packet b packet ≡ got q c)
      × Carries body q
      × HoldsIn b.max_size tail c
unfolding get_packet contents
get_packet-answer b packet body tail v size a e =
    let rest = tail ++ drop b.cur_pos b.buf in
    let memory : b.buf ≡ wire body ++ rest =
      sym (take-append-drop b.cur_pos b.buf)
      ∙ ap (λ l. l ++ drop b.cur_pos b.buf) e
      ∙ append_assoc (wire body) tail (drop b.cur_pos b.buf) in
    let s = memory-Shape body rest b.buf a memory in
    let n = length-wire body in
    let enough : length body + 2 ≤ b.cur_pos =
      omega (arith, length-contents b v, ap length e, length-append (wire body) tail, n) in
    let cut : take (length body + 2) b.buf ≡ wire body =
      ap₂ take (sym n) memory ∙ take-append (wire body) rest in
    let (new, copy, same, front) =
      copy_to-inside packet 0 (wire body) (omega (arith, n, s.most, size)) in
    let (c, deleted, held) = del-drops b (length body + 2) v in
    let dropped : drop (length body + 2) (contents b) ≡ tail =
      ap₂ drop (sym n) e ∙ drop-append (wire body) tail in
    let z : 0 + length (wire body) ≡ length (wire body) = omega arith in
    (
      new,
      c,
      rw (get_packet, vaild-answer b body rest a memory enough, s.len, cut, copy, deleted) refl,
      record {
        bytes = ap (λ k. take k new) (sym z) ∙ front ∙ (unfold take in refl);
        size = same ∙ size;
      },
      subst (λ l. HoldsIn b.max_size l c) dropped held,
    )
