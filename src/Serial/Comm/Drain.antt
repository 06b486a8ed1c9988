-- ===== src/Serial/Comm/Drain.antt =====
-- The loop of `OnReceive` in src/protocol/protocol_comm.cpp on the beginning of a stream of packets.
use hukong.Base.{
  ℕ, zero, suc, ◌≤◌, ◌<◌, ◌≡◌, refl, sym, ap, ◌∙◌, arith, dec_lt, List, [], ◌∷◌, ◌++◌, All, length,
  take, drop, length-append, length-drop, append_assoc, append-nil, take-append, drop-append,
  take-append_le, drop-append_le, take-append-drop,
}
use hukong.Serial.Buffer.{Buffer}
use hukong.Serial.Buffer.Refine.{IsValid, contents, length-contents}
use hukong.Serial.Packet.Wire.{IsBody, wire, length-wire}
use hukong.Serial.PacketBuffer.{nothing, packet_vaild, get_packet}
use hukong.Serial.PacketBuffer.Accept.{Carries, get_packet-whole, get_packet-partial}
use hukong.Serial.Comm.{Drained, drained, drain}

-- Packets one behind the other on the line.
unfoldable pub wires : List (List ℕ) → List ℕ
wires [] = []
wires (body ∷ bodies) = wire body ++ wires bodies

-- The queue carries these packets, in this order.
abbrev pub Carried : List (List ℕ) → List (List ℕ) → Type 0
Carried [] [] = Unit
Carried [] (q ∷ qs) = ⊥
Carried (body ∷ bodies) [] = ⊥
Carried (body ∷ bodies) (q ∷ qs) = Carries body q × Carried bodies qs

-- With `n` bytes at hand there is less than the first of the packets.
abbrev pub Waits : ℕ → List (List ℕ) → Type 0
Waits n [] = n ≡ 0
Waits n (body ∷ bodies) = n < length (wire body)

split-append :
    (xs zs ys ws : List ℕ)
    → xs ++ zs ≡ ys ++ ws
    → length ys ≤ length xs
    → (xs ≡ ys ++ drop (length ys) xs) × (drop (length ys) xs ++ zs ≡ ws)
split-append xs zs ys ws e h = (
  sym (take-append-drop (length ys) xs)
      ∙ ap (λ l. l ++ drop (length ys) xs)
          (sym (take-append_le (length ys) xs zs h) ∙ ap (take (length ys)) e ∙ take-append ys ws),
  sym (drop-append_le (length ys) xs zs h) ∙ ap (drop (length ys)) e ∙ drop-append ys ws,
)

get_packet-empty : (b : Buffer) (packet : List ℕ) → b.cur_pos ≡ 0 → get_packet b packet ≡ nothing
unfolding get_packet packet_vaild
get_packet-empty b packet e = rw e refl

-- What the loop leaves behind, with `more` still to come of the packets.
pub record Left (taken left : List (List ℕ)) (more : List ℕ) (queue qs : List (List ℕ)) (b : Buffer)
    (room : ℕ) (d : Drained) : Type 0 where
  pub result : d ≡ drained b (queue ++ qs)
  pub carried : Carried taken qs
  pub valid : IsValid b
  pub rest : contents b ++ more ≡ wires left
  pub same_room : b.max_size ≡ room
  pub waits : Waits b.cur_pos left

pub drain-wires :
    (fuel : ℕ) (b : Buffer) (packet : List ℕ) (queue : List (List ℕ)) (more : List ℕ)
    (bodies : List (List ℕ))
    → IsValid b
    → length packet ≡ 262
    → All IsBody bodies
    → contents b ++ more ≡ wires bodies
    → b.cur_pos < fuel
    → (taken left qs : List (List ℕ)) × (c : Buffer) × (bodies ≡ taken ++ left)
      × Left taken left more queue qs c b.max_size (drain fuel b packet queue)
unfolding drain wires
drain-wires zero b packet queue more bodies v size ok e f = absurd (omega arith)
drain-wires (suc fuel) b packet queue more [] v size ok e f =
    let none : b.cur_pos ≡ 0 =
      omega (arith, length-contents b v, length-append (contents b) more, ap length e) in
    (
      [],
      [],
      [],
      b,
      refl,
      record {
        result = rw (drain, get_packet-empty b packet none) (rw append-nil refl);
        carried = tt;
        valid = v;
        rest = e;
        same_room = refl;
        waits = none;
      },
    )
drain-wires (suc fuel) b packet queue more (body ∷ bodies) v size (w, ok) e f =
    elim (dec_lt b.cur_pos (length (wire body))) [
      | yes h ↦ (
        [],
        body ∷ bodies,
        [],
        b,
        refl,
        record {
          result =
              rw (drain, get_packet-partial b packet more body (wires bodies) v w e h)
                (rw append-nil refl);
          carried = tt;
          valid = v;
          rest = e;
          same_room = refl;
          waits = h;
        },
      )
      | no h ↦
          let enough : length (wire body) ≤ length (contents b) =
            omega (arith, length-contents b v) in
          let (whole, further) =
            split-append (contents b) more (wire body) (wires bodies) e enough in
          let (q, c, g, k, held) =
            get_packet-whole b packet body (drop (length (wire body)) (contents b)) v size w
              whole in
          let (taken, left, qs, d, split, l) =
            drain-wires fuel c q (queue ++ q ∷ []) more bodies held.0 k.size ok
              (ap (λ t. t ++ more) held.1 ∙ further)
              (omega (
                arith,
                length-contents c held.0,
                ap length held.1,
                length-drop (length (wire body)) (contents b),
                length-contents b v,
                length-wire body,
              )) in
          (
            body ∷ taken,
            left,
            q ∷ qs,
            d,
            ap (λ t. body ∷ t) split,
            record {
              result = rw (drain, g) (l.result ∙ ap (drained d) (append_assoc queue (q ∷ []) qs));
              carried = (k, l.carried);
              valid = l.valid;
              rest = l.rest;
              same_room = l.same_room ∙ held.2;
              waits = l.waits;
            },
          )
    ]
