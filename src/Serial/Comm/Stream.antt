-- ===== src/Serial/Comm/Stream.antt =====
-- `OnReceive` of src/protocol/protocol_comm.cpp on packets that arrive in pieces.
use hukong.Base.{
  ltb→lt, ℕ, ◌+◌, ◌-◌, ◌^◌, ◌≤◌, ◌<◌, ◌==◌, ltb, if◌then◌else◌, false, ◌≡◌, refl, sym, ap, ◌∙◌,
  arith, Bool-cases, inl, inr, List, [], ◌∷◌, ◌++◌, some, All, length, drop, take, append_assoc,
  append-nil, subst, length-append,
}
use hukong.Serial.Buffer.{Buffer, realloc, free_size}
use hukong.Serial.Buffer.Refine.{
  IsValid, contents, length-contents, realloc-keeps, grown-room, store-appends,
}
use hukong.Serial.Packet.Wire.{IsBody, wire, length-wire}
use hukong.Serial.Comm.{
  Comm, take_packets, Received, returned, aborted, faulted, endless, on_receive,
}
use hukong.Serial.Comm.Drain.{wires, Carried, Waits, drain-wires}

-- Between two calls: of the packets `left`, the first bytes are in the buffer, the others are still
-- to come.
pub record Ready (left : List (List ℕ)) (more : List ℕ) (c : Comm) : Type 0 where
  pub valid : IsValid c.m_buffer
  pub small : c.m_buffer.max_size ≤ 2 ^ 20
  pub rest : contents c.m_buffer ++ more ≡ wires left
  pub waits : Waits c.m_buffer.cur_pos left

-- One call: `n` bytes are announced, and `::read` gives some of them, at least one.
pub record IsRead (read : ℕ × List ℕ) : Type 0 where
  pub some_read : 0 < length read.1
  pub announced : length read.1 ≤ read.0
  pub bounded : read.0 ≤ 2 ^ 16

Waits-le : (n : ℕ) (left : List (List ℕ)) → All IsBody left → Waits n left → n ≤ 258
Waits-le n [] ok w = omega arith
Waits-le n ([] ∷ left) (v, ok) w = absurd v
Waits-le n ((len ∷ body) ∷ left) (v, ok) w = omega (arith, v, length-wire (len ∷ body))

-- The buffer with room for the bytes that were announced.
abbrev pub roomy : ℕ → Buffer → ℕ → Buffer
roomy fresh b n = if ltb (free_size b) n then realloc fresh b n else b

pub roomy-room :
    (fresh : ℕ) (b : Buffer) (n : ℕ)
    → IsValid b
    → b.max_size ≤ 2 ^ 20
    → b.cur_pos ≤ 258
    → n ≤ 2 ^ 16
    → IsValid (roomy fresh b n)
      × (contents (roomy fresh b n) ≡ contents b)
      × (n ≤ free_size (roomy fresh b n))
      × ((roomy fresh b n).max_size ≤ 2 ^ 20)
unfolding free_size
roomy-room fresh b n v small near h = elim (Bool-cases (ltb (b.max_size - b.cur_pos) n)) [
  | inl e ↦
      let ((w, same), room) = realloc-keeps fresh b n v (omega arith) in
      let upper = (grown-room b n v.some_room (omega arith)).1 in
      rw e (
        w,
        same,
        unfold realloc in omega (arith, room),
        unfold realloc in omega (arith, upper, ltb→lt _ _ e),
      )
  | inr e ↦ rw e (v, refl, ground arith, small)
]

-- What one call does: it queues the packets that are now complete, and keeps the rest.
pub record Queued (left : List (List ℕ)) (more : List ℕ) (c : Comm) (r : Received) : Type 0 where
  pub taken : List (List ℕ)
  pub after : List (List ℕ)
  pub qs : List (List ℕ)
  pub next : Comm
  pub result : r ≡ returned next
  pub split : left ≡ taken ++ after
  pub carried : Carried taken qs
  pub queue : next.m_queue ≡ c.m_queue ++ qs
  pub ready : Ready after more next

take_packets-wires :
    (c : Comm) (b : Buffer) (packet : List ℕ) (left : List (List ℕ)) (more : List ℕ)
    → IsValid b
    → b.max_size ≤ 2 ^ 20
    → length packet ≡ 262
    → All IsBody left
    → contents b ++ more ≡ wires left
    → Queued left more c (take_packets c b packet)
unfolding take_packets
take_packets-wires c b packet left more v small size ok e =
    let (taken, after, qs, d, split, l) =
      drain-wires (b.cur_pos + 1) b packet c.m_queue more left v size ok e (omega arith) in
    record {
      taken = taken;
      after = after;
      qs = qs;
      next = record c { m_buffer = d; m_queue = c.m_queue ++ qs };
      result = rw (take_packets, l.result) refl;
      split = split;
      carried = l.carried;
      queue = refl;
      ready = record {
        valid = l.valid;
        small = omega (arith, l.same_room);
        rest = l.rest;
        waits = l.waits;
      };
    }

pub on_receive-Queued :
    (fresh : ℕ) (packet : List ℕ) (c : Comm) (n : ℕ) (bytes more : List ℕ) (left : List (List ℕ))
    → length packet ≡ 262
    → All IsBody left
    → IsRead (n, bytes)
    → Ready left (bytes ++ more) c
    → Queued left more c (on_receive fresh packet c n (some bytes))
unfolding on_receive
on_receive-Queued fresh packet c n [] more left size ok r ready =
    absurd (omega (arith, r.some_read))
on_receive-Queued fresh packet c n (x ∷ bytes) more left size ok r ready =
    let (v, same, room, small) =
      roomy-room fresh c.m_buffer n ready.valid ready.small
        (Waits-le c.m_buffer.cur_pos left ok ready.waits) r.bounded in
    let (b, stored, (w, filled, size')) =
      store-appends (roomy fresh c.m_buffer n) (x ∷ bytes) v (omega (arith, room, r.announced)) in
    let whole : contents b ++ more ≡ wires left =
      ap (λ t. t ++ more) (filled ∙ ap (λ t. t ++ x ∷ bytes) same)
      ∙ append_assoc (contents c.m_buffer) (x ∷ bytes) more
      ∙ ready.rest in
    let free : (free_size (roomy fresh c.m_buffer n) == 0) ≡ false =
      unfold free_size in ground (arith, room, r.announced) in
    rw (on_receive, free, stored)
      (take_packets-wires c b packet left more w (omega (arith, small, size')) size ok whole)

-- The calls of `OnReceive` for these reads, up to the first that does not return.
unfoldable pub receive_reads : ℕ → List ℕ → Comm → List (ℕ × List ℕ) → Received
receive_reads fresh packet c [] = returned c
receive_reads fresh packet c ((n, bytes) ∷ reads) =
    elim (on_receive fresh packet c n (some bytes)) [
      | returned next ↦ receive_reads fresh packet next reads
      | aborted ↦ aborted
      | faulted ↦ faulted
      | endless ↦ endless
    ]

abbrev pub joined : List (ℕ × List ℕ) → List ℕ
joined [] = []
joined (read ∷ reads) = read.1 ++ joined reads

Carried-append :
    (xs qs ys rs : List (List ℕ)) → Carried xs qs → Carried ys rs → Carried (xs ++ ys) (qs ++ rs)
Carried-append [] [] ys rs c d = d
Carried-append [] (q ∷ qs) ys rs c d = absurd c
Carried-append (x ∷ xs) [] ys rs c d = absurd c
Carried-append (x ∷ xs) (q ∷ qs) ys rs (c, cs) d = (c, Carried-append xs qs ys rs cs d)

-- With nothing more to come, no packet is left.
Ready-done : (left : List (List ℕ)) (c : Comm) → Ready left [] c → left ≡ []
unfolding wires
Ready-done [] c r = refl
Ready-done (body ∷ left) c r = absurd (
    omega (
      arith,
      r.waits,
      length-contents c.m_buffer r.valid,
      ap length r.rest,
      length-append (contents c.m_buffer) [],
      length-append (wire body) (wires left),
    ))

All-split : (xs ys zs : List (List ℕ)) → xs ≡ ys ++ zs → All IsBody xs → All IsBody zs
unfolding drop
All-split xs [] zs e h = subst (All IsBody) e h
All-split [] (y ∷ ys) zs e h = absurd (omega (arith, ap length e))
All-split (x ∷ xs) (y ∷ ys) zs e (v, h) = All-split xs ys zs (ap (drop 1) e) h

receive_reads-Ready :
    (fresh : ℕ) (packet : List ℕ) (c : Comm) (reads : List (ℕ × List ℕ)) (left : List (List ℕ))
    → length packet ≡ 262
    → All IsBody left
    → All IsRead reads
    → Ready left (joined reads) c
    → (qs : List (List ℕ)) × (d : Comm) × (receive_reads fresh packet c reads ≡ returned d)
      × (d.m_queue ≡ c.m_queue ++ qs)
      × Carried left qs
      × Ready [] [] d
unfolding receive_reads
receive_reads-Ready fresh packet c [] left size ok rs ready =
    let none = Ready-done left c ready in
    (
      [],
      c,
      refl,
      sym (append-nil c.m_queue),
      subst (λ l. Carried l []) (sym none) tt,
      subst (λ l. Ready l [] c) none ready,
    )
receive_reads-Ready fresh packet c ((n, bytes) ∷ reads) left size ok (r, rs) ready =
    let one = on_receive-Queued fresh packet c n bytes (joined reads) left size ok r ready in
    let (qs, d, all, queue, carried, done) =
      receive_reads-Ready fresh packet one.next reads one.after size
        (All-split left one.taken one.after one.split ok) rs one.ready in
    (
      one.qs ++ qs,
      d,
      rw (receive_reads, one.result) all,
      queue ∙ ap (λ t. t ++ qs) one.queue ∙ append_assoc c.m_queue one.qs qs,
      subst (λ l. Carried l (one.qs ++ qs)) (sym one.split)
          (Carried-append one.taken one.qs one.after qs one.carried carried),
      done,
    )

-- Packets that arrive one behind the other are queued, all of them, in order and byte for byte, and
-- the buffer is empty again, however the reads cut them up: in the middle of a packet or with
-- several packets in one read. Each read gives at least one byte, at most the announced number, and
-- that is at most 2 ^ 16; the buffer starts empty with at most 2 ^ 20 bytes of memory.
pub receive_reads-packets :
    (fresh : ℕ) (packet : List ℕ) (c : Comm) (reads : List (ℕ × List ℕ)) (bodies : List (List ℕ))
    → length packet ≡ 262
    → IsValid c.m_buffer
    → c.m_buffer.max_size ≤ 2 ^ 20
    → c.m_buffer.cur_pos ≡ 0
    → All IsBody bodies
    → All IsRead reads
    → joined reads ≡ wires bodies
    → (qs : List (List ℕ)) × (d : Comm) × (receive_reads fresh packet c reads ≡ returned d)
      × (d.m_queue ≡ c.m_queue ++ qs)
      × Carried bodies qs
      × (d.m_buffer.cur_pos ≡ 0)
unfolding contents take
receive_reads-packets fresh packet c reads bodies size v small start ok rs e =
    let (qs, d, result, queue, carried, done) =
      receive_reads-Ready fresh packet c reads bodies size ok rs ready in
    (qs, d, result, queue, carried, done.waits)
  where
    waits_empty : (left : List (List ℕ)) → Waits 0 left
    waits_empty [] = refl
    waits_empty (body ∷ left) = omega (arith, length-wire body)

    ready : Ready bodies (joined reads) c
    ready = record {
      valid = v;
      small = small;
      rest = ap (λ n. take n c.m_buffer.buf ++ joined reads) start ∙ e;
      waits = subst (λ n. Waits n bodies) (sym start) (waits_empty bodies);
    }
