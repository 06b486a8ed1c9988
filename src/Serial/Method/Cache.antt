-- ===== src/Serial/Method/Cache.antt =====
-- The query cache of `transform` in src/protocol/protocol_method.cpp, and what a call leaves as it
-- was.
use hukong.Base.{
  ℕ, ◌+◌, ◌≤◌, ◌<◌, ◌≡◌, refl, sym, ap, ◌∙◌, arith, ==_iff, Bool, true, false, if◌then◌else◌,
  Bool-cases, Option-cases, inl, inr, List, [], ◌++◌, Option, none, some, length, length-replicate,
  subst,
}
use hukong.Serial.Packet.{get_src_addr, get_dest_addr, get_type, get_function}
use hukong.Serial.Queue.Last.{concat}
use hukong.Serial.Send.{send_frame, frame_of}
use hukong.Serial.Send.Resend.{wait_response-Answered}
use hukong.Serial.Method.{
  Method, Result, update, packet_type_id, type_id_of, code_key, check_result, exchange, remember,
  transform,
}

-- The answer is from the device, and about the command.
abbrev pub Matches : ℕ → ℕ → ℕ → List ℕ → Type 0
Matches dest type function p =
    (get_dest_addr p ≡ dest) × (get_type p ≡ type) × (get_function p ≡ function)

check_result-Matches :
    (dest type function : ℕ) (o : Option (List ℕ)) (p : List ℕ)
    → check_result dest type function o ≡ some p
    → Matches dest type function p
unfolding check_result
check_result-Matches dest type function none p e = absurd (cc)
check_result-Matches dest type function (some q) p e = ground arith

-- What an exchange on the line does.
pub record Exchanged (m : Method) (dest type function limit : ℕ) (r : Result) : Type 0 where
  pub matches : (p : List ℕ) → r.value ≡ some p → Matches dest type function p
  pub m_resend : r.method.comm.m_resend ≡ m.comm.m_resend
  pub written : length r.written ≤ limit

-- The frames of one call at most: the command, and two repeats while resending is on.
abbrev pub most : Bool → Bool → ℕ
most stop resend = 1 + (if (if stop then false else resend) then 2 else 0)

exchange-Exchanged :
    (fuel : ℕ) (m : Method) (src dest type function : ℕ) (p_data : Option (List ℕ))
    (stop sent : Bool) (later : List (List (List ℕ)))
    → length (concat later) < fuel
    → (r : Result) × (exchange fuel m src dest type function p_data stop sent later ≡ some r)
      × Exchanged m dest type function (most stop m.comm.m_resend) r
unfolding exchange send_frame
exchange-Exchanged fuel m src dest type function p_data stop false later h =
    (_, refl, record { matches = λ p e. absurd cc; m_resend = refl; written = ground arith })
exchange-Exchanged fuel m src dest type function p_data stop true later h =
    let s =
      send_frame (record m.comm { m_resend = if stop then false else m.comm.m_resend }) src dest
        type function p_data true true in
    let (a, e, k) = wait_response-Answered fuel s.comm later (omega arith) in
    (
      record {
        method = record m {
          comm = record s.comm { m_queue = a.queue; m_resend = m.comm.m_resend };
        };
        value = check_result dest type function a.value;
        written = s.written ++ a.written;
        later = a.later;
      },
      rw e refl,
      record {
        matches = λ p. check_result-Matches dest type function a.value p;
        m_resend = refl;
        written = omega (
          arith,
          k.bound,
          ap length k.written,
          length-replicate k.again (frame_of s.comm.m_packet),
        );
      },
    )

update-same {ℓ} :
    {A : Type ℓ} (map : ℕ → A) (key k : ℕ) (value : A) → k ≡ key → update map key value k ≡ value
unfolding update
update-same map key k value e = rw ((==_iff k key).1 e) refl

some_injective : {x y : Result} → some x ≡ some y → x ≡ y
some_injective e = cc

answer-cached :
    (fuel : ℕ) (m : Method) (src dest type function : ℕ) (o p_data : Option (List ℕ))
    (stop sent : Bool) (later : List (List (List ℕ)))
    → ((p : List ℕ) → o ≡ some p → type_id_of p ≡ packet_type_id src dest type function)
    → let n = remember m (packet_type_id src dest type function) type function true o in
      transform fuel n src dest type function p_data false stop sent later
      ≡ some (record { method = n; value = o; written = []; later = later })
unfolding transform remember
answer-cached fuel m src dest type function none p_data stop sent later same =
    let id = packet_type_id src dest type function in
    rw
      (
        transform,
        update-same m.query_packet_map id id none refl,
        update-same m.query_packet_block_set (code_key type function) (code_key type function) true
            refl,
      )
      refl
answer-cached fuel m src dest type function (some p) p_data stop sent later same =
    let id = packet_type_id src dest type function in
    rw (transform, update-same m.query_packet_map (type_id_of p) id (some p) (sym (same p refl)))
      refl

remember-comm :
    (m : Method) (id type function : ℕ) (save : Bool) (o : Option (List ℕ))
    → (remember m id type function save o).comm ≡ m.comm
unfolding remember
remember-comm m id type function true none = refl
remember-comm m id type function true (some p) = refl
remember-comm m id type function false none = refl
remember-comm m id type function false (some p) =
    elim (Option-cases (m.cmd_packet_trans_map (code_key type function))) [
      | inl e ↦ rw (remember, e) refl
      | inr (to, e) ↦ rw (remember, e) refl
    ]

-- A polling query, for the cache, with enough fuel for the packets that arrive, then the same query
-- of a client: whatever the poll's outcome was,
-- the client gets it without a byte on the line: the packet that the poll received, or a failure if
-- it received none. The packet must carry the address the query was sent from: only the other
-- address and the two codes are compared with the command.
pub transform-cached :
    (fuel : ℕ) (m : Method) (src dest type function : ℕ) (p_data : Option (List ℕ))
    (stop sent : Bool) (later : List (List (List ℕ))) (r : Result) (p_data' : Option (List ℕ))
    (stop' sent' : Bool) (later' : List (List (List ℕ)))
    → length (concat later) < fuel
    → transform fuel m src dest type function p_data true stop sent later ≡ some r
    → ((p : List ℕ) → r.value ≡ some p → get_src_addr p ≡ src)
    → transform fuel r.method src dest type function p_data' false stop' sent' later'
      ≡ some (record { method = r.method; value = r.value; written = []; later = later' })
unfolding transform
transform-cached fuel m src dest type function p_data stop sent later r p_data' stop' sent' later' h
      e from =
    let (x, done, k) = exchange-Exchanged fuel m src dest type function p_data stop sent later h in
    let stored : r ≡ record x { method = remember x.method id type function true x.value } =
      some_injective (sym e ∙ rw (transform, done) refl) in
    subst
      (λ t.
        transform fuel t.method src dest type function p_data' false stop' sent' later'
        ≡ some (record { method = t.method; value = t.value; written = []; later = later' }))
      (sym stored)
      (answer-cached fuel x.method src dest type function x.value p_data' stop' sent' later'
        (λ p q. same p (k.matches p q) (from p (ap (λ t. t.value) stored ∙ q))))
  where
    id : ℕ
    id = packet_type_id src dest type function

    same : (p : List ℕ) → Matches dest type function p → get_src_addr p ≡ src → type_id_of p ≡ id
    same p h at = unfold type_id_of in rw (at, h.0, h.1, h.2) refl

-- Every call ends, with enough fuel for the packets that arrive. It leaves the resend switch as it
-- was, and writes at most one frame, or three while resending is on and not switched off for it.
pub transform-ends :
    (fuel : ℕ) (m : Method) (src dest type function : ℕ) (p_data : Option (List ℕ))
    (save stop sent : Bool) (later : List (List (List ℕ)))
    → length (concat later) < fuel
    → (r : Result) × (transform fuel m src dest type function p_data save stop sent later ≡ some r)
      × (r.method.comm.m_resend ≡ m.comm.m_resend)
      × (length r.written ≤ most stop m.comm.m_resend)
unfolding transform
transform-ends fuel m src dest type function p_data save stop sent later h =
    elim (Bool-cases save) [
      | inl e ↦ rw (e, transform) (on_line save)
      | inr e ↦ elim (Option-cases (m.query_packet_map id)) [
        | inr (p, f) ↦ (
          record { method = m; value = some p; written = []; later = later },
          rw (e, f) refl,
          refl,
          omega arith,
        )
        | inl f ↦ elim (Bool-cases (m.query_packet_block_set (code_key type function))) [
          | inl b ↦ (
            record { method = m; value = none; written = []; later = later },
            rw (e, f, b) refl,
            refl,
            omega arith,
          )
          | inr b ↦ rw (e, f, b) (on_line save)
        ]
      ]
    ]
  where
    id : ℕ
    id = packet_type_id src dest type function

    on_line :
        (keep : Bool)
        → (r : Result) × (elim (exchange fuel m src dest type function p_data stop sent later) [
          | none ↦ none
          | some x ↦ some (record x { method = remember x.method id type function keep x.value })
        ]
            ≡ some r)
          × (r.method.comm.m_resend ≡ m.comm.m_resend)
          × (length r.written ≤ most stop m.comm.m_resend)
    on_line keep =
        let (x, done, k) =
          exchange-Exchanged fuel m src dest type function p_data stop sent later h in
        (
          record x { method = remember x.method id type function keep x.value },
          rw done refl,
          ap (λ c. c.m_resend) (remember-comm x.method id type function keep x.value) ∙ k.m_resend,
          k.written,
        )
