-- ===== src/Serial/Send/Resend.antt =====
-- `WaitResponse` of src/protocol/protocol_comm.cpp: how often a command is sent again.
use hukong.Base.{
  Option-cases, inl, inr, length-append, ℕ, zero, suc, ◌+◌, ◌≤◌, ◌<◌, ◌≡◌, refl, sym, ap, arith,
  if◌then◌else◌, List, [], ◌∷◌, none, some, length, replicate, drop,
}
use hukong.Serial.Comm.{Comm}
use hukong.Serial.Queue.{Popped}
use hukong.Serial.Queue.Last.{concat, wait_pop_last-Emptied}
use hukong.Serial.Send.{Answer, frame_of, wait_resend, wait_response}

-- An answer after `again` repeats of the frame: either a packet, or none after all repeats.
pub record Answered (frame : List ℕ) (repeats : ℕ) (a : Answer) : Type 0 where
  pub again : ℕ
  pub bound : again ≤ repeats
  pub written : a.written ≡ replicate again frame
  pub gave_up : a.value ≡ none → again ≡ repeats
  pub emptied : a.queue ≡ []

concat-drop :
    (n : ℕ) (later : List (List (List ℕ))) → length (concat (drop n later)) ≤ length (concat later)
unfolding drop
concat-drop zero later = omega arith
concat-drop (suc n) [] = omega arith
concat-drop (suc n) (ps ∷ later) =
    omega (arith, concat-drop n later, length-append ps (concat later))

-- An answer without a repeat.
abbrev first : Popped → Answer
first r = record { value = r.value; queue = r.queue; later = r.later; written = [] }

none-some : (p : List ℕ) → none ≡ some p → ⊥
none-some p e = cc

wait_resend-Answered :
    (fuel : ℕ) (frame : List ℕ) (left : ℕ) (queue : List (List ℕ)) (later : List (List (List ℕ)))
    → length queue + length (concat later) < fuel
    → (a : Answer) × (wait_resend fuel frame left queue later ≡ some a) × Answered frame left a
unfolding wait_resend replicate
wait_resend-Answered fuel frame zero queue later h =
    let (calls, r, e, l) = wait_pop_last-Emptied fuel queue later h in
    (
      first r,
      rw (wait_resend, e) refl,
      record {
        again = 0;
        bound = omega arith;
        written = refl;
        gave_up = λ n. refl;
        emptied = l.queue;
      },
    )
wait_resend-Answered fuel frame (suc left) queue later h =
    let (calls, r, e, l) = wait_pop_last-Emptied fuel queue later h in
    elim (Option-cases r.value) [
      | inl n ↦
          let (a, f, k) = wait_resend-Answered fuel frame left r.queue r.later (
            omega (
              arith,
              ap length l.queue,
              ap (λ t. length (concat t)) l.rest,
              concat-drop calls later,
              h,
            )) in
          (
            record a { written = frame ∷ a.written },
            rw (wait_resend, e, n, f) refl,
            record {
              again = suc k.again;
              bound = omega (arith, k.bound);
              written = ap (λ t. frame ∷ t) k.written;
              gave_up = λ t. ap suc (k.gave_up t);
              emptied = k.emptied;
            },
          )
      | inr (p, s) ↦ (
        record (first r) { value = some p },
        rw (wait_resend, e, s) refl,
        record {
          again = 0;
          bound = omega arith;
          written = refl;
          gave_up = λ t. absurd (none-some p (sym t));
          emptied = l.queue;
        },
      )
    ]

-- With fuel above the number of packets, queued or to come, `WaitResponse` ends. The queue is then empty, and the frame of the last command was written again
-- at most twice, and not at all while resending is off; without an answer, exactly that often.
pub wait_response-Answered :
    (fuel : ℕ) (c : Comm) (later : List (List (List ℕ)))
    → length c.m_queue + length (concat later) < fuel
    → (a : Answer) × (wait_response fuel c later ≡ some a)
      × Answered (frame_of c.m_packet) (if c.m_resend then 2 else 0) a
unfolding wait_response
wait_response-Answered fuel c later h =
    wait_resend-Answered fuel (frame_of c.m_packet) (if c.m_resend then 2 else 0) c.m_queue later h
