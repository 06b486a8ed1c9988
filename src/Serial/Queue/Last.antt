-- ===== src/Serial/Queue/Last.antt =====
-- `WaitPopLast` of src/protocol/protocol_comm.cpp: which packet it gives, and what becomes of the others.
use hukong.Base.{
  ℕ, zero, suc, ◌+◌, ◌<◌, ◌≡◌, refl, ap, ◌∙◌, arith, List, [], ◌∷◌, ◌++◌, Option, none, some,
  length, take, drop, length-append, append_assoc,
}
use hukong.Serial.Queue.{Popped, front, wait_pop, pop_rest, wait_pop_last}

abbrev pub last? : List (List ℕ) → Option (List ℕ)
last? [] = none
last? (p ∷ []) = some p
last? (p ∷ q ∷ ps) = last? (q ∷ ps)

abbrev pub concat : List (List (List ℕ)) → List (List ℕ)
concat [] = []
concat (ps ∷ pss) = ps ++ concat pss

-- Of the packets that were queued and those that arrived in the first `calls` calls, the last is the
-- value, and nothing is left in the queue.
pub record Emptied (all : List (List ℕ)) (later : List (List (List ℕ))) (calls : ℕ) (r : Popped)
    : Type 0 where
  pub value : r.value ≡ last? (all ++ concat (take calls later))
  pub queue : r.queue ≡ []
  pub rest : r.later ≡ drop calls later

pop_rest-Emptied :
    (fuel : ℕ) (packet : List ℕ) (queue : List (List ℕ)) (later : List (List (List ℕ)))
    → length queue + length (concat later) < fuel
    → (calls : ℕ) × (r : Popped) × (pop_rest fuel packet queue later ≡ some r)
      × Emptied (packet ∷ queue) later calls r
unfolding pop_rest wait_pop front take drop
pop_rest-Emptied zero packet queue later h = absurd (omega arith)
pop_rest-Emptied (suc fuel) packet [] [] h =
    (0, _, refl, record { value = refl; queue = refl; rest = refl })
pop_rest-Emptied (suc fuel) packet (q ∷ queue) [] h =
    let (calls, r, e, l) = pop_rest-Emptied fuel q queue [] (omega arith) in
    (calls, r, e, record { value = l.value; queue = l.queue; rest = l.rest })
pop_rest-Emptied (suc fuel) packet [] ([] ∷ later) h =
    (1, _, refl, record { value = refl; queue = refl; rest = refl })
pop_rest-Emptied (suc fuel) packet [] ((p ∷ ps) ∷ later) h =
    let (calls, r, e, l) =
      pop_rest-Emptied fuel p ps later (omega (arith, length-append ps (concat later))) in
    (suc calls, r, e, record { value = l.value; queue = l.queue; rest = l.rest })
pop_rest-Emptied (suc fuel) packet (q ∷ queue) (ps ∷ later) h =
    let (calls, r, e, l) =
      pop_rest-Emptied fuel q (queue ++ ps) later
        (omega (arith, length-append ps (concat later), length-append queue ps)) in
    (
      suc calls,
      r,
      e,
      record {
        value =
            l.value ∙ ap (λ t. last? (q ∷ t)) (append_assoc queue ps (concat (take calls later)));
        queue = l.queue;
        rest = l.rest;
      },
    )

-- With one unit of fuel more than there are packets, queued or to come, `WaitPopLast` ends. It takes
-- all that is queued and all that arrives up to its last call of `WaitPop`, gives the last of them,
-- and leaves the queue empty: the packets before the last are lost.
pub wait_pop_last-Emptied :
    (fuel : ℕ) (queue : List (List ℕ)) (later : List (List (List ℕ)))
    → length queue + length (concat later) < fuel
    → (calls : ℕ) × (r : Popped) × (wait_pop_last fuel queue later ≡ some r)
      × Emptied queue later calls r
unfolding wait_pop_last wait_pop front take drop
wait_pop_last-Emptied fuel [] [] h =
    (0, _, refl, record { value = refl; queue = refl; rest = refl })
wait_pop_last-Emptied fuel (q ∷ queue) [] h = pop_rest-Emptied fuel q queue [] (omega arith)
wait_pop_last-Emptied fuel [] ([] ∷ later) h =
    (1, _, refl, record { value = refl; queue = refl; rest = refl })
wait_pop_last-Emptied fuel [] ((p ∷ ps) ∷ later) h =
    let (calls, r, e, l) =
      pop_rest-Emptied fuel p ps later (omega (arith, length-append ps (concat later))) in
    (suc calls, r, e, record { value = l.value; queue = l.queue; rest = l.rest })
wait_pop_last-Emptied fuel (q ∷ queue) (ps ∷ later) h =
    let (calls, r, e, l) =
      pop_rest-Emptied fuel q (queue ++ ps) later
        (omega (arith, length-append ps (concat later), length-append queue ps)) in
    (
      suc calls,
      r,
      e,
      record {
        value =
            l.value ∙ ap (λ t. last? (q ∷ t)) (append_assoc queue ps (concat (take calls later)));
        queue = l.queue;
        rest = l.rest;
      },
    )
