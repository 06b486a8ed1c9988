-- ===== src/Serial/Queue.antt =====
-- `JobQueue` of lib-linux/src/jobqueue.h as one thread sees it, and `WaitPopLast` of
-- src/protocol/protocol_comm.cpp. What the other thread pushes up to the end of each call of
-- `WaitPop`, the time it waits included, is an item of a list; when that is used up nothing more
-- arrives, and every wait on an empty queue times out.
pub mod Last
use hukong.Base.{ℕ, zero, suc, List, [], ◌∷◌, ◌++◌, Option, none, some}

pub record Popped : Type 0 where
  pub value : Option (List ℕ)
  pub queue : List (List ℕ)
  pub later : List (List (List ℕ))

unfoldable pub push : List (List ℕ) → List ℕ → List (List ℕ)
push queue elem = queue ++ elem ∷ []

unfoldable pub front : List (List ℕ) → List (List (List ℕ)) → Popped
front [] later = record { value = none; queue = []; later = later }
front (p ∷ queue) later = record { value = some p; queue = queue; later = later }

unfoldable pub wait_pop : List (List ℕ) → List (List (List ℕ)) → Popped
wait_pop queue [] = front queue []
wait_pop queue (arrived ∷ later) = front (queue ++ arrived) later

-- `while (m_queue.WaitPop(0, packet))`; `none` is the end of the fuel.
unfoldable pub pop_rest : ℕ → List ℕ → List (List ℕ) → List (List (List ℕ)) → Option Popped
pop_rest zero packet queue later = none
pop_rest (suc fuel) packet queue later =
    let r = wait_pop queue later in
    elim r.value [
      | none ↦ some (record { value = some packet; queue = r.queue; later = r.later })
      | some next ↦ pop_rest fuel next r.queue r.later
    ]

unfoldable pub wait_pop_last : ℕ → List (List ℕ) → List (List (List ℕ)) → Option Popped
wait_pop_last fuel queue later =
    let r = wait_pop queue later in
    elim r.value [ none ↦ some r | some packet ↦ pop_rest fuel packet r.queue r.later ]
