-- ===== src/Repeat/Polling/Tries.antt =====
-- How often `TimerQuery::Run` of src/repeat_comm.cpp queries a device in one round.
use hukong.Base.{
  ◌==◌, ℕ, zero, suc, ◌+◌, ◌≤◌, ◌<◌, Bool, true, false, ◌≡◌, ◌≢◌, ◌⊎◌, inl, inr, refl, subst, arith,
  Bool-cases, Option, ℕ_discrete,
}
use hukong.Repeat.State.{
  DevType, light, curtain, aircondition, meter, human_group, leak_water, leak_gas, null, DevInfo,
}
use hukong.Repeat.Polling.{Reply, answered, failed, threw, World, Asked, is_polled, tries, ask}

-- The tries from number `k` on, up to number `last`, sent the queries `k` to `m - 1`: no set command
-- was seen before any of them, each but the last failed, and they ended with the last try, with a
-- set command, or behind a query that was answered or threw.
pub record TriedFrom (w : World) (k last m : ℕ) : Type 0 where
  pub low : k ≤ m
  pub few : m ≤ last
  pub unseen : (j : ℕ) → k ≤ j → j < m → w.cmd_seen j ≡ false
  pub unanswered : (j : ℕ) → k ≤ j → suc j < m → w.query j ≡ failed
  pub ended : (m ≡ last) ⊎ ((w.cmd_seen m ≡ true) ⊎ ((j : ℕ) × (m ≡ suc j) × (w.query j ≢ failed)))

-- Three tries in a round.
abbrev pub Tried : World → ℕ → Type 0
Tried w m = TriedFrom w 0 3 m

-- The device was queried, or it is a meter and was sent the time.
abbrev pub Serves : World → Asked → Type 0
Serves w a =
    (Tried w a.queries × (a.synced ≡ false))
    ⊎ ((a.type ≡ meter) × (a.queries ≡ 0) × (a.synced ≡ true))

tried_none :
    (w : World) (k last : ℕ) → k ≤ last → (k ≡ last) ⊎ (w.cmd_seen k ≡ true) → TriedFrom w k last k
tried_none w k last h e = record {
  low = omega arith;
  few = h;
  unseen = λ j a b. absurd (omega arith);
  unanswered = λ j a b. absurd (omega arith);
  ended = elim e [ inl l ↦ inl l | inr s ↦ inr (inl s) ];
}

tried_one :
    (w : World) (k last : ℕ)
    → suc k ≤ last
    → w.cmd_seen k ≡ false
    → w.query k ≢ failed
    → TriedFrom w k last (suc k)
tried_one w k last h s q = record {
  low = omega arith;
  few = h;
  unseen = λ j a b. let e : k ≡ j = omega arith in subst (λ i. w.cmd_seen i ≡ false) e s;
  unanswered = λ j a b. absurd (omega arith);
  ended = inr (inr (k, refl, q));
}

tried_more :
    (w : World) (k last m : ℕ)
    → w.cmd_seen k ≡ false
    → w.query k ≡ failed
    → TriedFrom w (suc k) last m
    → TriedFrom w k last m
tried_more w k last m s q t = record {
  low = omega (arith, t.low);
  few = t.few;
  unseen = λ j a b. elim (ℕ_discrete k j) [
    | yes e ↦ subst (λ i. w.cmd_seen i ≡ false) e s
    | no ne ↦ t.unseen j (omega arith) b
  ];
  unanswered = λ j a b. elim (ℕ_discrete k j) [
    | yes e ↦ subst (λ i. w.query i ≡ failed) e q
    | no ne ↦ t.unanswered j (omega arith) b
  ];
  ended = t.ended;
}

Reply-cases : (r : Reply) → (r ≡ answered) ⊎ ((r ≡ failed) ⊎ (r ≡ threw))
Reply-cases answered = inl refl
Reply-cases failed = inr (inl refl)
Reply-cases threw = inr (inr refl)

tries-TriedFrom : (w : World) (n k : ℕ) → TriedFrom w k (k + n) (tries w n k).0
unfolding tries
tries-TriedFrom w zero k = tried_none w k (k + 0) (omega arith) (inl (omega arith))
tries-TriedFrom w (suc n) k = elim (Bool-cases (w.cmd_seen k)) [
  | inl s ↦ rw s (tried_none w k (k + suc n) (omega arith) (inr s))
  | inr s ↦ elim (Reply-cases (w.query k)) [
    | inl q ↦ rw (s, q) (tried_one w k (k + suc n) (omega arith) s (λ e. absurd (cc (q, e))))
    | inr (inl q) ↦
        let deeper = tries-TriedFrom w n (suc k) in
        let last : suc k + n ≡ k + suc n = omega arith in
        rw (s, q)
          (tried_more w k (k + suc n) (tries w n (suc k)).0 s q
            (subst (λ l. TriedFrom w (suc k) l (tries w n (suc k)).0) last deeper))
    | inr (inr q) ↦ rw (s, q) (tried_one w k (k + suc n) (omega arith) s (λ e. absurd (cc (q, e))))
  ]
]

ask_one :
    (w : World) (fire : Bool) (type : DevType) (addr opt : ℕ) (alarms : ℕ → Option Bool)
    → is_polled type ≡ true
    → Serves w (ask w fire (record { type = type; addr = addr; opt = opt }) alarms).0
unfolding ask
ask_one w fire light addr opt alarms p = inl (tries-TriedFrom w 3 0, refl)
ask_one w fire curtain addr opt alarms p = inl (tries-TriedFrom w 3 0, refl)
ask_one w fire aircondition addr opt alarms p =
    let a = (ask w fire (record { type = aircondition; addr = addr; opt = opt }) alarms).0 in
    let same : (tries w 3 0).0 ≡ a.queries = ground arith in
    let unsynced : a.synced ≡ false = ground arith in
    inl (subst (Tried w) same (tries-TriedFrom w 3 0), unsynced)
ask_one w fire meter addr opt alarms p = elim (Bool-cases (opt == 0)) [
  | inl e ↦ rw e (inl (tries-TriedFrom w 3 0, refl))
  | inr e ↦ rw e (inr (refl, refl, refl))
]
ask_one w fire human_group addr opt alarms p = absurd cc
ask_one w fire leak_water addr opt alarms p = absurd cc
ask_one w fire leak_gas addr opt alarms p = absurd cc
ask_one w fire null addr opt alarms p = absurd cc

pub ask-Serves :
    (w : World) (fire : Bool) (info : DevInfo) (alarms : ℕ → Option Bool)
    → is_polled info.type ≡ true
    → Serves w (ask w fire info alarms).0
ask-Serves w fire info alarms p = ask_one w fire info.type info.addr info.opt alarms p
