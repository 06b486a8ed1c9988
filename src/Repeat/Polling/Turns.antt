-- ===== src/Repeat/Polling/Turns.antt =====
-- In which order `TimerQuery::Run` of src/repeat_comm.cpp asks the devices.
use hukong.Base.{
  subst, ℕ, if◌then◌else◌, Bool, true, false, ◌||◌, ◌≡◌, refl, sym, ap, ap₂, ◌∙◌, arith, List, [],
  ◌∷◌, ◌++◌, Option, none, some, All, length, append_assoc, append-nil,
}
use hukong.Repeat.State.{DevType, DevInfo, State}
use hukong.Repeat.Polling.{World, Poll, Asked, mark, mark_all, turn, ask, round, rounds}
use hukong.Repeat.Polling.Tries.{Serves}
use hukong.Repeat.Polling.Valid.{IsDevice, IsFairTurn, round-IsFair}

abbrev pub id_of : DevInfo → DevType × ℕ
id_of info = (info.type, info.addr)

abbrev pub asked_id : Asked → DevType × ℕ
asked_id a = (a.type, a.addr)

mark-id : (info : DevInfo) → id_of (mark info) ≡ id_of info
unfolding mark
mark-id info = ground arith

ask-id :
    (w : World) (fire : Bool) (info : DevInfo) (alarms : ℕ → Option Bool)
    → (asked_id (ask w fire info alarms).0 ≡ id_of info)
      × (id_of (ask w fire info alarms).1 ≡ id_of info)
unfolding ask
ask-id w fire info alarms = ground arith

unfoldable pub ids : List DevInfo → List (DevType × ℕ)
ids [] = []
ids (info ∷ infos) = id_of info ∷ ids infos

ids-mark_all : (infos : List DevInfo) → ids (mark_all infos) ≡ ids infos
unfolding ids mark_all
ids-mark_all [] = refl
ids-mark_all (info ∷ infos) = ap₂ (λ x xs. x ∷ xs) (mark-id info) (ids-mark_all infos)

ids-append : (xs ys : List DevInfo) → ids (xs ++ ys) ≡ ids xs ++ ids ys
unfolding ids
ids-append [] ys = refl
ids-append (x ∷ xs) ys = ap (λ l. id_of x ∷ l) (ids-append xs ys)

ids-marked :
    (sync : Bool) (infos : List DevInfo) → ids (if sync then mark_all infos else infos) ≡ ids infos
ids-marked true infos = ids-mark_all infos
ids-marked false infos = refl

-- Lists, taken apart by a function that gives the parts.
abbrev first_or : (DevType × ℕ) → List (DevType × ℕ) → DevType × ℕ
first_or d [] = d
first_or d (x ∷ xs) = x

abbrev others_of : List (DevType × ℕ) → List (DevType × ℕ)
others_of [] = []
others_of (x ∷ xs) = xs

not_empty : (x : DevType × ℕ) (xs : List (DevType × ℕ)) → [] ≡ x ∷ xs → ⊥
not_empty x xs e = ground arith

turn-turns :
    (w : World) (fire : Bool) (alarms : ℕ → Option Bool) (s : State) (infos : List DevInfo)
    (first : DevType × ℕ) (others : List (DevType × ℕ))
    → ids infos ≡ first ∷ others
    → (a : Asked) × ((turn w fire alarms s infos).0 ≡ some a)
      × (asked_id a ≡ first)
      × (ids (turn w fire alarms s infos).1.devices ≡ others ++ first ∷ [])
unfolding turn ids
turn-turns w fire alarms s [] first others e = absurd (not_empty first others e)
turn-turns w fire alarms s (info ∷ rest) first others e =
    let keeps = ask-id w fire info alarms in
    let is_first : id_of info ≡ first = ap (first_or first) e in
    let are_others : ids rest ≡ others = ap others_of e in
    (
      (ask w fire info alarms).0,
      refl,
      keeps.0 ∙ is_first,
      ids-append rest ((ask w fire info alarms).1 ∷ [])
          ∙ ap₂ (λ xs x. xs ++ x ∷ []) are_others (keeps.1 ∙ is_first),
    )

-- One round that finds no change of the devices takes the first device to the end.
round-turns :
    (s : State) (w : World) (p : Poll) (first : DevType × ℕ) (others : List (DevType × ℕ))
    → s.m_is_dev_change ≡ false
    → ids p.devices ≡ first ∷ others
    → (a : Asked) × ((round s w p).0 ≡ some a)
      × (asked_id a ≡ first)
      × (ids (round s w p).1.devices ≡ others ++ first ∷ [])
unfolding round
round-turns s w p first others still e =
    let infos = if s.m_is_meter_sync_time then mark_all p.devices else p.devices in
    let read = record s { m_is_dev_change = false; m_is_meter_sync_time = false } in
    rw still (
      turn-turns w (s.m_fire_alarm || s.m_broadcast_fire_alarm) p.alarms read infos first others
        (ids-marked s.m_is_meter_sync_time p.devices ∙ e))

abbrev pub IsStill : State × World → Type 0
IsStill (s, w) = s.m_is_dev_change ≡ false

abbrev pub asked_ids : List Asked → List (DevType × ℕ)
asked_ids [] = []
asked_ids (a ∷ more) = asked_id a ∷ asked_ids more

-- What the rounds asked, one item for each: the device was queried, as often as the loop asks, or
-- sent the time.
abbrev pub Served : List (State × World) → List Asked → Type 0
Served [] [] = Unit
Served [] (a ∷ more) = ⊥
Served (i ∷ ins) [] = ⊥
Served ((s, w) ∷ ins) (a ∷ more) = Serves w a × Served ins more

-- While the devices, which are devices of the protocol, do not change, any number of rounds up to
-- that of the devices asks the first ones in their order, one a round, and moves them to the end.
-- Each is queried, or is a meter and sent the time; the queries are repeated up to the third as long
-- as they fail, and a device gets none only if a set command is seen first. What the line answers,
-- throws or leaves unanswered does not change the order, nor does a new time synchronisation.
pub rounds-turns :
    (ins : List (State × World)) (p : Poll) (front back : List (DevType × ℕ))
    → All IsStill ins
    → length ins ≡ length front
    → All IsDevice p.devices
    → ids p.devices ≡ front ++ back
    → (asked_ids (rounds ins p).0 ≡ front)
      × Served ins (rounds ins p).0
      × (ids (rounds ins p).1.devices ≡ back ++ front)
unfolding rounds
rounds-turns [] p [] back still len valid e = (refl, tt, e ∙ sym (append-nil back))
rounds-turns [] p (x ∷ front) back still len valid e = absurd (omega arith)
rounds-turns ((s, w) ∷ ins) p [] back still len valid e = absurd (omega arith)
rounds-turns ((s, w) ∷ ins) p (x ∷ front) back still len valid e =
    let (a, some_asked, is_first, turned) = round-turns s w p x (front ++ back) still.0 e in
    let (fair, keeps) = round-IsFair s w p valid in
    let (order, served, moved) =
      rounds-turns ins (round s w p).1 front (back ++ x ∷ []) still.1 (omega arith) keeps
        (turned ∙ append_assoc front back (x ∷ [])) in
    let serves = subst (IsFairTurn w (round s w p).1.devices) some_asked fair in
    let later = (rounds ins (round s w p).1).0 in
    subst
      (λ (o : Option Asked).
        let all : List Asked = elim o [ none ↦ later | some b ↦ b ∷ later ] in
        (asked_ids all ≡ x ∷ front)
        × Served ((s, w) ∷ ins) all
        × (ids (rounds ins (round s w p).1).1.devices ≡ back ++ x ∷ front))
      (sym some_asked)
      (
        ap₂ (λ y ys. y ∷ ys) is_first order,
        (serves.1, served),
        moved ∙ append_assoc back (x ∷ []) front,
      )
