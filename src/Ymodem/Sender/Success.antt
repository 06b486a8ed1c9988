-- ===== src/Ymodem/Sender/Success.antt =====
-- The logic of `Steps` for a whole program of ymodem/src/ymodem.c.
use hukong.Base.{ℕ, ◌≡◌, refl, sym, Bool, true, false, List, [], ◌++◌, Option, none, some, subst}
use hukong.Ymodem.Port.{
  Event, Outcome, done, fault, out_of_fuel, Io, pure, resume, put_chars, ◌>>=◌,
}
use hukong.Ymodem.Receiver.{acked}
use hukong.Ymodem.Sender.Steps.{Acks, Delivers, done-injective}

-- Only the runs that return a number matter: what it writes
-- last may wait for no reply.
pub record Succeeds (m : Io (Option ℕ)) (Q : ℕ → List (List ℕ) → Type 0) : Type 0 where
  pub runs :
      (rs : List (Option ℕ)) (s : ℕ) → (m rs).value ≡ done (some s) → Q s (acked [] (m rs).events)

pub Succeeds-pure :
    {Q : ℕ → List (List ℕ) → Type 0} (r : Option ℕ)
    → ((s : ℕ) → r ≡ some s → Q s [])
    → Succeeds (pure r) Q
unfolding pure acked
Succeeds-pure r h = record { runs = λ rs s e. h s (done-injective e) }

pub Succeeds-none :
    {Q : ℕ → List (List ℕ) → Type 0} (bs : List ℕ) → Succeeds (put_chars bs >>= λ _. pure none) Q
unfolding put_chars pure ◌>>=◌
Succeeds-none bs = record { runs = λ rs s e. absurd (cc) }

pub Succeeds-if :
    {Q : ℕ → List (List ℕ) → Type 0} (b : Bool) (m n : Io (Option ℕ))
    → Succeeds m Q
    → Succeeds n Q
    → Succeeds (elim b [ true ↦ m | false ↦ n ]) Q
Succeeds-if true m n p q = p
Succeeds-if false m n p q = q

resume_Succeeds :
    {A : Type 0} (P : A → List (List ℕ) → Type 0) (Q : ℕ → List (List ℕ) → Type 0) (es : List Event)
    (rs : List (Option ℕ)) (v : Outcome A) (f : A → Io (Option ℕ)) (s : ℕ)
    → ((a : A) → v ≡ done a → (fs : List (List ℕ)) × Acks es fs × P a fs)
    → ((a : A) (fs : List (List ℕ)) → P a fs → Succeeds (f a) (λ t gs. Q t (fs ++ gs)))
    → (resume es rs v f).value ≡ done (some s)
    → Q s (acked [] (resume es rs v f).events)
resume_Succeeds P Q es rs (done a) f s first next e =
    let (fs, acks, p) = first a refl in
    subst (Q s) (sym (acks (f a rs).events)) ((next a fs p).runs rs s e)
resume_Succeeds P Q es rs fault f s first next e = absurd (cc)
resume_Succeeds P Q es rs out_of_fuel f s first next e = absurd (cc)

pub Succeeds->>= :
    {A : Type 0} {P : A → List (List ℕ) → Type 0} {Q : ℕ → List (List ℕ) → Type 0} (m : Io A)
    (f : A → Io (Option ℕ))
    → Delivers m P
    → ((a : A) (fs : List (List ℕ)) → P a fs → Succeeds (f a) (λ t gs. Q t (fs ++ gs)))
    → Succeeds (m >>= f) Q
unfolding ◌>>=◌
Succeeds->>= {P} {Q} m f first next = record {
  runs = λ rs s e.
      resume_Succeeds P Q (m rs).events (m rs).replies (m rs).value f s (first.runs rs) next e;
}
