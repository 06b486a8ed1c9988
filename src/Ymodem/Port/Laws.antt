-- ===== src/Ymodem/Port/Laws.antt =====
-- How a run ends on a peer of bounded length: rules for each construct of the line's monad.
use hukong.Base.{ℕ, ◌≡◌, refl, ◌≤◌, ◌<◌, arith, List, [], ◌∷◌, Option, none, length}
use hukong.Ymodem.Port.{
  Event, Outcome, done, fault, out_of_fuel, Io, pure, resume, ◌>>=◌, put_chars, get_char,
}

abbrev pub Ended : {A : Type 0} → Outcome A → Type 0
Ended out_of_fuel = ⊥
Ended fault = ⊥
Ended (done a) = Unit

-- Against any peer of at most `k` replies, `m` ends: with enough fuel, and without a fault.
pub record Ends {A : Type 0} (k : ℕ) (m : Io A) : Type 0 where
  pub ended : (rs : List (Option ℕ)) → length rs ≤ k → Ended (m rs).value
  pub shorter : (rs : List (Option ℕ)) → length rs ≤ k → length (m rs).replies ≤ length rs

pub Ends-pure : {A : Type 0} (k : ℕ) (a : A) → Ends k (pure a)
unfolding pure
Ends-pure k a = record { ended = λ rs h. tt; shorter = λ rs h. omega arith }

pub Ends-put_chars : (k : ℕ) (bs : List ℕ) → Ends k (put_chars bs)
unfolding put_chars
Ends-put_chars k bs = record { ended = λ rs h. tt; shorter = λ rs h. omega arith }

module _ {A B : Type 0} (k : ℕ) (f : A → Io B) (next : (a : A) → Ends k (f a)) where
  resume-Ended :
      (es : List Event) (rs : List (Option ℕ)) (v : Outcome A)
      → Ended v
      → length rs ≤ k
      → Ended (resume es rs v f).value
  resume-Ended es rs (done a) e h = (next a).ended rs h
  resume-Ended es rs fault e h = e
  resume-Ended es rs out_of_fuel e h = e

  resume_shorter :
      (es : List Event) (rs : List (Option ℕ)) (v : Outcome A)
      → length rs ≤ k
      → length (resume es rs v f).replies ≤ length rs
  resume_shorter es rs (done a) h = (next a).shorter rs h
  resume_shorter es rs fault h = omega arith
  resume_shorter es rs out_of_fuel h = omega arith

  pub Ends->>= : (m : Io A) → Ends k m → Ends k (m >>= f)
  unfolding ◌>>=◌
  Ends->>= m first = record {
    ended = λ rs h.
        resume-Ended (m rs).events (m rs).replies (m rs).value (first.ended rs h)
          (omega (arith, first.shorter rs h));
    shorter = λ rs h. omega (
      arith,
      first.shorter rs h,
      resume_shorter (m rs).events (m rs).replies (m rs).value (omega (arith, first.shorter rs h)),
    );
  }

-- A read takes a reply away, or times out with no reply left.
pub Ends-get_char :
    {B : Type 0} (k : ℕ) (f : Option ℕ → Io B)
    → Ends 0 (f none)
    → ((j : ℕ) → j < k → (r : Option ℕ) → Ends j (f r))
    → Ends k (get_char >>= f)
unfolding get_char ◌>>=◌
Ends-get_char {B} k f last next = record { ended = ended_at; shorter = shorter_at }
  where
    ended_at : (rs : List (Option ℕ)) → length rs ≤ k → Ended ((get_char >>= f) rs).value
    ended_at [] h = last.ended [] (omega arith)
    ended_at (r ∷ rs) h = (next (length rs) h r).ended rs (omega arith)

    shorter_at :
        (rs : List (Option ℕ)) → length rs ≤ k → length ((get_char >>= f) rs).replies ≤ length rs
    shorter_at [] h = last.shorter [] (omega arith)
    shorter_at (r ∷ rs) h = omega (arith, (next (length rs) h r).shorter rs (omega arith))

pub Ends-get_char_only : (k : ℕ) → Ends k get_char
unfolding get_char
Ends-get_char_only k = record { ended = ended_at; shorter = shorter_at }
  where
    ended_at : (rs : List (Option ℕ)) → length rs ≤ k → Ended (get_char rs).value
    ended_at [] h = tt
    ended_at (r ∷ rs) h = tt

    shorter_at : (rs : List (Option ℕ)) → length rs ≤ k → length (get_char rs).replies ≤ length rs
    shorter_at [] h = omega arith
    shorter_at (r ∷ rs) h = omega arith

-- On the replies `rs`, `m` returns `a` and leaves the replies `rest`.
pub record Returns {A : Type 0} (m : Io A) (rs : List (Option ℕ)) (a : A) (rest : List (Option ℕ))
    : Type 0 where
  pub value : (m rs).value ≡ done a
  pub left : (m rs).replies ≡ rest

pub Returns->>= :
    {A B : Type 0} (m : Io A) (f : A → Io B) {rs mid rest : List (Option ℕ)} {a : A} {b : B}
    → Returns m rs a mid
    → Returns (f a) mid b rest
    → Returns (m >>= f) rs b rest
unfolding ◌>>=◌
Returns->>= m f {rs} p q = record {
  value = rw (p.value, p.left) q.value;
  left = rw (p.value, p.left) q.left;
}

pub Returns-get_char : (r : Option ℕ) (rs : List (Option ℕ)) → Returns get_char (r ∷ rs) r rs
unfolding get_char
Returns-get_char r rs = record { value = refl; left = refl }

pub Returns-pure : {A : Type 0} (a : A) (rs : List (Option ℕ)) → Returns (pure a) rs a rs
unfolding pure
Returns-pure a rs = record { value = refl; left = refl }

pub Returns-put_chars : (bs : List ℕ) (rs : List (Option ℕ)) → Returns (put_chars bs) rs tt rs
unfolding put_chars
Returns-put_chars bs rs = record { value = refl; left = refl }
