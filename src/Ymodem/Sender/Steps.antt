-- ===== src/Ymodem/Sender/Steps.antt =====
-- What a program on the line gets acknowledged: a small logic over the constructs of
-- ymodem/src/ymodem.c, one rule for each.
use hukong.Base.{
  ℕ, ◌≡◌, ◌≢◌, refl, sym, ap, ◌∙◌, Bool, true, false, if◌then◌else◌, List, [], ◌∷◌, ◌++◌, Option,
  none, some, append_assoc, subst, Bool-cases, inl, inr,
}
use hukong.Ymodem.Control.{ack}
use hukong.Ymodem.Port.{
  Event, got, Outcome, done, fault, out_of_fuel, Io, pure, stop, resume, get_char, is, ◌>>=◌,
}
use hukong.Ymodem.Receiver.{acked}

-- `es` ends at a reply, and has `fs` acknowledged, whatever follows.
abbrev pub Acks : List Event → List (List ℕ) → Type 0
Acks es fs = (rest : List Event) → acked [] (es ++ rest) ≡ fs ++ acked [] rest

-- A run of `m` that returns has frames acknowledged that satisfy `Q`.
pub record Delivers {A : Type 0} (m : Io A) (Q : A → List (List ℕ) → Type 0) : Type 0 where
  pub runs :
      (rs : List (Option ℕ)) (a : A)
      → (m rs).value ≡ done a
      → (fs : List (List ℕ)) × Acks (m rs).events fs × Q a fs

-- `m` only writes, all together the bytes `bs`.
pub record Sends (m : Io (Unit {0})) (bs : List ℕ) : Type 0 where
  pub writes :
      (rs : List (Option ℕ)) (rest : List Event)
      → (m rs).value ≡ done tt
      → acked [] ((m rs).events ++ rest) ≡ acked bs rest

-- The frame that is waiting is acknowledged or not.
abbrev pub reply : Option ℕ → List ℕ → List (List ℕ) → List (List ℕ)
reply r bs fs = if is r ack then bs ∷ fs else fs

resume_Delivers :
    {A B : Type 0} (Q : A → List (List ℕ) → Type 0) (R : B → List (List ℕ) → Type 0)
    (es : List Event) (rs : List (Option ℕ)) (v : Outcome A) (f : A → Io B) (b : B)
    → ((a : A) → v ≡ done a → (fs : List (List ℕ)) × Acks es fs × Q a fs)
    → ((a : A) (fs : List (List ℕ)) → Q a fs → Delivers (f a) (λ c gs. R c (fs ++ gs)))
    → (resume es rs v f).value ≡ done b
    → (fs : List (List ℕ)) × Acks (resume es rs v f).events fs × R b fs
resume_Delivers Q R es rs (done a) f b first next e =
    let (fs, acks, q) = first a refl in
    let (gs, acks', r) = (next a fs q).runs rs b e in
    (
      fs ++ gs,
      (λ rest.
          ap (acked []) (append_assoc es (f a rs).events rest)
          ∙ acks ((f a rs).events ++ rest)
          ∙ ap (λ t. fs ++ t) (acks' rest)
          ∙ sym (append_assoc fs gs (acked [] rest))),
      r,
    )
resume_Delivers Q R es rs fault f b first next e = absurd (cc)
resume_Delivers Q R es rs out_of_fuel f b first next e = absurd (cc)

pub Delivers->>= :
    {A B : Type 0} {Q : A → List (List ℕ) → Type 0} {R : B → List (List ℕ) → Type 0} (m : Io A)
    (f : A → Io B)
    → Delivers m Q
    → ((a : A) (fs : List (List ℕ)) → Q a fs → Delivers (f a) (λ c gs. R c (fs ++ gs)))
    → Delivers (m >>= f) R
unfolding ◌>>=◌
Delivers->>= {Q} {R} m f first next = record {
  runs = λ rs b e.
      resume_Delivers Q R (m rs).events (m rs).replies (m rs).value f b (first.runs rs) next e;
}

pub done-injective : {A : Type 0} {a b : A} → done a ≡ done b → a ≡ b
done-injective e = cc

pub Delivers-pure :
    {A : Type 0} {Q : A → List (List ℕ) → Type 0} (a : A) → Q a [] → Delivers (pure a) Q
unfolding pure
Delivers-pure {A} {Q} a q = record {
  runs = λ rs b e. ([], (λ rest. refl), subst (λ c. Q c []) (done-injective e) q);
}

pub Delivers-stop : {A : Type 0} {Q : A → List (List ℕ) → Type 0} → Delivers (stop out_of_fuel) Q
unfolding stop
Delivers-stop = record { runs = λ rs b e. absurd (cc) }

pub Delivers-if :
    {A : Type 0} {Q : A → List (List ℕ) → Type 0} (b : Bool) (m n : Io A)
    → (b ≡ true → Delivers m Q)
    → (b ≡ false → Delivers n Q)
    → Delivers (elim b [ true ↦ m | false ↦ n ]) Q
Delivers-if true m n p q = p refl
Delivers-if false m n p q = q refl

-- A read with nothing waiting to be acknowledged.
pub Delivers-get_char :
    {A : Type 0} {Q : A → List (List ℕ) → Type 0} (f : Option ℕ → Io A)
    → ((r : Option ℕ) → Delivers (f r) Q)
    → Delivers (get_char >>= f) Q
unfolding get_char ◌>>=◌ acked
Delivers-get_char {A} {Q} f next = record { runs = at }
  where
    at :
        (rs : List (Option ℕ)) (a : A)
        → ((get_char >>= f) rs).value ≡ done a
        → (fs : List (List ℕ)) × Acks ((get_char >>= f) rs).events fs × Q a fs
    at [] a e = (next none).runs [] a e
    at (r ∷ rs) a e = (next r).runs rs a e

acked-got :
    (bs : List ℕ) (r : Option ℕ) (es : List Event)
    → bs ≢ []
    → acked bs (got r ∷ es) ≡ reply r bs (acked [] es)
unfolding acked
acked-got [] r es ne = absurd (ne refl)
acked-got (b ∷ bs) r es ne = refl

reply-append :
    (r : Option ℕ) (bs : List ℕ) (fs gs : List (List ℕ))
    → reply r bs (fs ++ gs) ≡ reply r bs fs ++ gs
reply-append r bs fs gs = elim (Bool-cases (is r ack)) [ inl e ↦ rw e | inr e ↦ rw e ]

-- The reply `r` behind the writes `es`, then a run with the events `later`.
Acks-exchange :
    (es later : List Event) (bs : List ℕ) (r : Option ℕ) (gs : List (List ℕ))
    → ((rest : List Event) → acked [] (es ++ rest) ≡ acked bs rest)
    → bs ≢ []
    → Acks later gs
    → Acks (es ++ got r ∷ later) (reply r bs gs)
Acks-exchange es later bs r gs writes ne acks rest =
    ap (acked []) (append_assoc es (got r ∷ later) rest)
    ∙ writes (got r ∷ (later ++ rest))
    ∙ acked-got bs r (later ++ rest) ne
    ∙ ap (reply r bs) (acks rest)
    ∙ reply-append r bs gs (acked [] rest)

exchange_Delivers :
    {A : Type 0} (G : Type 0) (Q : A → List (List ℕ) → Type 0) (bs : List ℕ) (f : Option ℕ → Io A)
    (es : List Event) (rs : List (Option ℕ)) (v : Outcome (Unit {0})) (a : A)
    → bs ≢ []
    → (v ≡ done tt → G)
    → ((rest : List Event) → v ≡ done tt → acked [] (es ++ rest) ≡ acked bs rest)
    → ((r : Option ℕ) → G → Delivers (f r) (λ b fs. Q b (reply r bs fs)))
    → (resume es rs v (λ _. (get_char >>= f))).value ≡ done a
    → (fs : List (List ℕ)) × Acks (resume es rs v (λ _. (get_char >>= f))).events fs × Q a fs
unfolding get_char ◌>>=◌
exchange_Delivers G Q bs f es [] (done u) a ne given writes next e =
    let (gs, acks, q) = (next none (given refl)).runs [] a e in
    (reply none bs gs, Acks-exchange es _ bs none gs (λ rest. writes rest refl) ne acks, q)
exchange_Delivers G Q bs f es (r ∷ rs) (done u) a ne given writes next e =
    let (gs, acks, q) = (next r (given refl)).runs rs a e in
    (reply r bs gs, Acks-exchange es _ bs r gs (λ rest. writes rest refl) ne acks, q)
exchange_Delivers G Q bs f es rs fault a ne given writes next e = absurd (cc)
exchange_Delivers G Q bs f es rs out_of_fuel a ne given writes next e = absurd (cc)

-- A write of `bs`, then a read: `bs` is acknowledged if the reply is ACK. `G` is what a write that
-- returns has shown.
pub Delivers-exchange_given :
    {A : Type 0} {Q : A → List (List ℕ) → Type 0} (G : Type 0) (send : Io (Unit {0})) (bs : List ℕ)
    (f : Option ℕ → Io A)
    → Sends send bs
    → bs ≢ []
    → ((rs : List (Option ℕ)) → (send rs).value ≡ done tt → G)
    → ((r : Option ℕ) → G → Delivers (f r) (λ a fs. Q a (reply r bs fs)))
    → Delivers (send >>= λ _. (get_char >>= f)) Q
unfolding ◌>>=◌
Delivers-exchange_given {Q} G send bs f sends ne given next = record {
  runs = λ rs a e.
      exchange_Delivers G Q bs f (send rs).events (send rs).replies (send rs).value a ne (given rs)
        (λ rest. sends.writes rs rest) next e;
}

pub Delivers-exchange :
    {A : Type 0} {Q : A → List (List ℕ) → Type 0} (send : Io (Unit {0})) (bs : List ℕ)
    (f : Option ℕ → Io A)
    → Sends send bs
    → bs ≢ []
    → ((r : Option ℕ) → Delivers (f r) (λ a fs. Q a (reply r bs fs)))
    → Delivers (send >>= λ _. (get_char >>= f)) Q
Delivers-exchange send bs f sends ne next =
    Delivers-exchange_given (Unit {0}) send bs f sends ne (λ rs e. tt) (λ r _. next r)

pub Delivers-weaken :
    {A : Type 0} {Q R : A → List (List ℕ) → Type 0} (m : Io A)
    → ((a : A) (fs : List (List ℕ)) → Q a fs → R a fs)
    → Delivers m Q
    → Delivers m R
Delivers-weaken m h d = record {
  runs = λ rs a e. let (fs, acks, q) = d.runs rs a e in (fs, acks, h a fs q);
}

pub Delivers-option :
    {A B : Type 0} {Q : B → List (List ℕ) → Type 0} (o : Option A) (m : Io B) (f : A → Io B)
    → (o ≡ none → Delivers m Q)
    → ((a : A) → o ≡ some a → Delivers (f a) Q)
    → Delivers (elim o [ none ↦ m | some a ↦ f a ]) Q
Delivers-option none m f p q = p refl
Delivers-option (some a) m f p q = q a refl

pub Delivers-get_char_only :
    {Q : Option ℕ → List (List ℕ) → Type 0} → ((r : Option ℕ) → Q r []) → Delivers get_char Q
unfolding get_char acked
Delivers-get_char_only {Q} q = record { runs = at }
  where
    at :
        (rs : List (Option ℕ)) (a : Option ℕ)
        → (get_char rs).value ≡ done a
        → (fs : List (List ℕ)) × Acks (get_char rs).events fs × Q a fs
    at [] a e = ([], (λ rest. refl), subst (λ b. Q b []) (done-injective e) (q none))
    at (r ∷ rs) a e = ([], (λ rest. refl), subst (λ b. Q b []) (done-injective e) (q r))
