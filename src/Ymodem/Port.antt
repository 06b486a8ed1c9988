-- ===== src/Ymodem/Port.antt =====
-- The serial line as ymodem/src/ymodem.c sees it through `_putchar`, `_putchars` and `_getchar`.
-- The peer is a list of what the next calls of `_getchar` return; once it is used up every call
-- times out. A run keeps what was written and read, in order. Prints and sleeps leave no trace.
pub mod Laws
use hukong.Base.{ℕ, List, [], ◌∷◌, ◌++◌, Option, none, some, Bool, true, false, ◌==◌}

pub data Event : Type 0 where
  put : List ℕ → Event
  got : Option ℕ → Event

-- `fault` is a read outside the memory that is known to be readable.
pub data Outcome (A : Type 0) : Type 0 where
  done : A → Outcome A
  fault out_of_fuel : Outcome A

pub record Run (A : Type 0) : Type 0 where
  pub events : List Event
  pub replies : List (Option ℕ)
  pub value : Outcome A

abbrev pub Io : Type 0 → Type 0
Io A = List (Option ℕ) → Run A

unfoldable pub pure : {A : Type 0} → A → Io A
pure a rs = record { events = []; replies = rs; value = done a }

unfoldable pub stop : {A : Type 0} → Outcome A → Io A
stop v rs = record { events = []; replies = rs; value = v }

abbrev pub prepend : {A : Type 0} → List Event → Run A → Run A
prepend es r = record r { events = es ++ r.events }

abbrev pub resume : {A B : Type 0} → List Event → List (Option ℕ) → Outcome A → (A → Io B) → Run B
resume es rs (done a) f = prepend es (f a rs)
resume es rs fault f = record { events = es; replies = rs; value = fault }
resume es rs out_of_fuel f = record { events = es; replies = rs; value = out_of_fuel }

infixl 5 ◌>>=◌ ◌>>◌
unfoldable pub ◌>>=◌ : {A B : Type 0} → Io A → (A → Io B) → Io B
◌>>=◌ m f rs = let r = m rs in resume r.events r.replies r.value f

abbrev pub ◌>>◌ : {A B : Type 0} → Io A → Io B → Io B
m >> k = m >>= λ _. k

-- `_putchars`; a single `_putchar` is a list of one.
unfoldable pub put_chars : List ℕ → Io (Unit {0})
put_chars bs rs = record { events = put bs ∷ []; replies = rs; value = done tt }

-- `_getchar`; `none` is its -1.
unfoldable pub get_char : Io (Option ℕ)
get_char [] = record { events = got none ∷ []; replies = []; value = done none }
get_char (r ∷ rs) = record { events = got r ∷ []; replies = rs; value = done r }

-- `ch == code`
abbrev pub is : Option ℕ → ℕ → Bool
is none code = false
is (some c) code = c == code

-- `ch == -1`, which is also `ch < 0`
abbrev pub timed_out : Option ℕ → Bool
timed_out none = true
timed_out (some c) = false
