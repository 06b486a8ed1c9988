-- ===== src/Ymodem/Tool/Setting.antt =====
-- `parse_setting` and `open_serialport` of ymodem/src/ymodem_send.c.
use hukong.Base.{
  Bool-cases, ℕ_discrete, sym, ap, ◌==◌, ◌⊎◌, ◌∙◌, ℕ, ◌+◌, ◌≡◌, ◌≢◌, refl, arith, Bool, true, false,
  if◌then◌else◌, List, [], ◌∷◌, none, some, Option-cases, inl, inr,
}
use hukong.Ymodem.Tool.{
  Termios, Descriptors, close, set_size, set_parity, set_stop, parse_setting, set_baud, opened,
  failed, open_serialport, zeroed,
}

-- The setting that the options stand for, written the way `parse_setting` reads it.
unfoldable pub setting_of : Termios → List ℕ
setting_of t =
    (t.csize + b'0')
    ∷ (if t.parenb then (if t.parodd then b'O' else b'E') else b'N')
    ∷ (if t.cstopb then b'2' else b'1')
    ∷ []

-- What `parse_setting` accepts is what the options then say: number of data bits, parity, stop bits.
pub parse_setting-setting_of :
    (t options : Termios) (setting : List ℕ)
    → parse_setting t setting ≡ some options
    → setting_of options ≡ setting
unfolding parse_setting set_size set_parity set_stop setting_of
parse_setting-setting_of t options [] e = absurd cc
parse_setting-setting_of t options (a ∷ []) e = absurd cc
parse_setting-setting_of t options (a ∷ b ∷ []) e = absurd cc
parse_setting-setting_of t options (a ∷ b ∷ c ∷ []) e = ground arith
parse_setting-setting_of t options (a ∷ b ∷ c ∷ d ∷ rest) e = absurd cc

parse_setting_baud :
    (t options : Termios) (setting : List ℕ)
    → parse_setting t setting ≡ some options
    → options.baud ≡ t.baud
unfolding parse_setting set_size set_parity set_stop
parse_setting_baud t options [] e = absurd cc
parse_setting_baud t options (a ∷ []) e = absurd cc
parse_setting_baud t options (a ∷ b ∷ []) e = absurd cc
parse_setting_baud t options (a ∷ b ∷ c ∷ []) e = ground arith
parse_setting_baud t options (a ∷ b ∷ c ∷ d ∷ rest) e = absurd cc

-- A descriptor that is not open.
abbrev pub IsNew : ℕ → Descriptors → Type 0
IsNew fd [] = Unit
IsNew fd (d ∷ fds) = (d ≢ fd) × IsNew fd fds

close-IsNew : (fd : ℕ) (fds : Descriptors) → IsNew fd fds → close fd fds ≡ fds
unfolding close
close-IsNew fd [] h = refl
close-IsNew fd (d ∷ fds) (ne, h) =
    let rest = close-IsNew fd fds h in
    let differ : (d == fd) ≡ false = ground (arith, ne) in rw differ (ap (λ l. d ∷ l) rest)

close_last : (fd : ℕ) (fds : Descriptors) → IsNew fd fds → close fd (fd ∷ fds) ≡ fds
unfolding close
close_last fd fds h = let same : (fd == fd) ≡ true = ground arith in rw same (close-IsNew fd fds h)

-- The speeds that a serial port can be set to.
abbrev pub IsSpeed : ℕ → Type 0
IsSpeed baud =
    (baud ≡ 2400)
    ⊎ ((baud ≡ 4800) ⊎ ((baud ≡ 9600) ⊎ ((baud ≡ 19200) ⊎ ((baud ≡ 38400) ⊎ (baud ≡ 115200)))))

set_baud-IsSpeed :
    (t : Termios) (baud : ℕ)
    → (IsSpeed baud
        × ((options : Termios) × (set_baud t baud ≡ some options) × (options.baud ≡ baud)))
      ⊎ ((IsSpeed baud → ⊥) × (set_baud t baud ≡ none))
unfolding set_baud
set_baud-IsSpeed t baud = elim (ℕ_discrete baud 2400) [
  | yes e ↦ inl (inl e, (record t { baud = 2400 }, rw e refl, sym e))
  | no n0 ↦ elim (ℕ_discrete baud 4800) [
    | yes e ↦ inl (inr (inl e), (record t { baud = 4800 }, rw e refl, sym e))
    | no n1 ↦ elim (ℕ_discrete baud 9600) [
      | yes e ↦ inl (inr (inr (inl e)), (record t { baud = 9600 }, rw e refl, sym e))
      | no n2 ↦ elim (ℕ_discrete baud 19200) [
        | yes e ↦ inl (inr (inr (inr (inl e))), (record t { baud = 19200 }, rw e refl, sym e))
        | no n3 ↦ elim (ℕ_discrete baud 38400) [
          | yes e ↦
              inl (inr (inr (inr (inr (inl e)))), (record t { baud = 38400 }, rw e refl, sym e))
          | no n4 ↦ elim (ℕ_discrete baud 115200) [
            | yes e ↦
                inl (inr (inr (inr (inr (inr e)))), (record t { baud = 115200 }, rw e refl, sym e))
            | no n5 ↦ inr ((λ h. ground arith), ground arith)
          ]
        ]
      ]
    ]
  ]
]

-- `open` gives a new descriptor. At one of the six speeds `open_serialport` returns it, set to that
-- speed, or fails with the descriptors that were open before. At any other speed it fails, and the
-- new descriptor stays open.
pub open_serialport_leaks :
    (fd : ℕ) (set : Bool) (baud : ℕ) (setting : List ℕ) (before : Descriptors)
    → IsNew fd before
    → (IsSpeed baud
        × (((options : Termios) × (open_serialport (some fd) set baud setting before
                ≡ opened fd options (fd ∷ before))
              × (options.baud ≡ baud))
            ⊎ (open_serialport (some fd) set baud setting before ≡ failed before)))
      ⊎ ((IsSpeed baud → ⊥)
          × (open_serialport (some fd) set baud setting before ≡ failed (fd ∷ before)))
unfolding open_serialport
open_serialport_leaks fd set baud setting before new = elim (set_baud-IsSpeed zeroed baud) [
  | inr (none_of, e) ↦ inr (none_of, rw (open_serialport, e) refl)
  | inl (speed, (t, e, at)) ↦
      let closed = close_last fd before new in
      elim (Option-cases (parse_setting (record t { clocal = true; cread = true }) setting)) [
        | inl p ↦ inl (speed, inr (rw (open_serialport, e, p, closed) refl))
        | inr (options, p) ↦ elim (Bool-cases set) [
          | inl b ↦ inl (
            speed,
            inl (
              options,
              rw (open_serialport, e, p, b) refl,
              (parse_setting_baud (record t { clocal = true; cread = true }) options setting p
                  ∙ at),
            ),
          )
          | inr b ↦ inl (speed, inr (rw (open_serialport, e, p, b, closed) refl))
        ]
      ]
]
