-- ===== src/Repeat/Sensors/Rooms.antt =====
-- Who is in a room, by src/repeat_comm.cpp: `IsHasManByXinfeng` behind `ProcessSen`.
use hukong.Base.{
  ℕ, zero, suc, ◌+◌, ◌*◌, ◌<◌, ◌==◌, ◌||◌, if◌then◌else◌, Bool, true, false, ◌≡◌, refl, sym, ◌↔◌,
  ◌⊎◌, inl, inr, arith, ==_iff,
}
use hukong.Base.Ranges.{Within, Found, iff_trans, Found-next, Found-empty}
use hukong.Repeat.Bytes.{get, get_bits}
use hukong.Repeat.Bytes.Halves.{half, half_low, half_high}
use hukong.Repeat.State.{State}
use hukong.Repeat.Sensors.{process_sen, triggered, xinfeng_loop, is_has_man_by_xinfeng}
use hukong.Repeat.Sensors.Inputs.{OpenInput, process_sen-active, process_sen-IsFlags}

-- An entry of the table that holds the unit's address, and whose sensor is triggered.
abbrev IsOccupied : State → ℕ → ℕ → Type 0
IsOccupied s addr j = (half s.m_data_hukong 53 j ≡ addr) × (triggered s (j + 1) ≡ true)

or_if :
    (c has b : Bool)
    → ((if c then has || b else has) ≡ true) ↔ ((has ≡ true) ⊎ ((c ≡ true) × (b ≡ true)))
or_if true true b = ((λ e. inl e), (λ s. refl))
or_if true false b =
    ((λ e. inr (refl, e)), (λ s. elim s [ inl e ↦ absurd (ground arith) | inr (p, e) ↦ e ]))
or_if false has b = (inl, (λ s. elim s [ inl e ↦ e | inr (p, e) ↦ absurd (ground arith) ]))

-- What one entry adds to the result.
entry_iff :
    (s : State) (addr j : ℕ) (has : Bool)
    → ((if half s.m_data_hukong 53 j == addr then has || triggered s (j + 1) else has) ≡ true)
      ↔ ((has ≡ true) ⊎ IsOccupied s addr j)
entry_iff s addr j has =
    let b = triggered s (j + 1) in
    let c = half s.m_data_hukong 53 j == addr in
    let same = ==_iff (half s.m_data_hukong 53 j) addr in
    (
      (λ e. elim ((or_if c has b).0 e) [ inl h ↦ inl h | inr (p, q) ↦ inr (same.0 p, q) ]),
      (λ e. elim e [
        | inl h ↦ (or_if c has b).1 (inl h)
        | inr (p, q) ↦ (or_if c has b).1 (inr (same.1 p, q))
      ]),
    )

xinfeng_loop-IsOccupied :
    (s : State) (addr n i : ℕ) (has : Bool)
    → (xinfeng_loop s addr i n has ≡ true)
      ↔ Found (has ≡ true) (IsOccupied s addr) (2 * i) (2 * (i + n))
unfolding xinfeng_loop
xinfeng_loop-IsOccupied s addr zero i has =
    let e : 2 * (i + 0) ≡ 2 * i = omega arith in rw e (Found-empty (IsOccupied s addr) (2 * i))
xinfeng_loop-IsOccupied s addr (suc n) i has =
    let bind = get s.m_data_hukong (53 + i) in
    let low = if get_bits bind 0 3 == addr then has || triggered s (i * 2 + 1) else has in
    let high = if get_bits bind 4 7 == addr then low || triggered s (i * 2 + 2) else low in
    let low_sensor : 2 * i + 1 ≡ i * 2 + 1 = omega arith in
    let high_sensor : 2 * i + 1 + 1 ≡ i * 2 + 2 = omega arith in
    let start : 2 * (i + 1) ≡ 2 * i + 1 + 1 = omega arith in
    let stop : 2 * (i + 1 + n) ≡ 2 * (i + suc n) = omega arith in
    let at0 : (low ≡ true) ↔ ((has ≡ true) ⊎ IsOccupied s addr (2 * i)) =
      rw (sym (half_low s.m_data_hukong 53 i), sym low_sensor) (entry_iff s addr (2 * i) has) in
    let at1 : (high ≡ true) ↔ ((low ≡ true) ⊎ IsOccupied s addr (2 * i + 1)) =
      rw (sym (half_high s.m_data_hukong 53 i), sym high_sensor)
        (entry_iff s addr (2 * i + 1) low) in
    let deeper : (xinfeng_loop s addr (i + 1) n high ≡ true)
        ↔ Found (high ≡ true) (IsOccupied s addr) (2 * i + 1 + 1) (2 * (i + suc n)) =
      rw (sym start, sym stop) (xinfeng_loop-IsOccupied s addr n (i + 1) high) in
    iff_trans deeper (
      iff_trans (Found-next (IsOccupied s addr) (2 * i + 1) (2 * (i + suc n)) (omega arith) at1)
        (Found-next (IsOccupied s addr) (2 * i) (2 * (i + suc n)) (omega arith) at0))

-- A sensor that `ProcessSen` has just set.
triggered_iff :
    (s : State) (j : ℕ)
    → j < 8
    → (triggered (process_sen s) (j + 1) ≡ true)
      ↔ OpenInput s.m_data_hukong s.m_data_switch_status (j + 1) 0 36
triggered_iff s j small =
    let flag = process_sen-IsFlags s (j + 1) in
    let (there, back) = process_sen-active s (j + 1) (omega arith, omega arith) in
    let status = get (process_sen s).m_data_sen_status (j + 1) in
    let one : triggered (process_sen s) (j + 1) ≡ true → status ≡ 1 = λ e. ground arith in
    let set : status ≡ 1 → triggered (process_sen s) (j + 1) ≡ true = λ e. ground arith in
    ((λ e. there (one e)), (λ o. set (back o)))

-- A sensor of the unit, with an open input.
abbrev pub IsSensed : State → ℕ → ℕ → Type 0
IsSensed s addr j =
    (half s.m_data_hukong 53 j ≡ addr)
    × OpenInput s.m_data_hukong s.m_data_switch_status (j + 1) 0 36

-- After `ProcessSen`, somebody is with a fresh-air unit exactly when one of the eight people sensors
-- whose entry (from byte 53 on) holds the unit's address is wired to an input, of the 36, that has
-- an open contact.
pub process_sen-occupied :
    (s : State) (addr : ℕ)
    → (is_has_man_by_xinfeng (process_sen s) addr ≡ true) ↔ Within (IsSensed s addr) 0 8
unfolding is_has_man_by_xinfeng process_sen
process_sen-occupied s addr =
    let loop = xinfeng_loop-IsOccupied (process_sen s) addr 4 0 false in
    (
      (λ e. elim (loop.0 e) [
        | inl never ↦ absurd (ground arith)
        | inr (j, from, to, (bound, on)) ↦ (j, from, to, (bound, (triggered_iff s j to).0 on))
      ]),
      (λ w.
          let (j, from, to, (bound, open_one)) = w in
          loop.1 (inr (j, from, to, (bound, (triggered_iff s j to).1 open_one)))),
    )
