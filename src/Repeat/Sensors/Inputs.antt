-- ===== src/Repeat/Sensors/Inputs.antt =====
-- What `ProcessSen` of src/repeat_comm.cpp makes of the 36 inputs of the nine boxes.
use hukong.Base.{
  ℕ_discrete, Bool-cases, ℕ, zero, suc, ◌+◌, ◌*◌, ◌/◌, ◌%◌, ◌^◌, ◌≤◌, ◌<◌, ◌==◌, ◌||◌, not, Bool,
  true, false, ◌≡◌, refl, sym, ap₂, subst, ◌∙◌, ◌↔◌, ◌⊎◌, inl, inr, ◌≢◌, arith, List, length,
  replicate, length-replicate,
}
use hukong.Base.Ranges.{Within, iff_trans, Found-next}
use hukong.Serial.Method.Devices.{bit_of}
use hukong.Repeat.Bytes.Halves.{half, half_low, half_high}
use hukong.Repeat.Bytes.{get, get_bit, get_bits}
use hukong.Repeat.Bytes.Stores.{get-store, get-store_ne, length-store}
use hukong.Repeat.State.{State, data_record}
use hukong.Repeat.Sensors.{get_sen_type, is_null, sense, sense_loop, process_sen}

-- Input `k` of the 36, four to a box: the sensor it is wired to, by the table of half bytes at
-- byte 7, and the state of its contact.
abbrev pub wired : List ℕ → ℕ → ℕ
wired binds k = half binds 7 k

abbrev pub contact : List ℕ → ℕ → ℕ
contact switches k = get switches (k / 4) / 2 ^ (k % 4) % 2

-- An input from `low` on and below `high` that is wired to the sensor and open.
abbrev pub IsOpen : List ℕ → List ℕ → ℕ → ℕ → Type 0
IsOpen binds switches code k = (wired binds k ≡ code) × (contact switches k ≡ 0)

abbrev pub OpenInput : List ℕ → List ℕ → ℕ → ℕ → ℕ → Type 0
OpenInput binds switches code = Within (IsOpen binds switches code)

-- A sensor status is 0 or 1.
abbrev pub IsFlags : List ℕ → Type 0
IsFlags status = (i : ℕ) → get status i ≤ 1

-- The codes that stand for a sensor.
abbrev pub IsSensor : ℕ → Type 0
IsSensor code = (1 ≤ code) × (code ≤ 13)

sensor_type : (code : ℕ) → IsSensor code → is_null (get_sen_type code) ≡ false
sensor_type code h = ground arith

null_type : (code other : ℕ) → IsSensor code → is_null (get_sen_type other) ≡ true → other ≢ code
null_type code other h e = ground arith

module _ (status : List ℕ) (code : ℕ) (room : 13 < length status) (sensor : IsSensor code) where
  -- One input, seen from the sensor.
  sense_hit :
      (c : ℕ)
      → IsFlags status
      → (get (sense status code c) code ≡ 1) ↔ ((get status code ≡ 1) ⊎ (c ≡ 0))
  unfolding sense
  sense_hit c flags =
      let low = flags code in
      rw
        (
          sensor_type code sensor,
          get-store status code (bit_of (not (get status code == 0) || (c == 0))) (omega arith),
        )
        (ground arith)

pub length-sense : (status : List ℕ) (other c : ℕ) → length (sense status other c) ≡ length status
unfolding sense
length-sense status other c = elim (Bool-cases (is_null (get_sen_type other))) [
  | inl e ↦ rw e refl
  | inr e ↦ rw e (length-store status other (bit_of (not (get status other == 0) || (c == 0))))
]

flag-lt : (b : Bool) → bit_of b % 2 ^ 8 ≤ 1
flag-lt true = omega arith
flag-lt false = omega arith

sensor_small : (other : ℕ) → is_null (get_sen_type other) ≡ false → other ≤ 13
sensor_small other e = ground arith

sense-IsFlags :
    (status : List ℕ) (other c : ℕ)
    → 13 < length status
    → IsFlags status
    → IsFlags (sense status other c)
unfolding sense
sense-IsFlags status other c room flags i =
    let value = bit_of (not (get status other == 0) || (c == 0)) in
    elim (Bool-cases (is_null (get_sen_type other))) [
      | inl e ↦ rw e (flags i)
      | inr e ↦ rw e (elim (ℕ_discrete other i) [
        | yes same ↦
            let small : other < length status = omega (arith, sensor_small other e) in
            rw (sym same, get-store status other value small)
              (flag-lt (not (get status other == 0) || (c == 0)))
        | no differs ↦ rw (get-store_ne status other i value differs) (flags i)
      ])
    ]

-- One input, seen from any sensor.
sense_at :
    (status : List ℕ) (code other c : ℕ)
    → 13 < length status
    → IsFlags status
    → IsSensor code
    → (get (sense status other c) code ≡ 1) ↔ ((get status code ≡ 1) ⊎ ((other ≡ code) × (c ≡ 0)))
unfolding sense
sense_at status code other c room flags sensor = elim (ℕ_discrete other code) [
  | yes same ↦ rw same (
      let hit = sense_hit status code room sensor c flags in
      (
        (λ h. elim (hit.0 h) [ inl a ↦ inl a | inr b ↦ inr (refl, b) ]),
        (λ h. hit.1 (elim h [ inl a ↦ inl a | inr b ↦ inr b.1 ])),
      ))
  | no differs ↦
      let value = bit_of (not (get status other == 0) || (c == 0)) in
      let kept : get (sense status other c) code ≡ get status code =
        elim (Bool-cases (is_null (get_sen_type other))) [
          | inl e ↦ rw e refl
          | inr e ↦ rw e (get-store_ne status other code value differs)
        ] in
      ((λ h. inl (sym kept ∙ h)), (λ h. elim h [ inl a ↦ kept ∙ a | inr b ↦ absurd (differs b.0) ]))
]

-- The inputs of round `i` are `2 * i` and the next.
module _ (switches : List ℕ) (i : ℕ) where
  contact_low : contact switches (2 * i) ≡ get_bit (get switches (i / 2)) (i % 2 * 2)
  unfolding get_bit
  contact_low =
      let e : 2 * i / 4 ≡ i / 2 = omega arith in
      let z : 2 * i % 4 ≡ i % 2 * 2 = omega arith in ap₂ (λ j p. get switches j / 2 ^ p % 2) e z

  contact_high : contact switches (2 * i + 1) ≡ get_bit (get switches (i / 2)) (i % 2 * 2 + 1)
  unfolding get_bit
  contact_high =
      let e : (2 * i + 1) / 4 ≡ i / 2 = omega arith in
      let z : (2 * i + 1) % 4 ≡ i % 2 * 2 + 1 = omega arith in
      ap₂ (λ j p. get switches j / 2 ^ p % 2) e z

-- The status before a stretch of inputs, or one of them.
abbrev Seen : List ℕ → List ℕ → List ℕ → ℕ → ℕ → ℕ → Type 0
Seen binds switches status code low high =
    (get status code ≡ 1) ⊎ OpenInput binds switches code low high

-- The loop from round `i` on.
sense_loop-active :
    (binds switches : List ℕ) (code : ℕ)
    → IsSensor code
    → (n i : ℕ) (status : List ℕ) → 13 < length status
    → IsFlags status
    → (get (sense_loop binds switches i n status) code ≡ 1)
      ↔ Seen binds switches status code (2 * i) (2 * (i + n))
unfolding sense_loop
sense_loop-active binds switches code sensor zero i status room flags =
    (inl, (λ s. elim s [ inl e ↦ e | inr (k, from, to, there) ↦ absurd (omega arith) ]))
sense_loop-active binds switches code sensor (suc n) i status room flags =
    let bind = get binds (7 + i) in
    let box = get switches (i / 2) in
    let c0 = get_bit box (i % 2 * 2) in
    let c1 = get_bit box (i % 2 * 2 + 1) in
    let first = sense status (get_bits bind 0 3) c0 in
    let second = sense first (get_bits bind 4 7) c1 in
    let room1 : 13 < length first = omega (arith, length-sense status (get_bits bind 0 3) c0) in
    let room2 : 13 < length second = omega (arith, length-sense first (get_bits bind 4 7) c1) in
    let flags1 = sense-IsFlags status (get_bits bind 0 3) c0 room flags in
    let flags2 = sense-IsFlags first (get_bits bind 4 7) c1 room1 flags1 in
    let at0 : (get first code ≡ 1) ↔ (
        (get status code ≡ 1) ⊎ ((wired binds (2 * i) ≡ code) × (contact switches (2 * i) ≡ 0))) =
      rw (half_low binds 7 i, contact_low switches i)
        (sense_at status code (get_bits bind 0 3) c0 room flags sensor) in
    let at1 : (get second code ≡ 1) ↔ (
        (get first code ≡ 1)
        ⊎ ((wired binds (2 * i + 1) ≡ code) × (contact switches (2 * i + 1) ≡ 0))) =
      rw (half_high binds 7 i, contact_high switches i)
        (sense_at first code (get_bits bind 4 7) c1 room1 flags1 sensor) in
    let deeper = sense_loop-active binds switches code sensor n (i + 1) second room2 flags2 in
    let start : 2 * (i + 1) ≡ 2 * i + 1 + 1 = omega arith in
    let stop : 2 * (i + 1 + n) ≡ 2 * (i + suc n) = omega arith in
    iff_trans
      (subst
        (λ from.
          (get (sense_loop binds switches (i + 1) n second) code ≡ 1)
          ↔ Seen binds switches second code from (2 * (i + suc n)))
        start
        (subst
          (λ to.
            (get (sense_loop binds switches (i + 1) n second) code ≡ 1)
            ↔ Seen binds switches second code (2 * (i + 1)) to)
          stop deeper))
      (iff_trans
        (Found-next (IsOpen binds switches code) (2 * i + 1) (2 * (i + suc n)) (omega arith) at1)
        (Found-next (IsOpen binds switches code) (2 * i) (2 * (i + suc n)) (omega arith) at0))

get-replicate_zero : (n i : ℕ) → get (replicate n 0) i ≡ 0
unfolding replicate
get-replicate_zero zero i = refl
get-replicate_zero (suc n) zero = refl
get-replicate_zero (suc n) (suc i) = get-replicate_zero n i

-- After `ProcessSen`, the status of a sensor (codes 1 to 13) is 1 exactly when one of the 36 inputs
-- of the nine boxes is wired to it by the table and has an open contact.
pub process_sen-active :
    (s : State) (code : ℕ)
    → IsSensor code
    → (get (process_sen s).m_data_sen_status code ≡ 1)
      ↔ OpenInput s.m_data_hukong s.m_data_switch_status code 0 36
unfolding process_sen
process_sen-active s code sensor =
    let clear : List ℕ = replicate data_record 0 in
    let room : 13 < length clear = omega (arith, length-replicate {A = ℕ} data_record 0) in
    let flags : IsFlags clear = λ i. omega (arith, get-replicate_zero data_record i) in
    let idle : get clear code ≢ 1 = λ e. omega (arith, get-replicate_zero data_record code) in
    iff_trans
      (sense_loop-active s.m_data_hukong s.m_data_switch_status code sensor 18 0 clear room flags)
      ((λ h. elim h [ inl e ↦ absurd (idle e) | inr o ↦ o ]), inr)

sense_loop-IsFlags :
    (binds switches : List ℕ) (n i : ℕ) (status : List ℕ)
    → 13 < length status
    → IsFlags status
    → IsFlags (sense_loop binds switches i n status)
unfolding sense_loop
sense_loop-IsFlags binds switches zero i status room flags = flags
sense_loop-IsFlags binds switches (suc n) i status room flags =
    let bind = get binds (7 + i) in
    let box = get switches (i / 2) in
    let c0 = get_bit box (i % 2 * 2) in
    let c1 = get_bit box (i % 2 * 2 + 1) in
    let first = sense status (get_bits bind 0 3) c0 in
    let l1 = length-sense status (get_bits bind 0 3) c0 in
    let l2 = length-sense first (get_bits bind 4 7) c1 in
    sense_loop-IsFlags binds switches n (i + 1) (sense first (get_bits bind 4 7) c1) (omega arith) (
      sense-IsFlags first (get_bits bind 4 7) c1 (omega arith)
        (sense-IsFlags status (get_bits bind 0 3) c0 room flags))

pub process_sen-IsFlags : (s : State) → IsFlags (process_sen s).m_data_sen_status
unfolding process_sen
process_sen-IsFlags s =
    sense_loop-IsFlags s.m_data_hukong s.m_data_switch_status 18 0 (replicate data_record 0)
      (omega (arith, length-replicate {A = ℕ} data_record 0))
      (λ i. omega (arith, get-replicate_zero data_record i))
