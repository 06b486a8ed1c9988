-- ===== src/Repeat/Settings/ReadBack.antt =====
-- What the queries of the energy-saving times of src/repeat_comm.cpp read after a setter.
use hukong.Base.{
  ℕ, ◌+◌, ◌*◌, ◌/◌, ◌%◌, ◌≤◌, ◌<◌, ◌==◌, ltb, ◌||◌, if◌then◌else◌, true, ◌≡◌, refl, ap, ap₂, ◌∙◌,
  false, arith, List, length, IsBytes,
}
use hukong.Repeat.Bytes.{get, get_bits, set_bits, store}
use hukong.Serial.Method.Devices.Fields.{set_bits-low, set_bits-middle, set_bits-high}
use hukong.Repeat.Bytes.Stores.{get-lt, get-store, get-store_ne}
use hukong.Repeat.State.{State, store_bits}
use hukong.Repeat.Settings.{
  light_code, curtain_code, dust_code, set_light_off_time, set_curtain_off_time, set_dust_time,
  query_light_off_time, query_curtain_off_time, query_dust_time,
}

-- The three queries.
abbrev pub energy_times : State → ℕ × ℕ × ℕ
energy_times s = (query_light_off_time s, query_curtain_off_time s, query_dust_time s)

-- The fields behind them.
abbrev pub fields : List ℕ → ℕ × ℕ × ℕ
fields bytes = (get_bits (get bytes 8) 3 5, get_bits (get bytes 8) 0 2, get_bits (get bytes 7) 5 7)

pub triple :
    {a a' b b' c c' : ℕ} → a ≡ a' → b ≡ b' → c ≡ c' → Path (ℕ × ℕ × ℕ) (a, b, c) (a', b', c')
triple p q r = ap₂ (λ x (yz : ℕ × ℕ). (x, yz.0, yz.1)) p (ap₂ (λ y z. (y, z)) q r)

module _ (bytes : List ℕ) (room : 9 ≤ length bytes) (valid : IsBytes bytes) (v : ℕ)
    (fits : v < 8) where
  pub fields-light : fields (store_bits bytes 8 3 5 v) ≡ (v, (fields bytes).1, (fields bytes).2)
  unfolding store_bits
  fields-light =
      let b = get bytes 8 in
      let small = get-lt bytes 8 valid in
      let e : get (store bytes 8 (set_bits b 3 5 v)) 8 ≡ b / 64 * 64 + v * 8 + b % 8 =
        get-store bytes 8 (set_bits b 3 5 v) (omega arith)
        ∙ (let f = set_bits-middle b v small fits in omega (arith, f)) in
      let other = get-store_ne bytes 8 7 (set_bits b 3 5 v) (omega arith) in
      rw (e, other) (triple (omega arith) (omega arith) refl)

  pub fields-curtain : fields (store_bits bytes 8 0 2 v) ≡ ((fields bytes).0, v, (fields bytes).2)
  unfolding store_bits
  fields-curtain =
      let b = get bytes 8 in
      let small = get-lt bytes 8 valid in
      let e : get (store bytes 8 (set_bits b 0 2 v)) 8 ≡ b / 8 * 8 + v =
        get-store bytes 8 (set_bits b 0 2 v) (omega arith)
        ∙ (let f = set_bits-low b v small fits in omega (arith, f)) in
      let other = get-store_ne bytes 8 7 (set_bits b 0 2 v) (omega arith) in
      rw (e, other) (triple (omega arith) (omega arith) refl)

  pub fields-dust : fields (store_bits bytes 7 5 7 v) ≡ ((fields bytes).0, (fields bytes).1, v)
  unfolding store_bits
  fields-dust =
      let b = get bytes 7 in
      let small = get-lt bytes 7 valid in
      let e : get (store bytes 7 (set_bits b 5 7 v)) 7 ≡ v * 32 + b % 32 =
        get-store bytes 7 (set_bits b 5 7 v) (omega arith)
        ∙ (let f = set_bits-high b v small fits in omega (arith, f)) in
      let other = get-store_ne bytes 7 8 (set_bits b 5 7 v) (omega arith) in
      rw (e, other) (triple refl refl (omega arith))

-- What the queries make of the fields.
abbrev light_index : ℕ → ℕ
light_index time = if time == 0x03 then 1 else if time == 0x02 then 2 else 0

abbrev curtain_index : ℕ → ℕ
curtain_index time =
    if time == 0x05
    then 1
    else if time == 0x02
    then 2
    else if time == 0x03
    then 3
    else if time == 0x04
    then 4
    else 0

abbrev dust_index : ℕ → ℕ
dust_index time =
    if time == 0x03
    then 1
    else if time == 0x01
    then 2
    else if time == 0x02
    then 3
    else if time == 0x07
    then 4
    else 0

abbrev indices : ℕ × ℕ × ℕ → ℕ × ℕ × ℕ
indices f = (light_index f.0, curtain_index f.1, dust_index f.2)

light_code_lem : (i : ℕ) → 1 ≤ i → i ≤ 2 → (light_index (light_code i) ≡ i) × (light_code i < 8)
unfolding light_code
light_code_lem i h k = ground arith

curtain_code_lem :
    (i : ℕ) → 1 ≤ i → i ≤ 4 → (curtain_index (curtain_code i) ≡ i) × (curtain_code i < 8)
unfolding curtain_code
curtain_code_lem i h k = ground arith

dust_code_lem : (i : ℕ) → 1 ≤ i → i ≤ 4 → (dust_index (dust_code i) ≡ i) × (dust_code i < 8)
unfolding dust_code
dust_code_lem i h k = ground arith

refused : (i last : ℕ) → 1 ≤ i → i ≤ last → (ltb i 1 || ltb last i) ≡ false
refused i last h k = ground arith

-- For settings with at least nine items, all bytes: each of the three setters accepts the indices
-- 1 to 2 for the lights and 1 to 4 for the curtain and the dust, its query then answers the index,
-- and the other two queries answer what they did.
pub energy_times-read_back :
    (s : State) (i j k : ℕ)
    → 9 ≤ length s.m_data_setting
    → IsBytes s.m_data_setting
    → 1 ≤ i
    → i ≤ 2
    → 1 ≤ j
    → j ≤ 4
    → 1 ≤ k
    → k ≤ 4
    → ((set_light_off_time i s).0 ≡ true)
      × ((set_curtain_off_time j s).0 ≡ true)
      × ((set_dust_time k s).0 ≡ true)
      × (energy_times (set_light_off_time i s).1 ≡ (i, query_curtain_off_time s, query_dust_time s))
      × (energy_times (set_curtain_off_time j s).1 ≡ (query_light_off_time s, j, query_dust_time s))
      × (energy_times (set_dust_time k s).1 ≡ (query_light_off_time s, query_curtain_off_time s, k))
unfolding set_light_off_time set_curtain_off_time set_dust_time query_light_off_time
    query_curtain_off_time query_dust_time
energy_times-read_back s i j k room valid i1 i2 j1 j2 k1 k2 =
    let bytes = s.m_data_setting in
    let (li, lf) = light_code_lem i i1 i2 in
    let (ci, cf) = curtain_code_lem j j1 j2 in
    let (di, df) = dust_code_lem k k1 k2 in
    rw (refused i 2 i1 i2, refused j 4 j1 j2, refused k 4 k1 k2)
      (
        refl,
        refl,
        refl,
        ap indices (fields-light bytes room valid (light_code i) lf) ∙ triple li refl refl,
        ap indices (fields-curtain bytes room valid (curtain_code j) cf) ∙ triple refl ci refl,
        ap indices (fields-dust bytes room valid (dust_code k) df) ∙ triple refl refl di,
      )
