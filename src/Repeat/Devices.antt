-- ===== src/Repeat/Devices.antt =====
-- `HumanSenToDev` of src/repeat_comm.cpp: the lights and the fresh-air units that are bound to a
-- sensor. The list holds what is written to `pInfo`, whether or not the caller's array has room.
pub mod Bound
use hukong.Base.{
  ℕ, zero, suc, ◌+◌, ◌*◌, ◌/◌, ◌%◌, ◌==◌, leb, ◌&&◌, if◌then◌else◌, List, [], ◌∷◌, ◌++◌, Option,
  none, some, length,
}
use hukong.Repeat.Bytes.{get, get_bits}
use hukong.Repeat.State.{DevType, light, aircondition, State, count_max_human_group}

-- An entry; `none` where the code leaves `opt` as it was.
pub record Written : Type 0 where
  pub type : DevType
  pub addr : ℕ
  pub opt : Option ℕ

abbrev pub light_at : ℕ → ℕ → Written
light_at addr opt = record { type = light; addr = addr; opt = some opt }

abbrev pub xinfeng_at : ℕ → Written
xinfeng_at addr = record { type = aircondition; addr = addr; opt = none }

-- From byte `i` of the table on, with `n` bytes left. A full array ends the loop.
unfoldable pub lights : List ℕ → ℕ → ℕ → ℕ → ℕ → List Written → List Written
lights binds id n_len i zero found = found
lights binds id n_len i (suc n) found =
    let low = get_bits (get binds (25 + i)) 0 3 == id in
    let found1 = if low then found ++ light_at (i / 3 + 1) (i % 3 * 2 + 1) ∷ [] else found in
    let high = get_bits (get binds (25 + i)) 4 7 == id in
    let found2 = if high then found1 ++ light_at (i / 3 + 1) (i % 3 * 2 + 2) ∷ [] else found1 in
    let rest = lights binds id n_len (i + 1) n found2 in
    if low && leb n_len (length found1)
    then found1
    else if high && leb n_len (length found2)
    then found2
    else rest

unfoldable pub xinfengs : List ℕ → ℕ → ℕ → ℕ → ℕ → List Written → List Written
xinfengs binds id n_len i zero found = found
xinfengs binds id n_len i (suc n) found =
    let low = get_bits (get binds (53 + i)) 0 3 == id in
    let found1 = if low then found ++ xinfeng_at (i * 2 + 1) ∷ [] else found in
    let high = get_bits (get binds (53 + i)) 4 7 == id in
    let found2 = if high then found1 ++ xinfeng_at (i * 2 + 2) ∷ [] else found1 in
    let rest = xinfengs binds id n_len (i + 1) n found2 in
    if low && leb n_len (length found1)
    then found1
    else if high && leb n_len (length found2)
    then found2
    else rest

unfoldable pub human_sen_to_dev : ℕ → ℕ → State → List Written
human_sen_to_dev id n_len s =
    let binds = s.m_data_hukong in
    if leb id count_max_human_group
    then xinfengs binds id n_len 0 4 (lights binds id n_len 0 24 [])
    else []
