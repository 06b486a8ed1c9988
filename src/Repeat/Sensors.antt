-- ===== src/Repeat/Sensors.antt =====
-- The sensors of src/repeat_comm.cpp: which sensor an input stands for, `ProcessSen`, and who is in
-- a room or in the sun. A gpio that cannot be opened stops the program: it is left out, and the four
-- values of the gpios are an argument.
pub mod Inputs
pub mod Rooms
use hukong.Base.{
  ℕ, zero, suc, ◌+◌, ◌-◌, ◌*◌, ◌/◌, ◌%◌, ◌^◌, bit_or, ◌==◌, ltb, leb, ◌&&◌, ◌||◌, not,
  if◌then◌else◌, Bool, true, false, List, [], ◌∷◌, replicate,
}
use hukong.Serial.Method.Devices.{bit_of}
use hukong.Repeat.Bytes.{get, get_bit, get_bits, word, store}
use hukong.Repeat.State.{
  DevType, human_group, leak_water, leak_gas, null, data_record, State, tran_sen_active,
  tran_gpio_to_switch_status,
}

abbrev pub get_sen_type : ℕ → DevType
get_sen_type code =
    if code == 0
    then null
    else if leb code 8
    then human_group
    else if leb code 12
    then leak_water
    else if code == 13
    then leak_gas
    else null

abbrev pub is_sen_human_type : ℕ → Bool
is_sen_human_type code = ltb 0 code && ltb code 9

abbrev pub is_null : DevType → Bool
is_null null = true
is_null _ = false

-- The values read from the gpios, from the first bit on; other than '0' is 1.
unfoldable pub get_switch_status : List ℕ → ℕ → ℕ → ℕ
get_switch_status [] i value = value
get_switch_status (gpio ∷ gpios) i value = get_switch_status gpios (i + 1) (
    if tran_gpio_to_switch_status (if gpio == 0x30 then 0 else 1) == 1
    then bit_or value (2 ^ i)
    else value)

-- One input: its code in the table, and its contact. A `bool` is stored.
unfoldable pub sense : List ℕ → ℕ → ℕ → List ℕ
sense status code contact =
    if is_null (get_sen_type code)
    then status
    else store status code (bit_of (not (get status code == 0) || tran_sen_active contact))

-- Round `i` of the loop, which has `n` rounds left.
unfoldable pub sense_loop : List ℕ → List ℕ → ℕ → ℕ → List ℕ → List ℕ
sense_loop binds switches i zero status = status
sense_loop binds switches i (suc n) status =
    let bind = get binds (7 + i) in
    let box = get switches (i / 2) in
    let low = sense status (get_bits bind 0 3) (get_bit box (i % 2 * 2)) in
    sense_loop binds switches (i + 1) n
      (sense low (get_bits bind 4 7) (get_bit box (i % 2 * 2 + 1)))

unfoldable pub process_sen : State → State
process_sen s = record s {
  m_data_sen_status =
      sense_loop s.m_data_hukong s.m_data_switch_status 0 18 (replicate data_record 0);
}

-- The lock-free start of each round of `Run`: sample the contacts of this box, then the sensors.
unfoldable pub sample : List ℕ → State → State
sample gpios s = process_sen (record s {
  m_data_switch_status = store s.m_data_switch_status 0 (get_switch_status gpios 0 0);
})

abbrev pub triggered : State → ℕ → Bool
triggered s sensor = not (get s.m_data_sen_status sensor == 0)

-- Any of the sensors whose place in the table holds the address.
unfoldable pub xinfeng_loop : State → ℕ → ℕ → ℕ → Bool → Bool
xinfeng_loop s addr i zero has_man = has_man
xinfeng_loop s addr i (suc n) has_man =
    let bind = get s.m_data_hukong (53 + i) in
    let low = if get_bits bind 0 3 == addr then has_man || triggered s (i * 2 + 1) else has_man in
    let high = if get_bits bind 4 7 == addr then low || triggered s (i * 2 + 2) else low in
    xinfeng_loop s addr (i + 1) n high

unfoldable pub is_has_man_by_xinfeng : State → ℕ → Bool
is_has_man_by_xinfeng s addr = xinfeng_loop s addr 0 4 false

-- The sensor that the table names for the curtain.
unfoldable pub curtain_loop : State → ℕ → ℕ → ℕ → Bool
curtain_loop s addr i zero = false
curtain_loop s addr i (suc n) =
    let bind = get s.m_data_hukong (49 + i) in
    let rest = curtain_loop s addr (i + 1) n in
    if i * 2 + 1 == addr
    then triggered s (get_bits bind 0 3)
    else if i * 2 + 2 == addr
    then triggered s (get_bits bind 4 7)
    else rest

unfoldable pub is_has_man_by_curtain : State → ℕ → Bool
is_has_man_by_curtain s addr = curtain_loop s addr 0 4

unfoldable pub is_curtain_has_sunshine : State → ℕ → Bool
is_curtain_has_sunshine s addr =
    let side = word s.m_data_hukong 57 / 2 ^ ((addr - 1) * 2) % 4 in
    if leb addr 8 && ltb 0 addr
    then if side == 1
      then s.m_south_sun
      else if side == 2
      then s.m_west_sun
      else if side == 3
      then s.m_east_sun
      else false
    else false
