-- ===== src/Serial/Method/Devices.antt =====
-- The light and curtain commands of src/protocol/protocol_method.cpp, and what their queries read
-- from an answer. An exception is `none`. C leaves a shift by a negative count undefined:
-- `shift_back n` is what `1 << -n` gives on the machine.
pub mod Coding
pub mod Fields
use hukong.Base.{
  ℕ, zero, suc, ◌+◌, ◌-◌, ◌*◌, ◌/◌, ◌%◌, ◌^◌, bit_and, bit_or, ◌==◌, ltb, leb, ◌&&◌, ◌||◌,
  if◌then◌else◌, Bool, true, false, List, [], ◌∷◌, Option, none, some, get_elem?, get_or,
}

-- `GET_BIT` and `SET_BIT` on a byte.
unfoldable pub get_bit : ℕ → ℕ → ℕ
get_bit byte seq = byte / 2 ^ seq % 2

unfoldable pub set_bit : ℕ → ℕ → ℕ → ℕ
set_bit byte seq value = bit_or (bit_and byte (255 - 2 ^ seq)) (value % 2 * 2 ^ seq)

-- `GET_BITS(byte, begin, end)` and `SET_BITS(byte, begin, end, value)`; the value is not masked.
abbrev pub get_bits : ℕ → ℕ → ℕ → ℕ
get_bits byte begin end = byte / 2 ^ begin % 2 ^ (end - begin + 1)

unfoldable pub set_bits : ℕ → ℕ → ℕ → ℕ → ℕ
set_bits byte begin end value =
    bit_or (bit_and byte (255 - (2 ^ (end - begin + 1) - 1) * 2 ^ begin)) (value * 2 ^ begin)

module _ (shift_back : ℕ → ℕ) where
  -- `1 << (k - back)`, cut to a `BYTE`.
  unfoldable pub shifted : ℕ → ℕ → ℕ
  shifted k back = (if leb back k then 2 ^ (k - back) else shift_back (back - k)) % 2 ^ 8

  -- The three bytes of the command; `mode` is ON (1) or OFF (0), index 0 is all lights.
  unfoldable pub light_data : ℕ → ℕ → List ℕ
  light_data index mode =
      let k = (index - 1) * 2 + (if mode == 1 then 0 else 1) in
      let all = if mode == 1 then 0x55 else 0xaa in
      if index == 0 then all ∷ all ∷ all ∷ [] else shifted k 0 ∷ shifted k 8 ∷ shifted k 16 ∷ []

  -- The data that `light_switch` sends.
  unfoldable pub light_switch : ℕ → ℕ → ℕ → Option (List ℕ)
  light_switch dest index mode =
      if (mode == 1 || mode == 0) && ((leb 1 dest && leb dest 8) && leb index 6)
      then some (light_data index mode)
      else none

-- The states of the six lights in the first data byte.
unfoldable pub light_status : ℕ → List ℕ
light_status b =
    get_bit b 0 ∷ get_bit b 1 ∷ get_bit b 2 ∷ get_bit b 3 ∷ get_bit b 4 ∷ get_bit b 5 ∷ []

-- The commands for OFF, ON, STOP and NONE.
abbrev pub cmds : List ℕ
cmds = 2 ∷ 1 ∷ 3 ∷ 0 ∷ []

abbrev pub bit_of : Bool → ℕ
bit_of true = 1
bit_of false = 0

-- The first byte of the curtain command. The second is a rounded temperature, a floating-point
-- number in the code, and is left out.
unfoldable pub curtain_byte : ℕ → ℕ → Bool → ℕ → Bool → ℕ
curtain_byte inner_mode outside_mode has_one season sunshine =
    let inner = bit_and (get_or cmds inner_mode 0) 0x03 in
    let outside = bit_and (get_or cmds outside_mode 0) 0x03 in
    let modes = bit_or (outside * 2 ^ 2) inner in
    let one = set_bit modes 4 (bit_of has_one) in
    let nobody = set_bit one 5 (if has_one then 0 else 1) in
    set_bit (set_bit nobody 6 season) 7 (bit_of sunshine)

-- `status_code[]`: seven entries; -1 as a `BYTE` is 255.
abbrev pub status_code : List ℕ
status_code = 255 ∷ 1 ∷ 0 ∷ 2 ∷ 255 ∷ 3 ∷ 4 ∷ []

-- The two curtains and their faults; `none` is a read outside `status_code`.
pub record CurtainStatus : Type 0 where
  pub inner : ℕ
  pub outside : ℕ
  pub inner_fault : ℕ
  pub outside_fault : ℕ

unfoldable pub curtain_status : ℕ → Option CurtainStatus
curtain_status b = elim (get_elem? status_code (b % 8)) [
  | none ↦ none
  | some inner ↦ elim (get_elem? status_code (b / 8 % 8)) [
    | none ↦ none
    | some outside ↦ some (record {
      inner = inner;
      outside = outside;
      inner_fault = get_bit b 6;
      outside_fault = get_bit b 7;
    })
  ]
]
