-- ===== src/Serial/Method/Aircon/Coding.antt =====
-- What the air-conditioner command of src/protocol/protocol_method.cpp says to who reads its bits.
use hukong.Base.{
  ℕ, zero, suc, ◌+◌, ◌*◌, ◌%◌, ◌^◌, ◌≤◌, ◌<◌, ◌==◌, leb, ◌&&◌, ◌||◌, if◌then◌else◌, Bool, true,
  false, ◌≡◌, ◌⊎◌, inl, inr, refl, arith, List, some, get_or,
}
use hukong.Serial.Method.Devices.{get_bit, set_bit, get_bits, set_bits, bit_of}
use hukong.Serial.Method.Devices.Fields.{set_bits-second, set_bit-fifth, set_bits-high}
use hukong.Serial.Method.Aircon.{AirCommand, aircondition_data, aircondition}

-- ON is 1, OFF is 0, NONE is 3.
abbrev pub IsSwitch : ℕ → Type 0
IsSwitch mode = (mode ≡ 0) ⊎ ((mode ≡ 1) ⊎ (mode ≡ 3))

abbrev pub IsAllowed : AirCommand → Type 0
IsAllowed c =
    IsSwitch c.switch_mode
    × (c.aircondition_mode < 2)
    × (1 ≤ c.xinfeng_mode)
    × (c.xinfeng_mode ≤ 3)
    × (5 ≤ c.temp)
    × (c.temp ≤ 35)
    × (c.energy_save_mode < 8)

-- The bits for the switch: ON, OFF, or neither.
abbrev pub switch_bits : ℕ → ℕ
switch_bits mode = if mode == 3 then 0 else if mode == 1 then 1 else 2

switch_bits-lt : (mode : ℕ) → switch_bits mode < 4
switch_bits-lt mode = ground arith

bit_of-lt : (b : Bool) → bit_of b < 2
bit_of-lt true = omega arith
bit_of-lt false = omega arith

first_byte :
    (c : AirCommand)
    → IsAllowed c
    → get_or (aircondition_data c) 0 0
      ≡ c.energy_save_mode * 32
        + (bit_of c.has_one * 16 + (c.xinfeng_mode * 4 + switch_bits c.switch_mode))
unfolding aircondition_data
first_byte c (sw, m, x1, x3, t5, t35, e) =
    let b0 = switch_bits c.switch_mode in
    let small = switch_bits-lt c.switch_mode in
    let flag = bit_of-lt c.has_one in
    let b1 : set_bits b0 2 3 c.xinfeng_mode % 2 ^ 8 ≡ c.xinfeng_mode * 4 + b0 =
      let f = set_bits-second b0 c.xinfeng_mode small (omega arith) in omega (arith, f) in
    let b2 : set_bit (c.xinfeng_mode * 4 + b0) 4 (bit_of c.has_one)
        ≡ bit_of c.has_one * 16 + (c.xinfeng_mode * 4 + b0) =
      set_bit-fifth (c.xinfeng_mode * 4 + b0) (bit_of c.has_one) (omega arith) flag in
    let byte = bit_of c.has_one * 16 + (c.xinfeng_mode * 4 + b0) in
    let b3 : set_bits byte 5 7 c.energy_save_mode % 2 ^ 8 ≡ c.energy_save_mode * 32 + byte =
      let f = set_bits-high byte c.energy_save_mode (omega arith) e in omega (arith, f) in
    rw (b1, b2) b3

-- The second byte, for each mode and alarm.
second_byte :
    (mode : ℕ) (fire : Bool)
    → mode < 2
    → set_bit (set_bit (set_bit 0 0 mode) 1 1) 2 (bit_of fire) ≡ bit_of fire * 4 + (2 + mode)
unfolding set_bit
second_byte zero true h = refl
second_byte zero false h = refl
second_byte (suc zero) true h = refl
second_byte (suc zero) false h = refl
second_byte (suc (suc mode)) fire h = absurd (omega arith)

accepted :
    (dest : ℕ) (c : AirCommand)
    → 1 ≤ dest
    → dest ≤ 8
    → IsAllowed c
    → aircondition dest c ≡ some (aircondition_data c)
unfolding aircondition
accepted dest c d1 d8 (sw, m, x1, x3, t5, t35, e) =
    let in_range : (low x high : ℕ) → low ≤ x → x ≤ high → (leb low x && leb x high) ≡ true =
      λ low x high p q. ground arith in
    let switch_ok : (c.switch_mode == 1 || (c.switch_mode == 0 || c.switch_mode == 3)) ≡ true =
      elim sw [
        | inl z ↦ ground arith
        | inr o ↦ elim o [ inl p ↦ ground arith | inr q ↦ ground arith ]
      ] in
    let mode_ok : (c.aircondition_mode == 0 || c.aircondition_mode == 1) ≡ true = ground arith in
    rw
      (
        in_range 1 dest 8 d1 d8,
        switch_ok,
        mode_ok,
        in_range 1 c.xinfeng_mode 3 x1 x3,
        in_range 5 c.temp 35 t5 t35,
      )
      refl

-- What a reader of the six bytes finds.
abbrev pub Says : AirCommand → List ℕ → Type 0
Says c bytes =
    (get_bits (get_or bytes 0 0) 0 1 ≡ switch_bits c.switch_mode)
    × (get_bits (get_or bytes 0 0) 2 3 ≡ c.xinfeng_mode)
    × (get_bit (get_or bytes 0 0) 4 ≡ bit_of c.has_one)
    × (get_bits (get_or bytes 0 0) 5 7 ≡ c.energy_save_mode)
    × (get_bit (get_or bytes 1 0) 0 ≡ c.aircondition_mode)
    × (get_bit (get_or bytes 1 0) 1 ≡ 1)
    × (get_bit (get_or bytes 1 0) 2 ≡ bit_of c.fire_alarm)
    × (get_or bytes 2 0 ≡ c.temp * 2)

-- For a unit from 1 to 8 and a command with the documented modes, a temperature from 5 to 35 and an
-- energy-saving mode of three bits, data are sent, and from their bits a reader gets back the
-- switch, the fresh-air mode, whether somebody is there, the energy-saving mode, hot or cold, the
-- fire alarm and twice the temperature.
pub aircondition-Says :
    (dest : ℕ) (c : AirCommand)
    → 1 ≤ dest
    → dest ≤ 8
    → IsAllowed c
    → (bytes : List ℕ) × (aircondition dest c ≡ some bytes) × Says c bytes
unfolding aircondition_data get_bit
aircondition-Says dest c d1 d8 allowed =
    let (sw, m, x1, x3, t5, t35, e) = allowed in
    let first = first_byte c allowed in
    let second = second_byte c.aircondition_mode c.fire_alarm m in
    let small = switch_bits-lt c.switch_mode in
    let man = bit_of-lt c.has_one in
    let fire = bit_of-lt c.fire_alarm in
    (
      aircondition_data c,
      accepted dest c d1 d8 allowed,
      (
        rw (first) (omega arith),
        rw first (omega arith),
        rw first (omega arith),
        rw first (omega arith),
        rw second (omega arith),
        rw second (omega arith),
        rw second (omega arith),
        refl,
      ),
    )
