-- ===== src/Repeat/Inner/Binding.antt =====
-- The requests 0x41 (set) and 0x42 (query) of `InnerProcess`, src/repeat_comm.cpp: the bindings, the
-- device counts, and the floor and room that make up the IP address.
use hukong.Base.{
  ℕ, ◌-◌, ◌%◌, ◌==◌, ◌&&◌, ◌||◌, not, if◌then◌else◌, Bool, true, false, List, [], ◌∷◌, ◌++◌, take,
  drop, min,
}
use hukong.Serial.Packet.{get_packet_len, get_function}
use hukong.Repeat.Bytes.{get, get_bits, set_bit, set_bits, store}
use hukong.Repeat.State.{
  DevType, human_group, null, data_hukong, State, count_max_light, count_max_curtain,
  count_max_aircondition, count_max_meter, count_max_human_dev, count_max_leak_dev, max_room,
  max_floor,
}
use hukong.Repeat.Sensors.{get_sen_type}
use hukong.Repeat.Inner.Setting.{Response, respond, Save, record_of}

-- The commands for the shell; a failure of one is only logged.
pub data Command : Type 0 where
  set_ipaddr : (floor room : ℕ) → Command
  set_netmask : Command
  set_gateway : (net : ℕ) → Command
  commit : Command
  ifconfig : (floor room : ℕ) → Command
  route : (net : ℕ) → Command

-- The odd number of a pair of floors.
unfoldable pub net_id : ℕ → ℕ
net_id floor = if floor % 2 == 0 then floor - 1 else floor

unfoldable pub network : ℕ → ℕ → List Command
network floor room =
    set_ipaddr floor room
    ∷ set_netmask
    ∷ set_gateway (net_id floor)
    ∷ commit
    ∷ ifconfig floor room
    ∷ route (net_id floor)
    ∷ []

-- `bytes[i] = MIN(bytes[i], last)`
unfoldable pub clamp : List ℕ → ℕ → ℕ → List ℕ
clamp bytes i last = store bytes i (min (get bytes i) last)

unfoldable pub at_least_one : List ℕ → ℕ → List ℕ
at_least_one bytes i = if get bytes i == 0 then store bytes i 1 else bytes

unfoldable pub checked : List ℕ → List ℕ
checked bytes =
    let lights = clamp (clamp bytes 59 count_max_light) 60 count_max_curtain in
    let meters = clamp (clamp lights 61 count_max_aircondition) 62 count_max_meter in
    let sensors = clamp (clamp meters 63 count_max_human_dev) 64 count_max_leak_dev in
    let placed = clamp (clamp sensors 65 max_room) 66 max_floor in
    at_least_one (at_least_one placed 65) 66

unfoldable pub bind_frame : Bool → List ℕ → State → State × List Save × List Command
bind_frame ip_change packet s =
    let old = s.m_data_hukong in
    let bytes = checked (record_of packet old) in
    let moved = not (get bytes 65 == get old 65) || not (get bytes 66 == get old 66) in
    (
      record s { m_data_hukong = bytes; m_is_bind_change = true; m_is_dev_change = true },
      record { type = data_hukong; bytes = bytes; count = get_packet_len packet } ∷ [],
      if moved && ip_change then network (get bytes 66) (get bytes 65) else [],
    )

abbrev silent : DevType → Bool
silent null = true
silent human_group = true
silent _ = false

-- An input with no sensor, or with one for people, raises no alarm.
abbrev muted : ℕ → ℕ → ℕ → ℕ
muted status code seq = if silent (get_sen_type code) then set_bit status seq 0 else status

-- The contacts of this box, and above them which of them raise an alarm: the open ones.
unfoldable pub switch_faults : ℕ → List ℕ → ℕ
switch_faults status binds =
    let opened = set_bits status 4 7 (15 - status % 16) % 256 in
    let first = muted opened (get_bits (get binds 7) 0 3) 4 in
    let second = muted first (get_bits (get binds 7) 4 7) 5 in
    let third = muted second (get_bits (get binds 8) 0 3) 6 in
    muted third (get_bits (get binds 8) 4 7) 7

-- The version is that of rpc_config.h.
unfoldable pub binding_data : State → List ℕ
binding_data s =
    let binds = s.m_data_hukong in
    take 52 (drop 7 binds)
    ++ (switch_faults (get s.m_data_switch_status 0) binds
        ∷ 0
        ∷ get binds 59
        ∷ get binds 60
        ∷ get binds 61
        ∷ get binds 62
        ∷ get binds 63
        ∷ get binds 64
        ∷ get binds 65
        ∷ 14
        ∷ 8
        ∷ 20
        ∷ get binds 66
        ∷ [])

unfoldable pub binding_request : Bool → List ℕ → State → State × Response × List Save × List Command
binding_request ip_change packet s =
    let (bound, saves, commands) =
      if get_function packet == 0x41 then bind_frame ip_change packet s else (s, [], []) in
    (bound, respond packet (binding_data bound), saves, commands)
