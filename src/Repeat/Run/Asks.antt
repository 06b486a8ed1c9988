-- ===== src/Repeat/Run/Asks.antt =====
-- What `RepeatComm::Run` of src/repeat_comm.cpp asks the devices.
use hukong.Base.{ℕ, ◌==◌, ◌||◌, if◌then◌else◌, Bool, true, ◌≡◌, List, [], ◌∷◌, drop}
use hukong.Serial.Packet.{get_src_addr, get_dest_addr, get_type, get_function}
use hukong.Serial.Send.{get_data}
use hukong.Repeat.Bytes.{get}
use hukong.Repeat.State.{State}
use hukong.Repeat.Run.{Bus}

-- The devices' own codes for the requests of the controller: lights, curtains, fresh air, meters;
-- 0x31 is passed on under its own.
abbrev pub asked_type : ℕ → ℕ → ℕ
asked_type own f =
    if f == 0x43 || f == 0x44
    then 0x1e
    else if f == 0x45 || f == 0x46
    then 0x19
    else if f == 0x47 || f == 0x48
    then 0x1c
    else if f == 0x49
    then 0x1f
    else own

abbrev pub asked_function : ℕ → ℕ
asked_function f =
    if f == 0x43 || (f == 0x45 || f == 0x47)
    then 0x81
    else if f == 0x44 || (f == 0x46 || f == 0x48)
    then 0x01
    else if f == 0x49
    then 0x02
    else f

-- How many of the first data bytes the box sets itself.
abbrev pub told : ℕ → ℕ
told f = if f == 0x45 then 2 else if f == 0x47 || f == 0x48 then 1 else 0

-- What follows them is the controller's: the first byte of a fresh-air query, all others.
abbrev pub passed : ℕ → List ℕ → List ℕ
passed f packet = if f == 0x48 then get packet 7 ∷ [] else drop (told f) (get_data packet)

-- The functions of requests that are passed on to a device.
abbrev pub is_passed : ℕ → Bool
is_passed f =
    (f == 0x43 || f == 0x44)
    || ((f == 0x45 || f == 0x46) || ((f == 0x47 || f == 0x48) || (f == 0x31 || f == 0x49)))

-- Two buses that answer alike to what a request asks, if it is passed on at all.
abbrev pub Agree : Bus → Bus → List ℕ → Type 0
Agree b c packet =
    let f = get_function packet in
    (bytes : List ℕ)
    → is_passed f ≡ true
    → drop (told f) bytes ≡ passed f packet
    → b (get_src_addr packet) (get_dest_addr packet) (asked_type (get_type packet) f)
        (asked_function f) bytes
      ≡ c (get_src_addr packet) (get_dest_addr packet) (asked_type (get_type packet) f)
          (asked_function f) bytes
