-- ===== src/Repeat/Inner.antt =====
-- `RepeatComm::InnerProcess` of src/repeat_comm.cpp: the requests that the air controller makes of
-- this box itself. A request is the bytes of its packet. What the code saves to the data file, asks
-- the shell to do and sets the clock to is in the outcome, as is the response; an error branch has
-- none of them.
pub mod Setting
pub mod Binding
pub mod Clock
pub mod Restore
use hukong.Base.{ℕ, ◌==◌, ◌||◌, if◌then◌else◌, Bool, List, [], ◌∷◌, Option, none, some, take, drop}
use hukong.Serial.Packet.{get_src_addr, get_dest_addr, get_type, get_function}
use hukong.Repeat.State.{State}
pub use Setting.{Response, respond, Save}
pub use Binding.{Command}
pub use Clock.{TimeOf}
use Setting.{setting_request}
use Binding.{binding_request}
use Clock.{time_request, real_time_request}

-- What the outside gives: may the web change the address, the clock, and the four words that the
-- meter's answer becomes.
pub record Outside : Type 0 where
  pub ip_change : Bool
  pub now : Option TimeOf
  pub meter : Option (ℕ × ℕ × ℕ × ℕ)

pub record Outcome : Type 0 where
  pub state : State
  pub response : Option Response
  pub saves : List Save
  pub commands : List Command
  pub clock : Option TimeOf

abbrev quiet : State → Option Response → Outcome
quiet s r = record { state = s; response = r; saves = []; commands = []; clock = none }

abbrev calc_request : List ℕ → List ℕ → State → Outcome
calc_request packet data_calc s = quiet s (some (respond packet data_calc))

unfoldable pub inner_process : Outside → List ℕ → State → Outcome
inner_process o packet s =
    let function = get_function packet in
    let (set, r, saves) = setting_request packet s in
    let (bound, rb, savesb, commands) = binding_request o.ip_change packet s in
    let (timed, rt, clock) = time_request o.now packet s in
    if function == 0x81 || function == 0x01
    then record { state = set; response = some r; saves = saves; commands = []; clock = none }
    else if function == 0x41 || function == 0x42
    then record {
      state = bound;
      response = some rb;
      saves = savesb;
      commands = commands;
      clock = none;
    }
    else if function == 0x51 || function == 0x50
    then record { state = timed; response = rt; saves = []; commands = []; clock = clock }
    else if function == 0x05
    then quiet s (real_time_request o.meter packet s)
    else if function == 0x02
    then calc_request packet s.m_data_calc_aircondition s
    else if function == 0x03
    then calc_request packet s.m_data_calc_power_gas s
    else if function == 0x04
    then calc_request packet s.m_data_calc_water s
    else quiet s none
