-- ===== src/Outside/Comm/Query/Setting.antt =====
-- What `SetEnv` of outside_env/src/protocol/protocol_comm.cpp puts on the line.
use hukong.Base.{ℕ, ◌%◌, ◌^◌, Bool, true, false, ◌≡◌, refl, ap, arith, List, [], ◌∷◌, none, some}
use hukong.Repeat.Bytes.{get, word, get_bit}
use hukong.Serial.Method.Devices.{bit_of, set_bit}
use hukong.Outside.Packet.{request_body}
use hukong.Outside.Packet.Request.{build_request-frame}
use hukong.Outside.PacketBuffer.Accept.{wire}
use hukong.Outside.Comm.{Comm, Exchange, send_frame, wait_resend, wait_response, exchange}
use hukong.Outside.Comm.Query.{SettingInfo, setting_bytes, set_env}

-- The settings, each number cut to a `WORD`, that the box reads from the 16 bytes of the request.
abbrev pub SettingsOf : List ℕ → SettingInfo → Type 0
SettingsOf bytes info =
    (word bytes 0 ≡ info.summer_days % 2 ^ 16)
    × (word bytes 2 ≡ info.summer_temp % 2 ^ 16)
    × (word bytes 4 ≡ info.summer_temp_continue % 2 ^ 16)
    × (word bytes 6 ≡ info.winter_days % 2 ^ 16)
    × (word bytes 8 ≡ info.winter_temp % 2 ^ 16)
    × (word bytes 10 ≡ info.winter_temp_continue % 2 ^ 16)
    × (word bytes 12 ≡ info.light_strength % 2 ^ 16)
    × (get_bit (get bytes 14) 0 ≡ bit_of info.outside_air_detection)

abbrev pub set_request : SettingInfo → List ℕ
set_request info = 0x01 ∷ 0x10 ∷ 0 ∷ 0x13 ∷ 0 ∷ 8 ∷ 16 ∷ setting_bytes info

flag :
    (b : Bool)
    → (info : SettingInfo) → info.outside_air_detection ≡ b
    → get_bit (get (setting_bytes info) 14) 0 ≡ bit_of b
unfolding setting_bytes get_bit set_bit
flag true info e = rw e refl
flag false info e = rw e refl

setting_bytes-SettingsOf : (info : SettingInfo) → SettingsOf (setting_bytes info) info
unfolding setting_bytes
setting_bytes-SettingsOf info = (
  omega arith,
  omega arith,
  omega arith,
  omega arith,
  omega arith,
  omega arith,
  omega arith,
  flag info.outside_air_detection info refl,
)

one_request :
    (c : Comm) (info : SettingInfo)
    → (send_frame c 0x01 0x10 0x13 0x08 (some (setting_bytes info))).1 ∷ []
      ≡ wire (set_request info) ∷ []
unfolding send_frame wire request_body setting_bytes
one_request c info =
    ap (λ f. f ∷ [])
      (build_request-frame c.m_packet 0x01 0x10 0x13 0x08 (some (setting_bytes info)))

-- `SetEnv` writes one request and never repeats it, whether the write succeeds or not and whatever
-- comes in while it waits. Its data are the settings, each number cut to 16 bits, low byte first. It
-- reports failure when the write fails, and when no packet comes.
pub set_env-writes :
    (c : Comm) (info : SettingInfo) (sent : Bool) (later : List (List (List ℕ)))
    → (x : Exchange) × (ok : Bool) × (set_env c info sent later ≡ some (x, ok))
      × (x.written ≡ wire (set_request info) ∷ [])
      × SettingsOf (setting_bytes info) info
      × (sent ≡ false → ok ≡ false)
      × (x.packet ≡ none → ok ≡ false)
unfolding set_env exchange send_frame wait_response wait_resend
set_env-writes c info false later =
    (_, _, refl, one_request c info, setting_bytes-SettingsOf info, λ e. refl, λ e. refl)
set_env-writes c info true later = (
  _,
  _,
  refl,
  one_request c info,
  setting_bytes-SettingsOf info,
  λ e. absurd (cc e),
  λ e. rw e refl,
)
