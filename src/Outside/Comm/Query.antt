-- ===== src/Outside/Comm/Query.antt =====
-- `QueryEnv` and `SetEnv` of outside_env/src/protocol/protocol_comm.cpp. A `double` is what `over`
-- gives for the division that makes it, of a dividend by a divisor, or of the difference of two
-- numbers by a divisor. An `int` of the settings is its value modulo 2 ^ 32.
pub mod Reading
pub mod Setting
pub mod Wait
use hukong.Base.{
  ℕ, ◌==◌, if◌then◌else◌, Bool, true, false, List, [], ◌∷◌, ◌++◌, Option, none, some, ◌+◌, ◌*◌, ◌^◌,
}
use hukong.Base.Partial.{◌>>=◌}
use hukong.Repeat.Bytes.{get, word, get_bit, get_bits, set_bit}
use hukong.Serial.Method.Devices.{bit_of}
use hukong.Outside.Packet.{le16}
use hukong.Outside.PacketBuffer.{get_data_len}
use hukong.Outside.Comm.{Comm, Exchange, exchange}

pub record EnvInfo (D : Type 0) : Type 0 where
  pub pm03 : ℕ
  pub pm25 : ℕ
  pub pm10 : ℕ
  pub jiaquang : D
  pub co2 : ℕ
  pub temp : D
  pub wet : ℕ
  pub season : ℕ
  pub east_sun : ℕ
  pub south_sun : ℕ
  pub wet_sun : ℕ
  pub sunsen1_fault : ℕ
  pub sunsen2_fault : ℕ
  pub sunsen3_fault : ℕ
  pub dustsen_fault : ℕ
  pub wetsen_fault : ℕ
  pub tempsen_fault : ℕ

pub record SettingInfo : Type 0 where
  pub summer_days : ℕ
  pub summer_temp : ℕ
  pub summer_temp_continue : ℕ
  pub winter_days : ℕ
  pub winter_temp : ℕ
  pub winter_temp_continue : ℕ
  pub light_strength : ℕ
  pub outside_air_detection : Bool

-- The packet that came, and what `info` becomes.
pub record Queried (D : Type 0) : Type 0 where
  pub after : Exchange
  pub info : Option (EnvInfo D)

module _ {D : Type 0} (over : ℕ → ℕ → ℕ → D) where
  -- `over a b d` is `(a - b) / d`.
  unfoldable pub env_of : List ℕ → EnvInfo D
  env_of p = record {
    pm03 = word p 5 + word p 7 * 2 ^ 16;
    pm25 = word p 9;
    pm10 = word p 11;
    jiaquang = over (word p 13) 0 100;
    co2 = word p 15;
    temp = over (word p 17) 100 2;
    wet = word p 19;
    season = if get_bits (get p 29) 0 1 == 2 then 1 else 0;
    east_sun = get_bit (get p 29) 2;
    south_sun = get_bit (get p 29) 3;
    wet_sun = get_bit (get p 29) 4;
    sunsen1_fault = get_bit (get p 30) 0;
    sunsen2_fault = get_bit (get p 30) 1;
    sunsen3_fault = get_bit (get p 30) 2;
    dustsen_fault = get_bit (get p 30) 3;
    wetsen_fault = get_bit (get p 30) 4;
    tempsen_fault = get_bit (get p 30) 5;
  }

  -- `none` as the whole result is a failed assertion, `none` as `info` the answer `false`.
  unfoldable pub query_env : Comm → Bool → List (List (List ℕ)) → Option (Queried D)
  query_env c sent later = do
    x ← exchange c 0x01 0x03 0x01 0x11 none sent later
    elim x.packet [
      | none ↦ some (record { after = x; info = none })
      | some p ↦ do
        len ← get_data_len p
        some (record { after = x; info = if len == 34 then some (env_of p) else none })
    ]

-- `btData`, whose last byte stays 0.
unfoldable pub setting_bytes : SettingInfo → List ℕ
setting_bytes info =
    le16 info.summer_days
    ++ (le16 info.summer_temp
        ++ (le16 info.summer_temp_continue
            ++ (le16 info.winter_days
                ++ (le16 info.winter_temp
                    ++ (le16 info.winter_temp_continue
                        ++ (le16 info.light_strength
                            ++ (set_bit 0 0 (bit_of info.outside_air_detection) ∷ 0 ∷ [])))))))

-- With what the function returns.
unfoldable pub set_env : Comm → SettingInfo → Bool → List (List (List ℕ)) → Option (Exchange × Bool)
set_env c info sent later = do
  x ← exchange c 0x01 0x10 0x13 0x08 (some (setting_bytes info)) sent later
  some (x, elim x.packet [ none ↦ false | some p ↦ true ])
