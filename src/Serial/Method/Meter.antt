-- ===== src/Serial/Method/Meter.antt =====
-- The meter of src/protocol/protocol_method.cpp: `query_meter` and `time_syn_meter`. A `double` is
-- what `over` makes of a number and a divisor, and what `times` and `by` make of a `double`: its
-- product with a number, and its quotient by one. A number that only becomes a `double` is divided
-- by 1. The packet is its 262 bytes.
pub mod Reading
pub mod Told
use hukong.Base.{
  ℕ, ◌+◌, ◌%◌, ◌==◌, leb, ◌&&◌, if◌then◌else◌, Bool, true, false, List, [], ◌∷◌, ◌++◌, Option, none,
  some, get_or, take, drop,
}
use mathlib.Core.List.{reverse}
use hukong.Serial.Method.{Method, Result, bcd, transform}

pub record Double : Type 1 where
  pub Carrier : Type 0
  pub over : ℕ → ℕ → Carrier
  pub times : Carrier → ℕ → Carrier
  pub by : Carrier → ℕ → Carrier

pub record MeterStatus (D : Type 0) : Type 0 where
  pub cold_cur_rate : D
  pub hot_cur_rate : D
  pub cold_totoal : D
  pub hot_totoal : D
  pub hot_input_temp : D
  pub hot_output_temp : D
  pub hot_totoal_degree : D
  pub hot_cur_power : D
  pub cur_totoal_power : D
  pub forward_totoal_degree : D
  pub gas_cur_rate : D
  pub gas_totoal_rate : D

-- `std::reverse(&pData[at], &pData[at] + len)`
unfoldable pub reversed : List ℕ → ℕ → ℕ → List ℕ
reversed p_data at len =
    take at p_data ++ (reverse (take len (drop at p_data)) ++ drop (at + len) p_data)

-- The places and the lengths of the twelve numbers, in the order of the code.
abbrev pub places : List (ℕ × ℕ)
places =
    (0, 5)
    ∷ (5, 5)
    ∷ (10, 5)
    ∷ (15, 5)
    ∷ (20, 3)
    ∷ (23, 3)
    ∷ (26, 5)
    ∷ (31, 5)
    ∷ (36, 3)
    ∷ (39, 4)
    ∷ (43, 4)
    ∷ (47, 4)
    ∷ []

unfoldable pub reverse_all : List (ℕ × ℕ) → List ℕ → List ℕ
reverse_all [] p_data = p_data
reverse_all (place ∷ places) p_data = reverse_all places (reversed p_data place.0 place.1)

-- `BCD(&pData[at], len)`
unfoldable pub bcd_at : List ℕ → ℕ → ℕ → ℕ
bcd_at p_data at len = bcd (take len (drop at p_data)) 0

module _ (F : Double) where
  -- The total in kWh: MWh, or hundreds of them.
  unfoldable pub in_kwh : ℕ → F.Carrier → F.Carrier
  in_kwh unit x =
      if unit == 0x08 then F.times x 1000 else if unit == 0x0a then F.times x 100000 else x

  -- The power in kW: W, or MW.
  unfoldable pub in_kw : ℕ → F.Carrier → F.Carrier
  in_kw unit x = if unit == 0x14 then F.by x 1000 else if unit == 0x1a then F.times x 1000 else x

  -- `p_data` is the memory from the data of the packet on.
  unfoldable pub meter_status : List ℕ → MeterStatus F.Carrier
  meter_status p_data =
      let d = reverse_all places p_data in
      record {
        cold_cur_rate = F.over (bcd_at d 0 5 % 100000000) 10000;
        hot_cur_rate = F.over (bcd_at d 5 5 % 100000000) 10000;
        cold_totoal = F.over (bcd_at d 10 5 % 100000000) 100;
        hot_totoal = F.over (bcd_at d 15 5 % 100000000) 100;
        hot_input_temp = F.over (bcd_at d 20 3) 100;
        hot_output_temp = F.over (bcd_at d 23 3) 100;
        hot_totoal_degree = in_kwh (get_or d 26 0) (F.over (bcd_at d 26 5 % 100000000) 100);
        hot_cur_power = in_kw (get_or d 31 0) (F.over (bcd_at d 31 5 % 100000000) 100);
        cur_totoal_power = F.over (bcd_at d 36 3) 10000;
        forward_totoal_degree = F.over (bcd_at d 39 4) 100;
        gas_cur_rate = F.over (bcd_at d 43 4) 10000;
        gas_totoal_rate = F.over (bcd_at d 47 4) 1;
      }

  -- `packet.GetData()` is at byte 7.
  abbrev pub status_of : Option (List ℕ) → Option (MeterStatus F.Carrier)
  status_of none = none
  status_of (some packet) = some (meter_status (drop 7 packet))

  -- The rest of the call with the status, if an answer came; `none` is the exception, and the end of
  -- the fuel of `transform`.
  unfoldable pub query_meter :
      ℕ
      → Method
      → ℕ
      → Bool
      → Bool
      → List (List (List ℕ))
      → Option (Result × Option (MeterStatus F.Carrier))
  query_meter fuel m dest save_in_buffer sent later =
      if leb 1 dest && leb dest 4
      then elim (transform fuel m 0x00 dest 0x1f 0x02 none save_in_buffer true sent later) [
        | none ↦ none
        | some r ↦ some (r, status_of r.value)
      ]
      else none

-- `struct tm`, as far as it is used.
pub record Tm : Type 0 where
  pub tm_year : ℕ
  pub tm_mon : ℕ
  pub tm_mday : ℕ
  pub tm_hour : ℕ
  pub tm_min : ℕ
  pub tm_sec : ℕ

unfoldable pub sync_data : Tm → List ℕ
sync_data t =
    (t.tm_year + 1900) % 100 ∷ (t.tm_mon + 1) ∷ t.tm_mday ∷ t.tm_hour ∷ t.tm_min ∷ t.tm_sec ∷ []

-- `clock` is what `time` and `localtime_r` give, `none` the failure of `time`. The rest of the call,
-- if it gets to the line, and what it returns.
unfoldable pub time_syn_meter :
    ℕ → Method → ℕ → Option Tm → Bool → List (List (List ℕ)) → Option (Option Result × Bool)
time_syn_meter fuel m dest clock sent later =
    if leb 1 dest && leb dest 4
    then elim clock [
      | none ↦ some (none, false)
      | some t ↦
          elim (transform fuel m 0x00 dest 0x1f 0x51 (some (sync_data t)) false false sent later) [
            | none ↦ none
            | some r ↦ some (some r, elim r.value [ none ↦ false | some p ↦ true ])
          ]
    ]
    else none
