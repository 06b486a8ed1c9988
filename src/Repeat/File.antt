-- ===== src/Repeat/File.antt =====
-- The data file of src/repeat_comm.cpp: `Save`, `Load`, and the constructor that calls `Load`. A
-- file is its bytes; `none` is a file that cannot be opened. `write` and `read` are not interrupted.
-- The array `temp` of `Load` is not initialised: what it holds is an argument.
pub mod Load
use hukong.Base.{
  ℕ, zero, suc, ◌+◌, ◌-◌, ◌*◌, ◌==◌, not, if◌then◌else◌, Bool, true, false, List, [], ◌∷◌, ◌++◌,
  Option, none, some, length, take, drop, replicate,
}
use hukong.Repeat.Bytes.{get, store, copy_at}
use hukong.Repeat.State.{
  DataType, data_setting, data_query, data_hukong, data_others, data_record, State, defaults,
}

abbrev pub place : DataType → ℕ
place data_setting = 0
place data_query = data_record
place data_hukong = 2 * data_record
place data_others = 3 * data_record

-- A seek beyond the end, and a write: the gap reads as zeros.
unfoldable pub write_at : List ℕ → ℕ → List ℕ → List ℕ
write_at file at bytes = copy_at (file ++ replicate (at + length bytes - length file) 0) at bytes

-- A file that cannot be opened for writing is left alone.
unfoldable pub save : Bool → DataType → List ℕ → ℕ → List ℕ → List ℕ
save opens type p_data n_len file =
    if opens then write_at file (place type) (take n_len p_data) else file

-- `lseek` and `read` into `temp`, as many bytes as the file has there.
unfoldable pub read_into : List ℕ → ℕ → List ℕ → List ℕ
read_into file at temp = copy_at temp 0 (take data_record (drop at file))

unfoldable pub any_set : List ℕ → Bool
any_set [] = false
any_set (b ∷ bs) = if b == 0 then any_set bs else true

-- The records are taken over if they hold anything.
unfoldable pub load : Option (List ℕ) → List ℕ → State → State
load none temp s = s
load (some file) temp s =
    let temp1 = read_into file (place data_setting) temp in
    let temp2 = read_into file (place data_hukong) temp1 in
    let others = take 1 (drop (place data_others) file) in
    record s {
      m_data_setting = if any_set temp1 then temp1 else s.m_data_setting;
      m_data_hukong = if any_set temp2 then temp2 else s.m_data_hukong;
      m_is_internet = elim others [ [] ↦ s.m_is_internet | b ∷ _ ↦ not (b == 0) ];
    }

-- A curtain table that is empty is set to the east.
abbrev pub facing : List ℕ → ℕ → List ℕ
facing binds i = if get binds i == 0 then store binds i 0xff else binds

unfoldable pub repeat_comm : Option (List ℕ) → List ℕ → State
repeat_comm file temp =
    let s = load file temp defaults in
    record s { m_data_hukong = facing (facing s.m_data_hukong 57) 58 }

unfoldable pub set_time_syn_internet : Bool → Bool → State → List ℕ → State × List ℕ
set_time_syn_internet opens internet s file = (
  record s { m_is_internet = internet },
  save opens data_others ((if internet then 1 else 0) ∷ []) 1 file,
)
