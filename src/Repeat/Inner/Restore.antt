-- ===== src/Repeat/Inner/Restore.antt =====
-- What the request 0x81 of `InnerProcess`, src/repeat_comm.cpp, does to the energy-saving times.
use hukong.Base.{
  ℕ, zero, suc, ◌≤◌, ◌<◌, ◌==◌, if◌then◌else◌, ◌≡◌, refl, ap, ◌∙◌, arith, Bool-cases, inl, inr,
  List, length, take, min, IsBytes, length-take, [], ◌∷◌, if-keeps,
}
use hukong.Serial.Packet.{get_packet_len}
use hukong.Repeat.Bytes.{get, copy_at}
use hukong.Repeat.Bytes.Stores.{get-copy_at_start}
use hukong.Repeat.State.{State, data_record, store_bits}
use hukong.Repeat.Settings.ReadBack.{fields, fields-light, fields-curtain, fields-dust, triple}
use hukong.Repeat.Inner.Setting.{record_of, dust, gere, zhaoming, restore, set_frame}
use hukong.Repeat.Steps.Records.{IsRecord, store_bits-IsRecord, record_of-IsRecord}

-- A field of zero leaves the old value.
abbrev pub pick : ℕ → ℕ → ℕ
pick new old = if new == 0 then old else new

abbrev pub pick_all : ℕ × ℕ × ℕ → ℕ × ℕ × ℕ → ℕ × ℕ × ℕ
pick_all new old = (pick new.0 old.0, pick new.1 old.1, pick new.2 old.2)

get-take : (n i : ℕ) (xs : List ℕ) → i < n → get (take n xs) i ≡ get xs i
unfolding take
get-take zero i xs h = absurd (omega arith)
get-take (suc n) i [] h = refl
get-take (suc n) zero (x ∷ xs) h = refl
get-take (suc n) (suc i) (x ∷ xs) h = get-take n i xs (omega arith)

-- The record takes the fields of a packet that is long enough to have them.
fields-record_of :
    (packet b : List ℕ)
    → 9 ≤ length packet
    → 9 ≤ get_packet_len packet
    → fields (record_of packet b) ≡ fields packet
unfolding record_of
fields-record_of packet b long full =
    let n = min (get_packet_len packet) data_record in
    let l = length-take n packet in
    let at : (i : ℕ) → i < 9 → get (copy_at b 0 (take n packet)) i ≡ get packet i = λ i h.
      get-copy_at_start b (take n packet) i (omega arith) ∙ get-take n i packet (omega arith) in
    rw (at 7 (omega arith), at 8 (omega arith)) refl

module _ (packet old b : List ℕ) (h : IsRecord b) (same : fields b ≡ fields packet) where
  dusted : List ℕ
  dusted = if dust packet == 0 then store_bits b 7 5 7 (dust old) else b

  fields-dusted :
      fields dusted ≡ ((fields packet).0, (fields packet).1, pick (dust packet) (dust old))
  unfolding dusted
  fields-dusted = elim (Bool-cases (dust packet == 0)) [
    | inl e ↦ rw e (
        fields-dust b (omega arith) h.1 (dust old) (omega arith)
        ∙ triple (ap (λ (f : ℕ × ℕ × ℕ). f.0) same) (ap (λ (f : ℕ × ℕ × ℕ). f.1) same) refl)
    | inr e ↦ rw e same
  ]

  dusted-IsRecord : IsRecord dusted
  unfolding dusted
  dusted-IsRecord =
      if-keeps IsRecord (dust packet == 0) (store_bits b 7 5 7 (dust old)) b
        (store_bits-IsRecord b 7 5 7 (dust old) h) h

  closed : List ℕ
  closed = if gere packet == 0 then store_bits dusted 8 0 2 (gere old) else dusted

  fields-closed :
      fields closed
      ≡ ((fields packet).0, pick (gere packet) (gere old), pick (dust packet) (dust old))
  unfolding closed
  fields-closed = elim (Bool-cases (gere packet == 0)) [
    | inl e ↦ rw e (
        fields-curtain dusted (omega (arith, dusted-IsRecord.0)) dusted-IsRecord.1 (gere old)
          (omega arith)
        ∙ triple (ap (λ (f : ℕ × ℕ × ℕ). f.0) fields-dusted) refl
            (ap (λ (f : ℕ × ℕ × ℕ). f.2) fields-dusted))
    | inr e ↦ rw e fields-dusted
  ]

  closed-IsRecord : IsRecord closed
  unfolding closed
  closed-IsRecord =
      if-keeps IsRecord (gere packet == 0) (store_bits dusted 8 0 2 (gere old)) dusted
        (store_bits-IsRecord dusted 8 0 2 (gere old) dusted-IsRecord) dusted-IsRecord

  fields-restore : fields (restore packet old b) ≡ pick_all (fields packet) (fields old)
  unfolding restore dusted closed
  fields-restore = elim (Bool-cases (zhaoming packet == 0)) [
    | inl e ↦ rw e (
        fields-light closed (omega (arith, closed-IsRecord.0)) closed-IsRecord.1 (zhaoming old)
          (omega arith)
        ∙ triple refl (ap (λ (f : ℕ × ℕ × ℕ). f.1) fields-closed)
            (ap (λ (f : ℕ × ℕ × ℕ). f.2) fields-closed))
    | inr e ↦ rw e fields-closed
  ]

-- A set request of at least nine bytes, on settings of 300 bytes: each of the three energy-saving
-- fields (lights, curtain, dust) becomes that of the request, unless it is zero there; then it stays
-- what it was.
pub set_frame-fields :
    (packet : List ℕ) (s : State)
    → IsBytes packet
    → 9 ≤ length packet
    → 9 ≤ get_packet_len packet
    → IsRecord s.m_data_setting
    → fields (set_frame packet s).0.m_data_setting
      ≡ pick_all (fields packet) (fields s.m_data_setting)
unfolding set_frame
set_frame-fields packet s bytes long full h =
    let old = s.m_data_setting in
    fields-restore packet old (record_of packet old) (record_of-IsRecord packet old bytes h)
      (fields-record_of packet old long full)
