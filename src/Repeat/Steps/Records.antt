-- ===== src/Repeat/Steps/Records.antt =====
-- The operations of src/repeat_comm.cpp on one record: its size stays, and its items stay bytes.
use hukong.Base.{
  ℕ, ◌+◌, ◌/◌, ◌≤◌, ◌<◌, ◌==◌, if◌then◌else◌, ◌≡◌, refl, ◌∙◌, ◌≢◌, arith, Bool-cases, if-keeps, inl,
  inr, List, length, take, min, IsBytes, All-take, length-take,
}
use hukong.Serial.Packet.{get_packet_len}
use hukong.Repeat.Bytes.{get, set_bit, set_bits, store, copy_at}
use hukong.Repeat.Bytes.Stores.{
  get-store, get-store_ne, length-store, store-IsBytes, length-copy_at, copy_at-IsBytes,
}
use hukong.Repeat.State.{data_record, store_bit, store_bits, store_word}
use hukong.Repeat.Inner.Setting.{record_of, dust, gere, zhaoming, restore}
use hukong.Repeat.Inner.Binding.{clamp, at_least_one, checked}

abbrev pub IsRecord : List ℕ → Type 0
IsRecord bytes = (length bytes ≡ 300) × IsBytes bytes

pub store-IsRecord : (b : List ℕ) (i v : ℕ) → IsRecord b → IsRecord (store b i v)
store-IsRecord b i v h = (length-store b i v ∙ h.0, store-IsBytes b i v h.1)

pub store_bits-IsRecord :
    (b : List ℕ) (i begin end v : ℕ) → IsRecord b → IsRecord (store_bits b i begin end v)
unfolding store_bits
store_bits-IsRecord b i begin end v h = store-IsRecord b i (set_bits (get b i) begin end v) h

pub store_bit-IsRecord : (b : List ℕ) (i seq v : ℕ) → IsRecord b → IsRecord (store_bit b i seq v)
unfolding store_bit
store_bit-IsRecord b i seq v h = store-IsRecord b i (set_bit (get b i) seq v) h

pub store_word-IsRecord : (b : List ℕ) (i w : ℕ) → IsRecord b → IsRecord (store_word b i w)
unfolding store_word
store_word-IsRecord b i w h =
    store-IsRecord (store b i w) (i + 1) (w / 256) (store-IsRecord b i w h)

pub copy_at-IsRecord :
    (b : List ℕ) (at : ℕ) (from : List ℕ)
    → at + length from ≤ 300
    → IsBytes from
    → IsRecord b
    → IsRecord (copy_at b at from)
copy_at-IsRecord b at from fits bytes h =
    (length-copy_at b at from (omega arith) ∙ h.0, copy_at-IsBytes b at from h.1 bytes)

pub record_of-IsRecord :
    (packet b : List ℕ) → IsBytes packet → IsRecord b → IsRecord (record_of packet b)
unfolding record_of
record_of-IsRecord packet b bytes h =
    let n = min (get_packet_len packet) data_record in
    let P : ℕ → Type 0 = λ x. x < 256 in
    copy_at-IsRecord b 0 (take n packet) (omega (arith, length-take n packet))
      (All-take P n packet bytes) h

pub restore-IsRecord : (packet old b : List ℕ) → IsRecord b → IsRecord (restore packet old b)
unfolding restore
restore-IsRecord packet old b h =
    let dusted = if dust packet == 0 then store_bits b 7 5 7 (dust old) else b in
    let closed = if gere packet == 0 then store_bits dusted 8 0 2 (gere old) else dusted in
    let d : IsRecord dusted =
      if-keeps IsRecord (dust packet == 0) (store_bits b 7 5 7 (dust old)) b
        (store_bits-IsRecord b 7 5 7 (dust old) h) h in
    let c : IsRecord closed =
      if-keeps IsRecord (gere packet == 0) (store_bits dusted 8 0 2 (gere old)) dusted
        (store_bits-IsRecord dusted 8 0 2 (gere old) d) d in
    if-keeps IsRecord (zhaoming packet == 0) (store_bits closed 8 3 5 (zhaoming old)) closed
      (store_bits-IsRecord closed 8 3 5 (zhaoming old) c) c

clamp-IsRecord : (b : List ℕ) (i last : ℕ) → IsRecord b → IsRecord (clamp b i last)
unfolding clamp
clamp-IsRecord b i last h = store-IsRecord b i (min (get b i) last) h

at_least_one-IsRecord : (b : List ℕ) (i : ℕ) → IsRecord b → IsRecord (at_least_one b i)
unfolding at_least_one
at_least_one-IsRecord b i h =
    if-keeps IsRecord (get b i == 0) (store b i 1) b (store-IsRecord b i 1 h) h

get-clamp :
    (b : List ℕ) (i last : ℕ) → IsRecord b → i < 300 → last < 256 → get (clamp b i last) i ≤ last
unfolding clamp
get-clamp b i last h inside small =
    let e = get-store b i (min (get b i) last) (omega arith) in omega (arith, e)

get-clamp_ne : (b : List ℕ) (i j last : ℕ) → i ≢ j → get (clamp b i last) j ≡ get b j
unfolding clamp
get-clamp_ne b i j last ne = get-store_ne b i j (min (get b i) last) ne

get-at_least_one :
    (b : List ℕ) (i last : ℕ)
    → IsRecord b
    → i < 300
    → 1 ≤ last
    → get b i ≤ last
    → (1 ≤ get (at_least_one b i) i) × (get (at_least_one b i) i ≤ last)
unfolding at_least_one
get-at_least_one b i last h inside some few = elim (Bool-cases (get b i == 0)) [
  | inl e ↦ rw e (rw (get-store b i 1 (omega arith)) (omega arith, omega arith))
  | inr e ↦ rw e (let more : 1 ≤ get b i = ground arith in (more, few))
]

get-at_least_one_ne : (b : List ℕ) (i j : ℕ) → i ≢ j → get (at_least_one b i) j ≡ get b j
unfolding at_least_one
get-at_least_one_ne b i j ne = elim (Bool-cases (get b i == 0)) [
  | inl e ↦ rw e (get-store_ne b i j 1 ne)
  | inr e ↦ rw e refl
]

-- A floor and a room that make an address.
abbrev pub IsPlaced : List ℕ → Type 0
IsPlaced b = IsRecord b × (1 ≤ get b 65) × (get b 65 ≤ 250) × (1 ≤ get b 66) × (get b 66 ≤ 220)

pub checked-IsPlaced : (b : List ℕ) → IsRecord b → IsPlaced (checked b)
unfolding checked
checked-IsPlaced b h =
    let c1 = clamp b 59 8 in
    let h1 = clamp-IsRecord b 59 8 h in
    let c2 = clamp c1 60 8 in
    let h2 = clamp-IsRecord c1 60 8 h1 in
    let c3 = clamp c2 61 8 in
    let h3 = clamp-IsRecord c2 61 8 h2 in
    let c4 = clamp c3 62 4 in
    let h4 = clamp-IsRecord c3 62 4 h3 in
    let c5 = clamp c4 63 34 in
    let h5 = clamp-IsRecord c4 63 34 h4 in
    let c6 = clamp c5 64 34 in
    let h6 = clamp-IsRecord c5 64 34 h5 in
    let c7 = clamp c6 65 250 in
    let h7 = clamp-IsRecord c6 65 250 h6 in
    let c8 = clamp c7 66 220 in
    let h8 = clamp-IsRecord c7 66 220 h7 in
    let r = at_least_one c8 65 in
    let hr = at_least_one-IsRecord c8 65 h8 in
    let floor_small : get r 66 ≤ 220 =
      rw (get-at_least_one_ne c8 65 66 (omega arith))
        (get-clamp c7 66 220 h7 (omega arith) (omega arith)) in
    let room_small : get c8 65 ≤ 250 =
      rw (get-clamp_ne c7 66 65 220 (omega arith))
        (get-clamp c6 65 250 h6 (omega arith) (omega arith)) in
    let (r1, r2) = get-at_least_one c8 65 250 h8 (omega arith) (omega arith) room_small in
    let (f1, f2) = get-at_least_one r 66 220 hr (omega arith) (omega arith) floor_small in
    let same = get-at_least_one_ne r 66 65 (omega arith) in
    (at_least_one-IsRecord r 66 hr, rw same r1, rw same r2, f1, f2)
