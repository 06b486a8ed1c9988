-- ===== src/Repeat/Run/Forward.antt =====
-- What `RepeatComm::Run` of src/repeat_comm.cpp passes on to the devices.
use hukong.Base.{
  take-append-drop, ◌-◌, drop-take, drop-add, ℕ, zero, suc, ◌+◌, ◌%◌, ◌≤◌, ◌<◌, ◌≡◌, refl, sym, ap,
  ◌∙◌, arith, List, [], ◌∷◌, ◌++◌, some, length, set, take, drop, length-set, ◌^◌, length-append,
  length-take, length-drop,
}
use hukong.Serial.Packet.{
  get_src_addr, get_dest_addr, get_type, get_function, checksum_at, calc_check_sum, build_packet,
  fill_packet, close_packet, write,
}
use hukong.Serial.Packet.Wire.{wire, body_of, build_packet-wire}
use hukong.Serial.Send.{get_data}
use hukong.Repeat.Bytes.{get, store}
use hukong.Repeat.Bytes.Stores.{get_or-set_self, get_or-set_ne}
use hukong.Repeat.Run.{address}

-- A write at `n` places behind the start of a part of `n` items leaves the part alone.
take-drop-set :
    (d n : ℕ) (xs : List ℕ) (v : ℕ) → take n (drop d (set xs (d + n) v)) ≡ take n (drop d xs)
unfolding take drop
take-drop-set zero zero xs v = refl
take-drop-set zero (suc n) [] v = refl
take-drop-set zero (suc n) (x ∷ xs) v =
    let e : 0 + suc n ≡ suc (0 + n) = omega arith in
    rw e (ap (λ l. x ∷ l) (take-drop-set zero n xs v))
take-drop-set (suc d) n [] v = refl
take-drop-set (suc d) n (x ∷ xs) v =
    let e : suc d + n ≡ suc (d + n) = omega arith in rw e (take-drop-set d n xs v)

-- The 262 bytes of a packet with a length byte that covers the addresses and codes.
abbrev pub IsFrame : List ℕ → Type 0
IsFrame p = (length p ≡ 262) × (5 ≤ get p 2) × (get p 2 < 256)

set-IsFrame : (p : List ℕ) (i v : ℕ) → 3 ≤ i → IsFrame p → IsFrame (set p i v)
set-IsFrame p i v behind (room, low, high) =
    let same : get (set p i v) 2 ≡ get p 2 = get_or-set_ne p i 2 v 0 (omega arith) in
    let size = length-set p i v in (omega arith, omega arith, omega arith)

pub store-IsFrame : (p : List ℕ) (i v : ℕ) → 3 ≤ i → IsFrame p → IsFrame (store p i v)
unfolding store
store-IsFrame p i v behind h = set-IsFrame p i (v % 2 ^ 8) behind h

length-write :
    (p : List ℕ) (at : ℕ) (bytes : List ℕ)
    → at + length bytes ≤ length p
    → length (write p at bytes) ≡ length p
unfolding write
length-write p at bytes h = omega (
  arith,
  length-append (take at p) (bytes ++ drop (at + length bytes) p),
  length-append bytes (drop (at + length bytes) p),
  length-take at p,
  length-drop (at + length bytes) p,
)

-- The packet that `BuildPacket` makes of two bytes of data.
pub build_two-IsFrame :
    (p : List ℕ) (src dest type function a b : ℕ)
    → length p ≡ 262
    → IsFrame (build_packet p src dest type function (some (a ∷ b ∷ []))).0
unfolding build_packet fill_packet close_packet
build_two-IsFrame p src dest type function a b room =
    let header = write p 0 (0xf7 ∷ 0xf8 ∷ 5 ∷ src ∷ dest ∷ type ∷ function ∷ []) in
    let l1 = length-write p 0 (0xf7 ∷ 0xf8 ∷ 5 ∷ src ∷ dest ∷ type ∷ function ∷ []) (omega arith) in
    let body = write header 7 (a ∷ b ∷ []) in
    let l2 = length-write header 7 (a ∷ b ∷ []) (omega arith) in
    let long : 2 < length body = omega arith in
    let sized = set body 2 7 in
    let seven : get sized 2 ≡ 7 = get_or-set_self body 2 7 0 long in
    let l3 = length-set body 2 7 in
    let framed : IsFrame sized = (omega arith, omega arith, omega arith) in
    let v = calc_check_sum sized in
    let at : checksum_at sized ≡ 9 = omega arith in
    let summed = set-IsFrame sized (checksum_at sized) v (omega arith) framed in
    set-IsFrame (set sized (checksum_at sized) v)
      (checksum_at (set sized (checksum_at sized) v) + 1) 253 (omega (arith, summed.1)) summed

drop-set_lt : (d i : ℕ) (xs : List ℕ) (v : ℕ) → i < d → drop d (set xs i v) ≡ drop d xs
unfolding drop
drop-set_lt zero i xs v h = absurd (omega arith)
drop-set_lt (suc d) i [] v h = refl
drop-set_lt (suc d) zero (x ∷ xs) v h = refl
drop-set_lt (suc d) (suc i) (x ∷ xs) v h = drop-set_lt d i xs v (omega arith)

-- What `transform_by_kongguan` takes from a packet.
pub record Parts (q : List ℕ) (src dest type function : ℕ) (bytes : List ℕ) : Type 0 where
  pub src_same : get_src_addr q ≡ src
  pub dest_same : get_dest_addr q ≡ dest
  pub type_same : get_type q ≡ type
  pub function_same : get_function q ≡ function
  pub bytes_same : get_data q ≡ bytes

pub Parts-along :
    {q : List ℕ} {src src' dest dest' type function : ℕ} {bytes bytes' : List ℕ}
    → Parts q src dest type function bytes
    → src ≡ src'
    → dest ≡ dest'
    → bytes ≡ bytes'
    → Parts q src' dest' type function bytes'
Parts-along parts s d b = record {
  src_same = parts.src_same ∙ s;
  dest_same = parts.dest_same ∙ d;
  type_same = parts.type_same;
  function_same = parts.function_same;
  bytes_same = parts.bytes_same ∙ b;
}

-- An addressed packet keeps its source, its destination and its data.
pub address-Parts :
    (type function : ℕ) (p : List ℕ)
    → IsFrame p
    → Parts (address type function p) (get_src_addr p) (get_dest_addr p) type function (get_data p)
unfolding address get_data
address-Parts type function p (room, low, high) =
    let typed = set p 5 type in
    let coded = set typed 6 function in
    let v = calc_check_sum coded in
    let k = checksum_at coded in
    let len : get coded 2 ≡ get p 2 =
      get_or-set_ne typed 6 2 function 0 (omega arith) ∙ get_or-set_ne p 5 2 type 0 (omega arith) in
    let l1 = length-set p 5 type in
    let n = get p 2 - 5 in
    let place : k ≡ 7 + n = omega (arith, len) in
    let length_same : get (set coded k v) 2 ≡ get p 2 =
      get_or-set_ne coded k 2 v 0 (omega (arith, len)) ∙ len in
    let count : (get (set coded k v) 2 + (2 ^ 8 - 5)) % 2 ^ 8 ≡ n = omega (arith, length_same) in
    let count' : (get p 2 + (2 ^ 8 - 5)) % 2 ^ 8 ≡ n = omega arith in
    let front : drop 7 coded ≡ drop 7 p =
      drop-set_lt 7 6 typed function (omega arith) ∙ drop-set_lt 7 5 p type (omega arith) in
    record {
      src_same =
          get_or-set_ne coded k 3 v 0 (omega (arith, len))
          ∙ get_or-set_ne typed 6 3 function 0 (omega arith)
          ∙ get_or-set_ne p 5 3 type 0 (omega arith);
      dest_same =
          get_or-set_ne coded k 4 v 0 (omega (arith, len))
          ∙ get_or-set_ne typed 6 4 function 0 (omega arith)
          ∙ get_or-set_ne p 5 4 type 0 (omega arith);
      type_same =
          get_or-set_ne coded k 5 v 0 (omega (arith, len))
          ∙ get_or-set_ne typed 6 5 function 0 (omega arith)
          ∙ get_or-set_self p 5 type 0 (omega arith);
      function_same =
          get_or-set_ne coded k 6 v 0 (omega (arith, len))
          ∙ get_or-set_self typed 6 function 0 (omega arith);
      bytes_same =
          ap (λ m. take m (drop 7 (set coded k v))) count
          ∙ ap (λ i. take n (drop 7 (set coded i v))) place
          ∙ take-drop-set 7 n coded v
          ∙ ap (take n) front
          ∙ ap (λ m. take m (drop 7 p)) (sym count');
    }

-- A store to byte 7 or behind keeps the addresses of a packet, and the data behind that byte.
pub store-kept :
    (p : List ℕ) (i v : ℕ)
    → 7 ≤ i
    → (get_src_addr (store p i v) ≡ get_src_addr p)
      × (get_dest_addr (store p i v) ≡ get_dest_addr p)
      × (drop (i - 6) (get_data (store p i v)) ≡ drop (i - 6) (get_data p))
unfolding store get_data
store-kept p i v h =
    let b = v % 2 ^ 8 in
    let n = (get p 2 + (2 ^ 8 - 5)) % 2 ^ 8 in
    let len : get (set p i b) 2 ≡ get p 2 = get_or-set_ne p i 2 b 0 (omega arith) in
    let place : 7 + (i - 6) ≡ suc i = omega arith in
    let back : (xs : List ℕ)
        → drop (i - 6) (take n (drop 7 xs)) ≡ take (n - (i - 6)) (drop (suc i) xs) =
      λ xs.
        drop-take (i - 6) n (drop 7 xs)
        ∙ ap (take (n - (i - 6))) (sym (drop-add 7 (i - 6) xs) ∙ ap (λ k. drop k xs) place) in
    (
      get_or-set_ne p i 3 b 0 (omega arith),
      get_or-set_ne p i 4 b 0 (omega arith),
      ap (λ m. drop (i - 6) (take ((m + (2 ^ 8 - 5)) % 2 ^ 8) (drop 7 (set p i b)))) len
          ∙ back (set p i b)
          ∙ ap (take (n - (i - 6))) (drop-set_lt (suc i) i p b (omega arith))
          ∙ sym (back p),
    )

-- The packet that `BuildPacket` makes of two bytes carries them.
pub build_two-kept :
    (p : List ℕ) (src dest type function a b : ℕ)
    → length p ≡ 262
    → let q = (build_packet p src dest type function (some (a ∷ b ∷ []))).0 in
      (get_src_addr q ≡ src) × (get_dest_addr q ≡ dest) × (get_data q ≡ a ∷ b ∷ [])
unfolding get_data wire take drop
build_two-kept p src dest type function a b room =
    let made = build_packet p src dest type function (some (a ∷ b ∷ [])) in
    let front =
      (build_packet-wire p src dest type function (some (a ∷ b ∷ [])) room (omega arith)).0 in
    let e : made.0
        ≡ wire (body_of src dest type function (some (a ∷ b ∷ []))) ++ drop made.1 made.0 =
      sym (take-append-drop made.1 made.0) ∙ ap (λ l. l ++ drop made.1 made.0) front in
    (ap get_src_addr e, ap get_dest_addr e, ap get_data e)
