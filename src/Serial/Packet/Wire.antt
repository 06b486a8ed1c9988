-- ===== src/Serial/Packet/Wire.antt =====
-- What `BuildPacket` of src/protocol/protocol_packet.cpp puts on the wire.
use hukong.Base.{
  ℕ, suc, ◌+◌, ◌%◌, ◌^◌, ◌≤◌, ◌<◌, ◌≡◌, sym, ap, ◌∙◌, arith, List, [], ◌∷◌, ◌++◌, Option, none,
  some, length, set, take, drop, length-append, length-drop, append_assoc, take-append, set-append,
  drop-add, set-append_next, first_two,
}
use hukong.Serial.Packet.{
  packet_end, checksum_at, check_sum, calc_check_sum, write, fill_packet, close_packet,
  build_packet,
}

-- What the checksum covers: a length byte that counts itself, and at least the four bytes of
-- addresses and codes behind it.
abbrev pub IsBody : List ℕ → Type 0
IsBody [] = ⊥
IsBody (len ∷ rest) = (len ≡ suc (length rest)) × (5 ≤ len) × (len < 2 ^ 8)

-- The layout that the header of protocol_packet.h draws.
unfoldable pub wire : List ℕ → List ℕ
wire body = 0xf7 ∷ 0xf8 ∷ (body ++ check_sum body ∷ packet_end ∷ [])

pub length-wire : (body : List ℕ) → length (wire body) ≡ length body + 4
unfolding wire
length-wire body = omega (arith, length-append body (check_sum body ∷ packet_end ∷ []))

pub wire-append :
    (body rest : List ℕ)
    → 0xf7 ∷ 0xf8 ∷ (body ++ check_sum body ∷ packet_end ∷ rest) ≡ wire body ++ rest
unfolding wire
wire-append body rest =
    ap (λ l. 0xf7 ∷ 0xf8 ∷ l) (sym (append_assoc body (check_sum body ∷ packet_end ∷ []) rest))

abbrev pub payload : Option (List ℕ) → List ℕ
payload none = []
payload (some bytes) = bytes

abbrev pub body_of : ℕ → ℕ → ℕ → ℕ → Option (List ℕ) → List ℕ
body_of src dest type function p_data =
    (5 + length (payload p_data)) ∷ src ∷ dest ∷ type ∷ function ∷ payload p_data

pub body_of-IsBody :
    (src dest type function : ℕ) (p_data : Option (List ℕ))
    → length (payload p_data) ≤ 250
    → IsBody (body_of src dest type function p_data)
body_of-IsBody src dest type function p_data h = (omega arith, omega arith, omega arith)

-- The checksum of memory that starts with a body is that of the body.
pub calc_check_sum-body :
    (h0 h1 : ℕ) (body rest : List ℕ)
    → IsBody body
    → calc_check_sum (h0 ∷ h1 ∷ (body ++ rest)) ≡ check_sum body
unfolding calc_check_sum drop
calc_check_sum-body h0 h1 [] rest v = absurd v
calc_check_sum-body h0 h1 (len ∷ body) rest v =
    ap check_sum (ap (λ n. take n (len ∷ (body ++ rest))) v.0 ∙ take-append (len ∷ body) rest)

close_packet-body :
    (h0 h1 : ℕ) (body : List ℕ) (r0 r1 : ℕ) (rest : List ℕ)
    → IsBody body
    → close_packet (h0 ∷ h1 ∷ (body ++ r0 ∷ r1 ∷ rest))
      ≡ h0 ∷ h1 ∷ (body ++ check_sum body ∷ packet_end ∷ rest)
unfolding close_packet
close_packet-body h0 h1 [] r0 r1 rest v = absurd v
close_packet-body h0 h1 (len ∷ body) r0 r1 rest v =
    ap (λ p. set p (checksum_at p + 1) packet_end) summed
    ∙ ap (λ n. set (pre ++ sum ∷ r1 ∷ rest) n packet_end) next_place
    ∙ set-append_next pre rest sum r1 packet_end
  where
    pre : List ℕ
    pre = h0 ∷ h1 ∷ len ∷ body

    sum : ℕ
    sum = check_sum (len ∷ body)

    next_place : len + 2 + 1 ≡ length pre + 1
    next_place = omega (arith, v.0)

    place : len + 2 ≡ length pre
    place = omega (arith, v.0)

    summed :
        set (pre ++ r0 ∷ r1 ∷ rest) (len + 2) (calc_check_sum (pre ++ r0 ∷ r1 ∷ rest))
        ≡ pre ++ sum ∷ r1 ∷ rest
    summed =
        ap (λ n. set (pre ++ r0 ∷ r1 ∷ rest) n (calc_check_sum (pre ++ r0 ∷ r1 ∷ rest))) place
        ∙ set-append pre (r1 ∷ rest) r0 _
        ∙ ap (λ c. pre ++ c ∷ r1 ∷ rest) (calc_check_sum-body h0 h1 (len ∷ body) (r0 ∷ r1 ∷ rest) v)

mod_small : (n : ℕ) → n ≤ 250 → (5 + n) % 2 ^ 8 ≡ 5 + n
mod_small n h = omega arith

-- The fields and the data, over any memory of the struct.
fill_packet-body :
    (p : List ℕ) (src dest type function : ℕ) (p_data : Option (List ℕ))
    → length p ≡ 262
    → length (payload p_data) ≤ 250
    → (r0 r1 : ℕ) × (rest : List ℕ) × (fill_packet p src dest type function p_data
        ≡ 0xf7 ∷ 0xf8 ∷ (body_of src dest type function p_data ++ r0 ∷ r1 ∷ rest))
      × (length rest + length (payload p_data) ≡ 253)
unfolding fill_packet write take drop
fill_packet-body p src dest type function none h k =
    let (r0, r1, rest, split, size) = first_two (drop 7 p) (omega (arith, length-drop 7 p)) in
    (
      r0,
      r1,
      rest,
      ap (λ l. 0xf7 ∷ 0xf8 ∷ 5 ∷ src ∷ dest ∷ type ∷ function ∷ l) split,
      omega (arith, size, length-drop 7 p),
    )
fill_packet-body p src dest type function (some bytes) h k =
    let n = length bytes in
    let (r0, r1, rest, split, size) =
      first_two (drop n (drop 7 p)) (omega (arith, length-drop 7 p, length-drop n (drop 7 p))) in
    (
      r0,
      r1,
      rest,
      ap
            (λ l.
              0xf7
              ∷ 0xf8
              ∷ l
              ∷ src
              ∷ dest
              ∷ type
              ∷ function
              ∷ (bytes ++ drop (7 + n) (0xf7 ∷ 0xf8 ∷ 5 ∷ src ∷ dest ∷ type ∷ function ∷ drop 7 p)))
            (mod_small n k)
          ∙ ap (λ l. 0xf7 ∷ 0xf8 ∷ (5 + n) ∷ src ∷ dest ∷ type ∷ function ∷ (bytes ++ l))
              (drop-add 7 n (0xf7 ∷ 0xf8 ∷ 5 ∷ src ∷ dest ∷ type ∷ function ∷ drop 7 p) ∙ split),
      omega (arith, size, length-drop 7 p, length-drop n (drop 7 p)),
    )

-- With up to 250 bytes of data `BuildPacket` sends the layout: the head, a length that counts itself
-- up to the data, addresses, codes, data, checksum, end mark. The struct keeps its 262 bytes.
pub build_packet-wire :
    (p : List ℕ) (src dest type function : ℕ) (p_data : Option (List ℕ))
    → length p ≡ 262
    → length (payload p_data) ≤ 250
    → (take
          (build_packet p src dest type function p_data).1
          (build_packet p src dest type function p_data).0
        ≡ wire (body_of src dest type function p_data))
      × (length (build_packet p src dest type function p_data).0 ≡ 262)
unfolding build_packet
build_packet-wire p src dest type function p_data h k =
    let (r0, r1, rest, filled, size) = fill_packet-body p src dest type function p_data h k in
    let closed =
      ap close_packet filled
      ∙ close_packet-body 0xf7 0xf8 body r0 r1 rest
          (body_of-IsBody src dest type function p_data k) in
    rw closed (
      ap (λ l. take (5 + length (payload p_data) + 4) l) (wire-append body rest)
          ∙ ap (λ n. take n (wire body ++ rest)) (whole (payload p_data))
          ∙ take-append (wire body) rest,
      omega (arith, length-append (payload p_data) (check_sum body ∷ packet_end ∷ rest), size),
    )
  where
    body : List ℕ
    body = body_of src dest type function p_data

    whole :
        (bs : List ℕ)
        → 5 + length bs + 4 ≡ length (wire ((5 + length bs) ∷ src ∷ dest ∷ type ∷ function ∷ bs))
    whole bs = omega (arith, length-wire ((5 + length bs) ∷ src ∷ dest ∷ type ∷ function ∷ bs))
