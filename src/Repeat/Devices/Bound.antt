-- ===== src/Repeat/Devices/Bound.antt =====
-- Which devices `HumanSenToDev` of src/repeat_comm.cpp finds, and how many it writes.
use hukong.Base.{
  ℕ, zero, suc, ◌+◌, ◌*◌, ◌/◌, ◌%◌, ◌≤◌, ◌<◌, ◌==◌, leb, ◌&&◌, if◌then◌else◌, Bool, true, false,
  ◌≡◌, refl, sym, ◌∙◌, arith, List, [], ◌∷◌, ◌++◌, length, length-append, append_assoc, append-nil,
}
use hukong.Repeat.Bytes.{get, get_bits}
use hukong.Repeat.Bytes.Halves.{half, half_low, half_high}
use hukong.Repeat.State.{State}
use hukong.Repeat.Devices.{Written, light_at, xinfeng_at, lights, xinfengs, human_sen_to_dev}

-- The entries of a table that hold the number, each as the device it stands for.
unfoldable pub bound : (ℕ → Written) → List ℕ → ℕ → ℕ → ℕ → ℕ → List Written
bound device binds base id k zero = []
bound device binds base id k (suc n) =
    let rest = bound device binds base id (k + 1) n in
    if half binds base k == id then device k ∷ rest else rest

-- Six sensors of a light box, and the units in their order.
abbrev pub bound_light : ℕ → Written
bound_light k = light_at (k / 6 + 1) (k % 6 + 1)

abbrev pub bound_xinfeng : ℕ → Written
bound_xinfeng k = xinfeng_at (k + 1)

add_if_append :
    (b : Bool) (xs ys : List Written) (x : Written)
    → (if b then xs ++ x ∷ [] else xs) ++ ys ≡ xs ++ (if b then x ∷ ys else ys)
add_if_append true xs ys x = append_assoc xs (x ∷ []) ys
add_if_append false xs ys x = refl

length-add_if :
    (b : Bool) (xs : List Written) (x : Written)
    → length (if b then xs ++ x ∷ [] else xs) ≤ length xs + 1
length-add_if true xs x = omega (arith, length-append xs (x ∷ []))
length-add_if false xs x = omega arith

-- A loop that has room is not cut short.
roomy : (b : Bool) (n k : ℕ) → k < n → (b && leb n k) ≡ false
roomy true n k h = ground arith
roomy false n k h = refl

-- Two entries that are added behind a list stand before what follows.
two_entries :
    (a b : Bool) (x y : Written) (xs ys : List Written)
    → (if b then (if a then xs ++ x ∷ [] else xs) ++ y ∷ [] else (if a then xs ++ x ∷ [] else xs))
        ++ ys
      ≡ xs ++ (let rest = if b then y ∷ ys else ys in if a then x ∷ rest else rest)
two_entries a b x y xs ys =
    add_if_append b (if a then xs ++ x ∷ [] else xs) ys y
    ∙ add_if_append a xs (if b then y ∷ ys else ys) x

-- Two rounds of the table, and one of the loop.
bound_two :
    (device : ℕ → Written) (binds : List ℕ) (base id i n : ℕ)
    → bound device binds base id (2 * i) (2 * suc n) ≡ (
        let rest = bound device binds base id (2 * (i + 1)) (2 * n) in
        let second =
          if get_bits (get binds (base + i)) 4 7 == id then device (2 * i + 1) ∷ rest else rest in
        if get_bits (get binds (base + i)) 0 3 == id then device (2 * i) ∷ second else second)
unfolding bound
bound_two device binds base id i n =
    let steps : 2 * suc n ≡ suc (suc (2 * n)) = omega arith in
    let next : 2 * i + 1 + 1 ≡ 2 * (i + 1) = omega arith in
    rw (steps, half_low binds base i, half_high binds base i, next) refl

lights_bound :
    (binds : List ℕ) (id n_len n i : ℕ) (found : List Written)
    → length found + 2 * n < n_len
    → lights binds id n_len i n found ≡ found ++ bound bound_light binds 25 id (2 * i) (2 * n)
unfolding lights bound
lights_bound binds id n_len zero i found h = sym (append-nil found)
lights_bound binds id n_len (suc n) i found h =
    let low = get_bits (get binds (25 + i)) 0 3 == id in
    let found1 = if low then found ++ light_at (i / 3 + 1) (i % 3 * 2 + 1) ∷ [] else found in
    let high = get_bits (get binds (25 + i)) 4 7 == id in
    let found2 = if high then found1 ++ light_at (i / 3 + 1) (i % 3 * 2 + 2) ∷ [] else found1 in
    let l1 = length-add_if low found (light_at (i / 3 + 1) (i % 3 * 2 + 1)) in
    let l2 = length-add_if high found1 (light_at (i / 3 + 1) (i % 3 * 2 + 2)) in
    let box : 2 * i / 6 + 1 ≡ i / 3 + 1 = omega arith in
    let box1 : (2 * i + 1) / 6 + 1 ≡ i / 3 + 1 = omega arith in
    let seq : 2 * i % 6 + 1 ≡ i % 3 * 2 + 1 = omega arith in
    let seq1 : (2 * i + 1) % 6 + 1 ≡ i % 3 * 2 + 2 = omega arith in
    rw
      (
        roomy low n_len (length found1) (omega arith),
        roomy high n_len (length found2) (omega arith),
      )
      (lights_bound binds id n_len n (i + 1) found2 (omega arith)
        ∙ rw (bound_two bound_light binds 25 id i n, box, box1, seq, seq1)
            (two_entries low high (light_at (i / 3 + 1) (i % 3 * 2 + 1))
              (light_at (i / 3 + 1) (i % 3 * 2 + 2)) found
              (bound bound_light binds 25 id (2 * (i + 1)) (2 * n))))

xinfengs_bound :
    (binds : List ℕ) (id n_len n i : ℕ) (found : List Written)
    → length found + 2 * n < n_len
    → xinfengs binds id n_len i n found ≡ found ++ bound bound_xinfeng binds 53 id (2 * i) (2 * n)
unfolding xinfengs bound
xinfengs_bound binds id n_len zero i found h = sym (append-nil found)
xinfengs_bound binds id n_len (suc n) i found h =
    let low = get_bits (get binds (53 + i)) 0 3 == id in
    let found1 = if low then found ++ xinfeng_at (i * 2 + 1) ∷ [] else found in
    let high = get_bits (get binds (53 + i)) 4 7 == id in
    let found2 = if high then found1 ++ xinfeng_at (i * 2 + 2) ∷ [] else found1 in
    let l1 = length-add_if low found (xinfeng_at (i * 2 + 1)) in
    let l2 = length-add_if high found1 (xinfeng_at (i * 2 + 2)) in
    let seq : 2 * i + 1 ≡ i * 2 + 1 = omega arith in
    let seq1 : 2 * i + 1 + 1 ≡ i * 2 + 2 = omega arith in
    rw
      (
        roomy low n_len (length found1) (omega arith),
        roomy high n_len (length found2) (omega arith),
      )
      (xinfengs_bound binds id n_len n (i + 1) found2 (omega arith)
        ∙ rw (bound_two bound_xinfeng binds 53 id i n, seq1, seq)
            (two_entries low high (xinfeng_at (i * 2 + 1)) (xinfeng_at (i * 2 + 2)) found
              (bound bound_xinfeng binds 53 id (2 * (i + 1)) (2 * n))))

length-bound :
    (device : ℕ → Written) (binds : List ℕ) (base id n k : ℕ)
    → length (bound device binds base id k n) ≤ n
unfolding bound
length-bound device binds base id zero k = omega arith
length-bound device binds base id (suc n) k =
    let deeper = length-bound device binds base id n (k + 1) in ground arith

-- With a sensor group from 0 to 8 and an array of more than 56 entries, exactly the bound devices
-- are written, in the order of the tables: first the lights of the 48 entries from byte 25 on that
-- hold the number (entry k is sensor k % 6 + 1 of box k / 6 + 1), then the fresh-air units of the
-- eight entries from byte 53 on.
pub human_sen_to_dev-bound :
    (s : State) (id n_len : ℕ)
    → id ≤ 8
    → 56 < n_len
    → human_sen_to_dev id n_len s
      ≡ bound bound_light s.m_data_hukong 25 id 0 48
        ++ bound bound_xinfeng s.m_data_hukong 53 id 0 8
unfolding human_sen_to_dev
human_sen_to_dev-bound s id n_len small room =
    let binds = s.m_data_hukong in
    let group : leb id 8 ≡ true = ground arith in
    let few = length-bound bound_light binds 25 id 48 0 in
    rw (group, lights_bound binds id n_len 24 0 [] (omega arith))
      (xinfengs_bound binds id n_len 4 0 (bound bound_light binds 25 id 0 48) (omega arith))

-- When the lights alone fill an array of at least one entry, and the first fresh-air unit is bound
-- to the sensor group (at most 8), an entry is written behind the end of the array.
pub human_sen_to_dev_overruns :
    (s : State) (id n_len : ℕ)
    → id ≤ 8
    → 1 ≤ n_len
    → n_len ≤ length (lights s.m_data_hukong id n_len 0 24 [])
    → half s.m_data_hukong 53 0 ≡ id
    → n_len < length (human_sen_to_dev id n_len s)
unfolding human_sen_to_dev xinfengs
human_sen_to_dev_overruns s id n_len small some full first =
    let binds = s.m_data_hukong in
    let group : leb id 8 ≡ true = ground arith in
    let filled = lights binds id n_len 0 24 [] in
    let hit : (get_bits (get binds 53) 0 3 == id) ≡ true = ground arith in
    let longer = length-append filled (xinfeng_at 1 ∷ []) in
    let over : leb n_len (length (filled ++ xinfeng_at 1 ∷ [])) ≡ true = ground arith in
    rw (group, hit, over) (omega arith)
