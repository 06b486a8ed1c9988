-- ===== src/Repeat/File/Load.antt =====
-- What `Load` of src/repeat_comm.cpp makes of a file that `Save` has written.
use hukong.Base.{
  ℕ, zero, suc, ◌+◌, ◌-◌, ◌≤◌, ◌==◌, true, ◌≡◌, refl, sym, ap, ◌∙◌, arith, Bool-cases, inl, inr,
  List, [], ◌∷◌, ◌++◌, some, length, take, drop, replicate, length-append, length-take,
  length-replicate, drop-append, take-append, drop_all, append_assoc,
}
use hukong.Repeat.Bytes.{copy_at}
use hukong.Repeat.State.{data_setting, data_hukong, data_record, State}
use hukong.Repeat.File.{write_at, save, read_into, any_set, load}

-- Nothing is read behind the end.
read_into_end :
    (file : List ℕ) (at : ℕ) (temp : List ℕ) → length file ≤ at → read_into file at temp ≡ temp
unfolding read_into copy_at take drop
read_into_end file at temp h = rw (drop_all at file h) refl

-- A write leaves its bytes at its place, whatever the file was.
drop-write_at :
    (file : List ℕ) (at : ℕ) (bytes : List ℕ)
    → (rest : List ℕ) × (drop at (write_at file at bytes) ≡ bytes ++ rest)
unfolding write_at copy_at
drop-write_at file at bytes =
    let gap : List ℕ = replicate (at + length bytes - length file) 0 in
    let padded : List ℕ = file ++ gap in
    let rest : List ℕ = drop (at + length bytes) padded in
    let long : at ≤ length padded = omega (
      arith,
      length-append file gap,
      length-replicate {A = ℕ} (at + length bytes - length file) 0,
    ) in
    let front : length (take at padded) ≡ at = omega (arith, length-take at padded) in
    (
      rest,
      ap (λ n. drop n (take at padded ++ (bytes ++ rest))) (sym front)
          ∙ drop-append (take at padded) (bytes ++ rest),
    )

take-append_ge :
    (n : ℕ) (xs ys : List ℕ) → length xs ≤ n → (zs : List ℕ) × (take n (xs ++ ys) ≡ xs ++ zs)
unfolding take
take-append_ge zero [] ys h = ([], refl)
take-append_ge zero (x ∷ xs) ys h = absurd (omega arith)
take-append_ge (suc n) [] ys h = (take (suc n) ys, refl)
take-append_ge (suc n) (x ∷ xs) ys h =
    let (zs, e) = take-append_ge n xs ys (omega arith) in (zs, ap (λ l. x ∷ l) e)

-- A read at the place of a write gives its bytes first.
read_into-write_at :
    (file : List ℕ) (at : ℕ) (bytes temp : List ℕ)
    → length bytes ≤ data_record
    → (rest : List ℕ) × (read_into (write_at file at bytes) at temp ≡ bytes ++ rest)
unfolding read_into copy_at take
read_into-write_at file at bytes temp short =
    let (behind, there) = drop-write_at file at bytes in
    let (more, cut) = take-append_ge data_record bytes behind short in
    let tail = drop (0 + length (bytes ++ more)) temp in
    (
      more ++ tail,
      ap (λ l. take 0 temp ++ (l ++ drop (0 + length l) temp)) (ap (take data_record) there ∙ cut)
          ∙ append_assoc bytes more tail,
    )

any_set-append : (xs ys : List ℕ) → any_set xs ≡ true → any_set (xs ++ ys) ≡ true
unfolding any_set
any_set-append [] ys h = absurd (ground arith)
any_set-append (x ∷ xs) ys h = elim (Bool-cases (x == 0)) [
  | inl e ↦ rw e (any_set-append xs ys (rw e at h))
  | inr e ↦ rw e refl
]

-- For a file of at most 600 bytes, as it is before the first save of the bindings, with anything
-- but zeros in `temp` after the read of the settings: `Load` takes over the settings as the
-- bindings.
pub load_mixes :
    (file temp : List ℕ) (s : State)
    → length file ≤ 600
    → any_set (read_into file 0 temp) ≡ true
    → (load (some file) temp s).m_data_hukong ≡ (load (some file) temp s).m_data_setting
unfolding load
load_mixes file temp s short some_set =
    rw (read_into_end file 600 (read_into file 0 temp) short, some_set) refl

-- The first `n` items of a record, not more than a record has, and not all zeros: after a
-- `Save` that can open the file, whatever the file held, `Load` has them at the start of the
-- record again, for the settings as for the bindings.
pub load-save :
    (file temp bytes : List ℕ) (n : ℕ) (s : State)
    → n ≤ length bytes
    → n ≤ data_record
    → any_set (take n bytes) ≡ true
    → (take n (load (some (save true data_setting bytes n file)) temp s).m_data_setting
        ≡ take n bytes)
      × (take n (load (some (save true data_hukong bytes n file)) temp s).m_data_hukong
          ≡ take n bytes)
unfolding load save
load-save file temp bytes n s long short some_set =
    let record_part = take n bytes in
    let len : length record_part ≡ n = omega (arith, length-take n bytes) in
    let back : (rest : List ℕ) → take n (record_part ++ rest) ≡ record_part =
      λ rest. ap (λ k. take k (record_part ++ rest)) (sym len) ∙ take-append record_part rest in
    let fits : length record_part ≤ data_record = omega arith in
    let (rest, e) = read_into-write_at file 0 record_part temp fits in
    let saved = write_at file 600 record_part in
    let (rest', e') = read_into-write_at file 600 record_part (read_into saved 0 temp) fits in
    (
      rw (e, any_set-append record_part rest some_set) (back rest),
      rw (e', any_set-append record_part rest' some_set) (back rest'),
    )
