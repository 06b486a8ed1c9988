-- ===== src/Serial/Buffer/Refine.antt =====
-- `Buffer` of lib-linux/src/buffer.h as a queue of bytes: well-formed buffers, their contents, and
-- what each operation does to them.
use native.Mathlib.Nat.{div-le_self, mul-div-le, mul-le-mul_left, lt-div-mul-add, mul_comm}
use hukong.Base.{
  ℕ, ◌+◌, ◌-◌, ◌*◌, ◌/◌, ◌^◌, ◌≤◌, ◌<◌, ◌==◌, ltb, if◌then◌else◌, ◌≡◌, refl, sym, ap, ◌∙◌, arith,
  Bool-cases, inl, inr, List, [], ◌++◌, Option, some, length, take, drop, replicate, length-append,
  length-take, length-drop, length-replicate, append_assoc, subst, drop-take, drop_all, take_all,
  take-append_le, take-take, take-append,
}
use hukong.Serial.Buffer.{
  Buffer, copy_to, grown, realloc, move_pos, free_size, store, put, move_front, del, get, copy,
}
use hukong.Serial.Buffer.Growth.{next_pow_of_2-bounds}

-- The position is inside the memory, which is not empty.
pub record IsValid (b : Buffer) : Type 0 where
  pub memory : length b.buf ≡ b.max_size
  pub inside : b.cur_pos ≤ b.max_size
  pub some_room : 0 < b.max_size

unfoldable pub contents : Buffer → List ℕ
contents b = take b.cur_pos b.buf

-- A partial operation succeeds, with a result that has a property.
abbrev pub Yields {ℓ} : {A : Type 0} → Option A → (A → Type ℓ) → Type ℓ
Yields {A = A} o P = (a : A) × (o ≡ some a) × P a

-- A valid buffer with the given contents.
abbrev pub Holds : List ℕ → Buffer → Type 0
Holds bytes b = IsValid b × (contents b ≡ bytes)

-- The same, in a memory of a known size.
abbrev pub HoldsIn : ℕ → List ℕ → Buffer → Type 0
HoldsIn room bytes b = IsValid b × (contents b ≡ bytes) × (b.max_size ≡ room)

-- A copy inside the memory keeps its size and what lies before it.
pub copy_to-inside :
    (mem : List ℕ) (pos : ℕ) (bytes : List ℕ)
    → pos + length bytes ≤ length mem
    → (new : List ℕ) × (copy_to mem pos bytes ≡ some new)
      × (length new ≡ length mem)
      × (take (pos + length bytes) new ≡ take pos mem ++ bytes)
unfolding copy_to
copy_to-inside mem pos bytes h = (
  take pos mem ++ (bytes ++ rest),
  ground arith,
  omega (
    arith,
    length-append (take pos mem) (bytes ++ rest),
    length-append bytes rest,
    length-take pos mem,
    length-drop (pos + length bytes) mem,
  ),
  ap (λ n. take n (take pos mem ++ (bytes ++ rest))) size
      ∙ ap (take (length (take pos mem ++ bytes))) (sym (append_assoc (take pos mem) bytes rest))
      ∙ take-append (take pos mem ++ bytes) rest,
)
  where
    rest : List ℕ
    rest = drop (pos + length bytes) mem

    size : pos + length bytes ≡ length (take pos mem ++ bytes)
    size = omega (arith, length-append (take pos mem) bytes, length-take pos mem)

-- Storing where there is room appends.
pub store-appends :
    (b : Buffer) (bytes : List ℕ)
    → IsValid b
    → length bytes ≤ free_size b
    → Yields (store b bytes) (HoldsIn b.max_size (contents b ++ bytes))
unfolding store move_pos free_size contents
store-appends b bytes v room =
    let (new, copied, same, front) =
      copy_to-inside b.buf b.cur_pos bytes (omega (arith, v.memory, v.inside)) in
    (
      record { buf = new; max_size = b.max_size; cur_pos = b.cur_pos + length bytes },
      rw copied refl,
      (
        record {
          memory = same ∙ v.memory;
          inside = omega (arith, v.inside);
          some_room = v.some_room;
        },
        front,
        refl,
      ),
    )

-- What an int can hold: twice the bytes asked for, and four times the memory there is.
abbrev pub Fits : Buffer → ℕ → Type 0
Fits b len = 2 * len + 4 * b.max_size < 2 ^ 31

pub grown-room :
    (b : Buffer) (len : ℕ)
    → 0 < b.max_size
    → Fits b len
    → (b.max_size + len ≤ grown b len) × (grown b len ≤ 2 * len + 4 * b.max_size)
unfolding grown
grown-room b len b_pos fits =
    let m = b.max_size in
    let q = len / m in
    let bounds = next_pow_of_2-bounds (q + 2) (omega arith) (omega (arith, div-le_self len m)) in
    let low = mul-le-mul_left m bounds.0 in
    let high = mul-le-mul_left m bounds.1 in
    let above : len < m * q + m = omega (arith, lt-div-mul-add {a = len} b_pos, mul_comm q m) in
    let below : m * q ≤ len = mul-div-le len m in
    let e : m * (q + 2) ≡ m * q + 2 * m = omega arith in
    let e2 : m * (2 * (q + 2)) ≡ 2 * (m * (q + 2)) = omega arith in
    (omega (arith, low, high, above, below, e, e2), omega (arith, low, high, above, below, e, e2))

pub realloc-keeps :
    (fresh : ℕ) (b : Buffer) (len : ℕ)
    → IsValid b
    → Fits b len
    → Holds (contents b) (realloc fresh b len) × (b.cur_pos + len ≤ (realloc fresh b len).max_size)
unfolding realloc contents
realloc-keeps fresh b len v fits = (
  (
    record {
      memory = omega (
        arith,
        length-append (take size b.buf) (replicate (size - length b.buf) fresh),
        length-take size b.buf,
        length-replicate (size - length b.buf) fresh,
      );
      inside = omega (arith, v.inside, room);
      some_room = omega (arith, v.some_room, room);
    },
    take-append_le b.cur_pos (take size b.buf) _
          (omega (arith, length-take size b.buf, v.memory, v.inside, room))
        ∙ take-take b.cur_pos size b.buf (omega (arith, v.inside, room)),
  ),
  omega (arith, v.inside, room),
)
  where
    size : ℕ
    size = grown b len

    room : b.max_size + len ≤ size
    room = (grown-room b len v.some_room fits).0

-- `put` appends its bytes to the contents of a well-formed buffer, in a memory that is enlarged when
-- they do not fit. Twice the bytes then held and four times the memory together fit an `int`.
pub put-appends :
    (fresh : ℕ) (b : Buffer) (bytes : List ℕ)
    → IsValid b
    → Fits b (b.cur_pos + length bytes)
    → Yields (put fresh b bytes) (Holds (contents b ++ bytes))
unfolding put
put-appends fresh b bytes v fits = elim (Bool-cases (ltb b.max_size need)) [
  | inl e ↦
      let ((w, same), room) = realloc-keeps fresh b need v fits in
      let (c, stored, held) =
        store-appends (realloc fresh b need) bytes w
          (unfold realloc free_size in omega (arith, room)) in
      (c, rw e stored, subst (λ l. Holds (l ++ bytes) c) same (held.0, held.1))
  | inr e ↦
      let (c, stored, held) = store-appends b bytes v (unfold free_size in ground arith) in
      (c, rw e stored, (held.0, held.1))
]
  where
    need : ℕ
    need = b.cur_pos + length bytes

move_front-drops :
    (b : Buffer) (n : ℕ)
    → IsValid b
    → n ≤ b.cur_pos
    → Yields (move_front b n) (HoldsIn b.max_size (drop n (contents b)))
unfolding move_front contents
move_front-drops b n v h = elim (Bool-cases (n == b.cur_pos)) [
  | inl e ↦
      let none_left : b.cur_pos - n ≡ 0 = ground arith in
      (
        record b { cur_pos = b.cur_pos - n },
        rw e refl,
        (
          record { memory = v.memory; inside = omega (arith, v.inside); some_room = v.some_room },
          rw none_left (unfold take in refl) ∙ sym (drop-take n b.cur_pos b.buf),
          refl,
        ),
      )
  | inr e ↦
      let (new, copied, same, front) = copy_to-inside b.buf 0 moved fit in
      (
        record { buf = new; max_size = b.max_size; cur_pos = b.cur_pos - n },
        rw (e, copied) refl,
        (
          record {
            memory = same ∙ v.memory;
            inside = omega (arith, v.inside);
            some_room = v.some_room;
          },
          ap (λ k. take k new) size ∙ front ∙ (unfold take in sym (drop-take n b.cur_pos b.buf)),
          refl,
        ),
      )
]
  where
    moved : List ℕ
    moved = take (b.cur_pos - n) (drop n b.buf)

    size : b.cur_pos - n ≡ 0 + length moved
    size =
        omega (
          arith,
          length-take (b.cur_pos - n) (drop n b.buf),
          length-drop n b.buf,
          v.memory,
          v.inside,
        )

    fit : 0 + length moved ≤ length b.buf
    fit = omega (arith, size, v.memory, v.inside)

pub length-contents : (b : Buffer) → IsValid b → length (contents b) ≡ b.cur_pos
unfolding contents
length-contents b v = omega (arith, length-take b.cur_pos b.buf, v.memory, v.inside)

-- What `del` and `get` take off: no more than there is.
amount : Buffer → ℕ → ℕ
amount b len = if ltb b.cur_pos len then b.cur_pos else len

amount-contents :
    (b : Buffer) (len : ℕ)
    → IsValid b
    → (amount b len ≤ b.cur_pos)
      × (drop (amount b len) (contents b) ≡ drop len (contents b))
      × (take (amount b len) (contents b) ≡ take len (contents b))
unfolding amount
amount-contents b len v = elim (Bool-cases (ltb b.cur_pos len)) [
  | inl e ↦ rw e (
    omega arith,
    drop_all b.cur_pos _ (omega (arith, size)) ∙ sym (drop_all len _ (ground (arith, size))),
    take_all b.cur_pos _ (omega (arith, size)) ∙ sym (take_all len _ (ground (arith, size))),
  )
  | inr e ↦ rw e (ground arith, refl, refl)
]
  where
    size : length (contents b) ≡ b.cur_pos
    size = length-contents b v

-- `del` removes the first `len` bytes, or all when there are fewer.
pub del-drops :
    (b : Buffer) (len : ℕ)
    → IsValid b
    → Yields (del b len) (HoldsIn b.max_size (drop len (contents b)))
unfolding del amount drop
del-drops b len v =
    let (le, same, _) = amount-contents b len v in
    elim (Bool-cases (amount b len == 0)) [
      | inl z ↦
          let none : amount b len ≡ 0 = ground arith in
          rw z (b, refl, (v, ap (λ n. drop n (contents b)) (sym none) ∙ same, refl))
      | inr z ↦ rw z (
          subst (λ l. Yields (move_front b (amount b len)) (HoldsIn b.max_size l)) same
            (move_front-drops b (amount b len) v le))
    ]

-- `get` takes the first `len` bytes out of a well-formed buffer, or all when there are fewer.
pub get-takes :
    (b : Buffer) (len : ℕ)
    → IsValid b
    → Yields (get b len) (λ r. (r.0 ≡ take len (contents b)) × Holds (drop len (contents b)) r.1)
unfolding get amount contents take drop
get-takes b len v =
    let (le, dropped, taken) = amount-contents b len v in
    elim (Bool-cases (amount b len == 0)) [
      | inl z ↦
          let none : amount b len ≡ 0 = ground arith in
          rw z (
            ([], b),
            refl,
            (
              ap (λ n. take n (contents b)) (sym none) ∙ taken,
              (v, ap (λ n. drop n (contents b)) (sym none) ∙ dropped),
            ),
          )
      | inr z ↦
          let (c, moved, held) = move_front-drops b (amount b len) v le in
          rw (z, moved)
            (
              (take (amount b len) b.buf, c),
              refl,
              (
                sym (take-take (amount b len) b.cur_pos b.buf le) ∙ taken,
                subst (λ l. Holds l c) dropped (held.0, held.1),
              ),
            )
    ]

-- A copy holds the same bytes in a memory of the same size.
pub copy-holds :
    (fresh : ℕ) (b : Buffer) → IsValid b → Yields (copy fresh b) (HoldsIn b.max_size (contents b))
unfolding copy contents
copy-holds fresh b v =
    let size : length (take b.cur_pos b.buf) ≡ b.cur_pos =
      omega (arith, length-take b.cur_pos b.buf, v.memory, v.inside) in
    let memory = length-replicate b.max_size fresh in
    let (new, copied, same, front) =
      copy_to-inside (replicate b.max_size fresh) 0 (take b.cur_pos b.buf)
        (omega (arith, v.inside)) in
    let place : b.cur_pos ≡ 0 + length (take b.cur_pos b.buf) = omega arith in
    (
      record b { buf = new },
      rw copied refl,
      (
        record { memory = same ∙ memory; inside = v.inside; some_room = v.some_room },
        ap (λ k. take k new) place ∙ front ∙ (unfold take in refl),
        refl,
      ),
    )
