-- ===== src/Serial/Buffer.antt =====
-- The class `Buffer` of lib-linux/src/buffer.h, and `Utility::next_pow_of_2` of utility.h. Memory is
-- a list of bytes; what `malloc` and `realloc` leave in fresh memory is the parameter `fresh`. A
-- copy that leaves its memory is `none`.
pub mod Growth
pub mod Refine
use hukong.Base.{
  ℕ, ◌+◌, ◌-◌, ◌*◌, ◌/◌, ◌%◌, ◌^◌, bit_and, bit_or, min, ◌==◌, ltb, leb, if◌then◌else◌, List, [],
  ◌++◌, Option, none, some, length, take, drop, replicate,
}
use hukong.Base.Partial.{◌>>=◌}

pub record Buffer : Type 0 where
  pub buf : List ℕ
  pub max_size : ℕ
  pub cur_pos : ℕ

-- `memcpy` or `memmove` of `bytes` to the place `pos`.
unfoldable pub copy_to : List ℕ → ℕ → List ℕ → Option (List ℕ)
copy_to mem pos bytes =
    if leb (pos + length bytes) (length mem)
    then some (take pos mem ++ (bytes ++ drop (pos + length bytes) mem))
    else none

-- Each of the five shifts doubles the run of ones below the highest bit.
unfoldable pub smear : ℕ → ℕ
smear x =
    let a = bit_or x (x / 2) in
    let b = bit_or a (a / 2 ^ 2) in
    let c = bit_or b (b / 2 ^ 4) in let d = bit_or c (c / 2 ^ 8) in bit_or d (d / 2 ^ 16)

-- On `unsigned int`: `x - 1` of 0 wraps, and so does the last `x + 1`.
unfoldable pub next_pow_of_2 : ℕ → ℕ
next_pow_of_2 x = if bit_and x ((x + (2 ^ 32 - 1)) % 2 ^ 32) == 0 then x else (smear x + 1) % 2 ^ 32

-- A constructor with the initial size; a size of 0 fails the assertion.
unfoldable pub allocate : ℕ → ℕ → Option Buffer
allocate fresh size =
    if size == 0
    then none
    else some (record { buf = replicate size fresh; max_size = size; cur_pos = 0 })

-- `int *= unsigned int` is computed modulo 2 ^ 32.
unfoldable pub grown : Buffer → ℕ → ℕ
grown b len = b.max_size * next_pow_of_2 (len / b.max_size + 2) % 2 ^ 32

-- `::realloc` keeps the bytes that fit.
unfoldable pub realloc : ℕ → Buffer → ℕ → Buffer
realloc fresh b len = record b {
  buf = take (grown b len) b.buf ++ replicate (grown b len - length b.buf) fresh;
  max_size = grown b len;
}

unfoldable pub move_pos : Buffer → ℕ → Buffer
move_pos b add_bytes = record b { cur_pos = b.cur_pos + add_bytes }

unfoldable pub free_size : Buffer → ℕ
free_size b = b.max_size - b.cur_pos

-- The bytes are copied to the free space, and the position moves behind them.
unfoldable pub store : Buffer → List ℕ → Option Buffer
store b bytes = do
  mem ← copy_to b.buf b.cur_pos bytes
  some (move_pos (record b { buf = mem }) (length bytes))

unfoldable pub put : ℕ → Buffer → List ℕ → Option Buffer
put fresh b bytes =
    let len = length bytes in
    store (if ltb b.max_size (b.cur_pos + len) then realloc fresh b (b.cur_pos + len) else b) bytes

-- The data behind the first `n` bytes is moved to the front.
unfoldable pub move_front : Buffer → ℕ → Option Buffer
move_front b n = do
  mem ← if n == b.cur_pos then some b.buf else copy_to b.buf 0 (take (b.cur_pos - n) (drop n b.buf))
  some (record b { buf = mem; cur_pos = b.cur_pos - n })

unfoldable pub del : Buffer → ℕ → Option Buffer
del b len =
    let delete_num = if ltb b.cur_pos len then b.cur_pos else len in
    if delete_num == 0 then some b else move_front b delete_num

-- What is copied out, and the buffer without it.
unfoldable pub get : Buffer → ℕ → Option (List ℕ × Buffer)
get b len =
    let copy_bytes = if ltb b.cur_pos len then b.cur_pos else len in
    if copy_bytes == 0
    then some ([], b)
    else do rest ← move_front b copy_bytes; some (take copy_bytes b.buf, rest)

unfoldable pub clear : Buffer → Buffer
clear b = record b { cur_pos = 0 }

-- `none` is also the failed assertion.
unfoldable pub move_buf : Buffer → ℕ → Option Buffer
move_buf b move_bytes = if leb move_bytes b.cur_pos then move_front b move_bytes else none

-- The copy constructor and the assignment: fresh memory with the data.
unfoldable pub copy : ℕ → Buffer → Option Buffer
copy fresh b = do
  mem ← copy_to (replicate b.max_size fresh) 0 (take b.cur_pos b.buf)
  some (record b { buf = mem })
