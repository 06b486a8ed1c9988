-- ===== src/Ymodem/Receiver.antt =====
-- A reference receiver of the protocol that ymodem/src/ymodem.c sends by: how a peer reads a frame,
-- the filename block, and a sequence of frames. It is a specification, no code of the repository.
use hukong.Base.{
  ℕ, ◌+◌, ◌%◌, ◌==◌, ◌&&◌, if◌then◌else◌, List, [], ◌∷◌, ◌++◌, Option, none, some, true, false,
  length, take,
}
use hukong.Ymodem.Control.{soh, ack}
use hukong.Ymodem.Remainder.{remainder}
use hukong.Ymodem.Decimal.RoundTrip.{value}
use hukong.Ymodem.Port.{Event, put, got, is}

-- A frame is taken if it starts with SOH, the two sequence bytes are complements, 128 bytes and
-- two more follow, and those 130 bytes leave no remainder modulo the CRC polynomial.
unfoldable pub read_frame : List ℕ → Option (ℕ × List ℕ)
read_frame (s ∷ n ∷ c ∷ rest) =
    if s == soh && n + c == 255 && length rest == 130 && remainder rest == 0
    then some (n, take 128 rest)
    else none
read_frame _ = none

-- The bytes up to the first NUL, and those behind it.
unfoldable pub c_string : List ℕ → List ℕ
c_string [] = []
c_string (c ∷ cs) = if c == 0 then [] else c ∷ c_string cs

unfoldable pub after_nul : List ℕ → List ℕ
after_nul [] = []
after_nul (c ∷ cs) = if c == 0 then cs else after_nul cs

-- The filename and the size that block 0 announces.
unfoldable pub read_block0 : List ℕ → List ℕ × ℕ
read_block0 block = (c_string block, value 0 (c_string (after_nul block)))

-- Frames numbered from `n` on, modulo 256; their data is joined.
unfoldable pub receive : ℕ → List (List ℕ) → Option (List ℕ)
receive n [] = some []
receive n (f ∷ fs) = elim (read_frame f) [
  | none ↦ none
  | some (k, bytes) ↦ elim (k == n % 256) [
    | false ↦ none
    | true ↦ elim (receive (n + 1) fs) [ none ↦ none | some rest ↦ some (bytes ++ rest) ]
  ]
]

-- What the peer acknowledged: the bytes that were written since the last reply, at each reply ACK
-- that has such bytes before it.
unfoldable pub acked : List ℕ → List Event → List (List ℕ)
acked pending [] = []
acked pending (put bs ∷ es) = acked (pending ++ bs) es
acked [] (got r ∷ es) = acked [] es
acked (b ∷ bs) (got r ∷ es) = if is r ack then (b ∷ bs) ∷ acked [] es else acked [] es
