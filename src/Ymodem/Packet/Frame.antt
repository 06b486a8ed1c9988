-- ===== src/Ymodem/Packet/Frame.antt =====
-- The bytes that `send_packet` of ymodem/src/ymodem.c writes, and what a receiver makes of them.
use hukong.Base.{
  append-nil, append_assoc, length-take, ℕ, ◌/◌, ◌%◌, ◌^◌, ◌≤◌, ◌<◌, ◌≡◌, ap, ◌∙◌, arith, List, [],
  ◌∷◌, ◌++◌, Option, some, length, take, length-append, take-append, sym,
}
use hukong.Ymodem.Crc16.{crc16}
use hukong.Ymodem.Remainder.Code.{remainder-crc16}
use hukong.Ymodem.Packet.{head, send_packet}
use hukong.Ymodem.Receiver.{read_frame}
use hukong.Ymodem.Port.{Event, put, got, done, put_chars, ◌>>=◌}

-- The two CRC bytes, high byte first.
abbrev pub crc_bytes : List ℕ → List ℕ
crc_bytes bytes = crc16 bytes / 2 ^ 8 ∷ crc16 bytes % 2 ^ 8 ∷ []

-- The frame of block `n` over 128 bytes.
unfoldable pub frame : List ℕ → ℕ → List ℕ
frame bytes n = (head n ++ bytes) ++ crc_bytes bytes

abbrev pub written : List ℕ → ℕ → List Event
written bytes n = put (head n) ∷ put bytes ∷ put (crc_bytes bytes) ∷ []

-- With 128 readable bytes, one packet is three writes.
pub send_packet-written :
    (mem : List ℕ) (n : ℕ) (rs : List (Option ℕ))
    → 128 ≤ length mem
    → send_packet mem n rs
      ≡ record { events = written (take 128 mem) n; replies = rs; value = done tt }
unfolding send_packet put_chars ◌>>=◌
send_packet-written mem n rs h = ground arith

-- A receiver takes a frame.
pub read_frame-frame :
    (bytes : List ℕ) (n : ℕ)
    → length bytes ≡ 128
    → n < 2 ^ 32
    → read_frame (frame bytes n) ≡ some (n % 256, bytes)
unfolding read_frame frame head
read_frame-frame bytes n len h =
    ground (arith, remainder-crc16 bytes, length-append bytes (crc_bytes bytes), prefix)
  where
    prefix : take 128 (bytes ++ crc_bytes bytes) ≡ bytes
    prefix =
        ap (λ k. take k (bytes ++ crc_bytes bytes)) (sym len) ∙ take-append bytes (crc_bytes bytes)

-- All that is written, one write behind the other.
unfoldable pub bytes_put : List Event → List ℕ
bytes_put [] = []
bytes_put (put bs ∷ es) = bs ++ bytes_put es
bytes_put (got r ∷ es) = bytes_put es

-- When 128 bytes can be read at the data pointer, what `send_packet` writes for block `n`, 32 bits
-- wide, is one frame: a receiver that starts at SOH, wants complementary sequence bytes, and divides
-- the data with the two bytes behind it by x^16 + x^12 + x^5 + 1, without a remainder, takes it, with
-- the number modulo 256 and those 128 bytes.
pub send_packet-read_frame :
    (mem : List ℕ) (n : ℕ) (rs : List (Option ℕ))
    → 128 ≤ length mem
    → n < 2 ^ 32
    → read_frame (bytes_put (send_packet mem n rs).events) ≡ some (n % 256, take 128 mem)
unfolding bytes_put
send_packet-read_frame mem n rs room h =
    let bytes = take 128 mem in
    let shape : bytes_put (written bytes n) ≡ frame bytes n =
      unfold frame in
      ap (λ l. head n ++ (bytes ++ l)) (append-nil (crc_bytes bytes))
      ∙ sym (append_assoc (head n) bytes (crc_bytes bytes)) in
    rw (send_packet-written mem n rs room)
      (ap read_frame shape ∙ read_frame-frame bytes n (omega (arith, length-take 128 mem)) h)
