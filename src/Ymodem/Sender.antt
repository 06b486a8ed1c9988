-- ===== src/Ymodem/Sender.antt =====
-- `send_data_packets` and `ymodem_send` of ymodem/src/ymodem.c. A loop that waits for the peer runs
-- on fuel. A `long` result is an option: `none` is -1. Delays and progress prints are left out.
pub mod Total
pub mod Steps
pub mod Success
pub mod Delivery
pub mod Session
pub mod Received
pub mod Retry
pub mod Complete
use hukong.Base.{
  ℕ, zero, suc, ◌+◌, ◌-◌, ◌*◌, ◌/◌, ◌≤◌, ◌==◌, ltb, not, ◌&&◌, ◌||◌, Bool, true, false,
  if◌then◌else◌, List, [], ◌∷◌, Option, none, some, drop, length,
}
use hukong.Ymodem.Control.{eot, ack, nak, can, crc, packet_size}
use hukong.Ymodem.Packet.{send_packet, send_packet0}
use hukong.Ymodem.Port.{
  Io, pure, stop, out_of_fuel, put_chars, get_char, is, timed_out, ◌>>=◌, ◌>>◌,
}

-- The whole packets that hold `size` bytes can be read.
abbrev pub IsReadable : List ℕ → ℕ → Type 0
IsReadable mem size = (size + 127) / 128 * 128 ≤ length mem

-- `while (size > 0) { ... }`: `none` is the `return -1` inside, `some size` the exit of the loop.
-- `mem` is the readable memory from the pointer `data` on.
pub send_blocks : ℕ → List ℕ → ℕ → ℕ → Io (Option ℕ)
send_blocks zero mem size blockno = stop out_of_fuel
send_blocks (suc fuel) mem size blockno = elim (size == 0) [
  | true ↦ pure (some size)
  | false ↦ do
    let send_size = if ltb packet_size size then packet_size else size
    send_packet mem blockno
    ch ← get_char
    elim (is ch ack) [
      | true ↦ send_blocks fuel (drop send_size mem) (size - send_size) (blockno + 1)
      | false ↦ elim (is ch can || timed_out ch) [
        | true ↦ pure none
        | false ↦ send_blocks fuel mem size blockno
      ]
    ]
]

-- `do { ... ch = _getchar(PACKET_TIMEOUT); } while((ch != ACK) && (ch != -1))`
pub until_ack : ℕ → Io (Unit {0}) → Io (Option ℕ)
until_ack zero send = stop out_of_fuel
until_ack (suc fuel) send = do
  send
  ch ← get_char
  elim (not (is ch ack) && not (timed_out ch)) [ true ↦ until_ack fuel send | false ↦ pure ch ]

pub send_data_packets : ℕ → List ℕ → ℕ → Io (Option ℕ)
send_data_packets fuel mem size = do
  r ← send_blocks fuel mem size 1
  elim r [
    | none ↦ pure none
    | some left ↦ do
      ch ← until_ack fuel (put_chars (eot ∷ []))
      elim (is ch ack) [
        | false ↦ pure none
        | true ↦ do
          ch' ← get_char
          elim (is ch' crc) [
            | false ↦ pure none
            | true ↦ do
              last ← until_ack fuel (send_packet0 none 0)
              pure (if is last ack then some left else none)
          ]
      ]
  ]

-- `do { ch = _getchar(1); } while (ch < 0 && timeout_count++ < 4)`, with the repeats left.
pub wait_crc : ℕ → Io (Option ℕ)
wait_crc zero = get_char
wait_crc (suc left) = do
  ch ← get_char
  elim (timed_out ch) [ true ↦ wait_crc left | false ↦ pure ch ]

-- How the loop over block 0 is left.
pub data Exit : Type 0 where
  returned : Option ℕ → Exit
  broke : Exit

pub handshake : ℕ → List ℕ → ℕ → Option (List ℕ) → Bool → Io Exit
handshake zero mem size filename crc_nak = stop out_of_fuel
handshake (suc fuel) mem size filename crc_nak = do
  send_packet0 filename size
  ch ← get_char
  elim (is ch ack) [
    | true ↦ do
      ch' ← get_char
      elim (is ch' crc) [
        | true ↦ do
          r ← send_data_packets fuel mem size
          pure (returned (elim r [ none ↦ none | some left ↦ some size ]))
        | false ↦ handshake fuel mem size filename crc_nak
      ]
    | false ↦ elim (is ch crc && crc_nak) [
      | true ↦ handshake fuel mem size filename false
      | false ↦ elim (not (is ch nak) || crc_nak) [
        | true ↦ pure broke
        | false ↦ handshake fuel mem size filename crc_nak
      ]
    ]
  ]

pub ymodem_send : ℕ → List ℕ → ℕ → Option (List ℕ) → Io (Option ℕ)
ymodem_send fuel mem size filename = do
  ch ← wait_crc 3
  elim (is ch crc) [
    | false ↦ pure none
    | true ↦ do
      e ← handshake fuel mem size filename true
      elim e [ returned r ↦ pure r | broke ↦ do put_chars (can ∷ can ∷ []); pure none ]
  ]
