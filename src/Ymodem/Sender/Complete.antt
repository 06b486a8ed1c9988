-- ===== src/Ymodem/Sender/Complete.antt =====
-- The sender of ymodem/src/ymodem.c on a peer that follows the protocol.
use hukong.Base.{
  ℕ, zero, suc, ◌+◌, ◌-◌, ◌/◌, ◌≤◌, ◌<◌, ◌≡◌, refl, ap, ◌∙◌, arith, List, [], ◌∷◌, ◌++◌, Option,
  none, some, length, replicate, true, Bool, drop, ltb, if◌then◌else◌,
}
use hukong.Ymodem.Control.{ack, crc, packet_size}
use hukong.Ymodem.Packet.{send_packet0, block0}
use hukong.Ymodem.Packet.Frame.{send_packet-written}
use hukong.Ymodem.Packet.Layout.{length-block0}
use hukong.Ymodem.Port.{Io}
use hukong.Ymodem.Port.Laws.{
  Returns, Returns->>=, Returns-get_char, Returns-pure, Returns-put_chars,
}
use hukong.Ymodem.Sender.Retry.{send_blocks-ack}
use hukong.Ymodem.Sender.Total.{IsReadable-drop}
use hukong.Ymodem.Sender.{
  IsReadable, send_blocks, until_ack, send_data_packets, wait_crc, returned, handshake, ymodem_send,
}

Returns-send_packet0 :
    (filename : Option (List ℕ)) (size : ℕ) (rs : List (Option ℕ))
    → Returns (send_packet0 filename size) rs tt rs
unfolding send_packet0
Returns-send_packet0 filename size rs =
    let room : 128 ≤ length (block0 filename size) = omega (arith, length-block0 filename size) in
    let sent = send_packet-written (block0 filename size) 0 rs room in
    record { value = ap (λ r. r.value) sent; left = ap (λ r. r.replies) sent }

send_blocks_empty :
    (fuel : ℕ) (mem : List ℕ) (n : ℕ) (rs : List (Option ℕ))
    → Returns (send_blocks (suc fuel) mem 0 n) rs (some 0) rs
unfolding send_blocks
send_blocks_empty fuel mem n rs = Returns-pure (some 0) rs

-- Each of the `k` blocks is acknowledged once.
send_blocks_all_acked :
    (k fuel : ℕ) (mem : List ℕ) (size n : ℕ) (rs : List (Option ℕ))
    → k < fuel
    → (size + 127) / 128 ≡ k
    → IsReadable mem size
    → Returns (send_blocks fuel mem size n) (replicate k (some ack) ++ rs) (some 0) rs
unfolding replicate
send_blocks_all_acked k zero mem size n rs f b m = absurd (omega arith)
send_blocks_all_acked zero (suc fuel) mem size n rs f b m =
    let e : size ≡ 0 = omega arith in rw e (send_blocks_empty fuel mem n rs)
send_blocks_all_acked (suc k) (suc fuel) mem size n rs f b m =
    let s = if ltb packet_size size then packet_size else size in
    let rest =
      send_blocks_all_acked k fuel (drop s mem) (size - s) (n + 1) rs (omega arith) (ground arith)
        (IsReadable-drop mem size m) in
    let step =
      send_blocks-ack fuel mem size n (ground arith) (omega arith) (replicate k (some ack) ++ rs) in
    record {
      value = ap (λ r. r.value) step ∙ rest.value;
      left = ap (λ r. r.replies) step ∙ rest.left;
    }

until_ack_acked :
    (fuel : ℕ) (send : Io (Unit {0})) (rs : List (Option ℕ))
    → Returns send (some ack ∷ rs) tt (some ack ∷ rs)
    → Returns (until_ack (suc fuel) send) (some ack ∷ rs) (some ack) rs
unfolding until_ack
until_ack_acked fuel send rs sent =
    Returns->>= send _ sent (Returns->>= _ _ (Returns-get_char (some ack) rs) (Returns-pure _ rs))

-- What a peer that follows the protocol replies to the data and its end.
abbrev pub closing_replies : List (Option ℕ)
closing_replies = some ack ∷ some crc ∷ some ack ∷ []

send_data_packets_complete :
    (k fuel : ℕ) (mem : List ℕ) (size : ℕ)
    → k < fuel
    → (size + 127) / 128 ≡ k
    → IsReadable mem size
    → Returns
        (send_data_packets fuel mem size)
        (replicate k (some ack) ++ closing_replies)
        (some 0)
        []
unfolding send_data_packets
send_data_packets_complete k zero mem size f b m = absurd (omega arith)
send_data_packets_complete k (suc fuel) mem size f b m =
    Returns->>= _ _ (send_blocks_all_acked k (suc fuel) mem size 1 closing_replies f b m) (
      Returns->>= _ _ (until_ack_acked fuel _ _ (Returns-put_chars _ _)) (
        Returns->>= _ _ (Returns-get_char (some crc) (some ack ∷ [])) (
          Returns->>= _ _ (until_ack_acked fuel _ [] (Returns-send_packet0 none 0 _))
            (Returns-pure (some 0) []))))

handshake_complete :
    (k fuel : ℕ) (mem : List ℕ) (size : ℕ) (filename : Option (List ℕ)) (b : Bool)
    → suc k < fuel
    → (size + 127) / 128 ≡ k
    → IsReadable mem size
    → Returns
        (handshake fuel mem size filename b)
        (some ack ∷ some crc ∷ (replicate k (some ack) ++ closing_replies))
        (returned (some size))
        []
unfolding handshake
handshake_complete k zero mem size filename b f e m = absurd (omega arith)
handshake_complete k (suc fuel) mem size filename b f e m =
    Returns->>= _ _ (Returns-send_packet0 filename size _) (
      Returns->>= _ _ (Returns-get_char (some ack) _) (
        Returns->>= _ _ (Returns-get_char (some crc) _) (
          Returns->>= _ _ (send_data_packets_complete k fuel mem size (omega arith) e m)
            (Returns-pure _ []))))

-- With a peer that follows the protocol (C; ACK and C for block 0; ACK for each block; ACK for EOT;
-- C; ACK for the closing block) `ymodem_send` returns the size, and reads every reply, if the whole
-- packets of the data can be read and the fuel is two more than their number.
pub ymodem_send_complete :
    (fuel : ℕ) (mem : List ℕ) (size : ℕ) (filename : Option (List ℕ))
    → (size + 127) / 128 + 1 < fuel
    → IsReadable mem size
    → Returns
        (ymodem_send fuel mem size filename)
        (some crc
          ∷ some ack
          ∷ some crc
          ∷ (replicate ((size + 127) / 128) (some ack) ++ closing_replies))
        (some size)
        []
unfolding ymodem_send wait_crc
ymodem_send_complete fuel mem size filename f m =
    Returns->>= _ _ (Returns->>= _ _ (Returns-get_char (some crc) _) (Returns-pure _ _)) (
      Returns->>= _ _
        (handshake_complete ((size + 127) / 128) fuel mem size filename true (omega arith) refl m)
        (Returns-pure _ []))
