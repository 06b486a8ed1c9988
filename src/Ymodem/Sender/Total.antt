-- ===== src/Ymodem/Sender/Total.antt =====
-- Termination of the sender of ymodem/src/ymodem.c against every peer that falls silent at last.
use hukong.Base.{
  ℕ, zero, suc, ◌-◌, ◌≤◌, ◌<◌, ◌≡◌, refl, arith, Bool, true, false, List, Option, none, some,
  length, ltb, if◌then◌else◌, drop, length-drop, ◌&&◌, ◌==◌, not, ◌||◌,
}
use hukong.Ymodem.Control.{ack, nak, crc, packet_size}
use hukong.Ymodem.Packet.{send_packet, send_packet0}
use hukong.Ymodem.Packet.Layout.{length-block0}
use hukong.Ymodem.Port.{Io, pure, is, timed_out}
use hukong.Ymodem.Port.Laws.{
  Ended, Ends, Ends-pure, Ends-put_chars, Ends->>=, Ends-get_char, Ends-get_char_only,
}
use hukong.Ymodem.Sender.{
  IsReadable, send_blocks, until_ack, send_data_packets, wait_crc, Exit, returned, broke, handshake,
  ymodem_send,
}

Ends-cond :
    {A : Type 0} (k : ℕ) (b : Bool) (m n : Io A)
    → Ends k m
    → Ends k n
    → Ends k (elim b [ true ↦ m | false ↦ n ])
Ends-cond k true m n p q = p
Ends-cond k false m n p q = q

-- ... where the second branch is only taken on a failed test.
Ends-if :
    {A : Type 0} (k : ℕ) (b : Bool) (m n : Io A)
    → Ends k m
    → (b ≡ false → Ends k n)
    → Ends k (elim b [ true ↦ m | false ↦ n ])
Ends-if k true m n p q = p
Ends-if k false m n p q = q refl

Ends-send_packet : (k : ℕ) (mem : List ℕ) (n : ℕ) → 128 ≤ length mem → Ends k (send_packet mem n)
unfolding send_packet
Ends-send_packet k mem n h =
    let enough : ltb (length mem) packet_size ≡ false = ground arith in
    rw enough (
      Ends->>= k _ (λ _. Ends->>= k _ (λ _. Ends-put_chars k _) _ (Ends-put_chars k _)) _
        (Ends-put_chars k _))

pub IsReadable-drop :
    (mem : List ℕ) (size : ℕ)
    → IsReadable mem size
    → let s = if ltb packet_size size then packet_size else size in
      IsReadable (drop s mem) (size - s)
IsReadable-drop mem size h = ground (arith, length-drop 128 mem, length-drop size mem)

Ends-send_blocks :
    (fuel k : ℕ) (mem : List ℕ) (size n : ℕ)
    → k < fuel
    → IsReadable mem size
    → Ends k (send_blocks fuel mem size n)
unfolding send_blocks
Ends-send_blocks zero k mem size n h m = absurd (omega arith)
Ends-send_blocks (suc fuel) k mem size n h m = Ends-if k (size == 0) _ _ (Ends-pure k _) (λ more.
    Ends->>= k _
      (λ _. Ends-get_char k _ (Ends-pure 0 _) (λ j hj r.
        Ends-cond j (is r ack) _ _
          (Ends-send_blocks fuel j _ _ _ (omega arith) (IsReadable-drop mem size m))
          (Ends-cond j _ _ _ (Ends-pure j _) (Ends-send_blocks fuel j _ _ _ (omega arith) m))))
      _ (Ends-send_packet k mem n (ground arith)))

Ends-until_ack :
    (fuel k : ℕ) (send : Io (Unit {0}))
    → k < fuel
    → ((j : ℕ) → Ends j send)
    → Ends k (until_ack fuel send)
unfolding until_ack
Ends-until_ack zero k send h ends = absurd (omega arith)
Ends-until_ack (suc fuel) k send h ends =
    Ends->>= k _
      (λ _. Ends-get_char k _ (Ends-pure 0 _) (λ j hj r.
        Ends-cond j _ _ _ (Ends-until_ack fuel j send (omega arith) ends) (Ends-pure j _)))
      _ (ends k)

Ends-option :
    {A B : Type 0} (k : ℕ) (o : Option A) (m : Io B) (f : A → Io B)
    → Ends k m
    → ((a : A) → Ends k (f a))
    → Ends k (elim o [ none ↦ m | some a ↦ f a ])
Ends-option k none m f p q = p
Ends-option k (some a) m f p q = q a

Ends-send_packet0 :
    (k : ℕ) (filename : Option (List ℕ)) (size : ℕ) → Ends k (send_packet0 filename size)
unfolding send_packet0
Ends-send_packet0 k filename size =
    Ends-send_packet k _ 0 (omega (arith, length-block0 filename size))

Ends-send_data_packets :
    (fuel k : ℕ) (mem : List ℕ) (size : ℕ)
    → k < fuel
    → IsReadable mem size
    → Ends k (send_data_packets fuel mem size)
unfolding send_data_packets
Ends-send_data_packets fuel k mem size h m =
    Ends->>= k _
      (λ r. Ends-option k r _ _ (Ends-pure k _) (λ left.
        Ends->>= k _
          (λ ch.
            Ends-cond k (is ch ack) _ _
              (Ends-get_char k _ (Ends-pure 0 _) (λ j hj r'.
                Ends-cond j (is r' crc) _ _
                  (Ends->>= j _ (λ _. Ends-pure j _) _
                    (Ends-until_ack fuel j _ (omega arith) (λ i. Ends-send_packet0 i none 0)))
                  (Ends-pure j _)))
              (Ends-pure k _))
          _ (Ends-until_ack fuel k _ h (λ i. Ends-put_chars i _))))
      _ (Ends-send_blocks fuel k mem size 1 h m)

Ends-exit :
    {B : Type 0} (k : ℕ) (e : Exit) (f : Option ℕ → Io B) (m : Io B)
    → ((r : Option ℕ) → Ends k (f r))
    → Ends k m
    → Ends k (elim e [ returned r ↦ f r | broke ↦ m ])
Ends-exit k (returned r) f m p q = p r
Ends-exit k broke f m p q = q

Ends-wait_crc : (left k : ℕ) → Ends k (wait_crc left)
unfolding wait_crc
Ends-wait_crc zero k = Ends-get_char_only k
Ends-wait_crc (suc left) k =
    Ends-get_char k _ (Ends-wait_crc left 0)
      (λ j hj r. Ends-cond j (timed_out r) _ _ (Ends-wait_crc left j) (Ends-pure j r))

module _ (mem : List ℕ) (size : ℕ) (filename : Option (List ℕ)) (m : IsReadable mem size) where
  -- The two tests behind the first reply.
  Ends-otherwise :
      (k : ℕ) (r : Option ℕ) (b : Bool) (next : Bool → Io Exit)
      → ((c : Bool) → Ends k (next c))
      → Ends k (elim (is r crc && b) [
        | true ↦ next false
        | false ↦ elim (not (is r nak) || b) [ true ↦ pure broke | false ↦ next b ]
      ])
  Ends-otherwise k r b next again =
      Ends-cond k _ _ _ (again false) (Ends-cond k _ _ _ (Ends-pure k _) (again b))

  Ends-handshake : (fuel k : ℕ) (b : Bool) → k < fuel → Ends k (handshake fuel mem size filename b)
  unfolding handshake
  Ends-handshake zero k b h = absurd (omega arith)
  Ends-handshake (suc fuel) k b h =
      Ends->>= k _
        (λ _. Ends-get_char k _ (Ends-pure 0 broke) (λ j hj r.
          Ends-cond j (is r ack) _ _
            (Ends-get_char j _ (Ends-handshake fuel 0 b (omega arith)) (λ i hi r'.
              Ends-cond i (is r' crc) _ _
                (Ends->>= i _ (λ e. Ends-pure i _) _
                  (Ends-send_data_packets fuel i mem size (omega arith) m))
                (Ends-handshake fuel i b (omega arith))))
            (Ends-otherwise j r b _ (λ c. Ends-handshake fuel j c (omega arith)))))
        _ (Ends-send_packet0 k filename size)

-- Against a peer of any finite number of replies, then silent, `ymodem_send` comes to an end: one
-- more round than there are replies is enough for each of its loops. It reads nothing outside `mem`
-- if that holds the whole 128-byte packets of the data.
pub ymodem_send-Ended :
    (fuel : ℕ) (mem : List ℕ) (size : ℕ) (filename : Option (List ℕ)) (rs : List (Option ℕ))
    → length rs < fuel
    → IsReadable mem size
    → Ended (ymodem_send fuel mem size filename rs).value
unfolding ymodem_send
ymodem_send-Ended fuel mem size filename rs h m =
    (Ends->>= k _
        (λ r.
          Ends-cond k (is r crc) _ _
            (Ends->>= k _
              (λ e.
                Ends-exit k e _ _ (λ x. Ends-pure k x)
                  (Ends->>= k _ (λ _. Ends-pure k none) _ (Ends-put_chars k _)))
              _ (Ends-handshake mem size filename m fuel k true h))
            (Ends-pure k none))
        _ (Ends-wait_crc 3 k)).ended
      rs (omega arith)
  where
    k : ℕ
    k = length rs
