-- ===== src/Ymodem/Sender/Session.antt =====
-- What a successful `ymodem_send` of ymodem/src/ymodem.c has got acknowledged, from block 0 to the
-- closing block.
use hukong.Base.{
  ℕ, zero, suc, ◌+◌, ◌/◌, ◌≡◌, ◌≢◌, refl, ap, ◌∙◌, arith, Bool, true, false, if◌then◌else◌, ◌&&◌,
  ◌||◌, not, List, [], ◌∷◌, ◌++◌, Option, none, some, take, replicate, Bool-cases, inl, inr,
  append-nil, take_all, subst,
}
use hukong.Ymodem.Control.{ack, nak, crc, eot, can}
use hukong.Ymodem.Packet.{send_packet, send_packet0, block0}
use hukong.Ymodem.Packet.Frame.{frame}
use hukong.Ymodem.Packet.Layout.{length-block0}
use hukong.Ymodem.Port.{Io, done, is, timed_out, pure, put_chars, ◌>>=◌}
use hukong.Ymodem.Receiver.{acked}
use hukong.Ymodem.Sender.Delivery.{
  AllBlocks, data_frames, send_blocks-Delivers, frame-ne-nil, Sends-send_packet,
}
use hukong.Ymodem.Sender.Steps.{
  Delivers, Sends, Delivers->>=, Delivers-pure, Delivers-stop, Delivers-if, Delivers-option,
  Delivers-get_char, Delivers-get_char_only, Delivers-exchange, Delivers-weaken,
}
use hukong.Ymodem.Sender.Success.{Succeeds, Succeeds->>=, Succeeds-pure, Succeeds-none, Succeeds-if}
use hukong.Ymodem.Sender.{
  IsReadable, until_ack, send_data_packets, wait_crc, Exit, returned, broke, handshake, ymodem_send,
}

Sends-send_packet0 :
    (filename : Option (List ℕ)) (size : ℕ)
    → Sends (send_packet0 filename size) (frame (block0 filename size) 0)
unfolding send_packet0
Sends-send_packet0 filename size =
    subst (λ b. Sends (send_packet (block0 filename size) 0) (frame b 0)) whole
      (Sends-send_packet (block0 filename size) 0)
  where
    whole : take 128 (block0 filename size) ≡ block0 filename size
    whole = take_all 128 _ (omega (arith, length-block0 filename size))

Sends-put_chars : (bs : List ℕ) → Sends (put_chars bs) bs
unfolding put_chars acked
Sends-put_chars bs = record { writes = λ rs rest e. refl }

-- A loop that ends on an ACK has had its bytes acknowledged once.
until_ack-Delivers :
    (fuel : ℕ) (send : Io (Unit {0})) (bs : List ℕ)
    → Sends send bs
    → bs ≢ []
    → Delivers (until_ack fuel send) (λ r fs. is r ack ≡ true → fs ≡ bs ∷ [])
unfolding until_ack
until_ack-Delivers zero send bs sends ne = Delivers-stop
until_ack-Delivers (suc fuel) send bs sends ne = Delivers-exchange send bs _ sends ne (λ r.
    Delivers-if (not (is r ack) && not (timed_out r)) _ _
      (λ e.
        Delivers-weaken _ (λ x fs h a. rw (refused r e) (h a))
          (until_ack-Delivers fuel send bs sends ne))
      (λ e. Delivers-pure r (λ a. rw a)))
  where
    refused : (r : Option ℕ) → (not (is r ack) && not (timed_out r)) ≡ true → is r ack ≡ false
    refused r e = ground arith

-- EOT, and the empty block 0 that closes the batch.
abbrev pub closing : List (List ℕ)
closing = (eot ∷ []) ∷ frame (block0 none 0) 0 ∷ []

abbrev AllData : List ℕ → ℕ → Option ℕ → List (List ℕ) → Type 0
AllData mem size none fs = Unit
AllData mem size (some left) fs =
    (fs ≡ data_frames ((size + 127) / 128) mem 1 ++ closing) × IsReadable mem size

AllData-closed :
    (mem : List ℕ) (size left : ℕ) (last : Option ℕ) (fs gs hs : List (List ℕ))
    → fs ≡ data_frames ((size + 127) / 128) mem 1
    → IsReadable mem size
    → gs ≡ (eot ∷ []) ∷ []
    → (is last ack ≡ true → hs ≡ frame (block0 none 0) 0 ∷ [])
    → AllData mem size (if is last ack then some left else none) (fs ++ (gs ++ (hs ++ [])))
AllData-closed mem size left last fs gs hs p m q r = elim (Bool-cases (is last ack)) [
  | inl e ↦ rw e ((rw (p, q, r e) refl), m)
  | inr e ↦ rw e tt
]

send_data_packets-Delivers :
    (fuel : ℕ) (mem : List ℕ) (size : ℕ)
    → Delivers (send_data_packets fuel mem size) (AllData mem size)
unfolding send_data_packets
send_data_packets-Delivers fuel mem size =
    Delivers->>= _ _ (send_blocks-Delivers fuel mem size 1) λ r fs blocks.
      Delivers-option r _ _ (λ _. Delivers-pure none tt)
        λ left e.
          Delivers->>= _ _ (until_ack-Delivers fuel _ _ (Sends-put_chars (eot ∷ [])) (λ n. cc))
            λ ch gs ended.
              Delivers-if (is ch ack) _ _
                (λ acknowledged. Delivers-get_char _ λ ch'.
                  Delivers-if (is ch' crc) _ _
                    (λ _.
                      Delivers->>= _ _
                        (until_ack-Delivers fuel _ _ (Sends-send_packet0 none 0) (frame-ne-nil _ 0))
                        λ last hs closed. Delivers-pure _ (
                          let all = subst (λ o. AllBlocks mem size 1 o fs) e blocks in
                          AllData-closed mem size left last fs gs hs all.1 all.2
                            (ended acknowledged) closed))
                    (λ _. Delivers-pure none tt))
                (λ _. Delivers-pure none tt)

-- All that is acknowledged in a session that succeeds: block 0, once or more, then the data and the
-- closing.
abbrev pub session : List ℕ → ℕ → Option (List ℕ) → ℕ → List (List ℕ)
session mem size filename k =
    replicate (suc k) (frame (block0 filename size) 0)
    ++ (data_frames ((size + 127) / 128) mem 1 ++ closing)

module _ (mem : List ℕ) (size : ℕ) (filename : Option (List ℕ)) where
  abbrev Opened : Option ℕ → List (List ℕ) → Type 0
  Opened none fs = Unit
  Opened (some s) fs =
      (s ≡ size) × IsReadable mem size × ((k : ℕ) × (fs ≡ session mem size filename k))

  abbrev OpenedExit : Exit → List (List ℕ) → Type 0
  OpenedExit broke fs = Unit
  OpenedExit (returned r) fs = Opened r fs

  OpenedExit-first :
      (r : Option ℕ) (fs : List (List ℕ))
      → AllData mem size r fs
      → OpenedExit
          (returned (elim r [ none ↦ none | some left ↦ some size ]))
          (frame (block0 filename size) 0 ∷ (fs ++ []))
  unfolding replicate
  OpenedExit-first none fs h = tt
  OpenedExit-first (some left) fs (h, m) =
      (refl, m, (0, ap (λ t. frame (block0 filename size) 0 ∷ t) (append-nil fs ∙ h)))

  OpenedExit-again :
      (x : Exit) (fs : List (List ℕ))
      → OpenedExit x fs
      → OpenedExit x (frame (block0 filename size) 0 ∷ fs)
  unfolding replicate
  OpenedExit-again broke fs h = tt
  OpenedExit-again (returned none) fs h = tt
  OpenedExit-again (returned (some s)) fs (e, m, (k, h)) =
      (e, m, (suc k, ap (λ t. frame (block0 filename size) 0 ∷ t) h))

  handshake-Delivers :
      (fuel : ℕ) (b : Bool) → Delivers (handshake fuel mem size filename b) OpenedExit
  unfolding handshake
  handshake-Delivers zero b = Delivers-stop
  handshake-Delivers (suc fuel) b =
      Delivers-exchange _ _ _ (Sends-send_packet0 filename size) (frame-ne-nil _ 0) λ r.
        Delivers-if (is r ack) _ _
          (λ e. Delivers-get_char _ λ r'.
            Delivers-if (is r' crc) _ _
              (λ _.
                Delivers->>= _ _ (send_data_packets-Delivers fuel mem size)
                  λ x fs h. Delivers-pure _ (rw e (OpenedExit-first x fs h)))
              (λ _.
                Delivers-weaken _ (λ x fs h. rw e (OpenedExit-again x fs h))
                  (handshake-Delivers fuel b)))
          (λ e.
            Delivers-if (is r crc && b) _ _
              (λ _. Delivers-weaken _ (λ x fs h. rw e h) (handshake-Delivers fuel false))
              (λ _.
                Delivers-if (not (is r nak) || b) _ _ (λ _. Delivers-pure broke tt)
                  (λ _. Delivers-weaken _ (λ x fs h. rw e h) (handshake-Delivers fuel b))))

wait_crc-Delivers : (left : ℕ) → Delivers (wait_crc left) (λ r fs. fs ≡ [])
unfolding wait_crc
wait_crc-Delivers zero = Delivers-get_char_only (λ r. refl)
wait_crc-Delivers (suc left) =
    Delivers-get_char _
      λ r. Delivers-if (timed_out r) _ _ (λ _. wait_crc-Delivers left) (λ _. Delivers-pure r refl)

-- A session that succeeds, with all that is acknowledged in it.
abbrev pub Sent : List ℕ → ℕ → Option (List ℕ) → ℕ → List (List ℕ) → Type 0
Sent mem size filename s fs =
    (s ≡ size) × IsReadable mem size × ((k : ℕ) × (fs ≡ session mem size filename k))

Succeeds-exit :
    (mem : List ℕ) (size : ℕ) (filename : Option (List ℕ)) (e : Exit) (fs : List (List ℕ))
    → OpenedExit mem size filename e fs
    → Succeeds
        (elim e [ returned r ↦ pure r | broke ↦ (put_chars (can ∷ can ∷ []) >>= λ _. pure none) ])
        (λ s gs. Sent mem size filename s (fs ++ gs))
Succeeds-exit mem size filename broke fs h = Succeeds-none _
Succeeds-exit mem size filename (returned r) fs h =
    Succeeds-pure r λ s e. rw append-nil (subst (λ o. Opened mem size filename o fs) e h)

-- If `ymodem_send` returns a size, it is the size it was given, and what the peer acknowledged is,
-- in this order: block 0 with the filename and the size, once or more; every 128-byte block of the
-- data, each once, numbered from 1; EOT; and the empty block 0 that closes the batch. All those
-- blocks were readable memory.
pub ymodem_send-session :
    (fuel : ℕ) (mem : List ℕ) (size : ℕ) (filename : Option (List ℕ)) (rs : List (Option ℕ)) (s : ℕ)
    → (ymodem_send fuel mem size filename rs).value ≡ done (some s)
    → (s ≡ size)
      × IsReadable mem size
      × ((k : ℕ) × (acked [] (ymodem_send fuel mem size filename rs).events
            ≡ session mem size filename k))
unfolding ymodem_send
ymodem_send-session fuel mem size filename rs s e =
    (Succeeds->>= {Q = Sent mem size filename} _ _ (wait_crc-Delivers 3) λ r fs q.
        Succeeds-if (is r crc) _ _
          (Succeeds->>= _ _ (handshake-Delivers mem size filename fuel true)
            λ x gs h. rw q (Succeeds-exit mem size filename x gs h))
          (Succeeds-pure none (λ t n. absurd (cc)))).runs
      rs s e
