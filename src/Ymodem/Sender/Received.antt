-- ===== src/Ymodem/Sender/Received.antt =====
-- What a receiver has after a successful `ymodem_send` of ymodem/src/ymodem.c, and what such a
-- session has read behind the end of the data.
use hukong.Base.{
  ℕ, zero, suc, ◌+◌, ◌*◌, ◌/◌, ◌%◌, ◌^◌, ◌≤◌, ◌<◌, ◌≡◌, ◌≢◌, refl, sym, ap, ◌∙◌, arith, List, [],
  ◌++◌, Option, some, length, take, drop, replicate, ==_iff, length-take, length-drop, take-take,
  take-add, take-append,
}
use hukong.Ymodem.Packet.{block0}
use hukong.Ymodem.Packet.Frame.{frame, read_frame-frame}
use hukong.Ymodem.Port.{done}
use hukong.Ymodem.Receiver.{acked, receive}
use hukong.Ymodem.Sender.Delivery.{data_frames}
use hukong.Ymodem.Sender.Session.{closing, ymodem_send-session}
use hukong.Ymodem.Sender.{ymodem_send}

receive-data_frames :
    (k : ℕ) (mem : List ℕ) (n : ℕ)
    → k * 128 ≤ length mem
    → n + k ≤ 2 ^ 32
    → receive n (data_frames k mem n) ≡ some (take (k * 128) mem)
unfolding data_frames receive
receive-data_frames zero mem n h w = unfold take in refl
receive-data_frames (suc k) mem n h w =
    rw
      (
        receive,
        read_frame-frame (take 128 mem) n (omega (arith, length-take 128 mem)) (omega arith),
        (==_iff (n % 256) (n % 256)).1 refl,
        receive-data_frames k (drop 128 mem) (n + 1) (omega (arith, length-drop 128 mem))
            (omega arith),
      )
      (ap some (sym (take-add 128 (k * 128) mem) ∙ ap (λ t. take t mem) (omega arith)))

-- If `ymodem_send` returns a size, a receiver of what was acknowledged gets block 0 with the filename
-- and the size, then consecutive frames that all check, whose data begins with the file, then the
-- closing. `slack` is the readable memory behind the file, and the file is below 2 ^ 38 bytes.
pub ymodem_send-received :
    (fuel : ℕ) (file slack : List ℕ) (filename : Option (List ℕ)) (rs : List (Option ℕ)) (s : ℕ)
    → length file < 2 ^ 38
    → (ymodem_send fuel (file ++ slack) (length file) filename rs).value ≡ done (some s)
    → (k : ℕ) × (frames : List (List ℕ)) × (bytes : List ℕ) × (acked []
          (ymodem_send fuel (file ++ slack) (length file) filename rs).events
        ≡ replicate (suc k) (frame (block0 filename (length file)) 0) ++ (frames ++ closing))
      × (receive 1 frames ≡ some bytes)
      × (take (length file) bytes ≡ file)
ymodem_send-received fuel file slack filename rs s small e =
    let (same, readable, (k, acks)) = ymodem_send-session fuel mem size filename rs s e in
    (
      k,
      data_frames blocks mem 1,
      take (blocks * 128) mem,
      acks,
      receive-data_frames blocks mem 1 readable (omega arith),
      take-take size (blocks * 128) mem (omega arith) ∙ take-append file slack,
    )
  where
    mem : List ℕ
    mem = file ++ slack

    size : ℕ
    size = length file

    blocks : ℕ
    blocks = (size + 127) / 128

-- A session that succeeds has read behind the end of the file's buffer, unless the size is a
-- multiple of 128: with no readable memory behind it no such session returns a size.
pub ymodem_send_overreads :
    (fuel : ℕ) (file : List ℕ) (filename : Option (List ℕ)) (rs : List (Option ℕ)) (s : ℕ)
    → length file % 128 ≢ 0
    → (ymodem_send fuel file (length file) filename rs).value ≢ done (some s)
ymodem_send_overreads fuel file filename rs s odd e =
    let readable = (ymodem_send-session fuel file (length file) filename rs s e).1 in
    odd (omega (arith, readable))
