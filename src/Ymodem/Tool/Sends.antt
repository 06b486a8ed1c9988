-- ===== src/Ymodem/Tool/Sends.antt =====
-- When `main` of ymodem/src/ymodem_send.c reports success.
use hukong.Base.{
  ◌∷◌, All, ℕ, suc, ◌-◌, ◌^◌, ◌<◌, ◌≡◌, ◌≢◌, refl, ap, ◌∙◌, arith, Bool, true, false, ◌⊎◌, inl, inr,
  ◌==◌, ◌&&◌, if◌then◌else◌, List, [], ◌++◌, Option, none, some, length, take, replicate,
  append-nil,
}
use hukong.Ymodem.Packet.{block0}
use hukong.Ymodem.Packet.Frame.{frame}
use hukong.Ymodem.Port.{Event, put, got, Outcome, done, fault, out_of_fuel, Io, pure, resume, ◌>>=◌}
use hukong.Ymodem.Receiver.{acked, receive}
use hukong.Ymodem.Sender.{ymodem_send}
use hukong.Ymodem.Sender.Received.{ymodem_send-received}
use hukong.Ymodem.Sender.Session.{closing}
use hukong.Ymodem.Tool.{
  File, exit_code, send_file, Opened, opened, failed, Opt, Scanned, scan, exits, go, use_port,
  run_scanned, Written, whole, on_line, main,
}

-- The peer acknowledged block 0 with the name and the size, frames whose data begins with the bytes
-- that were read, and the closing.
abbrev pub Delivered : File → List Event → Type 0
Delivered f events =
    (k : ℕ) × (frames : List (List ℕ)) × (data_bytes : List ℕ) × (acked [] events
      ≡ replicate (suc k) (frame (block0 (some f.basename) (length f.bytes)) 0)
        ++ (frames ++ closing))
    × (receive 1 frames ≡ some data_bytes)
    × (take (length f.bytes) data_bytes ≡ f.bytes)

resume_done :
    (es : List Event) (rs : List (Option ℕ)) (v : Outcome (Option ℕ)) (x : ℕ)
    → (resume es rs v (λ n. pure (exit_code n))).value ≡ done x
    → (n : Option ℕ) × (v ≡ done n)
      × (exit_code n ≡ x)
      × ((resume es rs v (λ n. pure (exit_code n))).events ≡ es)
unfolding pure
resume_done es rs fault x e = absurd cc
resume_done es rs out_of_fuel x e = absurd cc
resume_done es rs (done n) x e = (n, refl, cc, append-nil es)

exit_code-zero : (n : Option ℕ) → exit_code n ≡ 0 → (s : ℕ) × (n ≡ some s)
unfolding exit_code
exit_code-zero none e = absurd (omega arith)
exit_code-zero (some s) e = (s, refl)

ymodem_send-exit :
    (fuel : ℕ) (slack : List ℕ) (f : File) (rs : List (Option ℕ))
    → length f.bytes < 2 ^ 38
    → let run =
        (ymodem_send fuel (f.bytes ++ slack) (length f.bytes) (some f.basename) >>= λ n.
        pure (exit_code n))
          rs in
      run.value ≡ done 0 → Delivered f run.events
unfolding ◌>>=◌
ymodem_send-exit fuel slack f rs small e =
    let run = ymodem_send fuel (f.bytes ++ slack) (length f.bytes) (some f.basename) rs in
    let (n, v, code, same) = resume_done run.events run.replies run.value 0 e in
    let (s, is_some) = exit_code-zero n code in
    rw same
      (ymodem_send-received fuel f.bytes slack (some f.basename) rs s small (v ∙ ap done is_some))

-- The program, or a part of it, reports success only if the file was delivered.
abbrev Honest : File → List (Option ℕ) → Io ℕ → Type 0
Honest f rs m = (m rs).value ≡ done 0 → Delivered f (m rs).events

Honest-pure : (f : File) (rs : List (Option ℕ)) (code : ℕ) → code ≢ 0 → Honest f rs (pure code)
unfolding pure
Honest-pure f rs code ne e = absurd (ne cc)

Honest-if :
    (f : File) (rs : List (Option ℕ)) (c : Bool) (m n : Io ℕ)
    → Honest f rs m
    → Honest f rs n
    → Honest f rs (if c then m else n)
Honest-if f rs true m n h k = h
Honest-if f rs false m n h k = k

Honest-option :
    (f : File) (rs : List (Option ℕ)) (o : Option ℕ) (m : Io ℕ) (n : ℕ → Io ℕ)
    → Honest f rs m
    → ((x : ℕ) → Honest f rs (n x))
    → Honest f rs (elim o [ none ↦ m | some x ↦ n x ])
Honest-option f rs none m n h k = h
Honest-option f rs (some x) m n h k = k x

send_file-Honest :
    (fuel : ℕ) (behind : List ℕ) (f : File) (rs : List (Option ℕ))
    → length f.bytes < 2 ^ 38
    → Honest f rs (send_file fuel behind f)
unfolding send_file
send_file-Honest fuel behind f rs small =
    Honest-option f rs f.st_size (pure 255) (λ size. sized size) failure
      λ size. Honest-if f rs (size == 0) (pure 255) (readable size) failure (
        Honest-if f rs (length f.bytes == 0 && f.ferror) (pure 255) (named size) failure (
          Honest-if f rs (length f.basename == 0) (pure 1) (sent size)
            (Honest-pure f rs 1 (λ e. omega arith))
            (ymodem_send-exit fuel (slack size) f rs small)))
  where
    slack : ℕ → List ℕ
    slack size = replicate (size - length f.bytes) 0 ++ behind

    sent : ℕ → Io ℕ
    sent size = ymodem_send fuel (f.bytes ++ slack size) (length f.bytes) (some f.basename) >>= λ n.
        pure (exit_code n)

    named : ℕ → Io ℕ
    named size = if length f.basename == 0 then pure 1 else sent size

    readable : ℕ → Io ℕ
    readable size = if length f.bytes == 0 && f.ferror then pure 255 else named size

    sized : ℕ → Io ℕ
    sized size = if size == 0 then pure 255 else readable size

    failure : Honest f rs (pure 255)
    failure = Honest-pure f rs 255 (λ e. omega arith)

pure_done : (code : ℕ) (rs : List (Option ℕ)) → (pure code rs).value ≡ done 0 → code ≡ 0
unfolding pure
pure_done code rs e = cc

use_port_sends :
    (fuel : ℕ) (behind : List ℕ) (o : Opened) (tty : Bool) (file : Option File)
    (rs : List (Option ℕ))
    → ((f : File) → file ≡ some f → length f.bytes < 2 ^ 38)
    → (use_port fuel behind o tty file rs).value ≡ done 0
    → (tty ≡ true)
      ⊎ ((f : File) × (file ≡ some f) × Delivered f (use_port fuel behind o tty file rs).events)
unfolding use_port
use_port_sends fuel behind (failed fds) tty file rs small e =
    absurd (omega (arith, pure_done 255 rs e))
use_port_sends fuel behind (opened fd options fds) true file rs small e = inl refl
use_port_sends fuel behind (opened fd options fds) false none rs small e =
    absurd (omega (arith, pure_done 255 rs e))
use_port_sends fuel behind (opened fd options fds) false (some f) rs small e =
    inr (f, refl, send_file-Honest fuel behind f rs (small f refl) e)

run_scanned_sends :
    (fuel : ℕ) (behind : List ℕ) (s : Scanned) (filename : Option (Option File))
    (port : List ℕ → Opened) (rs : List (Option ℕ))
    → ((f : File) → filename ≡ some (some f) → length f.bytes < 2 ^ 38)
    → (run_scanned fuel behind s filename port rs).value ≡ done 0
    → (s ≡ exits 0)
      ⊎ (((serial : Option (List ℕ)) × (s ≡ go serial true))
          ⊎ ((f : File) × (filename ≡ some (some f))
              × Delivered f (run_scanned fuel behind s filename port rs).events))
unfolding run_scanned
run_scanned_sends fuel behind (exits code) filename port rs small e =
    inl (ap exits (pure_done code rs e))
run_scanned_sends fuel behind (go serial false) none port rs small e =
    absurd (omega (arith, pure_done 255 rs e))
run_scanned_sends fuel behind (go none false) (some file) port rs small e =
    absurd (omega (arith, pure_done 255 rs e))
run_scanned_sends fuel behind (go serial true) filename port rs small e = inr (inl (serial, refl))
run_scanned_sends fuel behind (go (some name) false) (some file) port rs small e =
    elim (use_port_sends fuel behind (port name) false file rs (λ f q. small f (ap some q)) e) [
      | inl t ↦ absurd cc
      | inr (f, q, d) ↦ inr (inr (f, ap some q, d))
    ]

on_line-whole : (ws : List Written) (es : List Event) → All (λ w. w ≡ whole) ws → on_line ws es ≡ es
unfolding on_line
on_line-whole ws [] h = refl
on_line-whole ws (got r ∷ es) h = ap (λ l. got r ∷ l) (on_line-whole ws es h)
on_line-whole [] (put bs ∷ es) h = ap (λ l. put bs ∷ l) (on_line-whole [] es h)
on_line-whole (w ∷ ws) (put bs ∷ es) (e, h) = rw e (ap (λ l. put bs ∷ l) (on_line-whole ws es h))

-- If every call of `::write` takes all its bytes, and `main` exits with 0, then it was told to show
-- its help or version, or only to set the serial port, or the file could be opened and was
-- delivered: the peer acknowledged block 0 with its name and size, frames that check and whose data
-- begins with the bytes read from the file, and the closing. The file is below 2 ^ 38 bytes. The
-- code of the exit is the same for any other results of `::write`, since `main` does not look at
-- them.
pub main-sends :
    (fuel : ℕ) (behind : List ℕ) (opts : List Opt) (filename : Option (Option File))
    (port : List ℕ → Opened) (writes others : List Written) (rs : List (Option ℕ))
    → All (λ w. w ≡ whole) writes
    → ((f : File) → filename ≡ some (some f) → length f.bytes < 2 ^ 38)
    → (main fuel behind opts filename port writes rs).value ≡ done 0
    → ((main fuel behind opts filename port others rs).value ≡ done 0)
      × ((scan opts none false ≡ exits 0)
          ⊎ (((serial : Option (List ℕ)) × (scan opts none false ≡ go serial true))
              ⊎ ((f : File) × (filename ≡ some (some f))
                  × Delivered f (main fuel behind opts filename port writes rs).events)))
unfolding main
main-sends fuel behind opts filename port writes others rs all small e =
    let calls = (run_scanned fuel behind (scan opts none false) filename port rs).events in
    let line = on_line-whole writes calls all in
    (e, rw line (run_scanned_sends fuel behind (scan opts none false) filename port rs small e))
