-- ===== src/Ymodem/Tool/Tests.antt =====
-- Runs of ymodem/src/ymodem_send.c at concrete inputs.
use hukong.Base.{
  ℕ, ◌+◌, ◌-◌, ◌/◌, ◌<◌, ◌^◌, ◌≡◌, ◌⊎◌, refl, ap, arith, true, false, List, [], ◌∷◌, ◌++◌, Option,
  none, some, length, replicate, length-append, length-replicate,
}
use hukong.Ymodem.Control.{ack, crc}
use hukong.Ymodem.Port.{done, pure, ◌>>=◌}
use hukong.Ymodem.Sender.{IsReadable, ymodem_send}
use hukong.Ymodem.Sender.Complete.{closing_replies, ymodem_send_complete}
use hukong.Ymodem.Tool.{
  Termios, zeroed, set_size, set_parity, set_stop, parse_setting, set_baud, Opened, opened, failed,
  Descriptors, whole, refused, open_serialport, Opt, device, scan, exits, go, File, exit_code,
  send_file, use_port, run_scanned, main,
}
use hukong.Ymodem.Tool.Setting.{
  setting_of, parse_setting-setting_of, IsNew, IsSpeed, open_serialport_leaks,
}
use hukong.Ymodem.Tool.Sends.{Delivered, main-sends}

abbrev even_parity : Termios
even_parity = record zeroed { csize = 8; parenb = true; inpck = true; istrip = true }

parse_setting-8e1 : parse_setting zeroed (b'8' ∷ b'E' ∷ b'1' ∷ []) ≡ some even_parity
unfolding parse_setting set_size set_parity set_stop zeroed
parse_setting-8e1 = refl

parse_setting-setting_of_example : setting_of even_parity ≡ b'8' ∷ b'E' ∷ b'1' ∷ []
parse_setting-setting_of_example =
    parse_setting-setting_of zeroed even_parity (b'8' ∷ b'E' ∷ b'1' ∷ []) parse_setting-8e1

-- Standard input, output and error.
abbrev standard : Descriptors
standard = 0 ∷ 1 ∷ 2 ∷ []

three-IsNew : IsNew 3 standard
three-IsNew =
    ((λ e. absurd (omega arith)), ((λ e. absurd (omega arith)), ((λ e. absurd (omega arith)), tt)))

open_serialport_leaks_example :
    (IsSpeed 57600
      × (((options : Termios) × (open_serialport
                (some 3)
                true
                57600
                (b'8' ∷ b'E' ∷ b'1' ∷ [])
                standard
              ≡ opened 3 options (3 ∷ standard))
            × (options.baud ≡ 57600))
          ⊎ (open_serialport (some 3) true 57600 (b'8' ∷ b'E' ∷ b'1' ∷ []) standard
              ≡ failed standard)))
    ⊎ ((IsSpeed 57600 → ⊥)
        × (open_serialport (some 3) true 57600 (b'8' ∷ b'E' ∷ b'1' ∷ []) standard
            ≡ failed (3 ∷ standard)))
open_serialport_leaks_example =
    open_serialport_leaks 3 true 57600 (b'8' ∷ b'E' ∷ b'1' ∷ []) standard three-IsNew

open_serialport-9600 :
    open_serialport (some 3) true 9600 (b'8' ∷ b'E' ∷ b'1' ∷ []) standard
    ≡ opened 3 (record even_parity { baud = 9600; cread = true; clocal = true }) (3 ∷ standard)
unfolding open_serialport set_baud parse_setting set_size set_parity set_stop zeroed
open_serialport-9600 = refl

-- A file of two bytes; 126 bytes behind its buffer can be read.
abbrev small_file : File
small_file = record {
  st_size = some 2;
  bytes = b'h' ∷ b'i' ∷ [];
  ferror = false;
  basename = b'a' ∷ [];
}

abbrev behind : List ℕ
behind = replicate 126 0

abbrev buffer : List ℕ
buffer = small_file.bytes ++ (replicate (2 - 2) 0 ++ behind)

buffer-IsReadable : IsReadable buffer 2
buffer-IsReadable = omega (
  arith,
  length-append (replicate {A = ℕ} (2 - 2) 0) behind,
  length-replicate {A = ℕ} (2 - 2) 0,
  length-replicate {A = ℕ} 126 0,
)

abbrev replies : List (Option ℕ)
replies =
    some crc ∷ some ack ∷ some crc ∷ (replicate ((2 + 127) / 128) (some ack) ++ closing_replies)

transferred : (ymodem_send 3 buffer 2 (some (b'a' ∷ [])) replies).value ≡ done (some 2)
transferred =
    (ymodem_send_complete 3 buffer 2 (some (b'a' ∷ [])) (omega arith) buffer-IsReadable).value

abbrev opts : List Opt
opts = device (b'd' ∷ []) ∷ []

abbrev port : List ℕ → Opened
port _ = opened 3 even_parity (3 ∷ standard)

main_exits :
    (main 3 behind opts (some (some small_file)) port (whole ∷ whole ∷ []) replies).value ≡ done 0
unfolding main run_scanned scan use_port send_file ◌>>=◌ pure exit_code
main_exits = rw transferred refl

below : (f : File) → some (some small_file) ≡ some (some f) → length f.bytes < 2 ^ 38
below f e =
    let same : 2 ≡ length f.bytes =
      ap (λ o. elim o [ none ↦ 0 | some p ↦ elim p [ none ↦ 0 | some g ↦ length g.bytes ] ]) e in
    omega (arith, same)

main-sends_example :
    ((main 3 behind opts (some (some small_file)) port (refused ∷ []) replies).value ≡ done 0)
    × ((scan opts none false ≡ exits 0)
        ⊎ (((serial : Option (List ℕ)) × (scan opts none false ≡ go serial true))
            ⊎ ((f : File) × (some (some small_file) ≡ some (some f))
                × Delivered f
                    (main 3 behind opts
                      (some (some small_file))
                      port
                      (whole ∷ whole ∷ [])
                      replies).events)))
main-sends_example =
    main-sends 3 behind opts (some (some small_file)) port (whole ∷ whole ∷ []) (refused ∷ [])
      replies (refl, (refl, tt)) below main_exits
