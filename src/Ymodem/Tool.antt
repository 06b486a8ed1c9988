-- ===== src/Ymodem/Tool.antt =====
-- The program of ymodem/src/ymodem_send.c: the settings of the serial port, and `main`. A flag word
-- of `struct termios` is a record of the flags that the code touches. What the system calls give is
-- an argument.
pub mod Setting
pub mod Sends
mod Tests
use hukong.Base.{
  ℕ, zero, suc, ◌+◌, ◌-◌, ◌%◌, ◌^◌, ◌==◌, ltb, ◌&&◌, not, if◌then◌else◌, Bool, true, false, List,
  [], ◌∷◌, ◌++◌, Option, none, some, length, replicate, take,
}
use hukong.Ymodem.Port.{Event, put, got, Io, pure, ◌>>=◌}
use hukong.Ymodem.Sender.{ymodem_send}

-- `c_cflag`, with `CSIZE` as the number of data bits and the speed in baud, and `c_iflag`.
pub record Termios : Type 0 where
  pub baud : ℕ
  pub csize : ℕ
  pub cstopb : Bool
  pub cread : Bool
  pub parenb : Bool
  pub parodd : Bool
  pub clocal : Bool
  pub inpck : Bool
  pub istrip : Bool

-- All bits zero; `CS5` is the zero of `CSIZE`, and `B0` that of the speed.
unfoldable pub zeroed : Termios
zeroed = record {
  baud = 0;
  csize = 5;
  cstopb = false;
  cread = false;
  parenb = false;
  parodd = false;
  clocal = false;
  inpck = false;
  istrip = false;
}

-- Each step gives `none` where the code returns -1.
unfoldable pub set_size : Termios → ℕ → Option Termios
set_size t c =
    if c == b'5'
    then some (record t { csize = 5 })
    else if c == b'6'
    then some (record t { csize = 6 })
    else if c == b'7'
    then some (record t { csize = 7 })
    else if c == b'8'
    then some (record t { csize = 8 })
    else none

unfoldable pub set_parity : Termios → ℕ → Option Termios
set_parity t c =
    if c == b'N'
    then some (record t { parenb = false })
    else if c == b'E'
    then some (record t { parenb = true; parodd = false; inpck = true; istrip = true })
    else if c == b'O'
    then some (record t { parenb = true; parodd = true; inpck = true; istrip = true })
    else none

unfoldable pub set_stop : Termios → ℕ → Option Termios
set_stop t c =
    if c == b'1'
    then some (record t { cstopb = false })
    else if c == b'2'
    then some (record t { cstopb = true })
    else none

-- The options behind a return of 0; after a return of -1 no caller looks at them.
unfoldable pub parse_setting : Termios → List ℕ → Option Termios
parse_setting t (size ∷ parity ∷ stop ∷ []) = elim (set_size t size) [
  | none ↦ none
  | some sized ↦ elim (set_parity sized parity) [
    | none ↦ none
    | some checked ↦ set_stop checked stop
  ]
]
parse_setting t _ = none

-- The speeds of the `switch`.
unfoldable pub set_baud : Termios → ℕ → Option Termios
set_baud t baud =
    if baud == 2400
    then some (record t { baud = 2400 })
    else if baud == 4800
    then some (record t { baud = 4800 })
    else if baud == 9600
    then some (record t { baud = 9600 })
    else if baud == 19200
    then some (record t { baud = 19200 })
    else if baud == 38400
    then some (record t { baud = 38400 })
    else if baud == 115200
    then some (record t { baud = 115200 })
    else none

-- The descriptors of the process that are open. `open` adds the one that it gives.
abbrev pub Descriptors : Type 0
Descriptors = List ℕ

unfoldable pub close : ℕ → Descriptors → Descriptors
close fd [] = []
close fd (d ∷ fds) = let rest = close fd fds in if d == fd then rest else d ∷ rest

-- The descriptor that is returned, with what it was set to, or -1; then the open descriptors.
pub data Opened : Type 0 where
  opened : ℕ → Termios → Descriptors → Opened
  failed : Descriptors → Opened

-- `given` is what `open` gives, `set` whether `tcsetattr` succeeds.
unfoldable pub open_serialport : Option ℕ → Bool → ℕ → List ℕ → Descriptors → Opened
open_serialport none set baud setting fds = failed fds
open_serialport (some fd) set baud setting before =
    let fds = fd ∷ before in
    elim (set_baud zeroed baud) [
      | none ↦ failed fds
      | some t ↦ elim (parse_setting (record t { clocal = true; cread = true }) setting) [
        | none ↦ failed (close fd fds)
        | some options ↦ if set then opened fd options fds else failed (close fd fds)
      ]
    ]

-- What `getopt` gives, one option after the other.
pub data Opt : Type 0 where
  device : List ℕ → Opt
  set_tty help version unknown : Opt

-- The options up to the first that ends the program, with its code, or what they set.
pub data Scanned : Type 0 where
  exits : ℕ → Scanned
  go : Option (List ℕ) → Bool → Scanned

unfoldable pub scan : List Opt → Option (List ℕ) → Bool → Scanned
scan [] serial tty = go serial tty
scan (device name ∷ opts) serial tty = scan opts (some name) tty
scan (set_tty ∷ opts) serial tty = scan opts serial true
scan (help ∷ opts) serial tty = exits 0
scan (version ∷ opts) serial tty = exits 0
scan (unknown ∷ opts) serial tty = exits 255

-- A file that could be opened: its size by `fstat`, the bytes that `fread` gives, `ferror`, and the
-- `basename` of its name.
pub record File : Type 0 where
  pub st_size : Option ℕ
  pub bytes : List ℕ
  pub ferror : Bool
  pub basename : List ℕ

-- `nRet` is an `int`: what `ymodem_send` returns is cut to 32 bits, and -1 is not positive.
unfoldable pub exit_code : Option ℕ → ℕ
exit_code none = 1
exit_code (some n) = if ltb 0 (n % 2 ^ 32) && ltb (n % 2 ^ 32) (2 ^ 31) then 0 else 1

-- The buffer has the size of the file and is zeroed; `behind` is readable memory behind it.
unfoldable pub send_file : ℕ → List ℕ → File → Io ℕ
send_file fuel behind f = elim f.st_size [
  | none ↦ pure 255
  | some size ↦
      if size == 0
      then pure 255
      else if length f.bytes == 0 && f.ferror
      then pure 255
      else if length f.basename == 0
      then pure 1
      else (ymodem_send fuel (f.bytes ++ (replicate (size - length f.bytes) 0 ++ behind))
            (length f.bytes) (some f.basename)
          >>= λ n. pure (exit_code n))
]

-- Behind `open_serialport`: with `-t` the program is done, otherwise the file is opened and sent.
unfoldable pub use_port : ℕ → List ℕ → Opened → Bool → Option File → Io ℕ
use_port fuel behind (failed fds) tty file = pure 255
use_port fuel behind (opened fd options fds) true file = pure 0
use_port fuel behind (opened fd options fds) false none = pure 255
use_port fuel behind (opened fd options fds) false (some f) = send_file fuel behind f

-- Behind the options: without a file name only `-t` goes on, and nothing goes on without a device.
-- `filename` is whether an argument is left for it, and the file if it can be opened.
unfoldable pub run_scanned : ℕ → List ℕ → Scanned → Option (Option File) → (List ℕ → Opened) → Io ℕ
run_scanned fuel behind (exits code) filename port = pure code
run_scanned fuel behind (go serial false) none port = pure 255
run_scanned fuel behind (go none tty) filename port = pure 255
run_scanned fuel behind (go (some name) tty) none port = use_port fuel behind (port name) tty none
run_scanned fuel behind (go (some name) tty) (some file) port =
    use_port fuel behind (port name) tty file

-- What a call of `::write` does: all bytes are taken, fewer, or none with -1.
pub data Written : Type 0 where
  whole : Written
  short : ℕ → Written
  refused : Written

abbrev pub taken : Written → List ℕ → List ℕ
taken whole bs = bs
taken (short n) bs = take n bs
taken refused bs = []

-- What comes to the line of the calls of `_putchar` and `_putchars`: they look at the result of
-- `::write` only for a message. When the results are used up, the writes are whole.
unfoldable pub on_line : List Written → List Event → List Event
on_line ws [] = []
on_line ws (got r ∷ es) = got r ∷ on_line ws es
on_line [] (put bs ∷ es) = put bs ∷ on_line [] es
on_line (w ∷ ws) (put bs ∷ es) = put (taken w bs) ∷ on_line ws es

-- `port` is what `open_serialport` returns for a device at 9600 baud and "8E1".
unfoldable pub main :
    ℕ → List ℕ → List Opt → Option (Option File) → (List ℕ → Opened) → List Written → Io ℕ
main fuel behind opts filename port writes replies =
    let r = run_scanned fuel behind (scan opts none false) filename port replies in
    record r { events = on_line writes r.events }
