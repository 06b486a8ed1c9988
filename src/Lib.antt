-- ===== src/Lib.antt =====
-- Models of the control software for the HuKong building controller, and proofs about them.
--
-- Ymodem is the upgrade tool of ymodem/src: `ymodem_send` sends a file to a boot loader over a
-- serial line. Crc16 and Crc32 hold the checksums, Remainder the long division that the first is
-- held against, Decimal `u32_to_str`, Packet `send_packet` and
-- `send_packet0`, Sender `send_data_packets` and `ymodem_send`, Tool `main` and the settings of
-- the serial port in ymodem_send.c, Control the codes of ymodem.h. Port is the line that
-- `_putchar`, `_putchars` and `_getchar` give them: the peer is the list of what the calls of
-- `_getchar` return, and a run is the list of what was given to `::write` and read. What `::write`
-- takes of it is an argument of `main`. `_getchar` ends the program when `select`, `ioctl` or `read`
-- fails; those runs are left out, and so are the descriptors that `main` closes. Receiver is a receiver of
-- the protocol, written down as a measure for the sender; it is not code. A loop that waits for
-- the peer runs on fuel; more fuel than the peer has replies is always enough (Sender/Total). The
-- memory behind the data pointer is a list, and reading past its end is the outcome `fault`.
-- Numbers are natural numbers; the width of `unsigned short` and of the argument of `u32_to_str`
-- is written out as a remainder. Delays, progress prints and the flush of the line are left out.
--
-- Serial is the bus protocol of src/protocol. Buffer is the byte queue of lib-linux/src/buffer.h
-- with `next_pow_of_2` of utility.h (Growth: its bounds; Refine: the operations on the contents).
-- Packet is `struct Packet` of protocol_packet.h and .cpp, as its 262 bytes, with `BuildPacket`
-- (Wire: the layout on the line). PacketBuffer has `PacketVaild` and `GetPacket`, Comm the handler
-- `OnReceive` of protocol_comm.cpp (Drain: its loop; Stream: a sequence of calls). Queue is
-- `JobQueue` of lib-linux/src/jobqueue.h with `WaitPopLast` (Last), Send the functions that send
-- and wait for an answer (Resend: how often), Method the class `ProtocolMethod` with `transform`
-- and its query cache (Cache), `BCD` (Bcd), the meter (Meter; Reading: its data; Told: what is made
-- of them; floating-point arithmetic is an argument) and the codes of the light, curtain and
-- air-conditioner commands (Devices, Aircon). What C leaves undefined, a shift by a negative count,
-- is a parameter there. Packets that another thread queues are given as a list, one item for each call of `WaitPop`. The loop of
-- `OnReceive` runs on one more unit of fuel than there are bytes in the buffer, that of
-- `WaitPopLast` on any fuel above the number of packets (Queue/Last). Bytes of uninitialised
-- memory are a parameter. What `::read` gives is a parameter, its failure included. Logs, the
-- flush of the line and the LED are left out.
--
-- Repeat is `RepeatComm` of src/repeat_comm.cpp: the shared object (State), its data file (File),
-- the contacts and sensors (Sensors; Inputs and Rooms: what they amount to), the calls of the RPC
-- threads (Settings, Climate; Devices: `HumanSenToDev`), the requests of the air controller that
-- this box answers itself (Inner, with Setting, Binding and Clock) and those it passes on to a
-- device (Run), and the thread that polls the devices (Polling; Tries: how often). Steps puts them
-- together: a step is one round of a thread or one call, which holds the lock; reading and clearing
-- a flag is taken as one step. The bus is an argument of Run, a function from what `transform` is called with to the
-- answer; `transform_by_kongguan` calls it, and `bus_of` is the one of Serial/Method.
-- The calls that set counters and prices, and those that read the air, take the conversions of
-- floating-point numbers as arguments (Calc; ReadBack: what can be read from the records). The
-- rest of Repeat has no floating-point numbers, and `SetOutsideEnv` and `SetTime` are left out; the
-- bytes that the code makes of the temperature outside and of the meter are arguments. `int` arguments
-- are natural numbers. What the gpios, the clock and the shell give is an argument as well, and the
-- commands for the shell are listed in the outcome without their text.
--
-- Outside is the Modbus client of outside_env/src/protocol: Crc16 is crc16.cpp (Table: against the
-- definition; Width: 16 bits), Packet `BuildPacket` of protocol_packet.cpp (Request: the frame),
-- PacketBuffer `PacketVaild` and `GetPacket` with the lengths of protocol_packet.h (Accept: on the
-- answers of the box), Comm the class `CProtocolComm` of protocol_comm.cpp (Receive: `OnReceive` on
-- whole answers) and Comm/Query its `QueryEnv` and `SetEnv` (Reading: the registers; Wait: the
-- query; Setting: the request). The byte queue and the job queue are those of Serial. The loop of
-- `OnReceive` has the fuel that it has there. Floating-point division is an argument. The main
-- program, which passes on what `QueryEnv` tells over TCP, is left out.
--
-- Reflected is the bit-by-bit definition of a reflected CRC, which the table-driven routines of
-- both programs are compared with.
--
-- Base passes on what all use: the library's numbers, lists and options, the lists over the native
-- numbers, the bitwise operations and their laws.
pub mod Base
pub mod Outside
pub mod Reflected
pub mod Repeat
pub mod Serial
pub mod Ymodem
