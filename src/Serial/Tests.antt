-- ===== src/Serial/Tests.antt =====
-- Runs of src/protocol and of lib-linux/src/buffer.h at concrete inputs.
use hukong.Base.{
  ℕ, zero, ◌^◌, ◌≤◌, ◌<◌, ◌≡◌, refl, arith, List, [], ◌∷◌, ◌++◌, none, some, false, true, ap, sym,
  length, take, drop, replicate, length-replicate,
}
use hukong.Serial.Buffer.{Buffer, put, get, next_pow_of_2, smear, free_size}
use hukong.Serial.Buffer.Refine.{IsValid, contents, Yields, Holds, put-appends, get-takes}
use hukong.Serial.Packet.{get_src_addr, build_packet, check_sum, accumulate, calc_check_sum}
use hukong.Serial.Packet.Wire.{wire, body_of, build_packet-wire}
use hukong.Serial.PacketBuffer.{valid, packet_vaild}
use hukong.Serial.Comm.{Comm, faulted, returned, on_receive}
use hukong.Serial.Comm.Drain.{wires, Carried}
use hukong.Serial.Queue.{Popped, front, wait_pop, pop_rest, wait_pop_last}
use hukong.Serial.Queue.Last.{Emptied, wait_pop_last-Emptied}
use hukong.Serial.Send.{Answer, send_frame, frame_of, wait_resend, wait_response}
use hukong.Serial.Send.Resend.{Answered, wait_response-Answered}
use hukong.Serial.Method.{
  bcd, Method, Result, update, type_id_of, code_key, check_result, exchange, remember, transform,
}
use hukong.Serial.Method.Cache.{most, transform-cached, transform-ends}
use hukong.Serial.Comm.Stream.{IsRead, joined, receive_reads, receive_reads-packets}

next_pow_of_2-5 : next_pow_of_2 5 ≡ 8
unfolding next_pow_of_2 smear
next_pow_of_2-5 = refl

abbrev buffer : Buffer
buffer = record { buf = replicate 256 0; max_size = 256; cur_pos = 0 }

buffer-IsValid : IsValid buffer
buffer-IsValid = record {
  memory = length-replicate 256 zero;
  inside = omega arith;
  some_room = omega arith;
}

-- 300 bytes into a buffer of 256: the memory is enlarged.
put-appends_example :
    Yields (put 0 buffer (replicate 300 7)) (Holds (contents buffer ++ replicate 300 7))
put-appends_example =
    put-appends 0 buffer (replicate 300 7) buffer-IsValid
      (omega (arith, length-replicate {A = ℕ} 300 7))

abbrev half_full : Buffer
half_full = record { buf = 1 ∷ 2 ∷ 3 ∷ 0 ∷ []; max_size = 4; cur_pos = 3 }

half_full-IsValid : IsValid half_full
half_full-IsValid = record { memory = refl; inside = omega arith; some_room = omega arith }

get-takes_example :
    Yields
      (get half_full 2)
      (λ r. (r.0 ≡ take 2 (contents half_full)) × Holds (drop 2 (contents half_full)) r.1)
get-takes_example = get-takes half_full 2 half_full-IsValid

abbrev struct_memory : List ℕ
struct_memory = replicate 262 0xcc

build_packet-wire_example :
    (take
        (build_packet struct_memory 0 3 0x1e 0x81 (some (0x55 ∷ 0x55 ∷ 0x55 ∷ []))).1
        (build_packet struct_memory 0 3 0x1e 0x81 (some (0x55 ∷ 0x55 ∷ 0x55 ∷ []))).0
      ≡ wire (body_of 0 3 0x1e 0x81 (some (0x55 ∷ 0x55 ∷ 0x55 ∷ []))))
    × (length (build_packet struct_memory 0 3 0x1e 0x81 (some (0x55 ∷ 0x55 ∷ 0x55 ∷ []))).0 ≡ 262)
build_packet-wire_example =
    build_packet-wire struct_memory 0 3 0x1e 0x81 (some (0x55 ∷ 0x55 ∷ 0x55 ∷ []))
      (length-replicate {A = ℕ} 262 0xcc) (omega arith)

-- "F7 F8 07 00 01 1E 81 0A 0B BC FD" twice, cut into reads of 3, 15 and 4 bytes.
abbrev query : List ℕ
query = body_of 0 1 0x1e 0x81 (some (0x0a ∷ 0x0b ∷ []))

abbrev reads : List (ℕ × List ℕ)
reads =
    (3, 0xf7 ∷ 0xf8 ∷ 0x07 ∷ [])
    ∷ (
      16,
      0x00 ∷ 0x01 ∷ 0x1e ∷ 0x81 ∷ 0x0a ∷ 0x0b ∷ 0xbc ∷ 0xfd ∷ 0xf7 ∷ 0xf8 ∷ 0x07 ∷ 0x00 ∷ 0x01
          ∷ 0x1e ∷ 0x81 ∷ [],
    )
    ∷ (4, 0x0a ∷ 0x0b ∷ 0xbc ∷ 0xfd ∷ [])
    ∷ []

reads-query : joined reads ≡ wires (query ∷ query ∷ [])
unfolding wires wire check_sum accumulate
reads-query = refl

abbrev fresh_comm : Comm
fresh_comm = record { m_buffer = buffer; m_queue = []; m_resend = false; m_packet = struct_memory }

IsRead-intro :
    (n : ℕ) (bytes : List ℕ) → 0 < length bytes → length bytes ≤ n → n ≤ 2 ^ 16 → IsRead (n, bytes)
IsRead-intro n bytes p h k = record { some_read = p; announced = h; bounded = k }

receive_reads-packets_example :
    (qs : List (List ℕ)) × (d : Comm) × (receive_reads 0 struct_memory fresh_comm reads
      ≡ returned d)
    × (d.m_queue ≡ [] ++ qs)
    × Carried (query ∷ query ∷ []) qs
    × (d.m_buffer.cur_pos ≡ 0)
receive_reads-packets_example =
    receive_reads-packets 0 struct_memory fresh_comm reads (query ∷ query ∷ [])
      (length-replicate {A = ℕ} 262 0xcc) buffer-IsValid (omega arith) refl
      ((omega arith, omega arith, omega arith), ((omega arith, omega arith, omega arith), tt))
      (
        IsRead-intro 3 _ (omega arith) (omega arith) (omega arith),
        (
          IsRead-intro 16 _ (omega arith) (omega arith) (omega arith),
          (IsRead-intro 4 _ (omega arith) (omega arith) (omega arith), tt),
        ),
      )
      reads-query

-- A length byte of 0 passes for a packet: its checksum is the length byte itself, and its end mark
-- is the sender's address.
abbrev short_frame : Buffer
short_frame = record {
  buf = 0xf7 ∷ 0xf8 ∷ 0 ∷ 0xfd ∷ 1 ∷ 2 ∷ 3 ∷ 4 ∷ 5 ∷ [];
  max_size = 9;
  cur_pos = 9;
}

packet_vaild-short : packet_vaild short_frame ≡ valid
unfolding packet_vaild calc_check_sum check_sum accumulate take
packet_vaild-short = refl

-- A failed read moves the position before the memory.
on_receive-read_fails : on_receive 0 struct_memory fresh_comm 1 none ≡ faulted
unfolding on_receive free_size
on_receive-read_fails = refl

-- Two packets wait in the queue and a third comes with the second call of `WaitPop`: it is the one
-- that `WaitPopLast` gives.
wait_pop_last-Emptied_example :
    (calls : ℕ) × (r : Popped) × (wait_pop_last 4
        ((1 ∷ []) ∷ (2 ∷ []) ∷ [])
        ([] ∷ ((3 ∷ []) ∷ []) ∷ [])
      ≡ some r)
    × Emptied ((1 ∷ []) ∷ (2 ∷ []) ∷ []) ([] ∷ ((3 ∷ []) ∷ []) ∷ []) calls r
wait_pop_last-Emptied_example =
    wait_pop_last-Emptied 4 ((1 ∷ []) ∷ (2 ∷ []) ∷ []) ([] ∷ ((3 ∷ []) ∷ []) ∷ []) (omega arith)

abbrev resending : Comm
resending = record fresh_comm { m_resend = true }

wait_response-Answered_example :
    (a : Answer) × (wait_response 1 resending [] ≡ some a) × Answered (frame_of struct_memory) 2 a
wait_response-Answered_example = wait_response-Answered 1 resending [] (omega arith)

abbrev method : Method
method = record {
  comm = resending;
  query_packet_map = λ _. none;
  query_packet_block_set = λ _. false;
  cmd_packet_trans_map = λ _. none;
}

transform-ends_example :
    (r : Result) × (transform 1 method 0 1 0x1e 0x01 none false false true [] ≡ some r)
    × (r.method.comm.m_resend ≡ true)
    × (length r.written ≤ most false true)
transform-ends_example =
    transform-ends 1 method 0 1 0x1e 0x01 none false false true [] (omega arith)

-- The device answers the poll with the state of its lights.
abbrev answer : List ℕ
answer = 0xf7 ∷ 0xf8 ∷ 6 ∷ 0 ∷ 1 ∷ 0x1e ∷ 0x01 ∷ 0x3f ∷ 0x65 ∷ 0xfd ∷ []

answer_src : (p : List ℕ) → some answer ≡ some p → get_src_addr p ≡ 0
answer_src p e = sym (ap (λ o. elim o [ none ↦ 0 | some q ↦ get_src_addr q ]) e)

abbrev polled : Result
polled = record {
  method = record method {
    comm = record fresh_comm {
      m_resend = true;
      m_packet = (build_packet struct_memory 0 1 0x1e 0x01 none).0;
    };
    query_packet_map = update (λ _. none) (type_id_of answer) (some answer);
    query_packet_block_set = update (λ _. false) (code_key 0x1e 0x01) true;
  };
  value = some answer;
  written =
      take (build_packet struct_memory 0 1 0x1e 0x01 none).1
        (build_packet struct_memory 0 1 0x1e 0x01 none).0
      ∷ [];
  later = [];
}

poll : transform 2 method 0 1 0x1e 0x01 none true true true ((answer ∷ []) ∷ []) ≡ some polled
unfolding transform exchange send_frame wait_response wait_resend wait_pop_last pop_rest wait_pop
    front check_result remember
poll = refl

transform-cached_example :
    transform 2 polled.method 0 1 0x1e 0x01 none false false true []
    ≡ some (record { method = polled.method; value = some answer; written = []; later = [] })
transform-cached_example =
    transform-cached 2 method 0 1 0x1e 0x01 none true true ((answer ∷ []) ∷ []) polled none false
      true [] (omega arith) poll answer_src

bcd-123499 : bcd (0x12 ∷ 0x34 ∷ 0x99 ∷ []) 0 ≡ 123499
unfolding bcd
bcd-123499 = refl
