-- ===== src/Outside/Packet/Request.antt =====
-- What a request of outside_env/src/protocol/protocol_packet.cpp is on the line.
use hukong.Base.{
  ℕ, ◌+◌, ◌≤◌, ◌≡◌, sym, ap, ◌∙◌, arith, List, ◌++◌, Option, length, take, drop, length-append,
  length-take, take-append, append_assoc,
}
use hukong.Serial.Packet.{write}
use hukong.Outside.Packet.{modbus_sum, le16, request_body, build_request}

-- Bytes written to a place inside the memory, and all before them.
take-write :
    (p : List ℕ) (pos : ℕ) (bytes : List ℕ)
    → pos ≤ length p
    → take (pos + length bytes) (write p pos bytes) ≡ take pos p ++ bytes
unfolding write
take-write p pos bytes h =
    ap (λ n. take n (take pos p ++ (bytes ++ rest))) size
    ∙ ap (take (length (take pos p ++ bytes))) (sym (append_assoc (take pos p) bytes rest))
    ∙ take-append (take pos p ++ bytes) rest
  where
    rest : List ℕ
    rest = drop (pos + length bytes) p

    size : pos + length bytes ≡ length (take pos p ++ bytes)
    size = omega (arith, length-append (take pos p) bytes, length-take pos p)

-- `BuildPacket` puts on the line the address, the command, the register and the number of
-- registers, high byte first, the data behind its length, and the Modbus checksum of all that, low
-- byte first.
pub build_request-frame :
    (p : List ℕ) (addr cmd reg_addr reg_addr_count : ℕ) (p_data : Option (List ℕ))
    → (take
          (build_request p addr cmd reg_addr reg_addr_count p_data).1
          (build_request p addr cmd reg_addr reg_addr_count p_data).0
        ≡ request_body addr cmd reg_addr reg_addr_count p_data
          ++ le16 (modbus_sum (request_body addr cmd reg_addr reg_addr_count p_data)))
unfolding build_request
build_request-frame p addr cmd reg_addr reg_addr_count p_data =
    ap (λ t. take (n + 2) (write (write p 0 body) n (le16 (modbus_sum t)))) front
    ∙ take-write (write p 0 body) n (le16 (modbus_sum body))
        (unfold write take in omega (arith, length-append body (drop (0 + n) p)))
    ∙ ap (λ t. t ++ le16 (modbus_sum body)) front
  where
    body : List ℕ
    body = request_body addr cmd reg_addr reg_addr_count p_data

    n : ℕ
    n = length body

    front : take n (write p 0 body) ≡ body
    front = unfold write take in take-append body (drop (0 + n) p)
