-- ===== src/Ymodem/Sender/Retry.antt =====
-- One round of the block loop of ymodem/src/ymodem.c, and a peer that never accepts a block.
use hukong.Base.{
  ℕ, zero, suc, ◌+◌, ◌-◌, ◌≤◌, ◌<◌, ◌≡◌, ◌≢◌, refl, ap, ◌∙◌, arith, List, [], ◌∷◌, ◌++◌, Option,
  some, length, take, drop, replicate, false, ltb, ◌==◌, if◌then◌else◌,
}
use hukong.Ymodem.Control.{ack, can, packet_size}
use hukong.Ymodem.Packet.Frame.{written, send_packet-written}
use hukong.Ymodem.Port.{Event, got, prepend, get_char, ◌>>=◌}
use hukong.Ymodem.Sender.{send_blocks}

-- The events of one block and its reply.
abbrev pub exchange : List ℕ → ℕ → Option ℕ → List Event
exchange mem n r = written (take 128 mem) n ++ got r ∷ []

module _ (fuel : ℕ) (mem : List ℕ) (size n : ℕ) (more : (size == 0) ≡ false)
    (m : 128 ≤ length mem) where
  send_blocks_retry :
      (c : ℕ) (rs : List (Option ℕ))
      → c ≢ ack
      → c ≢ can
      → send_blocks (suc fuel) mem size n (some c ∷ rs)
        ≡ prepend (exchange mem n (some c)) (send_blocks fuel mem size n rs)
  unfolding send_blocks get_char ◌>>=◌
  send_blocks_retry c rs h k =
      let not_ack : (c == ack) ≡ false = ground arith in
      let not_can : (c == can) ≡ false = ground arith in
      rw (more, send_blocks) (rw (send_packet-written mem n (some c ∷ rs) m, not_ack, not_can) refl)

  pub send_blocks-ack :
      (rs : List (Option ℕ))
      → let s = if ltb packet_size size then packet_size else size in
        send_blocks (suc fuel) mem size n (some ack ∷ rs)
        ≡ prepend (exchange mem n (some ack)) (send_blocks fuel (drop s mem) (size - s) (n + 1) rs)
  unfolding send_blocks get_char ◌>>=◌
  send_blocks-ack rs =
      rw (more, send_blocks) (rw (send_packet-written mem n (some ack ∷ rs) m) refl)

-- The events of `k` sendings of one block, each answered by `r`.
unfoldable pub sendings : ℕ → List ℕ → ℕ → Option ℕ → List Event
sendings zero mem n r = []
sendings (suc k) mem n r = exchange mem n r ++ sendings k mem n r

-- While data is left and 128 bytes can be read, there is no limit on errors: after any number `k` of NAKs (or any other reply but ACK and CAN) in
-- a row the sender is where it was, has sent the same block `k` times, and goes on.
pub send_blocks_retries :
    (k fuel : ℕ) (mem : List ℕ) (size n c : ℕ) (rs : List (Option ℕ))
    → 0 < size
    → 128 ≤ length mem
    → c ≢ ack
    → c ≢ can
    → send_blocks (k + fuel) mem size n (replicate k (some c) ++ rs)
      ≡ prepend (sendings k mem n (some c)) (send_blocks fuel mem size n rs)
unfolding sendings replicate
send_blocks_retries zero fuel mem size n c rs p m h g =
    let e : 0 + fuel ≡ fuel = omega arith in ap (λ t. send_blocks t mem size n rs) e
send_blocks_retries (suc k) fuel mem size n c rs p m h g =
    let e : suc k + fuel ≡ suc (k + fuel) = omega arith in
    ap (λ t. send_blocks t mem size n (some c ∷ (replicate k (some c) ++ rs))) e
    ∙ send_blocks_retry (k + fuel) mem size n (ground arith) m c _ h g
    ∙ ap (prepend (exchange mem n (some c))) (send_blocks_retries k fuel mem size n c rs p m h g)
