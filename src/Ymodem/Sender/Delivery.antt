-- ===== src/Ymodem/Sender/Delivery.antt =====
-- What the block loop of `send_data_packets` in ymodem/src/ymodem.c has got acknowledged when it
-- falls through.
use hukong.Base.{
  ℕ, zero, suc, ◌+◌, ◌-◌, ◌/◌, ◌≤◌, ◌≡◌, ◌≢◌, ◌⊎◌, refl, sym, ap, ◌∙◌, arith, false, if◌then◌else◌,
  ltb, ◌==◌, ◌||◌, List, [], ◌∷◌, Option, none, some, length, length-drop, take, drop, Bool-cases,
  inl, inr, length-drop,
}
use hukong.Ymodem.Control.{ack, can, packet_size}
use hukong.Ymodem.Packet.{head, send_packet}
use hukong.Ymodem.Packet.Frame.{frame, send_packet-written}
use hukong.Ymodem.Port.{done, is, timed_out, stop}
use hukong.Ymodem.Receiver.{acked}
use hukong.Ymodem.Sender.Steps.{
  Delivers, Sends, Delivers-pure, Delivers-stop, Delivers-if, Delivers-exchange_given,
  Delivers-weaken,
}
use hukong.Ymodem.Sender.{IsReadable, send_blocks}

pub frame-ne-nil : (bytes : List ℕ) (n : ℕ) → frame bytes n ≢ []
unfolding frame head
frame-ne-nil bytes n e = cc

send_packet-enough :
    (mem : List ℕ) (n : ℕ) (rs : List (Option ℕ))
    → (send_packet mem n rs).value ≡ done tt
    → 128 ≤ length mem
unfolding send_packet stop
send_packet-enough mem n rs e = ground arith

pub Sends-send_packet : (mem : List ℕ) (n : ℕ) → Sends (send_packet mem n) (frame (take 128 mem) n)
unfolding acked frame
Sends-send_packet mem n = record {
  writes = λ rs rest e. rw (send_packet-written mem n rs (send_packet-enough mem n rs e)) refl;
}

-- The frames of `k` blocks of the data from `mem` on, numbered from `n`.
unfoldable pub data_frames : ℕ → List ℕ → ℕ → List (List ℕ)
data_frames zero mem n = []
data_frames (suc k) mem n = frame (take 128 mem) n ∷ data_frames k (drop 128 mem) (n + 1)

-- The loop over the blocks falls through only after every block has been acknowledged, once, in
-- order.
abbrev pub AllBlocks : List ℕ → ℕ → ℕ → Option ℕ → List (List ℕ) → Type 0
AllBlocks mem size n none fs = Unit
AllBlocks mem size n (some left) fs =
    (left ≡ 0) × (fs ≡ data_frames ((size + 127) / 128) mem n) × IsReadable mem size

data_frames_zero : (k : ℕ) (mem : List ℕ) (n : ℕ) → k ≡ 0 → [] ≡ data_frames k mem n
unfolding data_frames
data_frames_zero zero mem n e = refl
data_frames_zero (suc k) mem n e = absurd (omega arith)

data_frames-suc :
    (k j : ℕ) (mem rest : List ℕ) (n : ℕ)
    → k ≡ suc j
    → (drop 128 mem ≡ rest) ⊎ (j ≡ 0)
    → data_frames k mem n ≡ frame (take 128 mem) n ∷ data_frames j rest (n + 1)
unfolding data_frames
data_frames-suc zero j mem rest n e h = absurd (omega arith)
data_frames-suc (suc k) j mem rest n e (inl d) = let e' : k ≡ j = omega arith in rw (e', d)
data_frames-suc (suc k) j mem rest n e (inr z) =
    ap (λ t. frame (take 128 mem) n ∷ t)
      (sym (data_frames_zero k (drop 128 mem) (n + 1) (omega arith))
        ∙ data_frames_zero j rest (n + 1) z)

data_frames_step :
    (mem : List ℕ) (size n : ℕ)
    → (size == 0) ≡ false
    → let s = if ltb packet_size size then packet_size else size in
      data_frames ((size + 127) / 128) mem n
      ≡ frame (take 128 mem) n ∷ data_frames ((size - s + 127) / 128) (drop s mem) (n + 1)
data_frames_step mem size n more = elim (Bool-cases (ltb packet_size size)) [
  | inl big ↦ rw big (data_frames-suc _ _ mem _ n (ground arith) (inl refl))
  | inr small ↦ rw small (data_frames-suc _ _ mem _ n (ground arith) (inr (omega arith)))
]

AllBlocks-ack :
    (mem : List ℕ) (size n : ℕ) (x : Option ℕ) (fs : List (List ℕ))
    → (size == 0) ≡ false
    → 128 ≤ length mem
    → let s = if ltb packet_size size then packet_size else size in
      AllBlocks (drop s mem) (size - s) (n + 1) x fs
      → AllBlocks mem size n x (frame (take 128 mem) n ∷ fs)
AllBlocks-ack mem size n none fs more m h = tt
AllBlocks-ack mem size n (some left) fs more m (h, e, readable) = (
  h,
  ap (λ t. frame (take 128 mem) n ∷ t) e ∙ sym (data_frames_step mem size n more),
  ground (arith, length-drop 128 mem, length-drop size mem),
)

pub send_blocks-Delivers :
    (fuel : ℕ) (mem : List ℕ) (size n : ℕ)
    → Delivers (send_blocks fuel mem size n) (AllBlocks mem size n)
unfolding send_blocks
send_blocks-Delivers zero mem size n = Delivers-stop
send_blocks-Delivers (suc fuel) mem size n =
    Delivers-if (size == 0) _ _
      (λ e. Delivers-pure _ (ground arith, data_frames_zero _ mem n (ground arith), ground arith))
      (λ more.
        Delivers-exchange_given (128 ≤ length mem) _ (frame (take 128 mem) n) _
          (Sends-send_packet mem n) (frame-ne-nil _ n) (send_packet-enough mem n)
          (λ r enough.
            Delivers-if (is r ack) _ _
              (λ e.
                Delivers-weaken _ (λ x fs h. rw e (AllBlocks-ack mem size n x fs more enough h))
                  (send_blocks-Delivers fuel _ _ (n + 1)))
              (λ e.
                Delivers-if (is r can || timed_out r) _ _ (λ _. Delivers-pure none tt)
                  (λ _.
                    Delivers-weaken _ (λ x fs h. rw e h) (send_blocks-Delivers fuel mem size n)))))
