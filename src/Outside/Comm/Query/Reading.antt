-- ===== src/Outside/Comm/Query/Reading.antt =====
-- The answer of the box to `QueryEnv` of outside_env/src/protocol/protocol_comm.cpp, as Modbus and
-- the responder of outside_env/modbus_debug send it: 17 registers, each high byte first.
use hukong.Base.{
  ℕ, ◌+◌, ◌*◌, ◌/◌, ◌%◌, ◌^◌, ◌<◌, ◌==◌, if◌then◌else◌, ◌≡◌, refl, arith, List, ◌∷◌, ◌++◌,
}
use hukong.Repeat.Bytes.{get_bit}
use hukong.Outside.Packet.{be16}
use hukong.Outside.PacketBuffer.Accept.{IsAnswer, registers}
use hukong.Outside.Comm.Query.{EnvInfo, env_of}

-- Each register has 16 bits.
abbrev pub IsFit : (ℕ → ℕ) → Type 0
IsFit r = (i : ℕ) → r i < 2 ^ 16

-- Their bytes.
unfoldable pub registers_of : (ℕ → ℕ) → List ℕ
registers_of r =
    be16 (r 0)
    ++ (be16 (r 1)
        ++ (be16 (r 2)
            ++ (be16 (r 3)
                ++ (be16 (r 4)
                    ++ (be16 (r 5)
                        ++ (be16 (r 6)
                            ++ (be16 (r 7)
                                ++ (be16 (r 8)
                                    ++ (be16 (r 9)
                                        ++ (be16 (r 10)
                                            ++ (be16 (r 11)
                                                ++ (be16 (r 12)
                                                    ++ (be16 (r 13)
                                                        ++ (be16 (r 14)
                                                            ++ (be16 (r 15)
                                                            ++ be16 (r 16))))))))))))))))

unfoldable pub answer : (ℕ → ℕ) → List ℕ
answer r = 0x01 ∷ 0x03 ∷ 34 ∷ registers_of r

pub answer-IsAnswer : (r : ℕ → ℕ) → IsAnswer (answer r)
unfolding answer registers_of
answer-IsAnswer r = registers 0x01 (registers_of r) (omega arith) (omega arith)

-- The two bytes of a register, exchanged.
abbrev pub swapped : ℕ → ℕ
swapped w = w % 2 ^ 8 * 2 ^ 8 + w / 2 ^ 8

abbrev pub bit : ℕ → ℕ → ℕ
bit w k = w / 2 ^ k % 2

-- What the caller of `QueryEnv` is told, by the registers.
abbrev pub told : {D : Type 0} → (ℕ → ℕ → ℕ → D) → (ℕ → ℕ) → EnvInfo D
told over r = record {
  pm03 = swapped (r 1) + swapped (r 2) * 2 ^ 16;
  pm25 = swapped (r 3);
  pm10 = swapped (r 4);
  jiaquang = over (swapped (r 5)) 0 100;
  co2 = swapped (r 6);
  temp = over (swapped (r 7)) 100 2;
  wet = swapped (r 8);
  season = if r 13 / 2 ^ 8 % 4 == 2 then 1 else 0;
  east_sun = bit (r 13) 10;
  south_sun = bit (r 13) 11;
  wet_sun = bit (r 13) 12;
  sunsen1_fault = bit (r 13) 0;
  sunsen2_fault = bit (r 13) 1;
  sunsen3_fault = bit (r 13) 2;
  dustsen_fault = bit (r 13) 3;
  wetsen_fault = bit (r 13) 4;
  tempsen_fault = bit (r 13) 5;
}

word-be16 : (w : ℕ) → w < 2 ^ 16 → w / 2 ^ 8 % 2 ^ 8 + w % 2 ^ 8 * 2 ^ 8 ≡ swapped w
word-be16 w h = omega arith

high_season : (w : ℕ) → w / 2 ^ 8 % 2 ^ 8 / 2 ^ 0 % 2 ^ 2 ≡ w / 2 ^ 8 % 4
high_season w = omega arith

high_bits :
    (w : ℕ)
    → (get_bit (w / 2 ^ 8 % 2 ^ 8) 2 ≡ bit w 10)
      × (get_bit (w / 2 ^ 8 % 2 ^ 8) 3 ≡ bit w 11)
      × (get_bit (w / 2 ^ 8 % 2 ^ 8) 4 ≡ bit w 12)
unfolding get_bit
high_bits w = (omega arith, omega arith, omega arith)

low_bits :
    (w : ℕ)
    → (get_bit (w % 2 ^ 8) 0 ≡ bit w 0)
      × (get_bit (w % 2 ^ 8) 1 ≡ bit w 1)
      × (get_bit (w % 2 ^ 8) 2 ≡ bit w 2)
      × (get_bit (w % 2 ^ 8) 3 ≡ bit w 3)
      × (get_bit (w % 2 ^ 8) 4 ≡ bit w 4)
      × (get_bit (w % 2 ^ 8) 5 ≡ bit w 5)
unfolding get_bit
low_bits w = (omega arith, omega arith, omega arith, omega arith, omega arith, omega arith)

pub env_of-answer :
    {D : Type 0} (over : ℕ → ℕ → ℕ → D) (r : ℕ → ℕ) (rest : List ℕ)
    → IsFit r
    → env_of over (answer r ++ rest) ≡ told over r
unfolding env_of answer registers_of
env_of-answer over r rest fit =
    let sun = high_bits (r 13) in
    let fault = low_bits (r 13) in
    rw
      (
        word-be16 (r 1) (fit 1),
        word-be16 (r 2) (fit 2),
        word-be16 (r 3) (fit 3),
        word-be16 (r 4) (fit 4),
        word-be16 (r 5) (fit 5),
        word-be16 (r 6) (fit 6),
        word-be16 (r 7) (fit 7),
        word-be16 (r 8) (fit 8),
        high_season (r 13),
        sun.0,
        sun.1,
        sun.2,
        fault.0,
        fault.1,
        fault.2,
        fault.3,
        fault.4,
        fault.5,
      )
      refl
