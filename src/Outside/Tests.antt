-- ===== src/Outside/Tests.antt =====
-- Runs of outside_env/src/protocol at concrete inputs.
use hukong.Base.{
  ◌%◌, ◌^◌, get_or, ℕ, ◌≡◌, refl, arith, Bool, true, false, List, [], ◌∷◌, none, some, take,
  replicate, length-replicate,
}
use hukong.Reflected.{bytes}
use hukong.Outside.Crc16.{crc16, crc16_byte, crc16_table}
use hukong.Outside.Crc16.Table.{modbus_poly, crc16-eq-bytes}
use hukong.Outside.Packet.{request_body}
use hukong.Serial.Buffer.{
  Buffer, store, copy_to, move_pos, free_size, realloc, grown, next_pow_of_2, smear,
}
use hukong.Serial.Buffer.Refine.{IsValid}
use hukong.Serial.Comm.Stream.{IsRead}
use hukong.Outside.PacketBuffer.{get_packet, packet_vaild, get_packet_len}
use hukong.Outside.PacketBuffer.Accept.{wire}
use hukong.Outside.Comm.{Comm, Exchange, drain, take_packets, returned, aborted, on_receive}
use hukong.Outside.Comm.Query.{SettingInfo, setting_bytes, query_env, set_env}
use hukong.Outside.Comm.Query.Reading.{IsFit, registers_of, answer, told}
use hukong.Outside.Comm.Query.Wait.{asked, query_env-registers}
use hukong.Outside.Comm.Query.Setting.{SettingsOf, set_request, set_env-writes}

abbrev digits : List ℕ
digits = b'1' ∷ b'2' ∷ b'3' ∷ b'4' ∷ b'5' ∷ b'6' ∷ b'7' ∷ b'8' ∷ b'9' ∷ []

-- The published check value of CRC-16/MODBUS.
crc16-modbus : crc16 0xffff digits ≡ 0x4b37
unfolding crc16 crc16_byte crc16_table
crc16-modbus = refl

crc16-eq-bytes_example : crc16 0xffff digits ≡ bytes modbus_poly digits 0xffff
crc16-eq-bytes_example = crc16-eq-bytes digits 0xffff (ground arith)

abbrev request_memory : List ℕ
request_memory = replicate 258 0xcc

-- The registers that the responder of outside_env/modbus_debug sends.
abbrev responder : ℕ → ℕ
responder i =
    get_or (1 ∷ 3 ∷ 0xd090 ∷ 500 ∷ 30 ∷ 4 ∷ 5 ∷ 110 ∷ 7 ∷ 8 ∷ 9 ∷ 10 ∷ 11 ∷ 0x0200 ∷ 0 ∷ 0 ∷ 0 ∷ [])
      i 0
    % 2 ^ 16

responder-IsFit : IsFit responder
responder-IsFit i = omega arith

abbrev empty_buffer : Buffer
empty_buffer = record { buf = replicate 64 0; max_size = 64; cur_pos = 0 }

empty_buffer-IsValid : IsValid empty_buffer
empty_buffer-IsValid = record {
  memory = length-replicate {A = ℕ} 64 0;
  inside = omega arith;
  some_room = omega arith;
}

abbrev idle : Comm
idle = record { m_buffer = empty_buffer; m_queue = []; m_packet = request_memory }

-- A division, as its three numbers.
abbrev parts : ℕ → ℕ → ℕ → ℕ × ℕ × ℕ
parts a b d = (a, b, d)

answer-IsRead : IsRead (39, wire (answer responder))
unfolding wire answer registers_of
answer-IsRead = record { some_read = omega arith; announced = omega arith; bounded = omega arith }

query_env-registers_example :
    (d : Comm) × (x : Exchange) × (on_receive 0 request_memory
        (asked idle)
        39
        (some (wire (answer responder)))
      ≡ returned d)
    × (query_env parts idle true (d.m_queue ∷ [])
        ≡ some (record { after = x; info = some (told parts responder) }))
    × (x.written ≡ wire (request_body 0x01 0x03 0x01 0x11 none) ∷ [])
query_env-registers_example =
    query_env-registers parts 0 request_memory idle 39 responder []
      (length-replicate {A = ℕ} 258 0xcc) empty_buffer-IsValid (omega arith) refl responder-IsFit
      answer-IsRead

-- 500 is told as 0xf401, and 30 as 0x1e00.
responder-pm25 : (told parts responder).pm25 ≡ 0xf401
responder-pm25 = refl

abbrev seasons : SettingInfo
seasons = record {
  summer_days = 5;
  summer_temp = 0xffff;
  summer_temp_continue = 0x0102;
  winter_days = 7;
  winter_temp = 10;
  winter_temp_continue = 3;
  light_strength = 300;
  outside_air_detection = true;
}

set_env-writes_example :
    (x : Exchange) × (ok : Bool) × (set_env idle seasons true ([] ∷ []) ≡ some (x, ok))
    × (x.written ≡ wire (set_request seasons) ∷ [])
    × SettingsOf (setting_bytes seasons) seasons
    × (true ≡ false → ok ≡ false)
    × (x.packet ≡ none → ok ≡ false)
set_env-writes_example = set_env-writes idle seasons true ([] ∷ [])

-- An answer that reports an error of Modbus, and one more byte, end the program.
modbus_error-aborts :
    on_receive 0 request_memory idle 6 (some (0x01 ∷ 0x83 ∷ 0x02 ∷ 0xc0 ∷ 0xf1 ∷ 0x00 ∷ []))
    ≡ aborted
unfolding on_receive store copy_to move_pos free_size take_packets drain get_packet packet_vaild
    get_packet_len replicate realloc grown next_pow_of_2 smear take
modbus_error-aborts = refl
