-- ===== src/Ota/Tests.antt =====
-- Runs of esp8266/app/ota.c.
use esp8266_xcode.Base.{
  ℕ, ◌+◌, ◌-◌, ◌/◌, List, [], ◌∷◌, ◌≡◌, some, arith, drop, length, replicate, length-replicate, ltb,
  if◌then◌else◌,
}
use esp8266_xcode.Base.Int.{pos}
use esp8266_xcode.Lost.Text.{c_str}
use esp8266_xcode.Ota.{
  finish, sent, disconnect, flag_set, init_context, ota_tcp_send, ok_text, is_int, sec_size,
}
use esp8266_xcode.Ota.Flash.{
  written, flash, receive, image, written-image, flash-image, ota_tcp_send-receive,
}
use esp8266_xcode.Ota.Request.{fw_bin1, ota_udp_recv, ota_tcp_init, request, ota_udp_recv-request}

block : ℕ → List ℕ
block n = replicate n 7

length-block : (n : ℕ) → length (block n) ≡ n
unfolding block
length-block n = length-replicate n 7

abbrev packets : List (List ℕ)
packets = block 4000 ∷ block 1460 ∷ []

written-image_example :
    (written (receive (init_context 0x101000 (pos 5460)) packets).1 ≡ drop 0x1000 (image packets))
    × ((receive (init_context 0x101000 (pos 5460)) packets).0.offset ≡ length (image packets))
written-image_example = written-image 0x101000 (pos 5460) packets (omega arith)

flash-image_example :
    flash 0x101000 (0x101000 / sec_size) (receive (init_context 0x101000 (pos 5460)) packets).1
    ≡ some (
        if ltb (length (image packets)) 0x1000 then (0x101000, 0x101000 / sec_size) else (
          0x101000 + length (image packets) - 0x1000,
          (0x101000 + length (image packets) - 0x1000) / sec_size + 1,
        ))
flash-image_example =
    flash-image 0x101000 (pos 5460) packets (omega arith)
      (omega (arith, length-block 4000, length-block 1460))

ota_tcp_send-receive_example :
    ota_tcp_send (receive (init_context 0x101000 (pos 5460)) packets).0 ≡ (
      if is_int (pos 5460) (length (image packets))
      then flag_set finish ∷ sent ok_text ∷ disconnect ∷ []
      else [])
ota_tcp_send-receive_example = ota_tcp_send-receive 0x101000 (pos 5460) packets (omega arith)

ota_udp_recv-request_example :
    ota_udp_recv fw_bin1
      (some (10 ∷ 0 ∷ 0 ∷ 2 ∷ []))
      (request (b'0' ∷ []) (pos 8266) (pos 5460) (b'f' ∷ []))
    ≡ record {
      events = sent ok_text ∷ [];
      connection = some (ota_tcp_init fw_bin1 (10 ∷ 0 ∷ 0 ∷ 2 ∷ []) (pos 8266) (pos 5460));
      freed = some [];
    }
unfolding c_str
ota_udp_recv-request_example =
    ota_udp_recv-request fw_bin1 (10 ∷ 0 ∷ 0 ∷ 2 ∷ []) (b'0' ∷ []) (pos 8266) (pos 5460) (b'f' ∷ [])
      (omega arith) (omega arith) (cc) (omega arith, omega arith) (omega arith, omega arith)
