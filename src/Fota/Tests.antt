-- ===== src/Fota/Tests.antt =====
-- Runs of esp8266/app/fota.cpp.
use esp8266_xcode.Base.{ℕ, List, [], ◌∷◌, ◌++◌, none, refl, arith}
use esp8266_xcode.Base.Strings.{codes}
use esp8266_xcode.Lost.Number.Laws.{print_int, decimal}
use esp8266_xcode.Ota.Flash.{image}
use esp8266_xcode.Fota.{bin1, find}
use esp8266_xcode.Fota.Packet.{IsHead}
use esp8266_xcode.Fota.Header.{recv_all}
use esp8266_xcode.Fota.Image.{Stored, fota_recv-Stored}

abbrev status_line : List ℕ
status_line = codes "HTTP/1.1 200 OK" ++ (13 ∷ 10 ∷ [])

abbrev answer_head : List ℕ
answer_head = status_line ++ (codes "Content-Length: 5" ++ (13 ∷ 10 ∷ 13 ∷ 10 ∷ []))

answer_head-IsHead : IsHead 5 answer_head
unfolding find print_int decimal
answer_head-IsHead = record {
  before = status_line;
  after = 13 ∷ 10 ∷ [];
  text = refl;
  first_key = refl;
  end_at = 34;
  first_end = refl;
  ends = refl;
}

-- The header ends in the second packet.
abbrev packets : List (List ℕ)
packets =
    (status_line ++ codes "Content-Len")
    ∷ (codes "gth: 5" ++ (13 ∷ 10 ∷ 13 ∷ 10 ∷ 233 ∷ 1 ∷ []))
    ∷ (2 ∷ 3 ∷ 4 ∷ [])
    ∷ []

fota_recv-Stored_example :
    Stored 0x81000 5 (233 ∷ 1 ∷ 2 ∷ 3 ∷ 4 ∷ []) packets (recv_all bin1 0x1000 0x81000 none packets)
unfolding image
fota_recv-Stored_example =
    fota_recv-Stored bin1 0x1000 0x81000 4 answer_head (233 ∷ 1 ∷ 2 ∷ 3 ∷ 4 ∷ []) packets
      (omega arith) (omega arith) answer_head-IsHead refl
