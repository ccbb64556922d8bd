-- ===== src/Uart/Tests.antt =====
-- Runs of esp8266/app/uart.c.
use esp8266_xcode.Base.{map, ◌≤◌, ◌<◌}
use esp8266_xcode.Uart.Frame.{uart_wait_until}
use esp8266_xcode.Uart.Frame.Wait.{uart_wait_until-Polls}
use esp8266_xcode.Uart.{u32}
use esp8266_xcode.Uart.Loopback.{Joined, deliver}
use esp8266_xcode.Uart.Loopback.Delivery.{at_start, uart_recv-uart_send}
use esp8266_xcode.Base.{
  none, false, leb, get_or, if◌then◌else◌, replicate, length, min, ◌%◌, ◌^◌, ℕ, ◌+◌, List, [], ◌∷◌,
  ◌++◌, some, true, ◌≡◌, refl, arith,
}
use esp8266_xcode.Uart.{Uart, uart_rx, uart_recv, next_byte, available, uart_recv_hw}
use esp8266_xcode.Base.Int.{pos}
use esp8266_xcode.Uart.Start.{Conf0, uart_init, uart_init-IsValid}
use esp8266_xcode.Uart.Valid.{IsValid, Returns, uart_rx-Returns}
use esp8266_xcode.Uart.Idle.{ended}
use esp8266_xcode.Uart.Ring.{contents, contents-next_byte}
use esp8266_xcode.Uart.Frame.{
  uart_send, send_loop, send_byte, send_bits, bit_of, send_parity, popcount, send_stop,
}
use esp8266_xcode.Uart.Silence.{deliver-AllSilent}
use esp8266_xcode.Uart.{rx_start, rx_bit}
use esp8266_xcode.Uart.Frame.Reader.{levels, read_frames}
use esp8266_xcode.Uart.Frame.Reader.RoundTrip.{read_frames-uart_send}

-- 8N1 with 694 cycles for a bit and four bytes, of which two have been received.
abbrev line : Uart
line = record {
  bit = some 3;
  head = 1;
  tail = 3;
  parity = b'N';
  stop = 1;
  frame = 9;
  baud_cycle = 694;
  last_cycle = 4000;
  buffer_size = 4;
  buffer = 66 ∷ 0xff ∷ 0xff ∷ 65 ∷ [];
}

line-IsValid : IsValid line
line-IsValid = record {
  head_in = omega arith;
  tail_in = omega arith;
  size = refl;
  bit_in = omega arith;
  frame_pos = omega arith;
  baud_pos = omega arith;
}

uart_rx-Returns_example : Returns (uart_rx line true 6000)
uart_rx-Returns_example = uart_rx-Returns line true 6000 line-IsValid

line_ended : ended line 24820 ≡ true
line_ended = refl

line_open : ended line 4100 ≡ false
line_open = refl

contents-next_byte_example : contents (next_byte line) ≡ (
    if leb line.buffer_size (available line + 1)
    then []
    else contents line ++ (get_or line.buffer line.head 0 ∷ []))
contents-next_byte_example = contents-next_byte line line-IsValid

read_frames-uart_send_example :
    read_frames b'N' 1 2 (levels (uart_send line (72 ∷ 105 ∷ [])).0) ≡ some (72 ∷ 105 ∷ [])
unfolding uart_send
read_frames-uart_send_example =
    read_frames-uart_send line (72 ∷ 105 ∷ []) (omega arith, (omega arith, (omega arith)))

-- Where the FIFO holds as much as the buffer, the receiver in hardware returns 0.
uart_recv_hw_full : uart_recv_hw (some 2) (72 ∷ 105 ∷ []) ≡ (0, 72 ∷ 105 ∷ [])
unfolding uart_recv_hw
uart_recv_hw_full = refl

abbrev fields : Conf0
fields = record {
  bit_num = 3;
  bit_num_s = 2;
  parity_m = 1;
  parity_s = 0;
  parity_en_m = 1;
  parity_en_s = 1;
  stop_bit_num = 3;
  stop_bit_num_s = 4;
  clk_freq = 80000000;
}

uart_init-IsValid_example : IsValid (uart_init fields 80 1000 (pos 2) (pos 0) 9600 8 b'N' 1 256).0
uart_init-IsValid_example =
    uart_init-IsValid fields 80 1000 (pos 2) (pos 0) 9600 8 b'N' 1 256 (omega arith) (omega arith)
      (omega arith) (omega arith)

-- A device that has just started, at 115200 8E1 and 80 MHz, and one that sends to it.
abbrev fresh : Uart
fresh = record {
  bit = none;
  head = 6;
  tail = 6;
  parity = b'E';
  stop = 1;
  frame = 10;
  baud_cycle = 694;
  last_cycle = 4294967000;
  buffer_size = 8;
  buffer = replicate 8 0;
}

uart_recv-uart_send_example :
    (s : Joined) × (r : ℕ × List ℕ × Uart) × (deliver 1000
        (λ t. t % 300)
        (at_start fresh)
        (uart_send fresh (72 ∷ 0 ∷ 255 ∷ [])).0
      ≡ some s)
    × (uart_recv s.uart (u32 (1000 + (s.now + 11104))) (some 16) ≡ some r)
    × (r.0 ≡ min 16 (length (contents fresh ++ (72 ∷ 0 ∷ 255 ∷ []))))
    × (length r.1 ≡ r.0)
    × (contents fresh ++ (72 ∷ 0 ∷ 255 ∷ []) ≡ r.1 ++ contents r.2)
unfolding available
uart_recv-uart_send_example =
    uart_recv-uart_send fresh fresh 1000 11104 16 (λ t. t % 300) (72 ∷ 0 ∷ 255 ∷ [])
      (record {
        head_in = omega arith;
        tail_in = omega arith;
        size = refl;
        bit_in = tt;
        frame_pos = omega arith;
        baud_pos = omega arith;
      })
      refl (omega arith) refl refl (omega arith) (λ t. omega arith) (omega arith) (omega arith)
      (omega arith) (omega arith) (omega arith) (omega arith, (omega arith, (omega arith, tt)))
      (omega arith)

-- The same run by evaluation.
uart_loopback :
    (elim (deliver 1000 (λ t. t % 300) (at_start fresh) (uart_send fresh (72 ∷ 0 ∷ 255 ∷ [])).0)
      as (λ _. List ℕ) [
        | none ↦ []
        | some s ↦
            elim (uart_recv s.uart (u32 (1000 + (s.now + 11104))) (some 16)) as (λ _. List ℕ) [
              | none ↦ []
              | some r ↦ r.1
            ]
      ])
    ≡ 72 ∷ 0 ∷ 255 ∷ []
unfolding deliver uart_send uart_recv uart_rx send_loop send_byte send_bits bit_of rx_start rx_bit
    send_parity popcount send_stop
uart_loopback = refl

-- A byte that is sent 2 ^ 31 cycles after the last change is lost.
abbrev late_start : Joined
late_start = record { now = 0; line = true; uart = record fresh { last_cycle = 0 } }

deliver-AllSilent_example :
    (s : Joined) × (deliver (2 ^ 31) (λ t. t % 300) late_start (uart_send fresh (72 ∷ [])).0
      ≡ some s)
    × (s.uart ≡ late_start.uart)
unfolding uart_send send_loop send_byte send_bits send_parity send_stop
deliver-AllSilent_example =
    deliver-AllSilent (2 ^ 31) (λ t. t % 300) (uart_send fresh (72 ∷ [])).0 late_start (omega arith)
      (omega arith) (omega arith)

-- The counter wraps during the wait.
uart_wait_until-Polls_example :
    (t : ℕ) × (uart_wait_until
        (map (λ t. u32 (4294967000 + t)) (100 ∷ 400 ∷ 700 ∷ 900 ∷ []))
        4294967000
        694
      ≡ some (u32 (4294967000 + t)))
    × (694 ≤ t)
    × (t < 694 + 300)
uart_wait_until-Polls_example =
    uart_wait_until-Polls 4294967000 300 694 0 (100 ∷ 400 ∷ 700 ∷ 900 ∷ []) (omega arith)
      (omega arith) (omega arith) (omega arith)
