-- ===== src/Uart/Start.antt =====
-- `uart_init` and the sender in hardware of esp8266/app/uart.c. The pins -13 and -2 stand for the
-- hardware. The macros of the SDK are arguments.
use Prim.Native.Nat.{bit_and, bit_or}
use native.Mathlib.Nat.{le-div_iff_mul-le}
use esp8266_xcode.Base.{
  ℕ, ◌+◌, ◌*◌, ◌/◌, ◌^◌, ◌<◌, ◌≤◌, List, [], ◌∷◌, ◌++◌, Option, none, some, Bool, true, false, ◌==◌,
  leb, if◌then◌else◌, length-replicate, replicate, arith,
}
use esp8266_xcode.Base.Int.{ℤ, pos, negsuc}
use esp8266_xcode.Uart.{Uart, u32, sub32}
use esp8266_xcode.Uart.Valid.{IsValid}
use esp8266_xcode.Uart.Frame.{has_parity}

-- UART_BIT_NUM and the other fields of UART_CONF0, with their shifts, and UART_CLK_FREQ.
pub record Conf0 : Type 0 where
  pub bit_num : ℕ
  pub bit_num_s : ℕ
  pub parity_m : ℕ
  pub parity_s : ℕ
  pub parity_en_m : ℕ
  pub parity_en_s : ℕ
  pub stop_bit_num : ℕ
  pub stop_bit_num_s : ℕ
  pub clk_freq : ℕ

pub data Call : Type 0 where
  -- `gpio_regist` with `uart_rx`, or with no handler.
  regist : ℤ → Bool → Call
  dis_output en_output : ℤ → Call
  pullup pulldown : ℤ → Bool → Call
  -- PIN_FUNC_SELECT of MTCK and MTDO to 4, and BIT2 set in 0x3FF00028; of GPIO2 to FUNC_U1TXD_BK
  select_uart0_swap select_uart1 : Call
  div_modify : ℕ → ℕ → Call
  write_conf0 : ℕ → ℕ → Call

-- The value of UART_CONF0.
unfoldable pub conf0_mode : Conf0 → ℕ → ℕ → ℕ
conf0_mode r parity stop =
    bit_or
      (bit_or
        (bit_or (bit_and 3 r.bit_num * 2 ^ r.bit_num_s)
          (bit_and (if parity == b'O' then 1 else 0) r.parity_m * 2 ^ r.parity_s))
        (bit_and (if parity == 0 then 0 else 1) r.parity_en_m * 2 ^ r.parity_en_s))
      (bit_and (if stop == 2 then 3 else 1) r.stop_bit_num * 2 ^ r.stop_bit_num_s)

-- What is done for the receiver and for the sender, by the number of the pin.
rx_calls : Conf0 → ℤ → ℕ → ℕ → ℕ → List Call
unfolding conf0_mode
rx_calls r (pos rx) baud parity stop = dis_output (pos rx) ∷ []
rx_calls r (negsuc n) baud parity stop =
    if n == 12
    then select_uart0_swap
      ∷ dis_output (pos 13)
      ∷ div_modify 0 (r.clk_freq / baud)
      ∷ write_conf0 0 (conf0_mode r parity stop)
      ∷ []
    else []

tx_calls : Conf0 → ℤ → ℕ → ℕ → ℕ → List Call
unfolding conf0_mode
tx_calls r (pos tx) baud parity stop = en_output (pos tx) ∷ []
tx_calls r (negsuc n) baud parity stop =
    if n == 1
    then select_uart1
      ∷ en_output (pos 2)
      ∷ div_modify 1 (r.clk_freq / baud)
      ∷ write_conf0 1 (conf0_mode r parity stop)
      ∷ []
    else []

-- `freq` is `system_get_cpu_freq`, and `cycle` what `esp_get_cycle_count` returns. `os_zalloc` has
-- filled the buffer with zeros.
unfoldable pub init_uart : ℕ → ℕ → ℕ → ℕ → ℕ → ℕ → ℕ → Uart
init_uart freq cycle baud bits parity stop buffer_size =
    let baud_cycle = (freq * 1000 * 1000 + baud / 2) / baud in
    record {
      bit = none;
      head = 0;
      tail = 0;
      parity = parity;
      stop = stop;
      frame = bits + (if has_parity parity then 1 else 0) + stop;
      baud_cycle = baud_cycle;
      last_cycle = sub32 (u32 cycle) (baud_cycle / 2);
      buffer_size = buffer_size;
      buffer = replicate buffer_size 0;
    }

unfoldable pub uart_init : Conf0 → ℕ → ℕ → ℤ → ℤ → ℕ → ℕ → ℕ → ℕ → ℕ → Uart × List Call
unfolding rx_calls tx_calls init_uart
uart_init r freq cycle rx tx baud bits parity stop buffer_size = (
  init_uart freq cycle baud bits parity stop buffer_size,
  regist rx true
      ∷ regist tx false
      ∷ dis_output rx
      ∷ en_output tx
      ∷ pullup rx true
      ∷ pullup tx true
      ∷ pulldown rx false
      ∷ pulldown tx false
      ∷ (rx_calls r rx baud parity stop ++ tx_calls r tx baud parity stop),
)

-- The sender in hardware: `counts` is what `READ_PERI_REG(UART_STATUS(1))` gives, masked, for each
-- time it is read; a byte goes to the FIFO when it is below 127. `none`: there is no room yet.
wait_room : List ℕ → Option (List ℕ)
wait_room [] = none
wait_room (count ∷ counts) = if leb 127 count then wait_room counts else some counts

unfoldable pub uart_send_hw : List ℕ → List ℕ → Option (List ℕ)
unfolding wait_room
uart_send_hw counts [] = some []
uart_send_hw counts (c ∷ text) = elim (wait_room counts) [
  | none ↦ none
  | some counts' ↦ elim (uart_send_hw counts' text) [ none ↦ none | some sent ↦ some (c ∷ sent) ]
]

div_pos : (k m : ℕ) → 0 < k → k ≤ m → 0 < m / k
div_pos k m h le =
    let one : 1 ≤ m / k = (le-div_iff_mul-le {k = k} {x = 1} {y = m} h).1 (omega arith) in
    omega arith

-- For a positive baud rate of at most a million for each MHz of the processor, a positive number
-- of data bits and a positive size, uart_init makes a valid receiver.
pub uart_init-IsValid :
    (r : Conf0) (freq cycle : ℕ) (rx tx : ℤ) (baud bits parity stop buffer_size : ℕ)
    → 0 < baud
    → baud ≤ freq * 1000000
    → 0 < bits
    → 0 < buffer_size
    → IsValid (uart_init r freq cycle rx tx baud bits parity stop buffer_size).0
unfolding uart_init init_uart
uart_init-IsValid r freq cycle rx tx baud bits parity stop buffer_size h k b s = record {
  head_in = s;
  tail_in = s;
  size = length-replicate buffer_size 0;
  bit_in = tt;
  frame_pos = omega arith;
  baud_pos = div_pos baud (freq * 1000 * 1000 + baud / 2) h (omega arith);
}
