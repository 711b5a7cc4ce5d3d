-- ===== src/Peripherals/Uart.antt =====
-- src/peripherals/uart/uart.c: the serial port. The output callback is the list of the characters that it was
-- called with so far, newest last, and `none` a null pointer; so is the logger behind its pointer.
pub mod Receive
pub mod Transmit
use stm32_emulator.Base.{
  ℕ, ◌+◌, ◌-◌, ◌%◌, ◌^◌, bit_and, bit_or, Bool, true, false, not, ◌&&◌, Option, none, List, [], ◌∷◌,
  ◌++◌, map, ltb, leb, ◌==◌, nonzero, if◌then◌else◌, update, filled, u8, not32,
}
use stm32_emulator.Status.{Status, ok, error}
use stm32_emulator.Nvic.{Nvic, nvic_set_pending}
use stm32_emulator.Peripherals.UartLogger.{
  UartLogger, uart_logger_tick, uart_logger_log_tx, uart_logger_log_rx,
}
use mathlib.Core.Option

-- The bits of `SR` and of `CR1`.
abbrev pub sr_txe : ℕ
sr_txe = 2 ^ 7

abbrev pub sr_tc : ℕ
sr_tc = 2 ^ 6

abbrev pub sr_rxne : ℕ
sr_rxne = 2 ^ 5

abbrev pub cr1_ue : ℕ
cr1_ue = 2 ^ 13

abbrev pub cr1_txeie : ℕ
cr1_txeie = 2 ^ 7

abbrev pub cr1_rxneie : ℕ
cr1_rxneie = 2 ^ 5

abbrev pub uart_rx_buffer_size : ℕ
uart_rx_buffer_size = 16

-- `UartState`
pub record Uart : Type 0 where
  pub sr : ℕ
  pub dr : ℕ
  pub brr : ℕ
  pub cr1 : ℕ
  pub irq : ℕ
  pub tx_pending : Bool
  pub tx_char : ℕ
  pub rx_buffer : ℕ → ℕ
  pub rx_head : ℕ
  pub rx_tail : ℕ
  pub rx_count : ℕ
  pub output : Option (List ℕ)
  pub logger : Option UartLogger

-- The state after `memset`, with the ready flags set.
unfoldable pub cleared : ℕ → Option (List ℕ) → Option UartLogger → Uart
cleared irq output logger = record {
  sr = bit_or sr_txe sr_tc;
  dr = 0;
  brr = 0;
  cr1 = 0;
  irq = irq;
  tx_pending = false;
  tx_char = 0;
  rx_buffer = filled 0;
  rx_head = 0;
  rx_tail = 0;
  rx_count = 0;
  output = output;
  logger = logger;
}

unfoldable pub uart_init : ℕ → Uart
uart_init irq = cleared irq none none

unfoldable pub uart_set_output : Uart → Option (List ℕ) → Uart
uart_set_output uart output = record uart { output = output }

unfoldable pub uart_reset : Uart → Uart
uart_reset uart = cleared uart.irq uart.output uart.logger

-- The case `UART_DR_OFFSET` of `uart_read`.
unfoldable pub read_dr : Uart → ℕ × Uart
read_dr uart =
    if ltb 0 uart.rx_count
    then (
      uart.rx_buffer uart.rx_tail,
      record uart {
        rx_tail = (uart.rx_tail + 1) % uart_rx_buffer_size;
        rx_count = uart.rx_count - 1;
        sr = if uart.rx_count - 1 == 0 then bit_and uart.sr (not32 sr_rxne) else uart.sr;
      },
    )
    else (0, uart)

unfoldable pub uart_read : Uart → ℕ → ℕ → ℕ × Uart
uart_read uart offset size =
    if offset == 0x00
    then (uart.sr, uart)
    else if offset == 0x04
    then read_dr uart
    else if offset == 0x08
    then (uart.brr, uart)
    else if offset == 0x0C
    then (uart.cr1, uart)
    else (0, uart)

-- The case `UART_DR_OFFSET` of `uart_write`.
unfoldable pub write_dr : Uart → ℕ → Uart
write_dr uart value =
    if nonzero (bit_and uart.cr1 cr1_ue)
    then record uart {
      tx_char = u8 (bit_and value 0xff);
      tx_pending = true;
      sr = bit_and uart.sr (not32 (bit_or sr_txe sr_tc));
    }
    else uart

unfoldable pub uart_write : Uart → ℕ → ℕ → ℕ → Status × Uart
uart_write uart offset value size =
    if offset == 0x00
    then (ok, record uart { sr = bit_and uart.sr value })
    else if offset == 0x04
    then (ok, write_dr uart value)
    else if offset == 0x08
    then (ok, record uart { brr = value })
    else if offset == 0x0C
    then (ok, record uart { cr1 = value })
    else (error, uart)

unfoldable pub uart_incoming_char : Uart → Nvic → ℕ → Uart × Nvic
uart_incoming_char uart nvic c = if leb uart_rx_buffer_size uart.rx_count then (uart, nvic) else (
  record uart {
    rx_buffer = update uart.rx_buffer uart.rx_head (u8 c);
    rx_head = (uart.rx_head + 1) % uart_rx_buffer_size;
    rx_count = uart.rx_count + 1;
    sr = bit_or uart.sr sr_rxne;
    logger = Option.map (λ log. uart_logger_log_rx log (u8 c)) uart.logger;
  },
  if nonzero (bit_and uart.cr1 cr1_rxneie) && nonzero (bit_and uart.cr1 cr1_ue)
      then nvic_set_pending nvic uart.irq
      else nvic,
)

-- The part of `uart_tick` after its early return.
unfoldable pub complete_transmission : Uart → Nvic → Uart × Nvic
complete_transmission uart nvic = (
  record uart {
    tx_pending = false;
    logger = Option.map (λ log. uart_logger_log_tx log uart.tx_char) uart.logger;
    output = Option.map (λ sent. sent ++ uart.tx_char ∷ []) uart.output;
    sr = bit_or uart.sr (bit_or sr_txe sr_tc);
  },
  if nonzero (bit_and uart.cr1 cr1_txeie) && nonzero (bit_and uart.cr1 cr1_ue)
      then nvic_set_pending nvic uart.irq
      else nvic,
)

unfoldable pub uart_tick : Uart → Nvic → Uart × Nvic
uart_tick uart nvic =
    let ticked : Uart = record uart { logger = Option.map uart_logger_tick uart.logger } in
    if not ticked.tx_pending then (ticked, nvic) else complete_transmission ticked nvic
