-- ===== src/Peripherals/Uart/Transmit.antt =====
-- src/peripherals/uart/uart.c: a character written to the data register leaves at the next tick.
use stm32_emulator.Base.{
  ℕ, zero, suc, ◌%◌, ◌^◌, bit_and, bit_or, ◌≡◌, refl, ap, ◌∙◌, true, false, not, ◌||◌, Option, none,
  some, [], ◌∷◌, ◌++◌, arith, ◌==◌, nonzero, if◌then◌else◌, u8, not32,
}
use stm32_emulator.Base.Bits.{
  bit, bit-and, bit-or, bit-pow, bit-complement, nonzero-bit_and, bit_and-low_mask,
}
use mathlib.Core.Option
use stm32_emulator.Nvic.{Nvic, nvic_set_pending}
use stm32_emulator.Peripherals.UartLogger.{UartLogger, uart_logger_tick, uart_logger_log_tx}
use stm32_emulator.Peripherals.Uart.{
  Uart, sr_txe, sr_tc, cr1_ue, uart_write, uart_tick, write_dr, complete_transmission,
}

ready_bits : (i : ℕ) → bit (bit_or sr_txe sr_tc) i ≡ (7 == i || 6 == i)
ready_bits i = rw (bit-or i (2 ^ 7) (2 ^ 6), bit-pow 7 i, bit-pow 6 i)

ready_cleared :
    (sr : ℕ)
    → (bit (bit_and sr (not32 (bit_or sr_txe sr_tc))) 7 ≡ false)
      × (bit (bit_and sr (not32 (bit_or sr_txe sr_tc))) 6 ≡ false)
ready_cleared sr = (
  rw (bit-and, bit-complement, ready_bits) (ground arith),
  rw (bit-and, bit-complement, ready_bits) (ground arith),
)

ready_set :
    (sr : ℕ)
    → (bit (bit_or sr (bit_or sr_txe sr_tc)) 7 ≡ true)
      × (bit (bit_or sr (bit_or sr_txe sr_tc)) 6 ≡ true)
ready_set sr = (
  rw (bit-or 7 sr (bit_or sr_txe sr_tc), ready_bits 7) (ground arith),
  rw (bit-or 6 sr (bit_or sr_txe sr_tc), ready_bits 6) (ground arith),
)

-- The port and the interrupt controller after `n` more ticks.
pub uart_ticks : ℕ → Uart × Nvic → Uart × Nvic
uart_ticks zero r = r
uart_ticks (suc n) r = uart_ticks n (uart_tick r.0 r.1)

-- The logger after its tick counter was counted up `n` times.
pub logger_ticks : ℕ → Option UartLogger → Option UartLogger
logger_ticks zero logger = logger
logger_ticks (suc n) logger = logger_ticks n (Option.map uart_logger_tick logger)

idle_tick :
    (uart : Uart) (nvic : Nvic)
    → uart.tx_pending ≡ false
    → uart_tick uart nvic ≡ (record uart { logger = Option.map uart_logger_tick uart.logger }, nvic)
unfolding uart_tick
idle_tick uart nvic idle =
    let next : Uart = record uart { logger = Option.map uart_logger_tick uart.logger } in
    ap (λ b. if not b then (next, nvic) else complete_transmission next nvic) idle

idle_ticks :
    (n : ℕ) (uart : Uart) (nvic : Nvic)
    → uart.tx_pending ≡ false
    → uart_ticks n (uart, nvic) ≡ (record uart { logger = logger_ticks n uart.logger }, nvic)
unfolding uart_ticks logger_ticks
idle_ticks zero uart nvic idle = refl
idle_ticks (suc n) uart nvic idle =
    let next : Uart = record uart { logger = Option.map uart_logger_tick uart.logger } in
    ap (λ r. uart_ticks n (r.0, r.1)) (idle_tick uart nvic idle) ∙ idle_ticks n next nvic idle

-- On an enabled port a character written to the data register clears TXE and TC at once; the next tick
-- gives exactly its low byte to the output and to the log, with the tick counted first, sets both flags
-- again and raises the interrupt where TXE's is enabled. However many ticks follow before the next write,
-- they change nothing but the log's tick counter: nothing more is sent, logged or raised.
pub uart_tick-write :
    (uart : Uart) (nvic : Nvic) (value size n : ℕ)
    → bit uart.cr1 13 ≡ true
    → let loaded : Uart = (uart_write uart 0x04 value size).1 in
      let r : Uart × Nvic = uart_tick loaded nvic in
      (bit loaded.sr 7 ≡ false)
      × (bit loaded.sr 6 ≡ false)
      × (r.0.output ≡ Option.map (λ sent. sent ++ value % 256 ∷ []) uart.output)
      × (r.0.logger
          ≡ Option.map (λ log. uart_logger_log_tx (uart_logger_tick log) (value % 256)) uart.logger)
      × (bit r.0.sr 7 ≡ true)
      × (bit r.0.sr 6 ≡ true)
      × (r.1 ≡ (if bit uart.cr1 7 then nvic_set_pending nvic uart.irq else nvic))
      × (uart_ticks n r ≡ (record r.0 { logger = logger_ticks n r.0.logger }, r.1))
unfolding uart_write write_dr uart_tick complete_transmission
uart_tick-write uart nvic value size n on =
    let low : u8 (bit_and value 0xff) ≡ value % 256 =
      ap u8 (bit_and-low_mask 8 value) ∙ omega arith in
    let enabled : nonzero (bit_and uart.cr1 cr1_ue) ≡ true = nonzero-bit_and uart.cr1 13 ∙ on in
    rw (enabled, low, write_dr)
      (
        (ready_cleared uart.sr).0,
        (ready_cleared uart.sr).1,
        refl,
        logged uart.logger,
        (ready_set _).0,
        (ready_set _).1,
        rw (nonzero-bit_and uart.cr1 7, nonzero-bit_and uart.cr1 13, on) (ground arith),
        idle_ticks n _ _ refl,
      )
  where
    logged :
        (o : Option UartLogger)
        → Option.map (λ log. uart_logger_log_tx log (value % 256)) (Option.map uart_logger_tick o)
          ≡ Option.map (λ log. uart_logger_log_tx (uart_logger_tick log) (value % 256)) o
    logged none = refl
    logged (some log) = refl

-- On a port that is not enabled a write to the data register is lost, and a tick sends nothing unless a
-- character was already loaded.
pub uart_tick-write_disabled :
    (uart : Uart) (nvic : Nvic) (value size : ℕ)
    → bit uart.cr1 13 ≡ false
    → uart.tx_pending ≡ false
    → let r : Uart × Nvic = uart_tick (uart_write uart 0x04 value size).1 nvic in
      (r.0.output ≡ uart.output) × (r.1 ≡ nvic) × (r.0.sr ≡ uart.sr)
unfolding uart_write write_dr uart_tick
uart_tick-write_disabled uart nvic value size off idle =
    let disabled : nonzero (bit_and uart.cr1 cr1_ue) ≡ false = nonzero-bit_and uart.cr1 13 ∙ off in
    ground arith
