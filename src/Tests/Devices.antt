-- ===== src/Tests/Devices.antt =====
-- The theorems on the ports, the clock control and the serial line at concrete inputs.
use mathlib.Core.Option
use stm32_emulator.Base.{
  ℕ, ◌-◌, ◌*◌, ◌/◌, ◌%◌, ◌^◌, ◌≤◌, ◌<◌, ◌≡◌, refl, ◌⊎◌, Bool, true, false, not, ◌&&◌, some, [], ◌∷◌,
  ◌++◌, arith, ◌==◌, if◌then◌else◌, of_bool, u8,
}
use stm32_emulator.Nvic.{nvic_init, Nvic, nvic_set_pending}
use stm32_emulator.Peripherals.Gpio.{gpio_init, Gpio, gpio_set_pin, gpio_get_pin}
use stm32_emulator.Peripherals.Rcc.{rcc_init, Rcc, rcc_read, rcc_write}
use stm32_emulator.Base.Bits.{bit}
use stm32_emulator.Peripherals.Uart.{
  Uart, cleared, uart_init, uart_set_output, uart_rx_buffer_size, uart_write, uart_incoming_char,
  uart_reset, uart_tick,
}
use stm32_emulator.Peripherals.UartLogger.{
  uart_logger_init, tx, UartLogger, UartLogDir, push_event, uart_log_max_events, uart_logger_tick,
  uart_logger_log_tx,
}
use stm32_emulator.Status.{Status, ok}
use stm32_emulator.Peripherals.Gpio.Pins.{is_output, gpio_get_pin-set_pin}
use stm32_emulator.Peripherals.Rcc.Flags.{rcc_read-write}
use stm32_emulator.Peripherals.UartLogger.Window.{held, take, IsRing, push_event-held}
use stm32_emulator.Peripherals.Uart.Receive.{
  waiting, IsBuffer, uart_incoming_char-waiting, uart_init-IsBuffer, uart-IsBuffer,
}
use stm32_emulator.Peripherals.Uart.Transmit.{uart_ticks, logger_ticks, uart_tick-write}
use stm32_emulator.Peripherals.UartLogger.Timeline.{
  uart_diagram_cols, event_at, time_range, span_of, column_of, column_of-lt,
}

fresh-IsRing : IsRing uart_logger_init
unfolding uart_logger_init
fresh-IsRing = record { inside = omega arith; capped = omega arith }

fresh-IsBuffer : IsBuffer (uart_init 37)
fresh-IsBuffer = uart_init-IsBuffer 37

-- An enabled port with an output that has received nothing.
abbrev open_port : Uart
open_port = record (uart_set_output (uart_init 37) (some [])) { cr1 = 0x2080 }

gpio_get_pin-set_pin_example :
    let gpio : Gpio = gpio_init in
    let p : ℕ = 3 in
    let q : ℕ = 3 in
    let level : Bool = true in
    gpio_get_pin (gpio_set_pin gpio p level) q
    ≡ (if not (is_output gpio q) && p == q then of_bool level else gpio_get_pin gpio q)
gpio_get_pin-set_pin_example = gpio_get_pin-set_pin gpio_init 3 3 true (omega arith) (omega arith)

rcc_read-write_example :
    let rcc : Rcc = rcc_init in
    let w : ℕ = 0 in
    let value : ℕ = 0x01000000 in
    let size : ℕ = 4 in
    let i : ℕ = 25 in
    let j : ℕ = 1 in
    let after : Status × Rcc = rcc_write rcc (4 * w) value size in
    (after.0 ≡ ok)
    × (bit (rcc_read after.1 (4 * w) size) i ≡ (
        if w == 0
        then (if i == 1
            then bit value 0
            else if i == 17
            then bit value 16
            else if i == 25
            then bit value 24
            else bit value i)
        else if w == 1
        then (if i == 2 then bit value 0 else if i == 3 then bit value 1 else bit value i)
        else if w == 9
        then bit (if bit value 24 then rcc.regs 9 % 2 ^ 24 else value) i
        else bit value i))
    × (after.1.regs j ≡ rcc.regs j)
rcc_read-write_example =
    rcc_read-write rcc_init 0 0x01000000 4 25 1 (omega arith) (omega arith) ((λ e. ground arith))

push_event-held_example :
    let log : UartLogger = uart_logger_init in
    let dir : UartLogDir = tx in
    let byte : ℕ = 65 in
    (held (push_event log dir byte)
      ≡ take uart_log_max_events
          (record { tick = log.tick_count; dir = dir; byte = byte } ∷ held log))
    × ((push_event log dir byte).tick_count ≡ log.tick_count)
    × IsRing (push_event log dir byte)
push_event-held_example = push_event-held uart_logger_init tx 65 fresh-IsRing

uart_incoming_char-waiting_example :
    let uart : Uart = uart_init 37 in
    let nvic : Nvic = nvic_init in
    let c : ℕ = 65 in
    let r : Uart × Nvic = uart_incoming_char uart nvic c in
    ((uart.rx_count < uart_rx_buffer_size)
      × ((waiting r.0 ≡ waiting uart ++ u8 c ∷ [])
          × IsBuffer r.0
          × (bit r.0.sr 5 ≡ true)
          × (r.1 ≡ (
              if bit uart.cr1 5 && bit uart.cr1 13 then nvic_set_pending nvic uart.irq else nvic))))
    ⊎ ((uart_rx_buffer_size ≤ uart.rx_count) × (r ≡ (uart, nvic)))
uart_incoming_char-waiting_example =
    uart_incoming_char-waiting (uart_init 37) nvic_init 65 fresh-IsBuffer

uart-IsBuffer_example :
    let uart : Uart = uart_init 37 in
    let nvic : Nvic = nvic_init in
    let irq : ℕ = 37 in
    let offset : ℕ = 0x0c in
    let value : ℕ = 0x2000 in
    let size : ℕ = 4 in
    IsBuffer (uart_init irq)
    × (waiting (uart_init irq) ≡ [])
    × (waiting (uart_reset uart) ≡ [])
    × IsBuffer (uart_reset uart)
    × IsBuffer (uart_write uart offset value size).1
    × (waiting (uart_write uart offset value size).1 ≡ waiting uart)
    × IsBuffer (uart_tick uart nvic).0
    × (waiting (uart_tick uart nvic).0 ≡ waiting uart)
uart-IsBuffer_example = uart-IsBuffer (uart_init 37) nvic_init 37 0x0c 0x2000 4 fresh-IsBuffer

uart_tick-write_example :
    let uart : Uart = open_port in
    let nvic : Nvic = nvic_init in
    let value : ℕ = 65 in
    let size : ℕ = 4 in
    let n : ℕ = 5 in
    let loaded : Uart = (uart_write uart 0x04 value size).1 in
    let r : Uart × Nvic = uart_tick loaded nvic in
    (bit loaded.sr 7 ≡ false)
    × (bit loaded.sr 6 ≡ false)
    × (r.0.output ≡ Option.map (λ sent. sent ++ value % 256 ∷ []) uart.output)
    × (r.0.logger
        ≡ Option.map (λ log. uart_logger_log_tx (uart_logger_tick log) (value % 256)) uart.logger)
    × (bit r.0.sr 7 ≡ true)
    × (bit r.0.sr 6 ≡ true)
    × (r.1 ≡ (if bit uart.cr1 7 then nvic_set_pending nvic uart.irq else nvic))
    × (uart_ticks n r ≡ (record r.0 { logger = logger_ticks n r.0.logger }, r.1))
unfolding bit uart_init uart_set_output cleared
uart_tick-write_example = uart_tick-write open_port nvic_init 65 4 5 refl

column_of-lt_example :
    let log : UartLogger = push_event uart_logger_init tx 65 in
    let i : ℕ = 0 in
    let range : ℕ × ℕ = time_range log.count log in
    let tick : ℕ = (event_at log i).tick in
    (range.0 ≤ tick)
    × (tick ≤ range.1)
    × (column_of range tick < uart_diagram_cols)
    × ((column_of range tick ≡ (tick - range.0) * (uart_diagram_cols - 1) / span_of range)
        ⊎ (2 ^ 64 ≤ (range.1 - range.0) * (uart_diagram_cols - 1)))
unfolding push_event uart_logger_init
column_of-lt_example =
    column_of-lt (push_event uart_logger_init tx 65) 0 (omega arith) ((λ j. ground arith))
