-- ===== src/Simulator/Reset.antt =====
-- src/simulator/simulator.c: what `simulator_reset` leaves of a board, and of an image that is loaded.
use stm32_emulator.Base.{
  ℕ, ◌<◌, bit_and, ◌≡◌, refl, ap, ◌∙◌, false, Option, none, some, arith, ltb, update, filled, add32,
  not32,
}
use stm32_emulator.Memory.{memory_init, memory_reset, memory_flash_read, flash_size, read_le}
use stm32_emulator.Nvic.{nvic_init}
use stm32_emulator.Bus.{Bus, bus_read}
use stm32_emulator.Core.{Core, reg_sp, reg_pc}
use stm32_emulator.Core.Step.{initial_state, core_reset}
use stm32_emulator.Profiler.{Profiler, profiler_init}
use stm32_emulator.Events.{event_queue_init}
use stm32_emulator.Peripherals.Timer.{timer_init, timer_reset}
use stm32_emulator.Peripherals.SysTick.{systick_init, systick_reset}
use stm32_emulator.Peripherals.Rcc.{rcc_init, rcc_reset}
use stm32_emulator.Peripherals.Gpio.{gpio_init, gpio_reset}
use stm32_emulator.Peripherals.Uart.{uart_init, uart_reset, uart_set_output}
use stm32_emulator.Simulator.{Machine, Simulator, system_bus}
use stm32_emulator.Simulator.AddressMap.{flash_alias}
use stm32_emulator.Simulator.Board.{
  tim2_irq, usart1_irq, timer_as_peripheral, systick_as_peripheral, rcc_as_peripheral,
  gpio_as_peripheral, uart_as_peripheral, board_bus, board_peripherals, board_uart, simulator_init,
}
use stm32_emulator.Simulator.Control.{reset_all, reset_devices, simulator_reset}
use mathlib.Core.Option
use stm32_emulator.Nvic.{nvic_reset}
use stm32_emulator.Peripherals.Uart.{cleared}
use stm32_emulator.Peripherals.Rcc.{rcc_load_reset_values}

-- The two words at the start of flash: the initial stack pointer, and the entry point.
abbrev pub reset_registers : (ℕ → ℕ) → (ℕ → ℕ)
reset_registers flash =
    update (update (filled 0) reg_sp (read_le flash 0 4)) reg_pc
      (bit_and (read_le flash 4 4) (not32 1))

profile_again :
    (p : Option Profiler)
    → Option.map (λ p. profiler_init) (Option.map (λ p. profiler_init) p)
      ≡ Option.map (λ p. profiler_init) p
profile_again none = refl
profile_again (some p) = refl

module _ {X : Type 0} where
  -- A simulator with the board's devices, bus and interrupt lines, in any state.
  pub record IsBoard (sim : Simulator X) : Type 0 where
    pub bus : sim.bus ≡ board_bus
    pub peripherals : sim.peripherals ≡ board_peripherals
    pub timer_line : sim.machine.timer.irq ≡ tim2_irq
    pub uart_line : sim.machine.uart.irq ≡ usart1_irq

  -- The machine that `simulator_init` makes, with the flash of `m` and what is attached to its UART.
  abbrev pub fresh_machine : Machine X → Machine X
  fresh_machine m = record (simulator_init m.added).machine {
    memory = record memory_init { flash = m.memory.flash };
    uart = record (uart_init usart1_irq) { output = m.uart.output; logger = m.uart.logger };
  }

  devices_fresh :
      (m : Machine X)
      → m.timer.irq ≡ tim2_irq
      → m.uart.irq ≡ usart1_irq
      → record (reset_devices board_peripherals m) { events = event_queue_init; cycle = 0 }
        ≡ fresh_machine m
  unfolding reset_devices reset_all timer_as_peripheral systick_as_peripheral rcc_as_peripheral
      gpio_as_peripheral uart_as_peripheral timer_reset systick_reset rcc_reset gpio_reset
      uart_reset memory_reset memory_init nvic_init simulator_init uart_init nvic_reset
      event_queue_init timer_init systick_init rcc_load_reset_values gpio_init cleared rcc_init
  devices_fresh m t u = rw (t, u)

  -- What a reset leaves of `sim`: a fresh machine with the flash and the UART's attachments of `sim`, a core
  -- that starts at the flash's entry point, and an empty profile; bus, debugger and devices are kept.
  abbrev pub reset_board : Simulator X → Simulator X
  reset_board sim = record sim {
    machine = fresh_machine sim.machine;
    core = record {
      state = record initial_state { r = reset_registers sim.machine.memory.flash };
      profiler = Option.map (λ p. profiler_init) sim.core.profiler;
      pc_written = sim.core.pc_written;
    };
    halted = false;
    running = false;
  }

  flash_word :
      (bus : Bus (Machine X)) (m : Machine X) (offset : ℕ)
      → bus ≡ board_bus
      → offset < flash_size
      → ltb flash_size (add32 offset 4) ≡ false
      → bus_read bus m offset 4 ≡ (read_le m.memory.flash offset 4, m)
  unfolding memory_flash_read
  flash_word bus m offset e lt fits = rw e ((flash_alias m offset 0 4 lt).1 ∙ rw fits)

  core_reset_lem :
      (bus : Bus (Machine X)) (core : Core) (m : Machine X)
      → bus ≡ board_bus
      → core_reset (system_bus bus) (core, m)
        ≡ (record core { state = record initial_state { r = reset_registers m.memory.flash } }, m)
  unfolding core_reset system_bus initial_state
  core_reset_lem bus core m e =
      rw (flash_word bus m 0 e (omega arith) refl, flash_word bus m 4 e (omega arith) refl)

  -- The reset of a board, whatever its devices were in the middle of, is a fresh machine: every device, the
  -- interrupt controller, SRAM, the event queue and the profile are as `simulator_init` makes them, the core
  -- starts with the stack pointer and the entry point that flash holds, and the simulator is neither
  -- halted nor running. Flash, the breakpoints, the bus and what is attached to the UART are kept.
  pub simulator_reset-fresh :
      (sim : Simulator X) → IsBoard sim → simulator_reset sim ≡ reset_board sim
  unfolding simulator_reset profiler_init
  simulator_reset-fresh sim b =
      let devices = reset_devices board_peripherals sim.machine in
      let fresh = devices_fresh sim.machine b.timer_line b.uart_line in
      let kept : devices.memory.flash ≡ sim.machine.memory.flash = ap (λ m. m.memory.flash) fresh in
      let started = core_reset_lem sim.bus sim.core devices b.bus in
      rw (b.peripherals, started, kept)
        (ap (λ m. record (reset_board sim) { machine = m; peripherals = board_peripherals }) fresh)

  reset_board-again : (sim : Simulator X) → reset_board (reset_board sim) ≡ reset_board sim
  unfolding simulator_init
  reset_board-again sim = rw (profile_again sim.core.profiler)

  reset_board-IsBoard : (sim : Simulator X) → IsBoard sim → IsBoard (reset_board sim)
  unfolding simulator_init timer_init uart_init cleared
  reset_board-IsBoard sim b = record {
    bus = b.bus;
    peripherals = b.peripherals;
    timer_line = refl;
    uart_line = refl;
  }

  -- Resetting a board twice is resetting it once, and leaves a board.
  pub simulator_reset-again :
      (sim : Simulator X)
      → IsBoard sim
      → (simulator_reset (simulator_reset sim) ≡ simulator_reset sim)
        × IsBoard (simulator_reset sim)
  simulator_reset-again sim b =
      let fresh = simulator_reset-fresh sim b in
      let board = reset_board-IsBoard sim b in
      rw fresh (simulator_reset-fresh (reset_board sim) board ∙ reset_board-again sim, board)

  -- A machine that `simulator_init` has made is such a board.
  pub simulator_init-IsBoard : (x : X) → IsBoard (simulator_init x)
  unfolding simulator_init timer_init uart_init cleared board_uart uart_set_output
  simulator_init-IsBoard x = record {
    bus = refl;
    peripherals = refl;
    timer_line = refl;
    uart_line = refl;
  }
