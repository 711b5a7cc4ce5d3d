-- ===== src/Simulator/Board.antt =====
-- src/simulator/simulator.c: `simulator_init` and the address map that it registers, with the
-- functions `.._as_peripheral` of the devices.
use stm32_emulator.Base.{ℕ, false, none, some, List, [], ◌∷◌}
use stm32_emulator.Memory.{
  memory_init, memory_flash_read, memory_flash_write, memory_sram_read, memory_sram_write,
  flash_base, flash_size, sram_base, sram_size,
}
use stm32_emulator.Nvic.{nvic_init}
use stm32_emulator.Nvic.Registers.{nvic_bus_read, nvic_bus_write}
use stm32_emulator.Bus.{Bus, bus_init, bus_register_region}
use stm32_emulator.Core.Step.{initial_state}
use stm32_emulator.Profiler.{profiler_init}
use stm32_emulator.Debugger.{debugger_init}
use stm32_emulator.Events.{event_queue_init}
use stm32_emulator.Peripherals.Timer.{timer_init, timer_reset, timer_read, timer_write}
use stm32_emulator.Peripherals.SysTick.{systick_init, systick_reset, systick_read, systick_write}
use stm32_emulator.Peripherals.Rcc.{rcc_init, rcc_reset, rcc_read, rcc_write}
use stm32_emulator.Peripherals.Gpio.{Gpio, gpio_init, gpio_reset, gpio_read, gpio_write}
use stm32_emulator.Peripherals.UartLogger.{uart_logger_init}
use stm32_emulator.Peripherals.Uart.{
  Uart, uart_init, uart_set_output, uart_reset, uart_read, uart_write, uart_tick,
}
use stm32_emulator.Simulator.{timer_overflow, systick_overflow, Machine, Peripheral, Simulator}

-- `TIM2_BASE`, `TIM2_SIZE` and `TIM2_IRQ`, and the same of the other devices
abbrev pub tim2_base : ℕ
tim2_base = 0x40000000

abbrev pub tim2_size : ℕ
tim2_size = 0x400

abbrev pub tim2_irq : ℕ
tim2_irq = 28

abbrev pub usart1_base : ℕ
usart1_base = 0x40013800

abbrev pub usart1_size : ℕ
usart1_size = 0x400

abbrev pub usart1_irq : ℕ
usart1_irq = 37

abbrev pub syst_base : ℕ
syst_base = 0xe000e010

abbrev pub syst_size : ℕ
syst_size = 0x10

abbrev pub rcc_base : ℕ
rcc_base = 0x40021000

abbrev pub rcc_size : ℕ
rcc_size = 0x400

abbrev pub gpioa_base : ℕ
gpioa_base = 0x40010800

abbrev pub gpiob_base : ℕ
gpiob_base = 0x40010c00

abbrev pub gpioc_base : ℕ
gpioc_base = 0x40011000

abbrev pub gpio_size : ℕ
gpio_size = 0x400

abbrev pub nvic_bus_base : ℕ
nvic_bus_base = 0xe000e100

abbrev pub nvic_bus_size : ℕ
nvic_bus_size = 0x400

-- The UART with its output and its logger attached.
unfoldable pub board_uart : Uart
board_uart = record (uart_set_output (uart_init usart1_irq) (some [])) {
  logger = some uart_logger_init;
}

module _ {X : Type 0} where
  unfoldable pub timer_as_peripheral : Peripheral (Machine X)
  timer_as_peripheral = record {
    read = some (λ m offset size. (timer_read m.cycle m.timer offset size, m));
    write = some (λ m offset value size.
        let r = timer_write timer_overflow m.cycle m.timer m.events offset value size in
        (r.0, record m { timer = r.1.0; events = r.1.1 }));
    tick = none;
    reset = some (λ m. record m { timer = timer_reset m.timer });
  }

  unfoldable pub systick_as_peripheral : Peripheral (Machine X)
  systick_as_peripheral = record {
    read = some (λ m offset size.
        let r = systick_read m.cycle m.systick offset size in (r.0, record m { systick = r.1 }));
    write = some (λ m offset value size.
        let r =
          systick_write systick_overflow m.cycle m.systick m.events m.nvic offset value size in
        (r.0, record m { systick = r.1.0; events = r.1.1; nvic = r.1.2 }));
    tick = none;
    reset = some (λ m. record m { systick = systick_reset m.systick });
  }

  unfoldable pub rcc_as_peripheral : Peripheral (Machine X)
  rcc_as_peripheral = record {
    read = some (λ m offset size. (rcc_read m.rcc offset size, m));
    write = some (λ m offset value size.
        let r = rcc_write m.rcc offset value size in (r.0, record m { rcc = r.1 }));
    tick = none;
    reset = some (λ m. record m { rcc = rcc_reset m.rcc });
  }

  -- The port is a field of the machine, read and assigned by the two arguments.
  unfoldable pub gpio_as_peripheral :
      (Machine X → Gpio) → (Machine X → Gpio → Machine X) → Peripheral (Machine X)
  gpio_as_peripheral get put = record {
    read = some (λ m offset size. (gpio_read (get m) offset size, m));
    write =
        some
          (λ m offset value size. let r = gpio_write (get m) offset value size in (r.0, put m r.1));
    tick = none;
    reset = some (λ m. put m (gpio_reset (get m)));
  }

  unfoldable pub uart_as_peripheral : Peripheral (Machine X)
  uart_as_peripheral = record {
    read =
        some
          (λ m offset size. let r = uart_read m.uart offset size in (r.0, record m { uart = r.1 }));
    write = some (λ m offset value size.
        let r = uart_write m.uart offset value size in (r.0, record m { uart = r.1 }));
    tick = some (λ m. let r = uart_tick m.uart m.nvic in record m { uart = r.0; nvic = r.1 });
    reset = some (λ m. record m { uart = uart_reset m.uart });
  }

  unfoldable pub nvic_bus_as_peripheral : Peripheral (Machine X)
  nvic_bus_as_peripheral = record {
    read = some (λ m offset size. (nvic_bus_read m.nvic offset size, m));
    write = some (λ m offset value size.
        let r = nvic_bus_write m.nvic offset value size in (r.0, record m { nvic = r.1 }));
    tick = none;
    reset = none;
  }

  -- The functions of flash and of SRAM, which are no peripherals.
  unfoldable pub flash_region : Peripheral (Machine X)
  flash_region = record {
    read = some (λ m offset size. (memory_flash_read m.memory offset size, m));
    write = some (λ m offset value size.
        let r = memory_flash_write m.memory offset value size in (r.0, record m { memory = r.1 }));
    tick = none;
    reset = none;
  }

  unfoldable pub sram_region : Peripheral (Machine X)
  sram_region = record {
    read = some (λ m offset size. (memory_sram_read m.memory offset size, m));
    write = some (λ m offset value size.
        let r = memory_sram_write m.memory offset value size in (r.0, record m { memory = r.1 }));
    tick = none;
    reset = none;
  }

  abbrev pub gpioa_p : Peripheral (Machine X)
  gpioa_p = gpio_as_peripheral (λ m. m.gpioa) (λ m g. record m { gpioa = g })

  abbrev pub gpiob_p : Peripheral (Machine X)
  gpiob_p = gpio_as_peripheral (λ m. m.gpiob) (λ m g. record m { gpiob = g })

  abbrev pub gpioc_p : Peripheral (Machine X)
  gpioc_p = gpio_as_peripheral (λ m. m.gpioc) (λ m g. record m { gpioc = g })

  -- A registration whose status is ignored.
  unfoldable pub register : Bus (Machine X) → ℕ → ℕ → Peripheral (Machine X) → Bus (Machine X)
  register bus base size p = (bus_register_region bus base size p.read p.write).1

  unfoldable pub board_bus : Bus (Machine X)
  board_bus =
      let b1 = register bus_init 0x00000000 flash_size flash_region in
      let b2 = register b1 flash_base flash_size flash_region in
      let b3 = register b2 sram_base sram_size sram_region in
      let b4 = register b3 tim2_base tim2_size timer_as_peripheral in
      let b5 = register b4 syst_base syst_size systick_as_peripheral in
      let b6 = register b5 rcc_base rcc_size rcc_as_peripheral in
      let b7 = register b6 gpioa_base gpio_size gpioa_p in
      let b8 = register b7 gpiob_base gpio_size gpiob_p in
      let b9 = register b8 gpioc_base gpio_size gpioc_p in
      let b10 = register b9 usart1_base usart1_size uart_as_peripheral in
      register b10 nvic_bus_base nvic_bus_size nvic_bus_as_peripheral

  -- The first seven entries of `peripherals`.
  abbrev pub board_peripherals : List (Peripheral (Machine X))
  board_peripherals =
      timer_as_peripheral ∷ systick_as_peripheral ∷ rcc_as_peripheral ∷ gpioa_p ∷ gpiob_p ∷ gpioc_p
      ∷ uart_as_peripheral ∷ []

  unfoldable pub simulator_init : X → Simulator X
  simulator_init x = record {
    machine = record {
      memory = memory_init;
      nvic = nvic_init;
      events = event_queue_init;
      timer = timer_init tim2_irq;
      systick = systick_init;
      rcc = rcc_init;
      gpioa = gpio_init;
      gpiob = gpio_init;
      gpioc = gpio_init;
      uart = board_uart;
      cycle = 0;
      added = x;
    };
    bus = board_bus;
    core = record { state = initial_state; profiler = some profiler_init; pc_written = false };
    debugger = debugger_init;
    peripherals = board_peripherals;
    halted = false;
    running = false;
  }
