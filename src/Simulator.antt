-- ===== src/Simulator.antt =====
-- src/simulator/simulator.c, src/simulator/simulator.h, src/peripherals/peripheral.h: the machine that owns
-- every part, its address map, and the cycle that drives it. `X` is the state of the peripherals that
-- `simulator_add_peripheral` adds. What pointers inside the struct reach is one record, `Machine`; a
-- `ctx` pointer with its function is a function on it. The messages on stderr and stdout are left out.
pub mod Board
pub mod Cycle
pub mod Control
pub mod AddressMap
pub mod StackFrame
pub mod Added
pub mod Dispatch
pub mod Reset
pub mod Halting
pub mod Running
pub mod Flash
use stm32_emulator.Base.{ℕ, Bool, Option, List}
use stm32_emulator.Status.{Status}
use stm32_emulator.Memory.{Memory}
use stm32_emulator.Nvic.{Nvic}
use stm32_emulator.Bus.{Bus, bus_read, bus_write}
use stm32_emulator.Core.{Core, SystemBus}
use stm32_emulator.Debugger.{Debugger}
use stm32_emulator.Events.{EventQueue}
use stm32_emulator.Peripherals.Timer.{Timer}
use stm32_emulator.Peripherals.SysTick.{SysTick}
use stm32_emulator.Peripherals.Rcc.{Rcc}
use stm32_emulator.Peripherals.Gpio.{Gpio}
use stm32_emulator.Peripherals.Uart.{Uart}

-- The two functions that are given to the event queue, each with its device.
pub data EventCallback : Type 0 where
  timer_overflow : EventCallback
  systick_overflow : EventCallback

-- What the bus and the callbacks reach in `Simulator`. The logger is behind the UART's pointer, the
-- profiler behind the core's.
pub record Machine (X : Type 0) : Type 0 where
  pub memory : Memory
  pub nvic : Nvic
  pub events : EventQueue EventCallback
  pub timer : Timer
  pub systick : SysTick
  pub rcc : Rcc
  pub gpioa : Gpio
  pub gpiob : Gpio
  pub gpioc : Gpio
  pub uart : Uart
  pub cycle : ℕ
  pub added : X

-- `Peripheral`; `none` is a null pointer.
pub record Peripheral (M : Type 0) : Type 0 where
  pub read : Option (M → ℕ → ℕ → ℕ × M)
  pub write : Option (M → ℕ → ℕ → ℕ → Status × M)
  pub tick : Option (M → M)
  pub reset : Option (M → M)

-- `Simulator`; the first `num_peripherals` entries of `peripherals[16]` are a list.
pub record Simulator (X : Type 0) : Type 0 where
  pub machine : Machine X
  pub bus : Bus (Machine X)
  pub core : Core
  pub debugger : Debugger
  pub peripherals : List (Peripheral (Machine X))
  pub halted : Bool
  pub running : Bool

-- `SIM_MAX_PERIPHERALS`
abbrev pub sim_max_peripherals : ℕ
sim_max_peripherals = 16

module _ {X : Type 0} where
  -- The pointers `core->bus` and `core->nvic`.
  unfoldable pub system_bus : Bus (Machine X) → SystemBus (Machine X)
  system_bus bus = record {
    read = bus_read bus;
    write = bus_write bus;
    nvic = λ m. m.nvic;
    set_nvic = λ m n. record m { nvic = n };
  }

  -- The core with what its pointers reach, and back.
  abbrev pub core_machine : Simulator X → Core × Machine X
  core_machine sim = (sim.core, sim.machine)

  abbrev pub with_core_machine : Simulator X → Core × Machine X → Simulator X
  with_core_machine sim s = record sim { core = s.0; machine = s.1 }
