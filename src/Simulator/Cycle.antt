-- ===== src/Simulator/Cycle.antt =====
-- src/simulator/simulator.c: `simulator_step`, one cycle of the machine.
use stm32_emulator.Base.{ℕ, ◌+◌, true, none, some, List, [], ◌∷◌, if◌then◌else◌, add64}
use stm32_emulator.Status.{Status, ok, breakpoint_hit, halted}
use stm32_emulator.Nvic.{Nvic}
use stm32_emulator.Core.{reg, reg_pc}
use stm32_emulator.Core.Step.{core_step}
use stm32_emulator.Debugger.{debugger_check}
use stm32_emulator.Events.{EventQueue, event_queue_dispatch}
use stm32_emulator.Peripherals.Timer.{Timer, timer_overflow_event}
use stm32_emulator.Peripherals.SysTick.{SysTick, systick_overflow_event}
use stm32_emulator.Simulator.{
  EventCallback, timer_overflow, systick_overflow, Machine, Peripheral, Simulator, system_bus,
  with_core_machine,
}

-- What the callbacks change besides the queue.
abbrev pub Clocks : Type 0
Clocks = Timer × SysTick × Nvic

-- `e.fire(e.ctx)` at cycle `now`.
unfoldable pub run_callback :
    ℕ → EventCallback → EventQueue EventCallback × Clocks → EventQueue EventCallback × Clocks
run_callback now timer_overflow (q, (tim, st, nvic)) =
    let r = timer_overflow_event timer_overflow now tim q nvic in (r.1, (r.0, st, r.2))
run_callback now systick_overflow (q, (tim, st, nvic)) =
    let r = systick_overflow_event systick_overflow now st q nvic in (r.1, (tim, r.0, r.2))

-- The loop over `peripherals` that calls `tick`.
unfoldable pub tick_all : {M : Type 0} → List (Peripheral M) → M → M
tick_all [] m = m
tick_all (p ∷ ps) m = tick_all ps (elim p.tick [ none ↦ m | some tick ↦ tick m ])

module _ {X : Type 0} where
  -- `event_queue_dispatch(&sim->events, sim->cycle)`; a round more than there are events is enough.
  unfoldable pub dispatch_events : Machine X → Machine X
  dispatch_events m =
      let r : EventQueue EventCallback × Clocks =
        event_queue_dispatch (run_callback m.cycle) (m.events.size + 1)
          (m.events, (m.timer, m.systick, m.nvic)) m.cycle in
      record m { events = r.0; timer = r.1.0; systick = r.1.1; nvic = r.1.2 }

  -- The cycle up to the instruction: the counter, the ticks and the due events.
  unfoldable pub begin_cycle : List (Peripheral (Machine X)) → Machine X → Machine X
  begin_cycle ps m = dispatch_events (tick_all ps (record m { cycle = add64 m.cycle 1 }))

  unfoldable pub simulator_step : Simulator X → Status × Simulator X
  simulator_step sim =
      if sim.halted
      then (halted, sim)
      else let begun = begin_cycle sim.peripherals sim.machine in
        let done = core_step (system_bus sim.bus) (sim.core, begun) in
        let after = with_core_machine sim done.1 in
        elim done.0 [
          | ok ↦
              if debugger_check sim.debugger (reg done.1.0 reg_pc)
              then (breakpoint_hit, record after { halted = true })
              else (ok, after)
          | other ↦ (other, record after { halted = true })
        ]
