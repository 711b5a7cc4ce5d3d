-- ===== src/Simulator/Dispatch.antt =====
-- src/simulator/simulator.c: the events of a cycle all fire, since no callback queues one that is already due.
use stm32_emulator.Base.{ℕ, ◌+◌, ◌*◌, ◌^◌, ◌≤◌, ◌<◌, ◌≡◌, Bool, true}
use stm32_emulator.Events.{Event, EventQueue}
use stm32_emulator.Events.Queue.{IsQueue, count_events}
use stm32_emulator.Nvic.{Nvic}
use stm32_emulator.Peripherals.Timer.{Timer}
use stm32_emulator.Peripherals.SysTick.{SysTick}
use stm32_emulator.Simulator.{EventCallback}
use stm32_emulator.Simulator.Cycle.{Clocks}

-- The queue is ordered, and the timers' next overflows stay within 64 bits.
pub record CanCount (now : ℕ) (st : EventQueue EventCallback × Clocks) : Type 0 where
  pub queue : IsQueue st.0
  pub period : (st.1.0.psc + 1) * st.1.0.arr < 2 ^ 64
  pub timer_later : now + (st.1.0.psc + 1) * st.1.0.arr < 2 ^ 64
  pub systick_later : now + st.1.1.rvr + 1 < 2 ^ 64

-- `p` holds of no event after `now`.
abbrev DueOnly : ℕ → (Event EventCallback → Bool) → Type 0
DueOnly now p = (e : Event EventCallback) → p e ≡ true → e.when ≤ now

-- What a callback keeps: the invariant, and the number of the due events.
abbrev Keeps : ℕ → EventQueue EventCallback × Clocks → EventQueue EventCallback × Clocks → Type 0
Keeps now st st' =
    CanCount now st'
    × ((p : Event EventCallback → Bool)
        → DueOnly now p
        → count_events p st'.0 ≡ count_events p st.0)
