-- ===== src/Core/Exceptions.antt =====
-- src/core/core.c: entry to and exit from exceptions.
pub mod Frame
use stm32_emulator.Base.{
  ℕ, ◌+◌, ◌-◌, ◌*◌, bit_and, bit_or, Bool, Option, map, ltb, ◌==◌, nonzero, if◌then◌else◌, u32,
  add32, sub32, not32,
}
use mathlib.Core.Option
use stm32_emulator.Nvic.{nvic_acknowledge, nvic_clear_systick_pending, nvic_complete}
use stm32_emulator.Profiler.{Profiler, profiler_enter, profiler_exit}
use stm32_emulator.Core.{Core, SystemBus, reg, set_reg, get_xpsr, set_xpsr, reg_sp, reg_lr, reg_pc}

-- `EXC_RETURN_THREAD_MSP`
abbrev pub exc_return_thread_msp : ℕ
exc_return_thread_msp = 0xfffffff9

-- `IS_EXC_RETURN`
unfoldable pub is_exc_return : ℕ → Bool
is_exc_return val = bit_and val 0xfffffff0 == 0xfffffff0

-- The calls of the profiler, if there is one.
abbrev pub with_profiler : Core → (Profiler → Profiler) → Core
with_profiler core f = record core { profiler = Option.map f core.profiler }

abbrev pub set_current_irq : Core → ℕ → Core
set_current_irq core irq = record core { state = record core.state { current_irq = irq } }

module _ {M : Type 0} (bus : SystemBus M) where
  -- `R(n) = bus_read(bus, addr, size)`
  unfoldable pub load : Core × M → ℕ → ℕ → ℕ → Core × M
  load s n addr size = let got = bus.read s.1 addr size in (set_reg s.0 n got.0, got.1)

  -- `bus_write(bus, addr, value, size)`, its status ignored
  unfoldable pub store : Core × M → ℕ → ℕ → ℕ → Core × M
  store s addr value size = (s.0, (bus.write s.1 addr value size).1)

  unfoldable pub push_exception_frame : Core × M → ℕ → Core × M
  push_exception_frame s vector_addr =
      let frame = sub32 (reg s.0 reg_sp) 32 in
      let core : Core = set_reg s.0 reg_sp frame in
      let s0 : Core × M = store (core, s.1) (add32 frame 0) (reg core 0) 4 in
      let s1 : Core × M = store s0 (add32 frame 4) (reg core 1) 4 in
      let s2 : Core × M = store s1 (add32 frame 8) (reg core 2) 4 in
      let s3 : Core × M = store s2 (add32 frame 12) (reg core 3) 4 in
      let s4 : Core × M = store s3 (add32 frame 16) (reg core 12) 4 in
      let s5 : Core × M = store s4 (add32 frame 20) (reg core reg_lr) 4 in
      let s6 : Core × M = store s5 (add32 frame 24) (reg core reg_pc) 4 in
      let s7 : Core × M = store s6 (add32 frame 28) (get_xpsr core) 4 in
      let got = bus.read s7.1 vector_addr 4 in
      (set_reg (set_reg s7.0 reg_lr exc_return_thread_msp) reg_pc (bit_and got.0 (not32 1)), got.1)

  unfoldable pub enter_exception : Core × M → ℕ → Core × M
  enter_exception s irq =
      let pushed : Core × M = push_exception_frame s (u32 ((16 + irq) * 4)) in
      let core : Core = set_current_irq pushed.0 (add32 irq 1) in
      (
        with_profiler core (λ p. profiler_enter p (add32 16 irq) core.state.cycles),
        bus.set_nvic pushed.1 (nvic_acknowledge (bus.nvic pushed.1) irq),
      )

  unfoldable pub enter_core_exception : Core × M → ℕ → Core × M
  enter_core_exception s exc_num =
      let pushed : Core × M = push_exception_frame s (u32 (exc_num * 4)) in
      let nvic = nvic_clear_systick_pending (bus.nvic pushed.1) in
      let core : Core = set_current_irq pushed.0 (bit_or 0x8000 exc_num) in
      (
        with_profiler core (λ p. profiler_enter p exc_num core.state.cycles),
        if exc_num == 15
            then bus.set_nvic pushed.1 (record nvic { current_priority = nvic.systick_priority })
            else pushed.1,
      )

  -- The first half of `exit_exception`: the context comes back from the stack.
  unfoldable pub pop_exception_frame : Core × M → Core × M
  pop_exception_frame s =
      let frame = reg s.0 reg_sp in
      let s0 : Core × M = load s 0 (add32 frame 0) 4 in
      let s1 : Core × M = load s0 1 (add32 frame 4) 4 in
      let s2 : Core × M = load s1 2 (add32 frame 8) 4 in
      let s3 : Core × M = load s2 3 (add32 frame 12) 4 in
      let s4 : Core × M = load s3 12 (add32 frame 16) 4 in
      let s5 : Core × M = load s4 reg_lr (add32 frame 20) 4 in
      let s6 : Core × M = load s5 reg_pc (add32 frame 24) 4 in
      let got = bus.read s6.1 (add32 frame 28) 4 in
      (set_reg (set_xpsr s6.0 got.0) reg_sp (add32 (reg s6.0 reg_sp) 32), got.1)

  unfoldable pub exit_exception : Core × M → Core × M
  exit_exception s =
      let popped : Core × M = pop_exception_frame s in
      let core = popped.0 in
      let m = popped.1 in
      let irq = core.state.current_irq in
      let cycles = core.state.cycles in
      if nonzero (bit_and irq 0x8000)
      then (
        set_current_irq (with_profiler core (λ p. profiler_exit p (bit_and irq 0x7fff) cycles)) 0,
        bus.set_nvic m (record (bus.nvic m) { current_priority = 0xff }),
      )
      else if ltb 0 irq
      then (
        set_current_irq (with_profiler core (λ p. profiler_exit p (16 + (irq - 1)) cycles)) 0,
        bus.set_nvic m (nvic_complete (bus.nvic m) (irq - 1)),
      )
      else (set_current_irq core 0, m)
