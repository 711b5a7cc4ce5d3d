-- ===== src/Peripherals/Timer.antt =====
-- src/peripherals/timer/timer.c: TIM2. `now` is the simulator's cycle counter behind `sim_cycle`, and `self` the
-- callback `timer_overflow_event` on this timer.
pub mod Counter
pub mod Period
pub mod Overflow
use stm32_emulator.Base.{
  ℕ, ◌+◌, ◌*◌, ◌/◌, ◌%◌, ◌^◌, bit_and, bit_or, Bool, not, ◌&&◌, some, ◌==◌, nonzero, if◌then◌else◌,
  u32, u64, add64, sub64,
}
use stm32_emulator.Status.{Status, ok, error}
use stm32_emulator.Events.{EventQueue, event_queue_schedule}
use stm32_emulator.Nvic.{Nvic, nvic_set_pending}

abbrev pub cr1_cen : ℕ
cr1_cen = 2 ^ 0

abbrev pub sr_uif : ℕ
sr_uif = 2 ^ 0

abbrev pub dier_uie : ℕ
dier_uie = 2 ^ 0

-- `TimerState`
pub record Timer : Type 0 where
  pub cr1 : ℕ
  pub dier : ℕ
  pub sr : ℕ
  pub psc : ℕ
  pub arr : ℕ
  pub start_cycle : ℕ
  pub generation : ℕ
  pub irq : ℕ

-- `tim->cr1 & TIM_CR1_CEN`
unfoldable pub enabled : Timer → Bool
enabled tim = nonzero (bit_and tim.cr1 cr1_cen)

unfoldable pub cycles_per_tick : Timer → ℕ
cycles_per_tick tim = tim.psc + 1

unfoldable pub timer_cnt_now : ℕ → Timer → ℕ
timer_cnt_now now tim =
    if not (enabled tim)
    then 0
    else if tim.arr == 0
    then 0
    else u32 (sub64 now tim.start_cycle / cycles_per_tick tim % tim.arr)

unfoldable pub timer_init : ℕ → Timer
timer_init irq = record {
  cr1 = 0;
  dier = 0;
  sr = 0;
  psc = 0;
  arr = 0xFFFFFFFF;
  start_cycle = 0;
  generation = 0;
  irq = irq;
}

unfoldable pub timer_reset : Timer → Timer
timer_reset tim = timer_init tim.irq

unfoldable pub timer_read : ℕ → Timer → ℕ → ℕ → ℕ
timer_read now tim offset size =
    if offset == 0x00
    then tim.cr1
    else if offset == 0x0C
    then tim.dier
    else if offset == 0x10
    then tim.sr
    else if offset == 0x24
    then timer_cnt_now now tim
    else if offset == 0x28
    then tim.psc
    else if offset == 0x2C
    then tim.arr
    else 0

module _ {F : Type 0} (self : F) where
  unfoldable pub timer_schedule_next : ℕ → Timer → EventQueue F → Timer × EventQueue F
  timer_schedule_next now tim eq =
      if not (enabled tim) then (tim, eq) else if tim.arr == 0 then (tim, eq) else (
        record tim { generation = u32 (tim.generation + 1) },
        (event_queue_schedule eq (add64 now (u64 (cycles_per_tick tim * tim.arr))) (some self)).1,
      )

  -- `tim->start_cycle = *tim->sim_cycle; timer_schedule_next(tim);`
  unfoldable pub restart : ℕ → Timer → EventQueue F → Timer × EventQueue F
  restart now tim eq = timer_schedule_next now (record tim { start_cycle = now }) eq

  unfoldable pub timer_overflow_event :
      ℕ → Timer → EventQueue F → Nvic → Timer × EventQueue F × Nvic
  timer_overflow_event now tim eq nvic =
      if not (enabled tim)
      then (tim, eq, nvic)
      else let (tim', eq') = restart now (record tim { sr = bit_or tim.sr sr_uif }) eq in
        (
          tim',
          eq',
          if nonzero (bit_and tim.dier dier_uie) then nvic_set_pending nvic tim.irq else nvic,
        )

  -- The case `TIM_CR1_OFFSET` of `timer_write`.
  unfoldable pub write_cr1 : ℕ → Timer → EventQueue F → ℕ → Timer × EventQueue F
  write_cr1 now tim eq value =
      let was_enabled = nonzero (bit_and tim.cr1 cr1_cen) in
      let now_enabled = nonzero (bit_and value cr1_cen) in
      let tim' : Timer = record tim { cr1 = value } in
      if now_enabled && not was_enabled
      then restart now tim' eq
      else if not now_enabled && was_enabled
      then (record tim' { generation = u32 (tim.generation + 1) }, eq)
      else (tim', eq)

  -- The end of the cases `TIM_PSC_OFFSET` and `TIM_ARR_OFFSET`.
  unfoldable pub reschedule : ℕ → Timer → EventQueue F → Timer × EventQueue F
  reschedule now tim eq = if enabled tim then restart now tim eq else (tim, eq)

  unfoldable pub timer_write :
      ℕ → Timer → EventQueue F → ℕ → ℕ → ℕ → Status × (Timer × EventQueue F)
  timer_write now tim eq offset value size =
      if offset == 0x00
      then (ok, write_cr1 now tim eq value)
      else if offset == 0x0C
      then (ok, (record tim { dier = value }, eq))
      else if offset == 0x10
      then (ok, (record tim { sr = bit_and tim.sr value }, eq))
      else if offset == 0x24
      then (ok, (record tim { start_cycle = sub64 now (u64 (value * cycles_per_tick tim)) }, eq))
      else if offset == 0x28
      then (ok, reschedule now (record tim { psc = value }) eq)
      else if offset == 0x2C
      then (ok, reschedule now (record tim { arr = value }) eq)
      else (error, (tim, eq))
