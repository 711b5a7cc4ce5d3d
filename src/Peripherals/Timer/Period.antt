-- ===== src/Peripherals/Timer/Period.antt =====
-- src/peripherals/timer/timer.c: the event that a restart of the count leaves where the queue has room.
use stm32_emulator.Base.{
  ℕ, ◌+◌, ◌*◌, ◌^◌, ◌<◌, bit_or, ◌≡◌, refl, ◌∙◌, Bool, true, false, ◌||◌, some, arith, ◌==◌,
  if◌then◌else◌, of_bool, u32, u64, add64,
}
use stm32_emulator.Base.Bits.{bit, bit-or, bit-pow, nonzero-bit_and}
use stm32_emulator.Events.{Event, EventQueue, event_queue_capacity, fresh_id}
use stm32_emulator.Events.Queue.{IsQueue, count_events, schedule_adds_cases}
use stm32_emulator.Nvic.{Nvic, nvic_set_pending}
use stm32_emulator.Peripherals.Timer.{
  Timer, enabled, cycles_per_tick, timer_schedule_next, restart, timer_overflow_event, sr_uif,
}

-- The registers fit their 32 bits, the timer counts, and a period from now stays within 64 bits.
pub record CanRun (now : ℕ) (tim : Timer) : Type 0 where
  pub counts : 0 < tim.arr
  pub period : (tim.psc + 1) * tim.arr < 2 ^ 64
  pub later : now + (tim.psc + 1) * tim.arr < 2 ^ 64

module _ {F : Type 0} (self : F) where
  -- `after` holds the events of `before` and one more, of this timer, at cycle `at`.
  pub record GainsEvent (at : ℕ) (before after : EventQueue F) : Type 0 where
    pub queue : IsQueue after
    pub gains :
        (p : Event F → Bool)
        → count_events p after
          ≡ count_events p before
            + of_bool (p (record { when = at; fire = some self; id = fresh_id before.next_id }))

  -- The event is one period from now.
  abbrev pub GainsPeriod : ℕ → Timer → EventQueue F → EventQueue F → Type 0
  GainsPeriod now tim before after = GainsEvent (now + (tim.psc + 1) * tim.arr) before after

  pub restart-GainsPeriod :
      (now : ℕ) (tim : Timer) (eq : EventQueue F)
      → IsQueue eq
      → eq.size < event_queue_capacity
      → enabled tim ≡ true
      → CanRun now tim
      → GainsPeriod now tim eq (restart self now tim eq).1
        × ((restart self now tim eq).0
            ≡ record tim { start_cycle = now; generation = u32 (tim.generation + 1) })
  unfolding restart timer_schedule_next enabled cycles_per_tick
  restart-GainsPeriod now tim eq v room on c =
      let some_arr : (tim.arr == 0) ≡ false = ground (arith, c.counts) in
      let when : add64 now (u64 ((tim.psc + 1) * tim.arr)) ≡ now + (tim.psc + 1) * tim.arr =
        omega (arith, c.period, c.later) in
      let s = (schedule_adds_cases eq (now + (tim.psc + 1) * tim.arr) (some self) v).0 room in
      rw (on, some_arr, when) (record { queue = s.2; gains = s.4 }, refl)

  -- Each branch under its own condition.
  pub timer_overflow_event-fires_cases :
      (now : ℕ) (tim : Timer) (eq : EventQueue F) (nvic : Nvic) (i : ℕ)
      → IsQueue eq
      → eq.size < event_queue_capacity
      → CanRun now tim
      → let r : Timer × EventQueue F × Nvic = timer_overflow_event self now tim eq nvic in
        (bit tim.cr1 0 ≡ true
          → GainsPeriod now tim eq r.1
            × (bit r.0.sr i ≡ (bit tim.sr i || 0 == i))
            × (r.0 ≡ record tim {
              sr = r.0.sr;
              start_cycle = now;
              generation = u32 (tim.generation + 1);
            })
            × (r.2 ≡ (if bit tim.dier 0 then nvic_set_pending nvic tim.irq else nvic)))
        × (bit tim.cr1 0 ≡ false → r ≡ (tim, eq, nvic))
  unfolding timer_overflow_event
  timer_overflow_event-fires_cases now tim eq nvic i v room c = (
    λ on.
        let running : enabled tim ≡ true = unfold enabled in nonzero-bit_and tim.cr1 0 ∙ on in
        let next =
          restart-GainsPeriod now (record tim { sr = bit_or tim.sr sr_uif }) eq v room
            (unfold enabled in nonzero-bit_and tim.cr1 0 ∙ on)
            (record { counts = c.counts; period = c.period; later = c.later }) in
        rw (running, next.1)
          (
            record { queue = next.0.queue; gains = next.0.gains },
            rw (bit-or i tim.sr sr_uif, bit-pow 0 i),
            refl,
            rw (nonzero-bit_and tim.dier 0),
          ),
    λ off.
        let stopped : enabled tim ≡ false = unfold enabled in nonzero-bit_and tim.cr1 0 ∙ off in
        rw stopped,
  )
