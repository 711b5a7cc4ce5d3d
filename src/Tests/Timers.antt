-- ===== src/Tests/Timers.antt =====
-- The theorems on the two timers at concrete inputs.
use stm32_emulator.Base.{
  ℕ, ◌+◌, ◌≤◌, ◌<◌, ◌≡◌, refl, ◌⊎◌, true, false, ◌||◌, arith, ◌==◌, if◌then◌else◌, u32,
}
use stm32_emulator.Nvic.{nvic_init, Nvic, nvic_set_pending, nvic_set_systick_pending}
use stm32_emulator.Events.{event_queue_init, EventQueue, event_queue_capacity}
use stm32_emulator.Events.Queue.{event_queue_init-IsQueue}
use stm32_emulator.Base.Bits.{bit}
use stm32_emulator.Peripherals.Timer.{Timer, timer_overflow_event, timer_write}
use stm32_emulator.Peripherals.SysTick.{SysTick, systick_running, systick_overflow_event}
use stm32_emulator.Status.{Status}
use stm32_emulator.Peripherals.Timer.Overflow.{
  InWord, next_generation, QueuesPeriod, timer_write_enable, timer_overflow_event-fires,
  timer_write_reload,
}
use stm32_emulator.Peripherals.SysTick.Count.{GainsCount, systick_overflow_event-fires}

-- A timer that counts to ten, stopped and running.
abbrev stopped : Timer
stopped = record {
  cr1 = 0;
  dier = 1;
  sr = 0;
  psc = 0;
  arr = 10;
  start_cycle = 0;
  generation = 0;
  irq = 28;
}

abbrev running : Timer
running = record stopped { cr1 = 1 }

stopped-InWord : InWord 100 stopped
stopped-InWord = record { period = omega arith; later = omega arith }

running-InWord : InWord 100 running
running-InWord = record { period = omega arith; later = omega arith }

-- A system timer that counts down from nine.
abbrev ticking : SysTick
ticking = record { csr = 3; rvr = 9; start_cycle = 100; generation = 0 }

timer_write_enable_example :
    let self : ℕ = 0 in
    let now : ℕ = 100 in
    let tim : Timer = stopped in
    let eq : EventQueue ℕ = event_queue_init in
    let value : ℕ = 1 in
    let size : ℕ = 4 in
    let r : Status × (Timer × EventQueue ℕ) = timer_write self now tim eq 0x00 value size in
    ((bit tim.cr1 0 ≡ false)
      × (bit value 0 ≡ true)
      × QueuesPeriod self now tim eq r.1.1
      × (r.1.0 ≡ record tim { cr1 = value; start_cycle = now; generation = next_generation tim }))
    ⊎ (((bit tim.cr1 0 ≡ true)
          × (bit value 0 ≡ false)
          × (r.1 ≡ (record tim { cr1 = value; generation = u32 (tim.generation + 1) }, eq)))
        ⊎ ((bit tim.cr1 0 ≡ bit value 0) × (r.1 ≡ (record tim { cr1 = value }, eq))))
unfolding event_queue_init
timer_write_enable_example =
    timer_write_enable 0 100 stopped event_queue_init 1 4 event_queue_init-IsQueue stopped-InWord

timer_overflow_event-fires_example :
    let self : ℕ = 0 in
    let now : ℕ = 100 in
    let tim : Timer = running in
    let eq : EventQueue ℕ = event_queue_init in
    let nvic : Nvic = nvic_init in
    let i : ℕ = 0 in
    let r : Timer × EventQueue ℕ × Nvic = timer_overflow_event self now tim eq nvic in
    ((bit tim.cr1 0 ≡ true)
      × (QueuesPeriod self now tim eq r.1
          × (bit r.0.sr i ≡ (bit tim.sr i || 0 == i))
          × (r.0 ≡ record tim { sr = r.0.sr; start_cycle = now; generation = next_generation tim })
          × (r.2 ≡ (if bit tim.dier 0 then nvic_set_pending nvic tim.irq else nvic))))
    ⊎ ((bit tim.cr1 0 ≡ false) × (r ≡ (tim, eq, nvic)))
unfolding event_queue_init
timer_overflow_event-fires_example =
    timer_overflow_event-fires 0 100 running event_queue_init nvic_init 0 event_queue_init-IsQueue
      running-InWord

timer_write_reload_example :
    let self : ℕ = 0 in
    let now : ℕ = 100 in
    let later : ℕ = 200 in
    let tim : Timer = running in
    let eq : EventQueue ℕ = event_queue_init in
    let nvic : Nvic = nvic_init in
    let value : ℕ = 10 in
    let size : ℕ = 4 in
    let r : Status × (Timer × EventQueue ℕ) = timer_write self now tim eq 0x2C value size in
    QueuesPeriod self now (record tim { arr = value }) eq r.1.1
    × (r.1.0.generation ≡ next_generation (record tim { arr = value }))
    × ((g : ℕ)
        → bit (timer_overflow_event self later (record r.1.0 { generation = g }) r.1.1 nvic).0.sr 0
          ≡ true)
unfolding event_queue_init bit
timer_write_reload_example =
    timer_write_reload 0 100 200 running event_queue_init nvic_init 10 4 event_queue_init-IsQueue
      refl running-InWord

systick_overflow_event-fires_example :
    let self : ℕ = 0 in
    let now : ℕ = 100 in
    let st : SysTick = ticking in
    let eq : EventQueue ℕ = event_queue_init in
    let nvic : Nvic = nvic_init in
    let i : ℕ = 16 in
    let r : SysTick × EventQueue ℕ × Nvic = systick_overflow_event self now st eq nvic in
    ((systick_running st ≡ true)
      × ((((eq.size < event_queue_capacity) × GainsCount self now st eq r.1)
            ⊎ ((event_queue_capacity ≤ eq.size) × (r.1 ≡ eq)))
          × (bit r.0.csr i ≡ (bit st.csr i || 16 == i))
          × (r.0.start_cycle ≡ now)
          × (r.0.rvr ≡ st.rvr)
          × (r.2 ≡ (if bit st.csr 1 then nvic_set_systick_pending nvic else nvic))))
    ⊎ ((systick_running st ≡ false) × (r ≡ (st, eq, nvic)))
unfolding event_queue_init
systick_overflow_event-fires_example =
    systick_overflow_event-fires 0 100 ticking event_queue_init nvic_init 16
      event_queue_init-IsQueue (omega arith)
