-- ===== src/Peripherals/Timer/Overflow.antt =====
-- src/peripherals/timer/timer.c: starting, overflowing and reprogramming, and the events that each leaves.
use stm32_emulator.Base.{
  pos_or_zero, lt_or_ge, ◌≤◌, sym, inl, inr, Bool-cases, ◌⊎◌, ℕ, ◌+◌, ◌*◌, ◌^◌, ◌<◌, bit_or, ◌≡◌,
  refl, ◌∙◌, Bool, true, false, not, ◌&&◌, ◌||◌, some, arith, ◌==◌, if◌then◌else◌, u32, u64, add64,
}
use stm32_emulator.Base.Bits.{bit, bit-or, bit-pow, nonzero-bit_and}
use stm32_emulator.Status.{Status}
use stm32_emulator.Events.{EventQueue, event_queue_capacity}
use stm32_emulator.Events.Queue.{IsQueue, schedule_adds_cases}
use stm32_emulator.Nvic.{Nvic, nvic_set_pending}
use stm32_emulator.Peripherals.Timer.{
  Timer, enabled, cycles_per_tick, timer_schedule_next, restart, reschedule, write_cr1,
  timer_overflow_event, timer_write, sr_uif,
}
use stm32_emulator.Peripherals.Timer.Period.{GainsPeriod, restart-GainsPeriod}

-- A period from now stays within 64 bits.
pub record InWord (now : ℕ) (tim : Timer) : Type 0 where
  pub period : (tim.psc + 1) * tim.arr < 2 ^ 64
  pub later : now + (tim.psc + 1) * tim.arr < 2 ^ 64

-- The generation after a restart, which a period of 0 does not count up.
abbrev pub next_generation : Timer → ℕ
next_generation tim = if tim.arr == 0 then tim.generation else u32 (tim.generation + 1)

module _ {F : Type 0} (self : F) where
  -- Where ARR is not 0 and the queue has room, it gains the overflow one period from now; else
  -- it stays as it is.
  abbrev pub QueuesPeriod : ℕ → Timer → EventQueue F → EventQueue F → Type 0
  QueuesPeriod now tim before after =
      ((0 < tim.arr) × (before.size < event_queue_capacity) × GainsPeriod self now tim before after)
      ⊎ (((tim.arr ≡ 0) ⊎ (event_queue_capacity ≤ before.size)) × (after ≡ before))

  -- What a restart does: the queue, and the count that begins now.
  abbrev Restarts : ℕ → Timer → EventQueue F → Timer × EventQueue F → Type 0
  Restarts now tim eq r =
      QueuesPeriod now tim eq r.1
      × (r.0 ≡ record tim { start_cycle = now; generation = next_generation tim })

  restart-QueuesPeriod :
      (now : ℕ) (tim : Timer) (eq : EventQueue F)
      → IsQueue eq
      → enabled tim ≡ true
      → InWord now tim
      → Restarts now tim eq (restart self now tim eq)
  unfolding restart timer_schedule_next cycles_per_tick enabled
  restart-QueuesPeriod now tim eq v on c = elim (pos_or_zero tim.arr) [
    | inr none_left ↦
        (let still : (tim.arr == 0) ≡ true = ground arith in
          rw (on, still) (inr (inl none_left, refl), refl))
    | inl counts ↦
        (let some_arr : (tim.arr == 0) ≡ false = ground arith in
          elim (lt_or_ge eq.size event_queue_capacity) [
            | inl room ↦
                (let r =
                    restart-GainsPeriod self now tim eq v room on
                      (record { counts = counts; period = c.period; later = c.later }) in
                  (inl (counts, room, r.0), r.1 ∙ rw some_arr))
            | inr full ↦
                (let dropped =
                    (schedule_adds_cases eq (add64 now (u64 (cycles_per_tick tim * tim.arr)))
                        (some self) v).1
                      full in
                  rw (on, some_arr, dropped) (inr (inr full, refl), refl))
          ])
  ]

  running : (tim : Timer) (b : Bool) → bit tim.cr1 0 ≡ b → enabled tim ≡ b
  unfolding enabled
  running tim b e = nonzero-bit_and tim.cr1 0 ∙ e

  -- Each case under its own conditions.
  timer_write_enable_cases :
      (now : ℕ) (tim : Timer) (eq : EventQueue F) (value size : ℕ)
      → IsQueue eq
      → InWord now tim
      → let r : Status × (Timer × EventQueue F) = timer_write self now tim eq 0x00 value size in
        (bit tim.cr1 0 ≡ false
          → bit value 0 ≡ true
          → Restarts now (record tim { cr1 = value }) eq r.1)
        × (bit tim.cr1 0 ≡ true
            → bit value 0 ≡ false
            → r.1 ≡ (record tim { cr1 = value; generation = u32 (tim.generation + 1) }, eq))
        × (bit tim.cr1 0 ≡ bit value 0 → r.1 ≡ (record tim { cr1 = value }, eq))
  unfolding timer_write write_cr1
  timer_write_enable_cases now tim eq value size v c = (
    λ off on.
        rw (nonzero-bit_and tim.cr1 0, nonzero-bit_and value 0, off, on)
          (restart-QueuesPeriod now (record tim { cr1 = value }) eq v
            (running (record tim { cr1 = value }) true on)
            (record { period = c.period; later = c.later })),
    λ on off. rw (nonzero-bit_and tim.cr1 0, nonzero-bit_and value 0, off, on),
    λ same. rw (nonzero-bit_and tim.cr1 0, nonzero-bit_and value 0, same) (neither (bit value 0)),
  )
    where
      neither :
          (b : Bool)
          → (if b && not b
              then restart self now (record tim { cr1 = value }) eq
              else if not b && b
              then (record tim { cr1 = value; generation = u32 (tim.generation + 1) }, eq)
              else (record tim { cr1 = value }, eq))
            ≡ (record tim { cr1 = value }, eq)
      neither true = refl
      neither false = refl

  -- The queue is in order, and a period from now stays within 64 bits. Setting the enable bit of a stopped
  -- timer starts its count now and queues its overflow one period from now; where ARR is 0 or the
  -- queue is full, it starts the count and queues nothing. Clearing the bit of a running timer only
  -- moves the generation on: the queue keeps the overflow that waits. Any other value leaves
  -- count and queue alone.
  pub timer_write_enable :
      (now : ℕ) (tim : Timer) (eq : EventQueue F) (value size : ℕ)
      → IsQueue eq
      → InWord now tim
      → let r : Status × (Timer × EventQueue F) = timer_write self now tim eq 0x00 value size in
        ((bit tim.cr1 0 ≡ false)
          × (bit value 0 ≡ true)
          × QueuesPeriod now tim eq r.1.1
          × (r.1.0
              ≡ record tim { cr1 = value; start_cycle = now; generation = next_generation tim }))
        ⊎ (((bit tim.cr1 0 ≡ true)
              × (bit value 0 ≡ false)
              × (r.1 ≡ (record tim { cr1 = value; generation = u32 (tim.generation + 1) }, eq)))
            ⊎ ((bit tim.cr1 0 ≡ bit value 0) × (r.1 ≡ (record tim { cr1 = value }, eq))))
  timer_write_enable now tim eq value size v c =
      let (start, stop, stay) = timer_write_enable_cases now tim eq value size v c in
      elim (Bool-cases (bit tim.cr1 0)) [
        | inl on ↦ elim (Bool-cases (bit value 0)) [
          | inl on' ↦ inr (inr (on ∙ sym on', stay (on ∙ sym on')))
          | inr off' ↦ inr (inl (on, off', stop on off'))
        ]
        | inr off ↦ elim (Bool-cases (bit value 0)) [
          | inl on' ↦ inl (off, on', (start off on').0, (start off on').1)
          | inr off' ↦ inr (inr (off ∙ sym off', stay (off ∙ sym off')))
        ]
      ]

  -- The queue is in order, and a period from now stays within 64 bits. The overflow event of a running timer
  -- sets UIF and no other status bit, restarts the count, raises the interrupt exactly where it is
  -- enabled, and queues the next overflow one period later; where ARR is 0 or the queue is full,
  -- it queues nothing. Of a stopped timer it does nothing at all.
  pub timer_overflow_event-fires :
      (now : ℕ) (tim : Timer) (eq : EventQueue F) (nvic : Nvic) (i : ℕ)
      → IsQueue eq
      → InWord now tim
      → let r : Timer × EventQueue F × Nvic = timer_overflow_event self now tim eq nvic in
        ((bit tim.cr1 0 ≡ true)
          × (QueuesPeriod now tim eq r.1
              × (bit r.0.sr i ≡ (bit tim.sr i || 0 == i))
              × (r.0
                  ≡ record tim { sr = r.0.sr; start_cycle = now; generation = next_generation tim })
              × (r.2 ≡ (if bit tim.dier 0 then nvic_set_pending nvic tim.irq else nvic))))
        ⊎ ((bit tim.cr1 0 ≡ false) × (r ≡ (tim, eq, nvic)))
  unfolding timer_overflow_event
  timer_overflow_event-fires now tim eq nvic i v c = elim (Bool-cases (bit tim.cr1 0)) [
    | inr off ↦ rw (running tim false off) (inr (off, refl))
    | inl on ↦
        (let flagged : Timer = record tim { sr = bit_or tim.sr sr_uif } in
          let next =
            restart-QueuesPeriod now flagged eq v (running flagged true on)
              (record { period = c.period; later = c.later }) in
          rw (running tim true on, next.1)
            (inl (
              on,
              (
                next.0,
                rw (bit-or i tim.sr sr_uif, bit-pow 0 i),
                refl,
                rw (nonzero-bit_and tim.dier 0),
              ),
            )))
  ]

  overflow_sets_uif :
      (now : ℕ) (tim : Timer) (eq : EventQueue F) (nvic : Nvic)
      → enabled tim ≡ true
      → bit (timer_overflow_event self now tim eq nvic).0.sr 0 ≡ true
  unfolding timer_overflow_event restart timer_schedule_next
  overflow_sets_uif now tim eq nvic on = ground (arith, bit-or 0 tim.sr sr_uif, bit-pow 0 0)

  -- The queue is in order, and the new period from now stays within 64 bits. Writing ARR to a running timer
  -- takes no event out of the queue: it adds the overflow of the new period to all that waited, and
  -- nothing where ARR is now 0 or the queue is full. An overflow event that waited, whatever
  -- generation it was queued in, still sets UIF when it fires while the timer runs.
  pub timer_write_reload :
      (now later : ℕ) (tim : Timer) (eq : EventQueue F) (nvic : Nvic) (value size : ℕ)
      → IsQueue eq
      → bit tim.cr1 0 ≡ true
      → InWord now (record tim { arr = value })
      → let r : Status × (Timer × EventQueue F) = timer_write self now tim eq 0x2C value size in
        QueuesPeriod now (record tim { arr = value }) eq r.1.1
        × (r.1.0.generation ≡ next_generation (record tim { arr = value }))
        × ((g : ℕ)
            → bit
                (timer_overflow_event self later (record r.1.0 { generation = g }) r.1.1 nvic).0.sr
                0
              ≡ true)
  unfolding timer_write reschedule
  timer_write_reload now later tim eq nvic value size v on c =
      let reloaded : Timer = record tim { arr = value } in
      let fired : ℕ → Timer = λ g. record reloaded { start_cycle = now; generation = g } in
      let next = restart-QueuesPeriod now reloaded eq v (running reloaded true on) c in
      rw (running reloaded true on, next.1)
        (next.0, refl, λ g. overflow_sets_uif later (fired g) _ nvic (running (fired g) true on))
