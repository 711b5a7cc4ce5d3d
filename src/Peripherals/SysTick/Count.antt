-- ===== src/Peripherals/SysTick/Count.antt =====
-- src/peripherals/systick/systick.c: the count, the flag and the queued overflow.
use stm32_emulator.Base.{
  lt_or_ge, ◌≤◌, inl, inr, cases_of, Bool-cases, ◌⊎◌, ℕ, ◌+◌, ◌%◌, ◌^◌, ◌<◌, bit_or, ◌≡◌, refl, ◌∙◌,
  Bool, true, false, not, ◌&&◌, ◌||◌, some, arith, ltb, ◌==◌, if◌then◌else◌, of_bool, u32, add64,
  sub64,
}
use stm32_emulator.Base.Bits.{
  bit, bit-and, bit-or, bit-pow, bit-complement, nonzero-bit_and, bit_of_lt,
}
use native.Mathlib.Nat.{mod-lt}
use stm32_emulator.Events.{Event, EventQueue, event_queue_capacity, fresh_id}
use stm32_emulator.Events.Queue.{IsQueue, count_events, schedule_adds_cases}
use stm32_emulator.Nvic.{Nvic, nvic_set_systick_pending}
use stm32_emulator.Peripherals.SysTick.{
  SysTick, systick_running, systick_cvr_now, systick_read, systick_schedule_next,
  systick_overflow_event, csr_countflag,
}

-- Each branch under its own condition.
systick_cvr_now-counts_cases :
    (st : SysTick) (e : ℕ)
    → st.rvr < 2 ^ 24
    → st.start_cycle + e < 2 ^ 64
    → (systick_running st ≡ true
        → systick_cvr_now (st.start_cycle + e) st + e % (st.rvr + 1) ≡ st.rvr)
      × (systick_running st ≡ false → systick_cvr_now (st.start_cycle + e) st ≡ 0)
unfolding systick_cvr_now
systick_cvr_now-counts_cases st e small fits =
    let elapsed : sub64 (st.start_cycle + e) st.start_cycle ≡ e = omega arith in
    let below : e % (st.rvr + 1) < st.rvr + 1 = mod-lt e (omega arith) in
    (λ on. rw (on, elapsed) (omega arith), λ off. rw off)

-- The count of a running timer, `e` cycles after its start: it falls from the reload value to 0 and
-- begins again, one step each cycle. A stopped timer reads 0.
pub systick_cvr_now-counts :
    (st : SysTick) (e : ℕ)
    → st.rvr < 2 ^ 24
    → st.start_cycle + e < 2 ^ 64
    → ((systick_running st ≡ true)
        × (systick_cvr_now (st.start_cycle + e) st + e % (st.rvr + 1) ≡ st.rvr))
      ⊎ ((systick_running st ≡ false) × (systick_cvr_now (st.start_cycle + e) st ≡ 0))
systick_cvr_now-counts st e h1 h2 =
    cases_of (Bool-cases _) (systick_cvr_now-counts_cases st e h1 h2)

-- Reading the control register shows it with COUNTFLAG and clears that flag alone: the next read shows
-- every other bit again and COUNTFLAG not set.
pub systick_read-countflag :
    (now : ℕ) (st : SysTick) (size i : ℕ)
    → st.csr < 2 ^ 32
    → let first : ℕ × SysTick = systick_read now st 0x00 size in
      (first.0 ≡ st.csr)
      × (bit (systick_read now first.1 0x00 size).0 i ≡ (bit st.csr i && not (16 == i)))
unfolding systick_read
systick_read-countflag now st size i small =
    (refl, rw (bit-and, bit-complement, bit-pow 16 i) (ground (arith, bit_of_lt 32 st.csr i small)))

-- The enable bit and the reload value say that the timer runs.
pub running_lem : (st : SysTick) → systick_running st ≡ (bit st.csr 0 && ltb 0 st.rvr)
unfolding systick_running
running_lem st = rw (nonzero-bit_and st.csr 0)

module _ {F : Type 0} (self : F) where
  -- `after` holds the events of `before` and one more, of this timer, a whole count from now.
  pub record GainsCount (now : ℕ) (st : SysTick) (before after : EventQueue F) : Type 0 where
    pub queue : IsQueue after
    pub gains :
        (p : Event F → Bool)
        → count_events p after
          ≡ count_events p before
            + of_bool (
                p (record {
                  when = now + st.rvr + 1;
                  fire = some self;
                  id = fresh_id before.next_id;
                }))

  pub schedule-GainsCount :
      (now : ℕ) (st : SysTick) (eq : EventQueue F)
      → IsQueue eq
      → eq.size < event_queue_capacity
      → systick_running st ≡ true
      → now + st.rvr + 1 < 2 ^ 64
      → GainsCount now st eq (systick_schedule_next self now st eq).1
        × ((systick_schedule_next self now st eq).0
            ≡ record st { generation = u32 (st.generation + 1) })
  unfolding systick_schedule_next
  schedule-GainsCount now st eq v room on fits =
      let when : add64 (add64 now st.rvr) 1 ≡ now + st.rvr + 1 = omega arith in
      let s = (schedule_adds_cases eq (now + st.rvr + 1) (some self) v).0 room in
      rw (on, when) (record { queue = s.2; gains = s.4 }, refl)

  schedule-full :
      (now : ℕ) (st : SysTick) (eq : EventQueue F)
      → IsQueue eq
      → event_queue_capacity ≤ eq.size
      → systick_running st ≡ true
      → systick_schedule_next self now st eq
        ≡ (record st { generation = u32 (st.generation + 1) }, eq)
  unfolding systick_schedule_next
  schedule-full now st eq v full on =
      let dropped = (schedule_adds_cases eq (add64 (add64 now st.rvr) 1) (some self) v).1 full in
      rw (on, dropped)

  -- The flag is set and the count begins now; the timer still runs.
  flagged-running :
      (now : ℕ) (st : SysTick)
      → systick_running st ≡ true
      → systick_running (record st { csr = bit_or st.csr csr_countflag; start_cycle = now }) ≡ true
  flagged-running now st on =
      running_lem (record st { csr = bit_or st.csr csr_countflag; start_cycle = now })
      ∙ rw (bit-or 0 st.csr csr_countflag, bit-pow 16 0) (ground (arith, running_lem st))

  -- What the event sets in the timer and in the interrupt controller.
  abbrev Flagged : ℕ → SysTick → Nvic → ℕ → SysTick × EventQueue F × Nvic → Type 0
  Flagged now st nvic i r =
      (bit r.0.csr i ≡ (bit st.csr i || 16 == i))
      × (r.0.start_cycle ≡ now)
      × (r.0.rvr ≡ st.rvr)
      × (r.2 ≡ (if bit st.csr 1 then nvic_set_systick_pending nvic else nvic))

  systick_overflow_event-full :
      (now : ℕ) (st : SysTick) (eq : EventQueue F) (nvic : Nvic) (i : ℕ)
      → IsQueue eq
      → event_queue_capacity ≤ eq.size
      → systick_running st ≡ true
      → let r : SysTick × EventQueue F × Nvic = systick_overflow_event self now st eq nvic in
        (r.1 ≡ eq) × Flagged now st nvic i r
  unfolding systick_overflow_event
  systick_overflow_event-full now st eq nvic i v full on =
      let flagged : SysTick = record st { csr = bit_or st.csr csr_countflag; start_cycle = now } in
      rw (on, schedule-full now flagged eq v full (flagged-running now st on))
        (
          refl,
          (
            rw (bit-or i st.csr csr_countflag, bit-pow 16 i),
            refl,
            refl,
            rw
                (
                  nonzero-bit_and (bit_or st.csr csr_countflag) 1,
                  bit-or 1 st.csr csr_countflag,
                  bit-pow 16 1,
                )
                (ground arith),
          ),
        )

  -- Each branch under its own condition.
  pub systick_overflow_event-fires_cases :
      (now : ℕ) (st : SysTick) (eq : EventQueue F) (nvic : Nvic) (i : ℕ)
      → IsQueue eq
      → eq.size < event_queue_capacity
      → now + st.rvr + 1 < 2 ^ 64
      → let r : SysTick × EventQueue F × Nvic = systick_overflow_event self now st eq nvic in
        (systick_running st ≡ true
          → GainsCount now st eq r.1
            × (bit r.0.csr i ≡ (bit st.csr i || 16 == i))
            × (r.0.start_cycle ≡ now)
            × (r.0.rvr ≡ st.rvr)
            × (r.2 ≡ (if bit st.csr 1 then nvic_set_systick_pending nvic else nvic)))
        × (systick_running st ≡ false → r ≡ (st, eq, nvic))
  unfolding systick_overflow_event
  systick_overflow_event-fires_cases now st eq nvic i v room fits = (
    λ on.
        let flagged : SysTick = record st {
          csr = bit_or st.csr csr_countflag;
          start_cycle = now;
        } in
        let still : systick_running flagged ≡ true = flagged-running now st on in
        let next = schedule-GainsCount now flagged eq v room still fits in
        rw (on, next.1)
          (
            record { queue = next.0.queue; gains = next.0.gains },
            rw (bit-or i st.csr csr_countflag, bit-pow 16 i),
            refl,
            refl,
            rw
                (
                  nonzero-bit_and (bit_or st.csr csr_countflag) 1,
                  bit-or 1 st.csr csr_countflag,
                  bit-pow 16 1,
                )
                (ground arith),
          ),
    λ off. rw off,
  )

  -- The queue is in order, and a whole count from now stays within 64 bits. The overflow event of a running
  -- timer, whatever generation it was queued in, sets COUNTFLAG and no other bit, restarts the
  -- count, makes the exception pending exactly where TICKINT asks for it, and queues the next overflow
  -- a whole count later; a full queue stays as it is. Of a timer that does not run the event does nothing.
  pub systick_overflow_event-fires :
      (now : ℕ) (st : SysTick) (eq : EventQueue F) (nvic : Nvic) (i : ℕ)
      → IsQueue eq
      → now + st.rvr + 1 < 2 ^ 64
      → let r : SysTick × EventQueue F × Nvic = systick_overflow_event self now st eq nvic in
        ((systick_running st ≡ true)
          × ((((eq.size < event_queue_capacity) × GainsCount now st eq r.1)
                ⊎ ((event_queue_capacity ≤ eq.size) × (r.1 ≡ eq)))
              × (bit r.0.csr i ≡ (bit st.csr i || 16 == i))
              × (r.0.start_cycle ≡ now)
              × (r.0.rvr ≡ st.rvr)
              × (r.2 ≡ (if bit st.csr 1 then nvic_set_systick_pending nvic else nvic))))
        ⊎ ((systick_running st ≡ false) × (r ≡ (st, eq, nvic)))
  systick_overflow_event-fires now st eq nvic i v fits =
      elim (lt_or_ge eq.size event_queue_capacity) [
        | inl room ↦
            (let (on, off) = systick_overflow_event-fires_cases now st eq nvic i v room fits in
              elim (Bool-cases (systick_running st)) [
                | inl runs ↦
                    (let (gains, flag, begun, kept, raised) = on runs in
                      inl (runs, (inl (room, gains), flag, begun, kept, raised)))
                | inr idle ↦ inr (idle, off idle)
              ])
        | inr full ↦ elim (Bool-cases (systick_running st)) [
          | inl runs ↦
              (let (same, flags) = systick_overflow_event-full now st eq nvic i v full runs in
                let (flag, begun, kept, raised) = flags in
                inl (runs, (inr (full, same), flag, begun, kept, raised)))
          | inr idle ↦ inr (idle, unfold systick_overflow_event in rw idle)
        ]
      ]
