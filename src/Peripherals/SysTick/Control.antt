-- ===== src/Peripherals/SysTick/Control.antt =====
-- src/peripherals/systick/systick.c: a write of the control register.
use stm32_emulator.Base.{
  inl, inr, pos_or_zero, Bool-cases, ◌⊎◌, ℕ, ◌+◌, ◌^◌, ◌<◌, bit_and, ◌≡◌, refl, true, false, not,
  ◌&&◌, arith, ◌==◌, not32,
}
use stm32_emulator.Base.Bits.{bit, bit-and, bit-pow, bit-complement, nonzero-bit_and, bit_of_lt}
use stm32_emulator.Events.{EventQueue, event_queue_capacity}
use stm32_emulator.Events.Queue.{IsQueue}
use stm32_emulator.Nvic.{Nvic, nvic_enable_systick}
use stm32_emulator.Peripherals.SysTick.{
  SysTick, systick_running, systick_schedule_next, systick_write, write_csr, csr_countflag,
}
use stm32_emulator.Peripherals.SysTick.Count.{running_lem, GainsCount, schedule-GainsCount}

-- The control register as it is stored, and the timer with it.
abbrev masked : ℕ → ℕ
masked value = bit_and value (not32 csr_countflag)

abbrev controlled : SysTick → ℕ → SysTick
controlled st value = record st { csr = masked value }

masked-bit_low : (value i : ℕ) → i < 16 → bit (masked value) i ≡ bit value i
masked-bit_low value i lt = rw (bit-and, bit-complement, bit-pow 16 i) (ground arith)

masked-bit : (value i : ℕ) → value < 2 ^ 32 → bit (masked value) i ≡ (bit value i && not (16 == i))
masked-bit value i small =
    rw (bit-and, bit-complement, bit-pow 16 i) (ground (arith, bit_of_lt 32 value i small))

module _ {F : Type 0} (self : F) where
  write_csr_parts :
      (now : ℕ) (st : SysTick) (eq : EventQueue F) (nvic : Nvic) (value : ℕ)
      → let r : SysTick × EventQueue F × Nvic = write_csr self now st eq nvic value in
        (r.0.csr ≡ masked value)
        × (r.2 ≡ nvic_enable_systick nvic (bit value 1))
        × ((systick_running (controlled st value) && not (systick_running st)) ≡ false → r.1 ≡ eq)
  unfolding write_csr systick_schedule_next
  write_csr_parts now st eq nvic value = (
    ground arith,
    rw (nonzero-bit_and (masked value) 1, masked-bit_low value 1 (omega arith)) (ground arith),
    λ same. ground arith,
  )

  started :
      (now : ℕ) (st : SysTick) (eq : EventQueue F) (nvic : Nvic) (value : ℕ)
      → value < 2 ^ 32
      → IsQueue eq
      → eq.size < event_queue_capacity
      → now + st.rvr + 1 < 2 ^ 64
      → systick_running st ≡ false
      → bit value 0 ≡ true
      → 0 < st.rvr
      → let r : SysTick × EventQueue F × Nvic = write_csr self now st eq nvic value in
        GainsCount self now st eq r.1 × (r.0.start_cycle ≡ now)
  unfolding write_csr
  started now st eq nvic value small v room fits off on pos =
      let now_runs : systick_running (controlled st value) ≡ true =
        ground (arith, running_lem (controlled st value), masked-bit value 0 small) in
      let begun : SysTick = record (controlled st value) { start_cycle = now } in
      let still : systick_running begun ≡ true =
        ground (arith, running_lem begun, masked-bit value 0 small) in
      let next = schedule-GainsCount self now begun eq v room still fits in
      rw (now_runs, off, next.1) (record { queue = next.0.queue; gains = next.0.gains }, refl)

  -- Writing the control register stores it without COUNTFLAG and tells the interrupt controller whether
  -- the exception is wanted. Where that starts the timer, its count begins now and its overflow is
  -- queued a whole count later; otherwise the queue is left as it is.
  pub systick_write_control :
      (now : ℕ) (st : SysTick) (eq : EventQueue F) (nvic : Nvic) (value size i : ℕ)
      → IsQueue eq
      → eq.size < event_queue_capacity
      → now + st.rvr + 1 < 2 ^ 64
      → value < 2 ^ 32
      → let r : SysTick × EventQueue F × Nvic =
          (systick_write self now st eq nvic 0x00 value size).1 in
        (bit r.0.csr i ≡ (bit value i && not (16 == i)))
        × (r.2 ≡ nvic_enable_systick nvic (bit value 1))
        × (((systick_running st ≡ false)
              × (bit value 0 ≡ true)
              × (0 < st.rvr)
              × GainsCount self now st eq r.1
              × (r.0.start_cycle ≡ now))
            ⊎ (((systick_running st ≡ true) ⊎ ((bit value 0 ≡ false) ⊎ (st.rvr ≡ 0))) × (r.1 ≡ eq)))
  unfolding systick_write
  systick_write_control now st eq nvic value size i v room fits small =
      let p = write_csr_parts now st eq nvic value in
      (
        rw p.0 (masked-bit value i small),
        p.1,
        elim (Bool-cases (systick_running st)) [
          | inl running ↦ inr (inl running, p.2 (not_started (inl running)))
          | inr off ↦ elim (Bool-cases (bit value 0)) [
            | inr idle ↦ inr (inr (inl idle), p.2 (not_started (inr (inl idle))))
            | inl on ↦ elim (pos_or_zero st.rvr) [
              | inl pos ↦
                  let got = started now st eq nvic value small v room fits off on pos in
                  inl (off, on, pos, got.0, got.1)
              | inr none_left ↦ inr (inr (inr none_left), p.2 (not_started (inr (inr none_left))))
            ]
          ]
        ],
      )
    where
      not_started :
          (systick_running st ≡ true) ⊎ ((bit value 0 ≡ false) ⊎ (st.rvr ≡ 0))
          → (systick_running (controlled st value) && not (systick_running st)) ≡ false
      not_started which =
          ground (arith, running_lem (controlled st value), masked-bit value 0 small)
