-- ===== src/Peripherals/SysTick.antt =====
-- src/peripherals/systick/systick.c: the core's 24-bit timer, counting down. `now` is the simulator's cycle
-- counter and `self` the callback `systick_overflow_event` on this timer.
pub mod Count
pub mod Control
use stm32_emulator.Base.{
  ℕ, ◌+◌, ◌%◌, ◌^◌, bit_and, bit_or, Bool, not, ◌&&◌, some, ltb, ◌==◌, nonzero, if◌then◌else◌, u32,
  sub32, add64, sub64, not32,
}
use stm32_emulator.Status.{Status, ok, error}
use stm32_emulator.Events.{EventQueue, event_queue_schedule}
use stm32_emulator.Nvic.{Nvic, nvic_set_systick_pending, nvic_enable_systick}

abbrev pub csr_enable : ℕ
csr_enable = 2 ^ 0

abbrev pub csr_tickint : ℕ
csr_tickint = 2 ^ 1

abbrev pub csr_countflag : ℕ
csr_countflag = 2 ^ 16

-- `SYST_CALIB_VALUE`
abbrev pub calib_value : ℕ
calib_value = 0x1F3F

-- `SysTickState`
pub record SysTick : Type 0 where
  pub csr : ℕ
  pub rvr : ℕ
  pub start_cycle : ℕ
  pub generation : ℕ

unfoldable pub systick_running : SysTick → Bool
systick_running st = nonzero (bit_and st.csr csr_enable) && ltb 0 st.rvr

unfoldable pub systick_cvr_now : ℕ → SysTick → ℕ
systick_cvr_now now st =
    if not (systick_running st)
    then 0
    else sub32 st.rvr (u32 (sub64 now st.start_cycle % (st.rvr + 1)))

unfoldable pub systick_init : SysTick
systick_init = record { csr = 0; rvr = 0; start_cycle = 0; generation = 0 }

unfoldable pub systick_reset : SysTick → SysTick
systick_reset st = systick_init

unfoldable pub systick_read : ℕ → SysTick → ℕ → ℕ → ℕ × SysTick
systick_read now st offset size =
    if offset == 0x00
    then (st.csr, record st { csr = bit_and st.csr (not32 csr_countflag) })
    else if offset == 0x04
    then (bit_and st.rvr 0x00FFFFFF, st)
    else if offset == 0x08
    then (systick_cvr_now now st, st)
    else if offset == 0x0C
    then (calib_value, st)
    else (0, st)

module _ {F : Type 0} (self : F) where
  unfoldable pub systick_schedule_next : ℕ → SysTick → EventQueue F → SysTick × EventQueue F
  systick_schedule_next now st eq = if not (systick_running st) then (st, eq) else (
    record st { generation = u32 (st.generation + 1) },
    (event_queue_schedule eq (add64 (add64 now st.rvr) 1) (some self)).1,
  )

  unfoldable pub systick_overflow_event :
      ℕ → SysTick → EventQueue F → Nvic → SysTick × EventQueue F × Nvic
  systick_overflow_event now st eq nvic =
      if not (systick_running st)
      then (st, eq, nvic)
      else let flagged : SysTick = record st {
        csr = bit_or st.csr csr_countflag;
        start_cycle = now;
      } in
        let (st', eq') = systick_schedule_next now flagged eq in
        (
          st',
          eq',
          if nonzero (bit_and flagged.csr csr_tickint) then nvic_set_systick_pending nvic else nvic,
        )

  -- The case `SYST_CSR_OFFSET` of `systick_write`.
  unfoldable pub write_csr : ℕ → SysTick → EventQueue F → Nvic → ℕ → SysTick × EventQueue F × Nvic
  write_csr now st eq nvic value =
      let was_running = systick_running st in
      let st' : SysTick = record st { csr = bit_and value (not32 csr_countflag) } in
      let nvic' = nvic_enable_systick nvic (nonzero (bit_and st'.csr csr_tickint)) in
      if systick_running st' && not was_running
      then (let (st'', eq') = systick_schedule_next now (record st' { start_cycle = now }) eq in
          (st'', eq', nvic'))
      else if not (systick_running st') && was_running
      then (record st' { generation = u32 (st.generation + 1) }, eq, nvic')
      else (st', eq, nvic')

  -- The case `SYST_CVR_OFFSET` of `systick_write`.
  unfoldable pub write_cvr : ℕ → SysTick → EventQueue F → SysTick × EventQueue F
  write_cvr now st eq =
      let st' : SysTick = record st {
        csr = bit_and st.csr (not32 csr_countflag);
        start_cycle = now;
      } in
      if systick_running st'
      then systick_schedule_next now (record st' { generation = u32 (st.generation + 1) }) eq
      else (st', eq)

  unfoldable pub systick_write :
      ℕ → SysTick → EventQueue F → Nvic → ℕ → ℕ → ℕ → Status × (SysTick × EventQueue F × Nvic)
  systick_write now st eq nvic offset value size =
      if offset == 0x00
      then (ok, write_csr now st eq nvic value)
      else if offset == 0x04
      then (ok, (record st { rvr = bit_and value 0x00FFFFFF }, eq, nvic))
      else if offset == 0x08
      then (let (st', eq') = write_cvr now st eq in (ok, (st', eq', nvic)))
      else if offset == 0x0C
      then (ok, (st, eq, nvic))
      else (error, (st, eq, nvic))
