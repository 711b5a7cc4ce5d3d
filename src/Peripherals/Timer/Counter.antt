-- ===== src/Peripherals/Timer/Counter.antt =====
-- src/peripherals/timer/timer.c: the counter that is computed when it is read.
use stm32_emulator.Base.{ℕ, ◌+◌, ◌*◌, ◌/◌, ◌%◌, ◌^◌, ◌<◌, ◌≡◌, true, false, arith, ◌==◌, u64, sub64}
use native.Mathlib.Nat.{mod-lt, mul-div_cancel, mod-eq_of_lt}
use stm32_emulator.Events.{EventQueue}
use stm32_emulator.Peripherals.Timer.{
  Timer, enabled, cycles_per_tick, timer_cnt_now, timer_read, timer_write,
}

-- The counter stays below the auto-reload value, which is not 0, whether the timer runs or not.
pub timer_cnt_now-lt :
    (now : ℕ) (tim : Timer) → 0 < tim.arr → tim.arr < 2 ^ 32 → timer_cnt_now now tim < tim.arr
unfolding timer_cnt_now
timer_cnt_now-lt now tim pos small =
    let below = mod-lt (sub64 now tim.start_cycle / cycles_per_tick tim) pos in ground arith

elapsed_since_write :
    (now v k c : ℕ)
    → (v + k) * c < 2 ^ 64
    → now + k * c < 2 ^ 64
    → sub64 (now + k * c) (sub64 now (u64 (v * c))) ≡ (v + k) * c
elapsed_since_write now v k c h g = omega arith

-- A value `v` written to CNT is the value that the counter goes on from: `k` timer ticks later it reads
-- `(v + k) % arr`, as long as the timer runs and no cycle count leaves 64 bits.
timer_read-write_cnt :
    {F : Type 0} (self : F) (now : ℕ) (tim : Timer) (eq : EventQueue F) (v k size : ℕ)
    → enabled tim ≡ true
    → 0 < tim.arr
    → tim.arr < 2 ^ 32
    → (v + k) * (tim.psc + 1) < 2 ^ 64
    → now + k * (tim.psc + 1) < 2 ^ 64
    → timer_read (now + k * (tim.psc + 1)) (timer_write self now tim eq 0x24 v size).1.0 0x24 size
      ≡ (v + k) % tim.arr
unfolding timer_read timer_write timer_cnt_now enabled cycles_per_tick
timer_read-write_cnt self now tim eq v k size on pos small h g =
    let apart = elapsed_since_write now v k (tim.psc + 1) h g in
    let some_arr : (tim.arr == 0) ≡ false = ground arith in
    rw (on, some_arr, apart, mul-div_cancel (v + k) {n = tim.psc + 1} (omega arith))
      (mod-eq_of_lt (omega (arith, mod-lt (v + k) pos)))
