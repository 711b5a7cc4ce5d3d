-- ===== src/Program/Batch.antt =====
-- src/main.c: the run under `--json` against the `step` command of src/ui/ui.c.
use stm32_emulator.Base.{ℕ, zero, suc, ◌≡◌, refl, ◌⊎◌, inl, inr, true, false}
use stm32_emulator.Simulator.{Simulator}
use stm32_emulator.Simulator.Cycle.{simulator_step}
use stm32_emulator.Simulator.Halting.{Continues, Stopped, step_outcome}
use stm32_emulator.Ui.{step_loop}
use stm32_emulator.Ui.Stepping.{step_loop-Continues, step_loop-Stopped}
use stm32_emulator.Program.{HaltReason, reached_max_cycles, was_halted, batch_loop}

module _ {X : Type 0} where
  batch_loop-Continues :
      (n : ℕ) (sim : Simulator X)
      → Continues (simulator_step sim)
      → batch_loop (suc n) sim ≡ batch_loop n (simulator_step sim).1
  unfolding batch_loop
  batch_loop-Continues n sim on = rw (on.1, on.0, batch_loop)

  batch_loop-Stopped :
      (n : ℕ) (sim : Simulator X)
      → Stopped (simulator_step sim)
      → batch_loop (suc n) sim ≡ (was_halted, (simulator_step sim).1)
  unfolding batch_loop
  batch_loop-Stopped n sim stop = rw (stop.0, batch_loop)

  -- The reason that the report gives for a run of `n` rounds.
  abbrev pub HasReason : HaltReason → Simulator X → Type 0
  HasReason reason sim =
      ((reason ≡ was_halted) × (sim.halted ≡ true))
      ⊎ ((reason ≡ reached_max_cycles) × (sim.halted ≡ false))

  -- From a simulator that is not halted, the run under `--json` with a limit of `n` rounds leaves the
  -- simulator that `n` rounds of the loop of `step` leave. It reports `was_halted` exactly where that
  -- simulator is halted and `reached_max_cycles` where it is not; the two other reasons are never reported.
  pub batch_loop-step_loop :
      (n : ℕ) (sim : Simulator X)
      → sim.halted ≡ false
      → ((batch_loop n sim).1 ≡ step_loop n sim)
        × HasReason (batch_loop n sim).0 (batch_loop n sim).1
  unfolding batch_loop step_loop
  batch_loop-step_loop zero sim live = (refl, inr (refl, live))
  batch_loop-step_loop (suc n) sim live = elim (step_outcome sim live).0 [
    | inl on ↦
        rw (batch_loop-Continues n sim on, step_loop-Continues n sim on)
          (batch_loop-step_loop n (simulator_step sim).1 on.1)
    | inr stop ↦
        rw (batch_loop-Stopped n sim stop, step_loop-Stopped n sim stop) (refl, inl (refl, stop.0))
  ]
