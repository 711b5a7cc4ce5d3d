-- ===== src/Ui/Stepping.antt =====
-- src/ui/ui.c: stepping by numbers, and the lines behind `quit`.
use stm32_emulator.Base.{
  ℕ, zero, suc, ◌+◌, ◌≡◌, refl, sym, ap, ◌∙◌, inl, inr, true, arith, Bool-cases,
}
use stm32_emulator.Status.{halted}
use stm32_emulator.Simulator.{Simulator}
use stm32_emulator.Simulator.Cycle.{simulator_step}
use stm32_emulator.Simulator.Halting.{Continues, Stopped, step_outcome}
use stm32_emulator.Ui.{step_loop}

module _ {X : Type 0} where
  refused : (sim : Simulator X) → sim.halted ≡ true → simulator_step sim ≡ (halted, sim)
  unfolding simulator_step
  refused sim h = rw (h, simulator_step)

  step_loop-halted : (n : ℕ) (sim : Simulator X) → sim.halted ≡ true → step_loop n sim ≡ sim
  unfolding step_loop
  step_loop-halted zero sim h = refl
  step_loop-halted (suc n) sim h =
      rw (ap (λ r. r.0) (refused sim h), step_loop) (ap (λ r. r.1) (refused sim h))

  pub step_loop-Continues :
      (n : ℕ) (sim : Simulator X)
      → Continues (simulator_step sim)
      → step_loop (suc n) sim ≡ step_loop n (simulator_step sim).1
  unfolding step_loop
  step_loop-Continues n sim on = rw (on.0, step_loop)

  pub step_loop-Stopped :
      (n : ℕ) (sim : Simulator X)
      → Stopped (simulator_step sim)
      → step_loop (suc n) sim ≡ (simulator_step sim).1
  unfolding step_loop
  step_loop-Stopped n sim stop = elim stop.1 [
    | inl hit ↦ rw (hit.0, step_loop)
    | inr bad ↦ rw (bad, step_loop)
  ]

  -- The loop of `step`, run for `m` rounds and then for `n`, leaves the simulator as one run for `m + n`
  -- rounds does, from any state. Where the first run stops at a breakpoint or an instruction that
  -- does not exist, the second does nothing.
  pub step_loop-add :
      (m n : ℕ) (sim : Simulator X) → step_loop n (step_loop m sim) ≡ step_loop (m + n) sim
  unfolding step_loop
  step_loop-add zero n sim = ap (λ k. step_loop k sim) (omega arith)
  step_loop-add (suc m) n sim =
      let next : Simulator X = (simulator_step sim).1 in
      let count : suc m + n ≡ suc (m + n) = omega arith in
      elim (Bool-cases sim.halted) [
        | inl stopped ↦
            rw (step_loop-halted (suc m) sim stopped)
              (step_loop-halted n sim stopped ∙ sym (step_loop-halted (suc m + n) sim stopped))
        | inr live ↦ elim (step_outcome sim live).0 [
          | inl on ↦
              rw (count, step_loop-Continues m sim on, step_loop-Continues (m + n) sim on)
                (step_loop-add m n next)
          | inr stop ↦
              rw (count, step_loop-Stopped m sim stop, step_loop-Stopped (m + n) sim stop)
                (step_loop-halted n next stop.0)
        ]
      ]
