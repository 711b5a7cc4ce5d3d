-- ===== src/Simulator/Halting.antt =====
-- src/simulator/simulator.c: when a step halts the simulator.
use stm32_emulator.Base.{◌≡◌, refl, ◌⊎◌, inl, inr, Bool, true, false, Bool-cases}
use stm32_emulator.Status.{Status, ok, invalid_instruction, breakpoint_hit, halted}
use stm32_emulator.Core.{reg, reg_pc}
use stm32_emulator.Core.Step.{core_step}
use stm32_emulator.Core.Outcome.{core_step-status}
use stm32_emulator.Debugger.{debugger_check}
use stm32_emulator.Simulator.{Machine, Simulator, system_bus}
use stm32_emulator.Simulator.Cycle.{begin_cycle, simulator_step}

module _ {X : Type 0} where
  -- Whether the core stands at a breakpoint.
  abbrev pub at_breakpoint : Simulator X → Bool
  at_breakpoint sim = debugger_check sim.debugger (reg sim.core reg_pc)

  -- How a step of a simulator that is not halted ends: in the next state, and stopped in a state
  -- that holds a breakpoint or an instruction that does not exist.
  abbrev pub Stopped : Status × Simulator X → Type 0
  Stopped r =
      (r.1.halted ≡ true)
      × (((r.0 ≡ breakpoint_hit) × (at_breakpoint r.1 ≡ true)) ⊎ (r.0 ≡ invalid_instruction))

  abbrev pub Continues : Status × Simulator X → Type 0
  Continues r = (r.0 ≡ ok) × (r.1.halted ≡ false) × (at_breakpoint r.1 ≡ false)

  pub step_outcome :
      (sim : Simulator X)
      → sim.halted ≡ false
      → (Continues (simulator_step sim) ⊎ Stopped (simulator_step sim))
        × ((simulator_step sim).1.running ≡ sim.running)
        × ((simulator_step sim).1.debugger ≡ sim.debugger)
  unfolding simulator_step
  step_outcome sim live =
      let begun : Machine X = begin_cycle sim.peripherals sim.machine in
      let done = core_step (system_bus sim.bus) (sim.core, begun) in
      elim (core_step-status (system_bus sim.bus) (sim.core, begun)).ends [
        | inr bad ↦ rw (live, bad) (inr (refl, inr refl), refl, refl)
        | inl fine ↦ elim (Bool-cases (debugger_check sim.debugger (reg done.1.0 reg_pc))) [
          | inl hit ↦ rw (live, fine, hit) (inr (refl, inl (refl, hit)), refl, refl)
          | inr free ↦ rw (live, fine, free) (inl (refl, live, free), refl, refl)
        ]
      ]

  -- A halted simulator refuses to step and stays as it is. Any other step ends in one of three ways: the
  -- instruction succeeds and the core does not stand at a breakpoint, and the simulator goes on; it succeeds and
  -- the core stands at a breakpoint, or the instruction does not exist, and then the simulator is
  -- halted, so that the next step is refused.
  pub simulator_step-halts :
      (sim : Simulator X)
      → ((sim.halted ≡ true) × (simulator_step sim ≡ (halted, sim)))
        ⊎ ((sim.halted ≡ false)
            × (Continues (simulator_step sim)
                ⊎ (Stopped (simulator_step sim)
                    × (simulator_step (simulator_step sim).1 ≡ (halted, (simulator_step sim).1)))))
  unfolding simulator_step
  simulator_step-halts sim = elim (Bool-cases sim.halted) [
    | inl stopped ↦ inl (stopped, refused sim stopped)
    | inr live ↦ elim (step_outcome sim live).0 [
      | inl on ↦ inr (live, inl on)
      | inr stop ↦ inr (live, inr (stop, refused (simulator_step sim).1 stop.0))
    ]
  ]
    where
      refused : (s : Simulator X) → s.halted ≡ true → simulator_step s ≡ (halted, s)
      refused s e = rw (simulator_step, e)
