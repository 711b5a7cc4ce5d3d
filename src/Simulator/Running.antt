-- ===== src/Simulator/Running.antt =====
-- src/simulator/simulator.c: the rounds of `simulator_run`, and when it ends.
use stm32_emulator.Base.{
  ℕ, zero, suc, ◌+◌, ◌≤◌, ◌<◌, ◌≡◌, refl, sym, ap, ◌∙◌, ◌⊎◌, inl, inr, Bool, true, false, not, ◌&&◌,
  Option, none, some, arith, Bool-cases,
}
use stm32_emulator.Status.{Status, ok}
use stm32_emulator.Simulator.{Simulator}
use stm32_emulator.Simulator.Cycle.{simulator_step}
use stm32_emulator.Simulator.Control.{run_loop, simulator_run}
use stm32_emulator.Simulator.Halting.{Continues, Stopped, step_outcome}
use mathlib.Core.Option
use mathlib.Core.Path.{subst}
use mathlib.Core.Option.{some-injective, none-ne-some}

map-some :
    {A B : Type 0} (f : A → B) (o : Option A) (b : B)
    → Option.map f o ≡ some b
    → (a : A) × (o ≡ some a) × (f a ≡ b)
map-some f none b e = absurd (none-ne-some _ e)
map-some f (some a) b e = (a, refl, some-injective _ _ e)

module _ {X : Type 0} where
  -- How a run ends: interrupted and not halted, or halted where its last step stopped.
  abbrev pub Ended : Status × Simulator X → Type 0
  Ended r = ((r.0 ≡ ok) × (r.1.halted ≡ false)) ⊎ Stopped r

  -- The state in which `simulator_run` enters its loop, and the one it leaves after it.
  abbrev pub started : Simulator X → Simulator X
  started sim = record sim { running = true; halted = false }

  abbrev pub finished : Status × Simulator X → Status × Simulator X
  finished r = (r.0, record r.1 { running = false })

module _ {X : Type 0} (interrupted : ℕ → Bool) where
  -- The rounds of a run: from the test before round `k` in the first state to the status and the
  -- state that it ends with, and how many steps it took.
  pub data Rounds : ℕ → Simulator X → ℕ → Status × Simulator X → Type 0 where
    interrupt : (k : ℕ) (sim : Simulator X) → interrupted k ≡ true → Rounds k sim 0 (ok, sim)
    last :
        (k : ℕ) (sim : Simulator X)
        → interrupted k ≡ false
        → Stopped (simulator_step sim)
        → Rounds k sim 1 (simulator_step sim)
    round :
        (k : ℕ) (sim : Simulator X) {n : ℕ} {r : Status × Simulator X}
        → interrupted k ≡ false
        → Continues (simulator_step sim)
        → Rounds (k + 1) (simulator_step sim).1 n r
        → Rounds k sim (suc n) r

  -- The state at the loop's test: it runs, and is not halted.
  abbrev Live : Simulator X → Type 0
  Live sim = (sim.running ≡ true) × (sim.halted ≡ false)

  test_holds :
      (k : ℕ) (sim : Simulator X) (b : Bool)
      → Live sim
      → interrupted k ≡ b
      → (sim.running && not sim.halted && not (interrupted k)) ≡ not b
  test_holds k sim b live e = rw (live.0, live.1, e)

  stops_here :
      (fuel k : ℕ) (sim : Simulator X)
      → Live sim
      → interrupted k ≡ true
      → run_loop interrupted (suc fuel) k sim ≡ some (ok, sim)
  unfolding run_loop
  stops_here fuel k sim live e = rw (test_holds k sim true live e, run_loop)

  stops_after :
      (fuel k : ℕ) (sim : Simulator X)
      → Live sim
      → interrupted k ≡ false
      → Stopped (simulator_step sim)
      → run_loop interrupted (suc fuel) k sim ≡ some (simulator_step sim)
  unfolding run_loop
  stops_after fuel k sim live e stop =
      let test = test_holds k sim false live e in
      elim stop.1 [ inl hit ↦ rw (test, run_loop, hit.0) | inr bad ↦ rw (test, run_loop, bad) ]

  goes_on :
      (fuel k : ℕ) (sim : Simulator X)
      → Live sim
      → interrupted k ≡ false
      → Continues (simulator_step sim)
      → run_loop interrupted (suc fuel) k sim
        ≡ run_loop interrupted fuel (k + 1) (simulator_step sim).1
  unfolding run_loop
  goes_on fuel k sim live e on = rw (test_holds k sim false live e, run_loop, on.0)

  step-Live :
      (sim : Simulator X) → Live sim → Continues (simulator_step sim) → Live (simulator_step sim).1
  step-Live sim live on = ((step_outcome sim live.1).1 ∙ live.0, on.1)

  run_loop-Rounds :
      (fuel k : ℕ) (sim : Simulator X) {n : ℕ} {r : Status × Simulator X}
      → Live sim
      → Rounds k sim n r
      → n < fuel
      → run_loop interrupted fuel k sim ≡ some r
  run_loop-Rounds zero k sim live t lt = absurd (omega arith)
  run_loop-Rounds (suc fuel) k sim live (Rounds.interrupt _ _ e) lt = stops_here fuel k sim live e
  run_loop-Rounds (suc fuel) k sim live (Rounds.last _ _ e stop) lt =
      stops_after fuel k sim live e stop
  run_loop-Rounds (suc fuel) k sim live (Rounds.round _ _ e on rest) lt =
      goes_on fuel k sim live e on
      ∙ run_loop-Rounds fuel (k + 1) (simulator_step sim).1 (step-Live sim live on) rest
          (omega arith)

  -- Before an interrupted test a run has ended.
  Rounds-end :
      (n k : ℕ) (sim : Simulator X)
      → Live sim
      → interrupted (k + n) ≡ true
      → (m : ℕ) × (r : Status × Simulator X) × Rounds k sim m r × (m ≤ n)
  Rounds-end zero k sim live e =
      let now : interrupted k ≡ true = ap interrupted (omega arith) ∙ e in
      (0, (ok, sim), Rounds.interrupt k sim now, omega arith)
  Rounds-end (suc n) k sim live e = elim (Bool-cases (interrupted k)) [
    | inl now ↦ (0, (ok, sim), Rounds.interrupt k sim now, omega arith)
    | inr later ↦ elim (step_outcome sim live.1).0 [
      | inr stop ↦ (1, simulator_step sim, Rounds.last k sim later stop, omega arith)
      | inl on ↦
          let after : interrupted (k + 1 + n) ≡ true = ap interrupted (omega arith) ∙ e in
          let (m, r, rest, le) =
            Rounds-end n (k + 1) (simulator_step sim).1 (step-Live sim live on) after in
          (suc m, r, Rounds.round k sim later on rest, omega arith)
    ]
  ]

  -- A loop that returns has gone through such rounds.
  run_loop-returns :
      (fuel k : ℕ) (sim : Simulator X) (r : Status × Simulator X)
      → Live sim
      → run_loop interrupted fuel k sim ≡ some r
      → (n : ℕ) × Rounds k sim n r × (n ≤ fuel)
  unfolding run_loop
  run_loop-returns zero k sim r live e = absurd (none-ne-some _ e)
  run_loop-returns (suc fuel) k sim r live e = elim (Bool-cases (interrupted k)) [
    | inl now ↦
        let same : (ok, sim) ≡ r = some-injective _ _ (sym (stops_here fuel k sim live now) ∙ e) in
        (0, subst (Rounds k sim 0) same (Rounds.interrupt k sim now), omega arith)
    | inr later ↦ elim (step_outcome sim live.1).0 [
      | inr stop ↦
          let same : simulator_step sim ≡ r =
            some-injective _ _ (sym (stops_after fuel k sim live later stop) ∙ e) in
          (1, subst (Rounds k sim 1) same (Rounds.last k sim later stop), omega arith)
      | inl on ↦
          let (n, rest, le) =
            run_loop-returns fuel (k + 1) (simulator_step sim).1 r (step-Live sim live on)
              (sym (goes_on fuel k sim live later on) ∙ e) in
          (suc n, Rounds.round k sim later on rest, omega arith)
    ]
  ]

  Rounds-Ended :
      (k : ℕ) (sim : Simulator X) (n : ℕ) (r : Status × Simulator X)
      → Live sim
      → Rounds k sim n r
      → Ended r
  Rounds-Ended k sim n r live (Rounds.interrupt _ _ e) = inl (refl, live.1)
  Rounds-Ended k sim n r live (Rounds.last _ _ e stop) = inr stop
  Rounds-Ended k sim n r live (Rounds.round _ _ e on rest) =
      Rounds-Ended (k + 1) (simulator_step sim).1 _ r (step-Live sim live on) rest

  -- A run ends: where the interrupt is seen at the test of round `n`, or was before, a run with fuel for more
  -- than `n` rounds returns after at most `n` steps, in the state that its rounds lead to.
  pub simulator_run-ends :
      (n fuel : ℕ) (sim : Simulator X)
      → interrupted n ≡ true
      → n < fuel
      → (m : ℕ) × (r : Status × Simulator X) × Rounds 0 (started sim) m r
        × (m ≤ n)
        × (simulator_run interrupted fuel sim ≡ some (finished r))
  unfolding simulator_run
  simulator_run-ends n fuel sim e lt =
      let (m, r, rounds, le) =
        Rounds-end n 0 (started sim) (refl, refl) (ap interrupted (omega arith) ∙ e) in
      (
        m,
        r,
        rounds,
        le,
        rw (run_loop-Rounds fuel 0 (started sim) (refl, refl) rounds (omega arith)),
      )

  -- Whenever a run returns, it has stopped running, and either it was interrupted and is not halted, or it is
  -- halted where its last step met a breakpoint or an instruction that does not exist. It went
  -- through rounds of which none but the last was interrupted, halted or stood at a breakpoint.
  pub simulator_run-Ended :
      (fuel : ℕ) (sim : Simulator X) (r : Status × Simulator X)
      → simulator_run interrupted fuel sim ≡ some r
      → (r.1.running ≡ false)
        × Ended r
        × (n : ℕ) × (done : Status × Simulator X) × Rounds 0 (started sim) n done
        × (n ≤ fuel)
        × (r ≡ finished done)
  unfolding simulator_run
  simulator_run-Ended fuel sim r e =
      let (done, loop, same) = map-some finished (run_loop interrupted fuel 0 (started sim)) r e in
      let (n, rounds, le) = run_loop-returns fuel 0 (started sim) done (refl, refl) loop in
      let end : Ended done = Rounds-Ended 0 (started sim) n done (refl, refl) rounds in
      (ap (λ s. s.1.running) (sym same), subst Ended same end, n, done, rounds, le, sym same)
