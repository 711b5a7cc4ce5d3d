-- ===== src/Simulator/Control.antt =====
-- src/simulator/simulator.c: reset, run, halt, load, and the addition of peripherals.
use stm32_emulator.Base.{
  ℕ, zero, suc, ◌+◌, Bool, true, false, not, ◌&&◌, Option, none, some, List, [], ◌∷◌, ◌++◌, leb,
  nonzero, if◌then◌else◌,
}
use mathlib.Core.Option
use stm32_emulator.Status.{Status, ok, error}
use stm32_emulator.Memory.{memory_reset, memory_load_binary}
use stm32_emulator.Nvic.{nvic_reset}
use stm32_emulator.Bus.{bus_register_region}
use stm32_emulator.Core.Step.{core_reset}
use stm32_emulator.Profiler.{profiler_reset}
use stm32_emulator.Events.{event_queue_init}
use stm32_emulator.Simulator.{Machine, Peripheral, Simulator, sim_max_peripherals, system_bus}
use stm32_emulator.Simulator.Cycle.{simulator_step}

-- The loop over `peripherals` that calls `reset`.
unfoldable pub reset_all : {M : Type 0} → List (Peripheral M) → M → M
reset_all [] m = m
reset_all (p ∷ ps) m = reset_all ps (elim p.reset [ none ↦ m | some reset ↦ reset m ])

-- `num_peripherals`
abbrev pub num_peripherals : {M : Type 0} → List (Peripheral M) → ℕ
num_peripherals [] = 0
num_peripherals (p ∷ ps) = suc (num_peripherals ps)

module _ {X : Type 0} where
  -- Up to `core_reset`: the peripherals, the interrupt controller and SRAM.
  unfoldable pub reset_devices : List (Peripheral (Machine X)) → Machine X → Machine X
  reset_devices ps m =
      let m' = reset_all ps m in record m' { nvic = nvic_reset; memory = memory_reset m'.memory }

  unfoldable pub simulator_reset : Simulator X → Simulator X
  simulator_reset sim =
      let devices = reset_devices sim.peripherals sim.machine in
      let s = core_reset (system_bus sim.bus) (sim.core, devices) in
      record sim {
        core = record s.0 { profiler = Option.map (λ p. profiler_reset) s.0.profiler };
        machine = record s.1 { events = event_queue_init; cycle = 0 };
        halted = false;
        running = false;
      }

  unfoldable pub simulator_halt : Simulator X → Simulator X
  simulator_halt sim = record sim { running = false; halted = true }

  -- The loop of `simulator_run`. `interrupted k` is `g_sim_interrupted` at the test before round `k`;
  -- `none` means that the fuel ran out. The status is that of the step that ended the loop, `ok` where
  -- the test did.
  unfoldable pub run_loop : (ℕ → Bool) → ℕ → ℕ → Simulator X → Option (Status × Simulator X)
  run_loop interrupted zero k sim = none
  run_loop interrupted (suc fuel) k sim =
      let done = simulator_step sim in
      elim (sim.running && not sim.halted && not (interrupted k)) [
        | false ↦ some (ok, sim)
        | true ↦ elim done.0 [
          | ok ↦ run_loop interrupted fuel (k + 1) done.1
          | other ↦ some (other, done.1)
        ]
      ]

  unfoldable pub simulator_run : (ℕ → Bool) → ℕ → Simulator X → Option (Status × Simulator X)
  simulator_run interrupted fuel sim =
      Option.map (λ r. (r.0, record r.1 { running = false }))
        (run_loop interrupted fuel 0 (record sim { running = true; halted = false }))

  -- `none` is a file that cannot be opened.
  unfoldable pub simulator_load : Simulator X → Option (List ℕ) → Status × Simulator X
  simulator_load sim file =
      let r = memory_load_binary sim.machine.memory file in
      let loaded : Simulator X = record sim { machine = record sim.machine { memory = r.1 } } in
      elim r.0 [ ok ↦ (ok, simulator_reset loaded) | other ↦ (other, loaded) ]

  unfoldable pub simulator_add_peripheral :
      Simulator X → Peripheral (Machine X) → ℕ → ℕ → Status × Simulator X
  simulator_add_peripheral sim periph bus_base bus_size =
      if leb sim_max_peripherals (num_peripherals sim.peripherals)
      then (error, sim)
      else let r = bus_register_region sim.bus bus_base bus_size periph.read periph.write in
        let listed = sim.peripherals ++ periph ∷ [] in
        if nonzero bus_base && nonzero bus_size
        then (elim r.0 [
          | ok ↦ (ok, record sim { bus = r.1; peripherals = listed })
          | other ↦ (other, sim)
        ])
        else (ok, record sim { peripherals = listed })
