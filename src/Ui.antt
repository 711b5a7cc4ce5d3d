-- ===== src/Ui.antt =====
-- src/ui/ui.c: the command line. What it prints is left out; a line is the string that `fgets` returned, a
-- file the answer of `files` to its path, and `none` as a result means that a run ran out of fuel.
pub mod Parse
pub mod Stepping
use stm32_emulator.Base.{
  ℕ, zero, suc, ◌+◌, ◌-◌, Bool, true, false, Option, none, some, List, [], ◌∷◌, map, ltb, ◌==◌,
  if◌then◌else◌, add32,
}
use stm32_emulator.GdbStub.Text.{literal, equals, skip_spaces}
use stm32_emulator.Status.{ok}
use stm32_emulator.Bus.{Bus, bus_read}
use stm32_emulator.Debugger.{debugger_add_breakpoint, debugger_remove_breakpoint}
use stm32_emulator.Peripherals.Uart.{uart_incoming_char}
use stm32_emulator.Simulator.{Simulator}
use stm32_emulator.Simulator.Cycle.{simulator_step}
use stm32_emulator.Simulator.Control.{
  simulator_reset, simulator_halt, simulator_run, simulator_load,
}
use stm32_emulator.Ui.Parse.{parse_uint32, take_word, drop_word, strip_newline}
use Prim.Native.String.{String}
use mathlib.Core.Option

-- A row of the dump: `n` reads of a byte from `addr` on.
unfoldable pub read_row : {M : Type 0} → Bus M → ℕ → ℕ → M → M
read_row bus zero addr m = m
read_row bus (suc n) addr m = read_row bus n (add32 addr 1) (bus_read bus m addr 1).1

-- The dump reads each row twice; a round for each byte is enough.
unfoldable pub dump_rows : {M : Type 0} → Bus M → ℕ → ℕ → ℕ → M → M
dump_rows bus zero addr count m = m
dump_rows bus (suc fuel) addr count m =
    let n = if ltb count 16 then count else 16 in
    let rest =
      dump_rows bus fuel (add32 addr 16) (count - 16)
        (read_row bus n addr (read_row bus n addr m)) in
    if count == 0 then m else rest

-- The count of `cmd_mem`, behind the address.
unfoldable pub mem_count : List ℕ → ℕ
mem_count args =
    let p = skip_spaces (drop_word args) in
    let count : ℕ = elim p [
      | [] ↦ 64
      | c ∷ cs ↦ elim (parse_uint32 (c ∷ cs)) [ none ↦ 64 | some n ↦ n ]
    ] in
    if ltb 1024 count then 1024 else count

-- What a command does: the flag `quit_flag` and the simulator.
abbrev pub Effect : Type 0 → Type 0
Effect X = Option (Bool × Simulator X)

module _ {X : Type 0} where
  -- The loop of `cmd_step`.
  unfoldable pub step_loop : ℕ → Simulator X → Simulator X
  step_loop zero sim = sim
  step_loop (suc n) sim =
      let done = simulator_step sim in elim done.0 [ ok ↦ step_loop n done.1 | other ↦ done.1 ]

  unfoldable pub cmd_step : Simulator X → List ℕ → Simulator X
  cmd_step sim args = elim args [
    | [] ↦ step_loop 1 sim
    | c ∷ cs ↦ elim (parse_uint32 (c ∷ cs)) [ none ↦ step_loop 1 sim | some n ↦ step_loop n sim ]
  ]

  unfoldable pub cmd_load : (List ℕ → Option (List ℕ)) → Simulator X → List ℕ → Simulator X
  cmd_load files sim args = elim args [
    | [] ↦ sim
    | c ∷ cs ↦ (simulator_load sim (files (skip_spaces (c ∷ cs)))).1
  ]

  unfoldable pub cmd_mem : Simulator X → List ℕ → Simulator X
  cmd_mem sim args = elim (parse_uint32 args) [
    | none ↦ sim
    | some addr ↦
        (let count = mem_count args in
          record sim { machine = dump_rows sim.bus count addr count sim.machine })
  ]

  unfoldable pub cmd_break : Simulator X → List ℕ → Simulator X
  cmd_break sim args = elim (parse_uint32 args) [
    | none ↦ sim
    | some addr ↦ record sim { debugger = (debugger_add_breakpoint sim.debugger addr).1 }
  ]

  unfoldable pub cmd_del_break : Simulator X → List ℕ → Simulator X
  cmd_del_break sim args = elim (parse_uint32 args) [
    | none ↦ sim
    | some addr ↦ record sim { debugger = (debugger_remove_breakpoint sim.debugger addr).1 }
  ]

  unfoldable pub cmd_uart_send : Simulator X → List ℕ → Simulator X
  cmd_uart_send sim args = elim (skip_spaces args) [
    | [] ↦ sim
    | c ∷ cs ↦
        (let r = uart_incoming_char sim.machine.uart sim.machine.nvic c in
          record sim { machine = record sim.machine { uart = r.0; nvic = r.1 } })
  ]

  unfoldable pub cmd_run : (ℕ → Bool) → ℕ → Simulator X → Option (Simulator X)
  cmd_run interrupted fuel sim = Option.map (λ r. r.1) (simulator_run interrupted fuel sim)

  abbrev pub goes_on : Simulator X → Effect X
  goes_on sim = some (false, sim)

  -- The table `commands`, for a command's word, its arguments and the simulator.
  unfoldable pub commands :
      (List ℕ → Option (List ℕ))
      → (ℕ → Bool)
      → ℕ
      → List (String × (Simulator X → List ℕ → Effect X))
  commands files interrupted fuel =
      ("help", λ sim args. goes_on sim)
      ∷ ("load", λ sim args. goes_on (cmd_load files sim args))
      ∷ ("run", λ sim args. Option.map (λ s. (false, s)) (cmd_run interrupted fuel sim))
      ∷ ("stop", λ sim args. goes_on (simulator_halt sim))
      ∷ ("step", λ sim args. goes_on (cmd_step sim args))
      ∷ ("reset", λ sim args. goes_on (simulator_reset sim))
      ∷ ("reg", λ sim args. goes_on sim)
      ∷ ("mem", λ sim args. goes_on (cmd_mem sim args))
      ∷ ("break", λ sim args. goes_on (cmd_break sim args))
      ∷ ("delete", λ sim args. goes_on (cmd_del_break sim args))
      ∷ ("uart", λ sim args. goes_on (cmd_uart_send sim args))
      ∷ ("diagram", λ sim args. goes_on sim)
      ∷ ("diagram-save", λ sim args. goes_on sim)
      ∷ ("profile", λ sim args. goes_on sim)
      ∷ ("quit", λ sim args. some (true, sim))
      ∷ []

  -- The loop over the table.
  unfoldable pub find_command :
      List (String × (Simulator X → List ℕ → Effect X)) → List ℕ → Simulator X → List ℕ → Effect X
  find_command [] cmd sim args = goes_on sim
  find_command ((name, handler) ∷ rest) cmd sim args =
      if equals cmd (literal name) then handler sim args else find_command rest cmd sim args

  module _ (files : List ℕ → Option (List ℕ)) (interrupted : ℕ → ℕ → Bool) (fuel : ℕ) where
    -- A round of the loop of `ui_run`; `interrupted n k` is the user's interrupt during line `n`.
    unfoldable pub run_line : ℕ → List ℕ → Simulator X → Effect X
    run_line n line sim = elim (strip_newline line) [
      | [] ↦ goes_on sim
      | c ∷ cs ↦
          (let cmd = skip_spaces (c ∷ cs) in
            find_command (commands files (interrupted n) fuel) (take_word cmd) sim
              (skip_spaces (drop_word cmd)))
    ]

    unfoldable pub ui_run : List (List ℕ) → ℕ → Simulator X → Option (Simulator X)
    ui_run [] n sim = some sim
    ui_run (line ∷ lines) n sim = elim (run_line n line sim) [
      | none ↦ none
      | some (true, sim') ↦ some sim'
      | some (false, sim') ↦ ui_run lines (n + 1) sim'
    ]
