-- ===== src/GdbStub/Control.antt =====
-- src/gdb_stub/gdb_stub.c: the packets `c`, `s`, `Z` and `z`.
use stm32_emulator.Base.{
  ℕ, zero, suc, ◌+◌, Bool, true, false, ◌&&◌, Option, none, some, [], ◌∷◌, ◌==◌, if◌then◌else◌,
}
use stm32_emulator.GdbStub.{Wire, Buffer}
use stm32_emulator.GdbStub.Text.{literal, strchr}
use stm32_emulator.GdbStub.Packet.{reply}
use stm32_emulator.GdbStub.Memory.{word_at}
use stm32_emulator.Status.{ok}
use stm32_emulator.Core.{set_reg, reg_pc}
use stm32_emulator.Debugger.{debugger_add_breakpoint, debugger_remove_breakpoint}
use stm32_emulator.Simulator.{Simulator}
use stm32_emulator.Simulator.Cycle.{simulator_step}
use mathlib.Core.Option

-- `arrived` is whether the next byte of the input has already come in.
unfoldable pub check_interrupt : Bool → Wire → Bool × Wire
check_interrupt arrived w = elim w.input [
  | [] ↦ (false, w)
  | c ∷ cs ↦ if arrived && c == 0x03 then (true, record w { input = cs }) else (false, w)
]

module _ {X : Type 0} where
  -- `if (args && *args)`: an address to go on from.
  unfoldable pub resume_at : Simulator X → Buffer → ℕ → Simulator X
  resume_at sim buf pos =
      if buf pos == 0 then sim else record sim { core = set_reg sim.core reg_pc (word_at buf pos) }

  -- The loop of `handle_continue`; `none` means that the fuel ran out. `arrived k` is asked after
  -- step `k`.
  unfoldable pub continue_loop :
      (ℕ → Bool) → ℕ → ℕ → Wire × Simulator X → Option (Wire × Simulator X)
  continue_loop arrived zero k s = none
  continue_loop arrived (suc fuel) k (w, sim) =
      let done = simulator_step sim in
      let asked = check_interrupt (arrived k) w in
      elim sim.halted [
        | true ↦ some (w, sim)
        | false ↦ elim asked.0 [
          | true ↦ some (asked.1, done.1)
          | false ↦ elim done.0 [
            | ok ↦ continue_loop arrived fuel (k + 1) (asked.1, done.1)
            | other ↦ some (asked.1, done.1)
          ]
        ]
      ]

  -- The end of `handle_continue`.
  unfoldable pub stop_running : Wire × Simulator X → Wire × Simulator X
  stop_running (w, sim) = (reply w (literal "S05"), record sim { running = false })

  unfoldable pub handle_continue :
      (ℕ → Bool) → ℕ → Wire × Simulator X → Buffer → ℕ → Option (Wire × Simulator X)
  handle_continue arrived fuel (w, sim) buf pos =
      let started = record (resume_at sim buf pos) { halted = false; running = true } in
      Option.map stop_running (continue_loop arrived fuel 0 (w, started))

  unfoldable pub handle_step : Wire × Simulator X → Buffer → ℕ → Wire × Simulator X
  handle_step (w, sim) buf pos =
      let done = simulator_step (record (resume_at sim buf pos) { halted = false }) in
      (reply w (literal "S05"), done.1)

  unfoldable pub handle_set_bp : Wire × Simulator X → Buffer → ℕ → Wire × Simulator X
  handle_set_bp (w, sim) buf pos = elim (strchr buf pos b',') [
    | none ↦ (reply w (literal "E00"), sim)
    | some p ↦
        (let r = debugger_add_breakpoint sim.debugger (word_at buf (p + 1)) in
          let after : Simulator X = record sim { debugger = r.1 } in
          elim r.0 [
            | some z ↦ (reply w (literal "OK"), after)
            | none ↦ (reply w (literal "E01"), after)
          ])
  ]

  unfoldable pub handle_remove_bp : Wire × Simulator X → Buffer → ℕ → Wire × Simulator X
  handle_remove_bp (w, sim) buf pos = elim (strchr buf pos b',') [
    | none ↦ (reply w (literal "E00"), sim)
    | some p ↦
        (let r = debugger_remove_breakpoint sim.debugger (word_at buf (p + 1)) in
          let after : Simulator X = record sim { debugger = r.1 } in
          elim r.0 [
            | some z ↦ (reply w (literal "OK"), after)
            | none ↦ (reply w (literal "E01"), after)
          ])
  ]
