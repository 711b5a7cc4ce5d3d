-- ===== src/Tests/Machine.antt =====
-- The theorems on the whole simulator at concrete inputs.
use stm32_emulator.Base.{
  ℕ, ◌+◌, ◌%◌, ◌^◌, ◌≤◌, ◌≡◌, refl, ◌⊎◌, inr, Bool, true, false, Option, none, some, List, [], ◌∷◌,
  ◌++◌, arith, leb, ◌==◌, if◌then◌else◌, update, filled,
}
use stm32_emulator.Memory.{memory_init, sram_base}
use stm32_emulator.Core.{Core, reg_sp, reg, reg_pc, get_xpsr, reg_lr}
use stm32_emulator.Core.Step.{initial_state}
use stm32_emulator.Core.Exceptions.{push_exception_frame, store, pop_exception_frame}
use stm32_emulator.Core.Exceptions.Frame.{IsWords}
use stm32_emulator.Simulator.{Peripheral, Machine, Simulator, timer_overflow, system_bus}
use stm32_emulator.Simulator.Added.{CanAdd, Reaches, bus_access-simulator_add_peripheral}
use stm32_emulator.Memory.RoundTrip.{IsBytes}
use stm32_emulator.Status.{Status, ok, error, halted}
use stm32_emulator.Events.{event_queue_init, event_queue_schedule}
use stm32_emulator.Simulator.Board.{simulator_init, board_bus, register}
use stm32_emulator.Bus.{bus_register_region, bus_init, bus_read, bus_write}
use stm32_emulator.Simulator.Control.{
  simulator_run, simulator_reset, simulator_load, simulator_add_peripheral,
}
use stm32_emulator.Simulator.Reset.{simulator_init-IsBoard, reset_board, simulator_reset-fresh}
use stm32_emulator.Simulator.Running.{
  simulator_run-ends, finished, Ended, started, Rounds, simulator_run-Ended,
}
use stm32_emulator.Simulator.AddressMap.{sram_write_read}
use stm32_emulator.Events.Dispatch.{length}
use stm32_emulator.Simulator.Cycle.{simulator_step}
use stm32_emulator.Simulator.Flash.{with_flash, simulator_load-image}
use stm32_emulator.Simulator.Halting.{Stopped, Continues, simulator_step-halts}
use stm32_emulator.Ui.{step_loop}
use stm32_emulator.Ui.Stepping.{step_loop-add}
use stm32_emulator.Program.{batch_loop, json_write_str}
use stm32_emulator.Program.Batch.{HasReason, batch_loop-step_loop}
use stm32_emulator.Program.Report.{read_json_str, read_json_str-json_write_str}
use stm32_emulator.Simulator.StackFrame.{pop-push_exception_frame_board}

abbrev board : Simulator ℕ
board = simulator_init 0

-- A core whose stack is in SRAM.
abbrev with_stack : Core
with_stack = record {
  state = record initial_state { r = update (filled 0) reg_sp 0x20001000 };
  profiler = none;
  pc_written = false;
}

with_stack-IsWords : IsWords with_stack
unfolding initial_state
with_stack-IsWords = record { regs = λ n. ground arith; flags = omega arith }

-- A device that can only be written, and counts the writes.
abbrev counter : Peripheral (Machine ℕ)
counter = record {
  read = none;
  write = some (λ m offset value width. (ok, record m { added = m.added + 1 }));
  tick = none;
  reset = none;
}

counter-CanAdd : CanAdd board 0x50000000 0x400
unfolding simulator_init board_bus register bus_init bus_register_region
counter-CanAdd = record {
  slot = omega arith;
  region = omega arith;
  above = omega arith;
  some_size = omega arith;
  word = omega arith;
}

blank_board-IsBytes : IsBytes board.machine.memory
unfolding simulator_init memory_init
blank_board-IsBytes = record { flash_bytes = λ i. omega arith; sram_bytes = λ i. omega arith }

-- A board with a timer overflow that is due.
abbrev overflowing : Machine ℕ
overflowing = record board.machine {
  cycle = 5;
  events = (event_queue_schedule event_queue_init 0 (some timer_overflow)).1;
}

-- The board's run up to an interrupt before its fourth step.
abbrev three_rounds : Status × Simulator ℕ
three_rounds = finished (simulator_run-ends (λ k. leb 3 k) 3 4 board refl (omega arith)).1

three_rounds-returned : simulator_run (λ k. leb 3 k) 4 board ≡ some three_rounds
three_rounds-returned = (simulator_run-ends (λ k. leb 3 k) 3 4 board refl (omega arith)).4

sram_write_read_example :
    let m : Machine ℕ = board.machine in
    let offset : ℕ = 0x100 in
    let value : ℕ = 0x12345678 in
    let width : ℕ = 4 in
    let r : Status × Machine ℕ = bus_write board_bus m (sram_base + offset) value width in
    (r.0 ≡ ok)
    × (bus_read board_bus r.1 (sram_base + offset) width ≡ (value % 256 ^ width, r.1))
    × (r.1 ≡ record m { memory = r.1.memory })
    × (r.1.memory.flash ≡ m.memory.flash)
    × IsBytes r.1.memory
sram_write_read_example =
    sram_write_read board.machine 0x100 0x12345678 4 blank_board-IsBytes (inr (inr refl))
      (omega arith)

simulator_reset-fresh_example :
    let sim : Simulator ℕ = board in simulator_reset sim ≡ reset_board sim
simulator_reset-fresh_example = simulator_reset-fresh board (simulator_init-IsBoard 0)

simulator_load-image_example :
    let sim : Simulator ℕ = board in
    let file : Option (List ℕ) = some (0x00 ∷ 0x50 ∷ 0x00 ∷ 0x20 ∷ []) in
    simulator_load sim file ≡ elim file [
      | none ↦ (error, sim)
      | some bytes ↦
          if length bytes == 0 then (error, sim) else (ok, reset_board (with_flash sim bytes))
    ]
simulator_load-image_example =
    simulator_load-image board (some (0x00 ∷ 0x50 ∷ 0x00 ∷ 0x20 ∷ [])) (simulator_init-IsBoard 0)

simulator_step-halts_example :
    let sim : Simulator ℕ = board in
    ((sim.halted ≡ true) × (simulator_step sim ≡ (halted, sim)))
    ⊎ ((sim.halted ≡ false)
        × (Continues (simulator_step sim)
            ⊎ (Stopped (simulator_step sim)
                × (simulator_step (simulator_step sim).1 ≡ (halted, (simulator_step sim).1)))))
simulator_step-halts_example = simulator_step-halts board

simulator_run-ends_example :
    let interrupted : ℕ → Bool = λ k. leb 3 k in
    let n : ℕ = 3 in
    let fuel : ℕ = 4 in
    let sim : Simulator ℕ = board in
    (m : ℕ) × (r : Status × Simulator ℕ) × Rounds interrupted 0 (started sim) m r
    × (m ≤ n)
    × (simulator_run interrupted fuel sim ≡ some (finished r))
simulator_run-ends_example = simulator_run-ends (λ k. leb 3 k) 3 4 board refl (omega arith)

simulator_run-Ended_example :
    let interrupted : ℕ → Bool = λ k. leb 3 k in
    let fuel : ℕ = 4 in
    let sim : Simulator ℕ = board in
    let r : Status × Simulator ℕ = three_rounds in
    (r.1.running ≡ false)
    × Ended r
    × (n : ℕ) × (done : Status × Simulator ℕ) × Rounds interrupted 0 (started sim) n done
    × (n ≤ fuel)
    × (r ≡ finished done)
simulator_run-Ended_example =
    simulator_run-Ended (λ k. leb 3 k) 4 board three_rounds three_rounds-returned

step_loop-add_example :
    let m : ℕ = 2 in
    let n : ℕ = 3 in
    let sim : Simulator ℕ = board in step_loop n (step_loop m sim) ≡ step_loop (m + n) sim
step_loop-add_example = step_loop-add 2 3 board

batch_loop-step_loop_example :
    let n : ℕ = 3 in
    let sim : Simulator ℕ = board in
    ((batch_loop n sim).1 ≡ step_loop n sim) × HasReason (batch_loop n sim).0 (batch_loop n sim).1
unfolding simulator_init
batch_loop-step_loop_example = batch_loop-step_loop 3 board refl

read_json_str-json_write_str_example :
    let s : List ℕ = b'a' ∷ b'"' ∷ 10 ∷ 7 ∷ 31 ∷ [] in
    let rest : List ℕ = 44 ∷ [] in read_json_str (json_write_str s ++ rest) ≡ some (s, rest)
read_json_str-json_write_str_example =
    read_json_str-json_write_str (b'a' ∷ b'"' ∷ 10 ∷ 7 ∷ 31 ∷ []) (44 ∷ [])
      ((omega arith, (omega arith, (omega arith, (omega arith, (omega arith, tt))))))

pop-push_exception_frame_board_example :
    let s : Core × Machine ℕ = (with_stack, board.machine) in
    let vector_addr : ℕ = 0x40 in
    let handler : Core = record with_stack {
      state = record with_stack.state { r = update (filled 7) reg_sp 0x20000fe0 };
    } in
    let entered : Core × Machine ℕ = push_exception_frame (system_bus board_bus) s vector_addr in
    let back : Core = (pop_exception_frame (system_bus board_bus) (handler, entered.1)).0 in
    (reg back 0 ≡ reg s.0 0)
    × (reg back 1 ≡ reg s.0 1)
    × (reg back 2 ≡ reg s.0 2)
    × (reg back 3 ≡ reg s.0 3)
    × (reg back 12 ≡ reg s.0 12)
    × (reg back reg_sp ≡ reg s.0 reg_sp)
    × (reg back reg_lr ≡ reg s.0 reg_lr)
    × (reg back reg_pc ≡ reg s.0 reg_pc)
    × (get_xpsr back ≡ get_xpsr s.0)
unfolding initial_state push_exception_frame store
pop-push_exception_frame_board_example =
    pop-push_exception_frame_board ((with_stack, board.machine)) 0x40
      (record with_stack {
        state = record with_stack.state { r = update (filled 7) reg_sp 0x20000fe0 };
      })
      with_stack-IsWords blank_board-IsBytes (omega arith) (omega arith) (omega arith) refl

bus_access-simulator_add_peripheral_example :
    let sim : Simulator ℕ = board in
    let p : Peripheral (Machine ℕ) = counter in
    let base : ℕ = 0x50000000 in
    let size : ℕ = 0x400 in
    let m : Machine ℕ = board.machine in
    let addr : ℕ = 0x50000008 in
    let value : ℕ = 3 in
    let width : ℕ = 4 in
    let r : Status × Simulator ℕ = simulator_add_peripheral sim p base size in
    (r.0 ≡ ok)
    × (r.1.peripherals ≡ sim.peripherals ++ p ∷ [])
    × Reaches r.1.bus sim.bus p base size m addr value width
bus_access-simulator_add_peripheral_example =
    bus_access-simulator_add_peripheral board counter 0x50000000 0x400 board.machine 0x50000008 3 4
      counter-CanAdd
