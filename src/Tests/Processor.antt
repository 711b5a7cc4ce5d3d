-- ===== src/Tests/Processor.antt =====
-- The theorems on the processor at concrete inputs.
use stm32_emulator.Base.{
  ℕ, ◌+◌, ◌*◌, ◌/◌, ◌%◌, ◌^◌, ◌<◌, ◌≡◌, Bool, false, ◌&&◌, ◌||◌, none, arith, ltb, leb, ◌==◌,
  if◌then◌else◌, update, filled, add32, sub32,
}
use stm32_emulator.Core.{Core, reg, reg_pc, update_flags_sub, condition_passed}
use stm32_emulator.Core.Step.{initial_state}
use stm32_emulator.Core.Flags.{negative, HasFlags}
use stm32_emulator.Core.Conditions.{compared, condition_passed-compared}
use stm32_emulator.Core.Alu.{exec_add_reg, field3}
use stm32_emulator.Core.Branch.{exec_b_cond}
use stm32_emulator.Core.Arithmetic.{biased, exec_add_reg-HasFlags, exec_b_cond-target}

-- A core after `memset`, without a profiler.
abbrev blank : Core
blank = record { state = initial_state; profiler = none; pc_written = false }

blank-small : (n : ℕ) → reg blank n < 2 ^ 32
unfolding initial_state
blank-small n = omega arith

-- Two numbers whose sum overflows.
abbrev loaded : Core
loaded = record blank {
  state = record initial_state { r = update (update (filled 0) 1 0x7fffffff) 2 1 };
}

loaded-small : (n : ℕ) → reg loaded n < 2 ^ 32
unfolding initial_state
loaded-small n = ground arith

condition_passed-compared_example :
    let core : Core = blank in
    let a : ℕ = 5 in
    let b : ℕ = 0xffffffff in
    let cond : ℕ = 11 in
    condition_passed (update_flags_sub core a b (sub32 a b)) cond ≡ compared cond a b
condition_passed-compared_example =
    condition_passed-compared blank 5 0xffffffff 11 (omega arith) (omega arith)

exec_add_reg-HasFlags_example :
    let core : Core = loaded in
    let instr : ℕ = 0x1888 in
    let i : ℕ = 0 in
    let a : ℕ = reg core (field3 instr 3) in
    let b : ℕ = reg core (field3 instr 6) in
    let after : Core = exec_add_reg core instr in
    HasFlags after
      (negative (add32 a b))
      (add32 a b == 0)
      (leb (2 ^ 32) (a + b))
      (ltb (biased a + biased b) (2 ^ 31) || leb (2 ^ 31 + 2 ^ 32) (biased a + biased b))
    × (reg after i ≡ (if field3 instr 0 == i then (a + b) % 2 ^ 32 else reg core i))
exec_add_reg-HasFlags_example = exec_add_reg-HasFlags loaded 0x1888 0 loaded-small

exec_b_cond-target_example :
    let core : Core = blank in
    let instr : ℕ = 0xd1fe in
    let j : ℕ = 3 in
    let imm8 : ℕ = instr % 256 in
    let taken : Bool = condition_passed core (instr / 256 % 16) in
    let after : Core = exec_b_cond core instr in
    ((reg after reg_pc + (if taken && leb 128 imm8 then 512 else 0)) % 2 ^ 32
      ≡ (reg core reg_pc + (if taken then 4 + 2 * imm8 else 0)) % 2 ^ 32)
    × (after.pc_written ≡ (core.pc_written || taken))
    × (reg after j ≡ reg core j)
exec_b_cond-target_example = exec_b_cond-target blank 0xd1fe 3 (blank-small reg_pc) (omega arith)
