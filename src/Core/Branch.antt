-- ===== src/Core/Branch.antt =====
-- src/core/core.c: `exec_bx`, `exec_b_cond` and `exec_b`. The offset is the 32-bit pattern of the
-- signed one, and is added with wrap-around.
use stm32_emulator.Base.{ℕ, bit_and, ◌==◌, if◌then◌else◌, add32, shl32, shr, not32}
use stm32_emulator.Core.{
  Core, SystemBus, reg, set_reg, mark_pc, reg_pc, condition_passed, sign_extend,
}
use stm32_emulator.Core.Move.{high_rm}
use stm32_emulator.Core.Exceptions.{is_exc_return, exit_exception}

-- `R(PC) = R(PC) + 4 + offset; pc_written = 1;`
unfoldable pub branch_by : Core → ℕ → Core
branch_by core offset = mark_pc (set_reg core reg_pc (add32 (add32 (reg core reg_pc) 4) offset))

unfoldable pub exec_b_cond : Core → ℕ → Core
exec_b_cond core instr =
    let cond = bit_and (shr instr 8) 0xf in
    if cond == 0xf
    then core
    else if condition_passed core cond
    then branch_by core (shl32 (sign_extend (bit_and instr 0xff) 8) 1)
    else core

unfoldable pub exec_b : Core → ℕ → Core
exec_b core instr = branch_by core (shl32 (sign_extend (bit_and instr 0x7ff) 11) 1)

module _ {M : Type 0} (bus : SystemBus M) where
  unfoldable pub exec_bx : Core × M → ℕ → Core × M
  exec_bx s instr =
      let target = reg s.0 (high_rm instr) in
      let left = exit_exception bus s in
      if is_exc_return target
      then (mark_pc left.0, left.1)
      else (mark_pc (set_reg s.0 reg_pc (bit_and target (not32 1))), s.1)
