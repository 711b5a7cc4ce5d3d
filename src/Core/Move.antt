-- ===== src/Core/Move.antt =====
-- src/core/core.c: the handlers on the high registers, addresses, sign extension and the stack
-- pointer's adjustment; they touch no memory.
use stm32_emulator.Base.{
  ℕ, bit_and, bit_or, ◌==◌, nonzero, if◌then◌else◌, u8, u16, add32, sub32, shl32, shr, not32,
}
use stm32_emulator.Core.{Core, reg, set_reg, mark_pc, reg_sp, reg_pc, update_flags_sub, sign_extend}
use stm32_emulator.Core.Alu.{field3, imm8}

-- `((instr >> 4) & 0x8) | (instr & 0x7)` and `(instr >> 3) & 0xF`
abbrev pub high_rd : ℕ → ℕ
high_rd instr = bit_or (bit_and (shr instr 4) 0x8) (bit_and instr 0x7)

abbrev pub high_rm : ℕ → ℕ
high_rm instr = bit_and (shr instr 3) 0xf

-- A write to a register which, on the program counter, clears bit 0 and counts as a jump.
unfoldable pub set_hireg : Core → ℕ → ℕ → Core
set_hireg core rd value =
    if rd == reg_pc
    then mark_pc (set_reg core rd (bit_and value (not32 1)))
    else set_reg core rd value

unfoldable pub exec_add_hireg : Core → ℕ → Core
exec_add_hireg core instr =
    let rd = high_rd instr in set_hireg core rd (add32 (reg core rd) (reg core (high_rm instr)))

unfoldable pub exec_cmp_hireg : Core → ℕ → Core
exec_cmp_hireg core instr =
    let a = reg core (high_rd instr) in
    let b = reg core (high_rm instr) in update_flags_sub core a b (sub32 a b)

unfoldable pub exec_mov_hireg : Core → ℕ → Core
exec_mov_hireg core instr = set_hireg core (high_rd instr) (reg core (high_rm instr))

-- `(R(PC) + 4) & ~3U`
abbrev pub pc_base : Core → ℕ
pc_base core = bit_and (add32 (reg core reg_pc) 4) (not32 3)

unfoldable pub exec_adr : Core → ℕ → Core
exec_adr core instr = set_reg core (field3 instr 8) (add32 (pc_base core) (shl32 (imm8 instr) 2))

unfoldable pub exec_add_sp_imm_rd : Core → ℕ → Core
exec_add_sp_imm_rd core instr =
    set_reg core (field3 instr 8) (add32 (reg core reg_sp) (shl32 (imm8 instr) 2))

unfoldable pub exec_sxth : Core → ℕ → Core
exec_sxth core instr =
    set_reg core (field3 instr 0) (sign_extend (u16 (reg core (field3 instr 3))) 16)

unfoldable pub exec_sxtb : Core → ℕ → Core
exec_sxtb core instr =
    set_reg core (field3 instr 0) (sign_extend (u8 (reg core (field3 instr 3))) 8)

unfoldable pub exec_uxth : Core → ℕ → Core
exec_uxth core instr = set_reg core (field3 instr 0) (bit_and (reg core (field3 instr 3)) 0xffff)

unfoldable pub exec_uxtb : Core → ℕ → Core
exec_uxtb core instr = set_reg core (field3 instr 0) (bit_and (reg core (field3 instr 3)) 0xff)

unfoldable pub exec_adjust_sp : Core → ℕ → Core
exec_adjust_sp core instr =
    let imm7 = shl32 (bit_and instr 0x7f) 2 in
    set_reg core reg_sp (
      if nonzero (bit_and instr 0x80)
      then sub32 (reg core reg_sp) imm7
      else add32 (reg core reg_sp) imm7)

unfoldable pub exec_nop : Core → ℕ → Core
exec_nop core instr = core

-- Only prints a message.
unfoldable pub exec_svc : Core → ℕ → Core
exec_svc core instr = core
