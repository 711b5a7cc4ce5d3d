-- ===== src/Core/LoadStore.antt =====
-- src/core/core.c: the 16-bit loads and stores.
use stm32_emulator.Base.{ℕ, bit_and, u8, u16, add32, shl32}
use stm32_emulator.Core.{Core, SystemBus, reg, set_reg, reg_sp, sign_extend}
use stm32_emulator.Core.Alu.{field3, imm5, imm8}
use stm32_emulator.Core.Move.{pc_base}
use stm32_emulator.Core.Exceptions.{load, store}

-- The address of a register offset, of an immediate offset shifted by `k`, and of a stack slot.
abbrev pub reg_offset : Core → ℕ → ℕ
reg_offset core instr = add32 (reg core (field3 instr 3)) (reg core (field3 instr 6))

abbrev pub imm_offset : Core → ℕ → ℕ → ℕ
imm_offset core instr k = add32 (reg core (field3 instr 3)) (shl32 (imm5 instr) k)

abbrev pub sp_offset : Core → ℕ → ℕ
sp_offset core instr = add32 (reg core reg_sp) (shl32 (imm8 instr) 2)

module _ {M : Type 0} (bus : SystemBus M) where
  unfoldable pub exec_ldr_pc : Core × M → ℕ → Core × M
  exec_ldr_pc s instr = load bus s (field3 instr 8) (add32 (pc_base s.0) (shl32 (imm8 instr) 2)) 4

  unfoldable pub exec_str_reg : Core × M → ℕ → Core × M
  exec_str_reg s instr = store bus s (reg_offset s.0 instr) (reg s.0 (field3 instr 0)) 4

  unfoldable pub exec_strb_reg : Core × M → ℕ → Core × M
  exec_strb_reg s instr =
      store bus s (reg_offset s.0 instr) (bit_and (reg s.0 (field3 instr 0)) 0xff) 1

  unfoldable pub exec_ldr_reg : Core × M → ℕ → Core × M
  exec_ldr_reg s instr = load bus s (field3 instr 0) (reg_offset s.0 instr) 4

  unfoldable pub exec_ldrb_reg : Core × M → ℕ → Core × M
  exec_ldrb_reg s instr = load bus s (field3 instr 0) (reg_offset s.0 instr) 1

  unfoldable pub exec_strh_reg : Core × M → ℕ → Core × M
  exec_strh_reg s instr =
      store bus s (reg_offset s.0 instr) (bit_and (reg s.0 (field3 instr 0)) 0xffff) 2

  unfoldable pub exec_ldrh_reg : Core × M → ℕ → Core × M
  exec_ldrh_reg s instr = load bus s (field3 instr 0) (reg_offset s.0 instr) 2

  unfoldable pub exec_ldrsb_reg : Core × M → ℕ → Core × M
  exec_ldrsb_reg s instr =
      let got = bus.read s.1 (reg_offset s.0 instr) 1 in
      (set_reg s.0 (field3 instr 0) (sign_extend (u8 got.0) 8), got.1)

  unfoldable pub exec_ldrsh_reg : Core × M → ℕ → Core × M
  exec_ldrsh_reg s instr =
      let got = bus.read s.1 (reg_offset s.0 instr) 2 in
      (set_reg s.0 (field3 instr 0) (sign_extend (u16 got.0) 16), got.1)

  unfoldable pub exec_str_imm : Core × M → ℕ → Core × M
  exec_str_imm s instr = store bus s (imm_offset s.0 instr 2) (reg s.0 (field3 instr 0)) 4

  unfoldable pub exec_ldr_imm : Core × M → ℕ → Core × M
  exec_ldr_imm s instr = load bus s (field3 instr 0) (imm_offset s.0 instr 2) 4

  unfoldable pub exec_strb_imm : Core × M → ℕ → Core × M
  exec_strb_imm s instr =
      store bus s (imm_offset s.0 instr 0) (bit_and (reg s.0 (field3 instr 0)) 0xff) 1

  unfoldable pub exec_ldrb_imm : Core × M → ℕ → Core × M
  exec_ldrb_imm s instr = load bus s (field3 instr 0) (imm_offset s.0 instr 0) 1

  unfoldable pub exec_strh_imm : Core × M → ℕ → Core × M
  exec_strh_imm s instr =
      store bus s (imm_offset s.0 instr 1) (bit_and (reg s.0 (field3 instr 0)) 0xffff) 2

  unfoldable pub exec_ldrh_imm : Core × M → ℕ → Core × M
  exec_ldrh_imm s instr = load bus s (field3 instr 0) (imm_offset s.0 instr 1) 2

  unfoldable pub exec_str_sp : Core × M → ℕ → Core × M
  exec_str_sp s instr = store bus s (sp_offset s.0 instr) (reg s.0 (field3 instr 8)) 4

  unfoldable pub exec_ldr_sp : Core × M → ℕ → Core × M
  exec_ldr_sp s instr = load bus s (field3 instr 8) (sp_offset s.0 instr) 4
