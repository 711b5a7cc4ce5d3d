-- ===== src/Core/Decode.antt =====
-- src/core/core.c: `instr_table`, in its order, and the search in it.
use stm32_emulator.Base.{
  ℕ, ◌+◌, bit_and, Bool, Option, none, some, List, [], ◌∷◌, ◌==◌, if◌then◌else◌,
}
use Prim.Native.String.{String}
use stm32_emulator.Status.{Status, ok}
use stm32_emulator.Core.{Core, SystemBus}
use stm32_emulator.Core.Alu.{
  exec_lsl_imm, exec_lsr_imm, exec_asr_imm, exec_add_reg, exec_sub_reg, exec_add_imm3,
  exec_sub_imm3, exec_mov_imm, exec_cmp_imm, exec_add_imm8, exec_sub_imm8, exec_and, exec_eor,
  exec_lsl_reg, exec_lsr_reg, exec_asr_reg, exec_adc, exec_sbc, exec_ror, exec_tst, exec_neg,
  exec_cmp_reg, exec_cmn, exec_orr, exec_mul, exec_bic, exec_mvn,
}
use stm32_emulator.Core.Move.{
  exec_add_hireg, exec_cmp_hireg, exec_mov_hireg, exec_adr, exec_add_sp_imm_rd, exec_sxth,
  exec_sxtb, exec_uxth, exec_uxtb, exec_adjust_sp, exec_nop, exec_svc,
}
use stm32_emulator.Core.LoadStore.{
  exec_ldr_imm, exec_ldr_pc, exec_ldr_reg, exec_ldr_sp, exec_ldrb_imm, exec_ldrb_reg, exec_ldrh_imm,
  exec_ldrh_reg, exec_ldrsb_reg, exec_ldrsh_reg, exec_str_imm, exec_str_reg, exec_str_sp,
  exec_strb_imm, exec_strb_reg, exec_strh_imm, exec_strh_reg,
}
use stm32_emulator.Core.Stack.{exec_push, exec_pop}
use stm32_emulator.Core.Branch.{exec_bx, exec_b_cond, exec_b}

-- A handler on the core alone, or one that uses the bus.
pub data Handler (M : Type 0) : Type 0 where
  on_core : (Core → ℕ → Core) → Handler M
  on_bus : (Core × M → ℕ → Core × M) → Handler M

-- `InstrEntry`
pub record InstrEntry (M : Type 0) : Type 0 where
  pub mask : ℕ
  pub pattern : ℕ
  pub handler : Handler M
  pub name : String

-- The call `entry->handler(core, instr)`; every handler returns STATUS_OK.
unfoldable pub run_handler : {M : Type 0} → Handler M → Core × M → ℕ → Status × (Core × M)
run_handler (on_core f) s instr = (ok, (f s.0 instr, s.1))
run_handler (on_bus f) s instr = (ok, f s instr)

unfoldable pub matches : {M : Type 0} → InstrEntry M → ℕ → Bool
matches e instr = bit_and instr e.mask == e.pattern

-- The search of `core_step`, with the index of the entry it stops at.
unfoldable pub find_entry : {M : Type 0} → List (InstrEntry M) → ℕ → ℕ → Option (ℕ × InstrEntry M)
find_entry [] instr index = none
find_entry (e ∷ es) instr index =
    if matches e instr then some (index, e) else find_entry es instr (index + 1)

abbrev entry : {M : Type 0} → ℕ → ℕ → Handler M → String → InstrEntry M
entry mask pattern handler name = record {
  mask = mask;
  pattern = pattern;
  handler = handler;
  name = name;
}

unfoldable pub instr_table : {M : Type 0} → SystemBus M → List (InstrEntry M)
instr_table bus =
    entry 0xffff 0xbf00 (on_core exec_nop) "NOP"
    ∷ entry 0xffc0 0x4000 (on_core exec_and) "AND"
    ∷ entry 0xffc0 0x4040 (on_core exec_eor) "EOR"
    ∷ entry 0xffc0 0x4080 (on_core exec_lsl_reg) "LSL"
    ∷ entry 0xffc0 0x40c0 (on_core exec_lsr_reg) "LSR"
    ∷ entry 0xffc0 0x4100 (on_core exec_asr_reg) "ASR"
    ∷ entry 0xffc0 0x4140 (on_core exec_adc) "ADC"
    ∷ entry 0xffc0 0x4180 (on_core exec_sbc) "SBC"
    ∷ entry 0xffc0 0x41c0 (on_core exec_ror) "ROR"
    ∷ entry 0xffc0 0x4200 (on_core exec_tst) "TST"
    ∷ entry 0xffc0 0x4240 (on_core exec_neg) "NEG"
    ∷ entry 0xffc0 0x4280 (on_core exec_cmp_reg) "CMP"
    ∷ entry 0xffc0 0x42c0 (on_core exec_cmn) "CMN"
    ∷ entry 0xffc0 0x4300 (on_core exec_orr) "ORR"
    ∷ entry 0xffc0 0x4340 (on_core exec_mul) "MUL"
    ∷ entry 0xffc0 0x4380 (on_core exec_bic) "BIC"
    ∷ entry 0xffc0 0x43c0 (on_core exec_mvn) "MVN"
    ∷ entry 0xff80 0x4700 (on_bus (exec_bx bus)) "BX"
    ∷ entry 0xff00 0x4400 (on_core exec_add_hireg) "ADD hi"
    ∷ entry 0xff00 0x4500 (on_core exec_cmp_hireg) "CMP hi"
    ∷ entry 0xff00 0x4600 (on_core exec_mov_hireg) "MOV hi"
    ∷ entry 0xff00 0xdf00 (on_core exec_svc) "SVC"
    ∷ entry 0xff00 0xb000 (on_core exec_adjust_sp) "ADD/SUB SP"
    ∷ entry 0xffc0 0xb200 (on_core exec_sxth) "SXTH"
    ∷ entry 0xffc0 0xb240 (on_core exec_sxtb) "SXTB"
    ∷ entry 0xffc0 0xb280 (on_core exec_uxth) "UXTH"
    ∷ entry 0xffc0 0xb2c0 (on_core exec_uxtb) "UXTB"
    ∷ entry 0xfe00 0x1800 (on_core exec_add_reg) "ADD reg"
    ∷ entry 0xfe00 0x1a00 (on_core exec_sub_reg) "SUB reg"
    ∷ entry 0xfe00 0x1c00 (on_core exec_add_imm3) "ADD imm3"
    ∷ entry 0xfe00 0x1e00 (on_core exec_sub_imm3) "SUB imm3"
    ∷ entry 0xfe00 0x5000 (on_bus (exec_str_reg bus)) "STR reg"
    ∷ entry 0xfe00 0x5200 (on_bus (exec_strh_reg bus)) "STRH reg"
    ∷ entry 0xfe00 0x5400 (on_bus (exec_strb_reg bus)) "STRB reg"
    ∷ entry 0xfe00 0x5600 (on_bus (exec_ldrsb_reg bus)) "LDRSB reg"
    ∷ entry 0xfe00 0x5800 (on_bus (exec_ldr_reg bus)) "LDR reg"
    ∷ entry 0xfe00 0x5a00 (on_bus (exec_ldrh_reg bus)) "LDRH reg"
    ∷ entry 0xfe00 0x5c00 (on_bus (exec_ldrb_reg bus)) "LDRB reg"
    ∷ entry 0xfe00 0x5e00 (on_bus (exec_ldrsh_reg bus)) "LDRSH reg"
    ∷ entry 0xfe00 0xb400 (on_bus (exec_push bus)) "PUSH"
    ∷ entry 0xfe00 0xbc00 (on_bus (exec_pop bus)) "POP"
    ∷ entry 0xf800 0x0000 (on_core exec_lsl_imm) "LSL imm"
    ∷ entry 0xf800 0x0800 (on_core exec_lsr_imm) "LSR imm"
    ∷ entry 0xf800 0x1000 (on_core exec_asr_imm) "ASR imm"
    ∷ entry 0xf800 0x2000 (on_core exec_mov_imm) "MOV imm"
    ∷ entry 0xf800 0x2800 (on_core exec_cmp_imm) "CMP imm"
    ∷ entry 0xf800 0x3000 (on_core exec_add_imm8) "ADD imm8"
    ∷ entry 0xf800 0x3800 (on_core exec_sub_imm8) "SUB imm8"
    ∷ entry 0xf800 0x4800 (on_bus (exec_ldr_pc bus)) "LDR PC"
    ∷ entry 0xf800 0x6000 (on_bus (exec_str_imm bus)) "STR imm"
    ∷ entry 0xf800 0x6800 (on_bus (exec_ldr_imm bus)) "LDR imm"
    ∷ entry 0xf800 0x7000 (on_bus (exec_strb_imm bus)) "STRB imm"
    ∷ entry 0xf800 0x7800 (on_bus (exec_ldrb_imm bus)) "LDRB imm"
    ∷ entry 0xf800 0x8000 (on_bus (exec_strh_imm bus)) "STRH imm"
    ∷ entry 0xf800 0x8800 (on_bus (exec_ldrh_imm bus)) "LDRH imm"
    ∷ entry 0xf800 0x9000 (on_bus (exec_str_sp bus)) "STR SP"
    ∷ entry 0xf800 0x9800 (on_bus (exec_ldr_sp bus)) "LDR SP"
    ∷ entry 0xf800 0xa000 (on_core exec_adr) "ADR"
    ∷ entry 0xf800 0xa800 (on_core exec_add_sp_imm_rd) "ADD SP imm"
    ∷ entry 0xf000 0xd000 (on_core exec_b_cond) "B<cond>"
    ∷ entry 0xf800 0xe000 (on_core exec_b) "B"
    ∷ []
