-- ===== src/Core/Step.antt =====
-- src/core/core.c: `core_init`, `core_reset` and `core_step`. `core_get_state` is the field `state`.
use stm32_emulator.Base.{
  ℕ, bit_and, Bool, true, false, ◌&&◌, Option, none, some, ◌==◌, nonzero, if◌then◌else◌, filled,
  u16, add32, add64, shr, not32,
}
use Prim.Native.String.{String}
use stm32_emulator.Status.{Status, ok, invalid_instruction}
use stm32_emulator.Nvic.{nvic_get_pending_irq, nvic_get_systick_pending}
use stm32_emulator.Profiler.{profiler_count_instr}
use stm32_emulator.Core.{Core, CoreState, SystemBus, reg, set_reg, reg_sp, reg_pc}
use stm32_emulator.Core.Exceptions.{with_profiler, enter_exception, enter_core_exception}
use stm32_emulator.Core.Wide.{is_bl, is_movw, is_movt, is_data_processing, execute_32bit}
use stm32_emulator.Core.Decode.{run_handler, find_entry, instr_table}

-- The state after `memset` and the two assignments.
unfoldable pub initial_state : CoreState
initial_state = record {
  r = filled 0;
  xpsr = 0;
  thumb_mode = true;
  interruptible = true;
  current_irq = 0;
  cycles = 0;
}

unfoldable pub core_init : Core → Core
core_init core = record core { state = initial_state }

-- The table `dp32` and the search in it.
unfoldable pub dp32_slot : ℕ → Option (ℕ × String)
dp32_slot op =
    if op == 0x0
    then some (73, "AND.W")
    else if op == 0x1
    then some (74, "BIC.W")
    else if op == 0x2
    then some (75, "ORR.W")
    else if op == 0x3
    then some (76, "ORN.W")
    else if op == 0x4
    then some (77, "EOR.W")
    else if op == 0x8
    then some (78, "ADD.W")
    else if op == 0x9
    then some (79, "ADC.W")
    else if op == 0xa
    then some (80, "SBC.W")
    else if op == 0xd
    then some (81, "SUB.W")
    else if op == 0xe
    then some (82, "RSB.W")
    else none

-- `prof_idx` and `prof_name` of a 32-bit instruction.
unfoldable pub wide_slot : ℕ → ℕ → Option (ℕ × String)
wide_slot instr hw2 =
    if is_bl instr hw2
    then some (70, "BL")
    else if is_movw instr hw2
    then some (71, "MOVW")
    else if is_movt instr hw2
    then some (72, "MOVT")
    else if bit_and instr 0xff00 == 0xf800
    then some (83, "LDR/STR.W")
    else if bit_and instr 0xff00 == 0xf900
    then some (84, "LDRS.W")
    else if bit_and instr 0xfff0 == 0xfba0
    then some (85, "UMULL")
    else if bit_and instr 0xfff0 == 0xfb80
    then some (86, "SMULL")
    else if is_data_processing instr hw2
    then dp32_slot (bit_and (shr instr 5) 0xf)
    else none

-- The call of `profiler_count_instr`, if there is a name to count.
abbrev pub count_instr : Core → Option (ℕ × String) → Core
count_instr core slot = elim slot [
  | none ↦ core
  | some (idx, name) ↦ with_profiler core (λ p. profiler_count_instr p idx name)
]

-- `if (!pc_written) R(PC) += size;`
unfoldable pub advance : Core → ℕ → Core
advance core size =
    if core.pc_written then core else set_reg core reg_pc (add32 (reg core reg_pc) size)

-- `CYCLES++`
abbrev pub count_cycle : Core → Core
count_cycle core = record core { state = record core.state { cycles = add64 core.state.cycles 1 } }

-- The test for a 32-bit instruction.
unfoldable pub is_wide : ℕ → Bool
is_wide instr = bit_and instr 0xe000 == 0xe000 && nonzero (bit_and instr 0x1800)

module _ {M : Type 0} (bus : SystemBus M) where
  unfoldable pub core_reset : Core × M → Core × M
  core_reset s =
      let sp = bus.read s.1 0x00000000 4 in
      let pc = bus.read sp.1 0x00000004 4 in
      let core : Core = record s.0 { state = initial_state } in
      (set_reg (set_reg core reg_sp sp.0) reg_pc (bit_and pc.0 (not32 1)), pc.1)

  unfoldable pub step_wide : Core × M → ℕ → Status × (Core × M)
  step_wide s instr =
      let second = bus.read s.1 (add32 (reg s.0 reg_pc) 2) 2 in
      let hw2 = u16 second.0 in
      let done = execute_32bit bus (s.0, second.1) instr hw2 in
      elim done.0 [
        | ok ↦ (ok, (advance (count_instr done.1.0 (wide_slot instr hw2)) 4, done.1.1))
        | other ↦ (other, done.1)
      ]

  unfoldable pub step_narrow : Core × M → ℕ → Status × (Core × M)
  step_narrow s instr = elim (find_entry (instr_table bus) instr 0) [
    | none ↦ (invalid_instruction, s)
    | some (index, e) ↦
        (let done = run_handler e.handler s instr in
          let core : Core = count_instr done.1.0 (some (index, e.name)) in
          elim done.0 [ ok ↦ (ok, (advance core 2, done.1.1)) | other ↦ (other, (core, done.1.1)) ])
  ]

  -- The end of `core_step`: a pending interrupt is entered, or the system timer's exception.
  unfoldable pub take_interrupt : Core × M → Core × M
  take_interrupt s =
      let nvic = bus.nvic s.1 in
      if s.0.state.interruptible
      then elim (nvic_get_pending_irq nvic) [
        | some irq ↦ enter_exception bus s irq
        | none ↦ if nvic_get_systick_pending nvic then enter_core_exception bus s 15 else s
      ]
      else s

  unfoldable pub core_step : Core × M → Status × (Core × M)
  core_step s =
      let fetched = bus.read s.1 (reg s.0 reg_pc) 2 in
      let instr = u16 fetched.0 in
      let begun : Core × M = (record s.0 { pc_written = false }, fetched.1) in
      let done = if is_wide instr then step_wide begun instr else step_narrow begun instr in
      elim done.0 [
        | ok ↦ (ok, take_interrupt (count_cycle done.1.0, done.1.1))
        | other ↦ (other, done.1)
      ]
