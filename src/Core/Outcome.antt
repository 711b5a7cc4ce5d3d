-- ===== src/Core/Outcome.antt =====
-- src/core/core.c: the two statuses that `core_step` returns.
use stm32_emulator.Base.{
  ℕ, ◌≡◌, refl, ◌⊎◌, inl, inr, Bool, true, false, Option, none, some, arith, if◌then◌else◌,
}
use stm32_emulator.Status.{Status, ok, invalid_instruction}
use stm32_emulator.Core.{Core, SystemBus}
use stm32_emulator.Core.Step.{core_step, step_wide, step_narrow}
use stm32_emulator.Core.Wide.{
  execute_memory, execute_32bit, is_bl, is_movw, is_movt, is_data_processing, branch_link, movw,
  movt,
}
use stm32_emulator.Core.Wide.DataProcessing.{data_processing}
use stm32_emulator.Core.Decode.{
  Handler, on_core, on_bus, InstrEntry, run_handler, find_entry, instr_table,
}

-- The two ways an instruction ends.
pub record Fine {A : Type 0} (r : Status × A) : Type 0 where
  pub ends : (r.0 ≡ ok) ⊎ (r.0 ≡ invalid_instruction)

succeeds : {A : Type 0} {a : A} → Fine (ok, a)
succeeds = record { ends = inl refl }

if_Fine : {A : Type 0} (b : Bool) (x y : Status × A) → Fine x → Fine y → Fine (if b then x else y)
if_Fine true x y fx fy = fx
if_Fine false x y fx fy = fy

passed_on :
    {A : Type 0} (s : Status) (a b : A)
    → (s ≡ ok) ⊎ (s ≡ invalid_instruction)
    → Fine {A = A} (elim s [ ok ↦ (ok, a) | other ↦ (other, b) ])
passed_on s a b (inl e) = rw e succeeds
passed_on s a b (inr e) = rw e (record { ends = inr refl })

module _ {M : Type 0} (bus : SystemBus M) where
  execute_memory-status : (s : Core × M) (hw1 hw2 : ℕ) → Fine (execute_memory bus s hw1 hw2)
  unfolding execute_memory
  execute_memory-status s hw1 hw2 = record { ends = ground arith }

  execute_dp-status :
      (s : Core × M) (hw1 hw2 : ℕ) (o : Option Core)
      → Fine {A = Core × M}
          (elim o [ some core ↦ (ok, (core, s.1)) | none ↦ execute_memory bus s hw1 hw2 ])
  execute_dp-status s hw1 hw2 none = execute_memory-status s hw1 hw2
  execute_dp-status s hw1 hw2 (some core) = succeeds

  execute_32bit-status : (s : Core × M) (hw1 hw2 : ℕ) → Fine (execute_32bit bus s hw1 hw2)
  unfolding execute_32bit
  execute_32bit-status s hw1 hw2 =
      if_Fine (is_bl hw1 hw2) _ _ (succeeds {a = (branch_link s.0 hw1 hw2, s.1)}) (
        if_Fine (is_movw hw1 hw2) _ _ (succeeds {a = (movw s.0 hw1 hw2, s.1)}) (
          if_Fine (is_movt hw1 hw2) _ _ (succeeds {a = (movt s.0 hw1 hw2, s.1)}) (
            if_Fine (is_data_processing hw1 hw2) _ _
              (execute_dp-status s hw1 hw2 (data_processing s.0 hw1 hw2))
              (execute_memory-status s hw1 hw2))))

  step_wide-status : (s : Core × M) (instr : ℕ) → Fine (step_wide bus s instr)
  unfolding step_wide
  step_wide-status s instr = passed_on _ _ _ (execute_32bit-status _ _ _).ends

  handler-status : (s : Core × M) (instr : ℕ) (h : Handler M) → Fine (run_handler h s instr)
  unfolding run_handler
  handler-status s instr (on_core f) = succeeds
  handler-status s instr (on_bus f) = succeeds

  narrow-status :
      (s : Core × M) (instr : ℕ) (o : Option (ℕ × InstrEntry M))
      → find_entry (instr_table bus) instr 0 ≡ o
      → Fine (step_narrow bus s instr)
  unfolding step_narrow
  narrow-status s instr none e = rw (e, step_narrow) (record { ends = inr refl })
  narrow-status s instr (some (index, entry)) e =
      rw (e, step_narrow) (passed_on _ _ _ (handler-status s instr entry.handler).ends)

  -- An instruction either succeeds or is an invalid one.
  pub core_step-status : (s : Core × M) → Fine (core_step bus s)
  unfolding core_step
  core_step-status s =
      passed_on _ _ _ (if_Fine _ _ _ (step_wide-status _ _) (narrow-status _ _ _ refl)).ends
