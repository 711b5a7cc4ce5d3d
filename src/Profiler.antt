-- ===== src/Profiler.antt =====
-- src/profiler.c: cycles spent in each handler and instructions counted by kind. The printing of the
-- report is not modelled. A `const char*` name is a string, the null pointer is `none`.
use stm32_emulator.Base.{
  ℕ, Option, none, some, ltb, leb, ◌==◌, if◌then◌else◌, update, filled, add64, sub64,
}
use Prim.Native.String.{String}

-- `PROF_NUM_SLOTS` and `PROF_INSTR_SLOTS`
abbrev pub prof_num_slots : ℕ
prof_num_slots = 96

abbrev pub prof_instr_slots : ℕ
prof_instr_slots = 96

-- `ProfSlot`
pub record ProfSlot : Type 0 where
  pub call_count : ℕ
  pub total_cycles : ℕ
  pub max_cycles : ℕ
  pub entry_cycle : ℕ

-- `ProfInstrSlot`
pub record ProfInstrSlot : Type 0 where
  pub name : Option String
  pub count : ℕ

pub record Profiler : Type 0 where
  pub slots : ℕ → ProfSlot
  pub instrs : ℕ → ProfInstrSlot

unfoldable pub profiler_reset : Profiler
profiler_reset = record {
  slots = filled (record { call_count = 0; total_cycles = 0; max_cycles = 0; entry_cycle = 0 });
  instrs = filled (record { name = none; count = 0 });
}

unfoldable pub profiler_init : Profiler
profiler_init = profiler_reset

unfoldable pub profiler_enter : Profiler → ℕ → ℕ → Profiler
profiler_enter p slot cycle =
    if leb prof_num_slots slot
    then p
    else record p { slots = update p.slots slot (record (p.slots slot) { entry_cycle = cycle }) }

-- What `profiler_exit` stores in the slot.
unfoldable pub close_slot : ProfSlot → ℕ → ProfSlot
close_slot s cycle =
    let elapsed = sub64 cycle s.entry_cycle in
    record {
      call_count = add64 s.call_count 1;
      total_cycles = add64 s.total_cycles elapsed;
      max_cycles = if ltb s.max_cycles elapsed then elapsed else s.max_cycles;
      entry_cycle = 0;
    }

unfoldable pub profiler_exit : Profiler → ℕ → ℕ → Profiler
profiler_exit p slot cycle =
    if leb prof_num_slots slot
    then p
    else if (p.slots slot).entry_cycle == 0
    then p
    else record p { slots = update p.slots slot (close_slot (p.slots slot) cycle) }

unfoldable pub profiler_count_instr : Profiler → ℕ → String → Profiler
profiler_count_instr p idx name = if leb prof_instr_slots idx then p else record p {
  instrs = update p.instrs idx (record {
    name = elim (p.instrs idx).name [ none ↦ some name | some known ↦ some known ];
    count = add64 (p.instrs idx).count 1;
  });
}
