-- ===== src/Debugger.antt =====
-- src/debugger/debugger.c: the breakpoints. The first `num_breakpoints` entries of
-- `breakpoints[64]` are a list; removing an entry shifts the rest down by one.
pub mod Breakpoints
use stm32_emulator.Base.{
  ℕ, suc, Bool, true, false, Option, none, some, List, [], ◌∷◌, ◌++◌, leb, ◌==◌, if◌then◌else◌,
}

-- `DEBUGGER_MAX_BREAKPOINTS`
abbrev pub debugger_max_breakpoints : ℕ
debugger_max_breakpoints = 64

-- `Debugger`
pub record Debugger : Type 0 where
  pub breakpoints : List ℕ

-- `num_breakpoints`
abbrev pub num_breakpoints : List ℕ → ℕ
num_breakpoints [] = 0
num_breakpoints (b ∷ bs) = suc (num_breakpoints bs)

unfoldable pub debugger_init : Debugger
debugger_init = record { breakpoints = [] }

-- The loop that looks for an address.
unfoldable pub holds : List ℕ → ℕ → Bool
holds [] addr = false
holds (b ∷ bs) addr = if b == addr then true else holds bs addr

-- The result is the code's: 0, or `none` for -1.
unfoldable pub debugger_add_breakpoint : Debugger → ℕ → Option ℕ × Debugger
debugger_add_breakpoint dbg addr =
    if holds dbg.breakpoints addr
    then (some 0, dbg)
    else if leb debugger_max_breakpoints (num_breakpoints dbg.breakpoints)
    then (none, dbg)
    else (some 0, record { breakpoints = dbg.breakpoints ++ addr ∷ [] })

-- The first entry of that address is taken out.
unfoldable pub take_out : List ℕ → ℕ → List ℕ
take_out [] addr = []
take_out (b ∷ bs) addr = if b == addr then bs else b ∷ take_out bs addr

unfoldable pub debugger_remove_breakpoint : Debugger → ℕ → Option ℕ × Debugger
debugger_remove_breakpoint dbg addr =
    if holds dbg.breakpoints addr
    then (some 0, record { breakpoints = take_out dbg.breakpoints addr })
    else (none, dbg)

unfoldable pub debugger_check : Debugger → ℕ → Bool
debugger_check dbg pc = holds dbg.breakpoints pc
