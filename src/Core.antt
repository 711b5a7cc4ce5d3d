-- ===== src/Core.antt =====
-- src/core/core.c, src/core/core.h: the processor. Registers are a function of the register's number;
-- the static flag `pc_written` is a field of the core. What the pointers `bus` and `nvic` reach is one
-- machine `M` behind the operations of `SystemBus`. Handlers of instructions return the new core:
-- each of them returns STATUS_OK in the source, which `run_handler` (Core/Decode) adds.
pub mod Flags
pub mod Conditions
pub mod Arithmetic
pub mod Alu
pub mod Move
pub mod Exceptions
pub mod LoadStore
pub mod Stack
pub mod Branch
pub mod Wide
pub mod Decode
pub mod Step
pub mod Outcome
use stm32_emulator.Base.{
  ℕ, ◌+◌, ◌-◌, ◌^◌, bit_and, bit_or, bit_xor, Bool, true, false, not, ◌&&◌, ◌||◌, xor, Option, ltb,
  leb, ◌==◌, nonzero, if◌then◌else◌, update, sub32, shl32, shr, not32,
}
use stm32_emulator.Status.{Status}
use stm32_emulator.Nvic.{Nvic}
use stm32_emulator.Profiler.{Profiler}

-- `REG_SP`, `REG_LR` and `REG_PC`
abbrev pub reg_sp : ℕ
reg_sp = 13

abbrev pub reg_lr : ℕ
reg_lr = 14

abbrev pub reg_pc : ℕ
reg_pc = 15

-- `XPSR_N`, `XPSR_Z`, `XPSR_C` and `XPSR_V`
abbrev pub xpsr_n : ℕ
xpsr_n = 2 ^ 31

abbrev pub xpsr_z : ℕ
xpsr_z = 2 ^ 30

abbrev pub xpsr_c : ℕ
xpsr_c = 2 ^ 29

abbrev pub xpsr_v : ℕ
xpsr_v = 2 ^ 28

-- `CoreState`
pub record CoreState : Type 0 where
  pub r : ℕ → ℕ
  pub xpsr : ℕ
  pub thumb_mode : Bool
  pub interruptible : Bool
  pub current_irq : ℕ
  pub cycles : ℕ

-- `Core`, with the static variable `pc_written`.
pub record Core : Type 0 where
  pub state : CoreState
  pub profiler : Option Profiler
  pub pc_written : Bool

-- The machine behind the core: the bus's two accesses and the interrupt controller.
pub record SystemBus (M : Type 0) : Type 0 where
  pub read : M → ℕ → ℕ → ℕ × M
  pub write : M → ℕ → ℕ → ℕ → Status × M
  pub nvic : M → Nvic
  pub set_nvic : M → Nvic → M

-- `R(n)` and `XPSR`, read and assigned.
abbrev pub reg : Core → ℕ → ℕ
reg core n = core.state.r n

abbrev pub set_reg : Core → ℕ → ℕ → Core
set_reg core n value = record core { state = record core.state { r = update core.state.r n value } }

abbrev pub get_xpsr : Core → ℕ
get_xpsr core = core.state.xpsr

abbrev pub set_xpsr : Core → ℕ → Core
set_xpsr core value = record core { state = record core.state { xpsr = value } }

-- `pc_written = 1`
abbrev pub mark_pc : Core → Core
mark_pc core = record core { pc_written = true }

unfoldable pub nz_of : ℕ → ℕ → ℕ
nz_of xpsr result =
    let cleared = bit_and xpsr (not32 (bit_or xpsr_n xpsr_z)) in
    let with_z = if result == 0 then bit_or cleared xpsr_z else cleared in
    if nonzero (bit_and result 0x80000000) then bit_or with_z xpsr_n else with_z

unfoldable pub update_nz : Core → ℕ → Core
update_nz core result = set_xpsr core (nz_of (get_xpsr core) result)

unfoldable pub flag_of : ℕ → ℕ → Bool → ℕ
flag_of xpsr flag cond = if cond then bit_or xpsr flag else bit_and xpsr (not32 flag)

unfoldable pub set_flag : Core → ℕ → Bool → Core
set_flag core flag cond = set_xpsr core (flag_of (get_xpsr core) flag cond)

-- The two tests of signed overflow: of a sum, and of a difference.
unfoldable pub add_overflow : ℕ → ℕ → ℕ → Bool
add_overflow a b result = nonzero (shr (bit_and (not32 (bit_xor a b)) (bit_xor a result)) 31)

unfoldable pub sub_overflow : ℕ → ℕ → ℕ → Bool
sub_overflow a b result = nonzero (shr (bit_and (bit_xor a b) (bit_xor a result)) 31)

unfoldable pub update_flags_add : Core → ℕ → ℕ → ℕ → Core
update_flags_add core a b result =
    let c1 = update_nz core result in
    let c2 = set_flag c1 xpsr_c (ltb 0xffffffff (a + b)) in
    set_flag c2 xpsr_v (add_overflow a b result)

unfoldable pub update_flags_sub : Core → ℕ → ℕ → ℕ → Core
update_flags_sub core a b result =
    let c1 = update_nz core result in
    let c2 = set_flag c1 xpsr_c (leb b a) in set_flag c2 xpsr_v (sub_overflow a b result)

-- `a == b` on flags
abbrev pub same : Bool → Bool → Bool
same a b = not (xor a b)

-- `(XPSR >> k) & 1`
unfoldable pub flag_bit : Core → ℕ → Bool
flag_bit core k = nonzero (bit_and (shr (get_xpsr core) k) 1)

-- The `switch` over the condition, given the four flags.
unfoldable pub condition_holds : (cond : ℕ) (n z c v : Bool) → Bool
condition_holds cond n z c v =
    if cond == 0x0
    then z
    else if cond == 0x1
    then not z
    else if cond == 0x2
    then c
    else if cond == 0x3
    then not c
    else if cond == 0x4
    then n
    else if cond == 0x5
    then not n
    else if cond == 0x6
    then v
    else if cond == 0x7
    then not v
    else if cond == 0x8
    then c && not z
    else if cond == 0x9
    then not c || z
    else if cond == 0xa
    then same n v
    else if cond == 0xb
    then not (same n v)
    else if cond == 0xc
    then not z && same n v
    else if cond == 0xd
    then z || not (same n v)
    else if cond == 0xe
    then true
    else false

unfoldable pub condition_passed : Core → ℕ → Bool
condition_passed core cond =
    condition_holds cond (flag_bit core 31) (flag_bit core 30) (flag_bit core 29) (flag_bit core 28)

-- The 32-bit pattern of the signed result.
unfoldable pub sign_extend : ℕ → ℕ → ℕ
sign_extend value bits = let mask = shl32 1 (bits - 1) in sub32 (bit_xor value mask) mask
