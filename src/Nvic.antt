-- ===== src/Nvic.antt =====
-- src/nvic/nvic.c: the interrupt controller. The arrays over the 43 lines are functions of the line,
-- the `int` flags are Booleans. `nvic_get_pending_irq` answers `some irq` where the code returns 1
-- and stores `irq`, and `none` where it returns 0.
pub mod Select
pub mod Priority
pub mod Registers
use stm32_emulator.Base.{
  ℕ, zero, suc, ◌+◌, Bool, true, false, not, ◌&&◌, ◌||◌, Option, none, some, ltb, if◌then◌else◌,
  update, filled,
}

-- `NVIC_NUM_IRQ`
abbrev pub nvic_num_irq : ℕ
nvic_num_irq = 43

-- `NVIC`
pub record Nvic : Type 0 where
  pub pending : ℕ → Bool
  pub active : ℕ → Bool
  pub enabled : ℕ → Bool
  pub priority : ℕ → ℕ
  pub current_priority : ℕ
  pub systick_pending : Bool
  pub systick_enabled : Bool
  pub systick_priority : ℕ

unfoldable pub nvic_reset : Nvic
nvic_reset = record {
  pending = filled false;
  active = filled false;
  enabled = filled false;
  priority = filled 0;
  current_priority = 0xff;
  systick_pending = false;
  systick_enabled = false;
  systick_priority = 0;
}

unfoldable pub nvic_init : Nvic
nvic_init = nvic_reset

unfoldable pub nvic_set_pending : Nvic → ℕ → Nvic
nvic_set_pending n irq =
    if ltb irq nvic_num_irq then record n { pending = update n.pending irq true } else n

unfoldable pub nvic_clear_pending : Nvic → ℕ → Nvic
nvic_clear_pending n irq =
    if ltb irq nvic_num_irq then record n { pending = update n.pending irq false } else n

unfoldable pub nvic_enable_irq : Nvic → ℕ → Nvic
nvic_enable_irq n irq =
    if ltb irq nvic_num_irq then record n { enabled = update n.enabled irq true } else n

unfoldable pub nvic_disable_irq : Nvic → ℕ → Nvic
nvic_disable_irq n irq =
    if ltb irq nvic_num_irq then record n { enabled = update n.enabled irq false } else n

unfoldable pub nvic_set_priority : Nvic → ℕ → ℕ → Nvic
nvic_set_priority n irq prio =
    if ltb irq nvic_num_irq then record n { priority = update n.priority irq prio } else n

-- The variables of the loop of `nvic_get_pending_irq`.
pub record Search : Type 0 where
  pub best_prio : ℕ
  pub found : Bool
  pub best_irq : ℕ

-- The body of the loop at line `i`.
unfoldable pub search_step : Nvic → ℕ → Search → Search
search_step n i s =
    if (n.pending i && n.enabled i) && ltb (n.priority i) s.best_prio
    then record { best_prio = n.priority i; found = true; best_irq = i }
    else s

unfoldable pub search_loop : Nvic → ℕ → ℕ → Search → Search
search_loop n zero i s = s
search_loop n (suc left) i s = search_loop n left (i + 1) (search_step n i s)

unfoldable pub nvic_get_pending_irq : Nvic → Option ℕ
nvic_get_pending_irq n =
    let s =
      search_loop n nvic_num_irq 0
        (record { best_prio = n.current_priority; found = false; best_irq = 0 }) in
    if s.found then some s.best_irq else none

unfoldable pub nvic_acknowledge : Nvic → ℕ → Nvic
nvic_acknowledge n irq =
    if ltb irq nvic_num_irq
    then record n {
      pending = update n.pending irq false;
      active = update n.active irq true;
      current_priority = n.priority irq;
    }
    else n

-- The loop of `nvic_complete` at line `i`.
unfoldable pub recalculate_loop : Nvic → ℕ → ℕ → ℕ → ℕ
recalculate_loop n zero i current = current
recalculate_loop n (suc left) i current =
    recalculate_loop n left (i + 1)
      (if n.active i && ltb (n.priority i) current then n.priority i else current)

unfoldable pub nvic_complete : Nvic → ℕ → Nvic
nvic_complete n irq =
    let n' : Nvic =
      if ltb irq nvic_num_irq then record n { active = update n.active irq false } else n in
    record n' { current_priority = recalculate_loop n' nvic_num_irq 0 0xff }

unfoldable pub nvic_set_systick_pending : Nvic → Nvic
nvic_set_systick_pending n = record n { systick_pending = true }

unfoldable pub nvic_clear_systick_pending : Nvic → Nvic
nvic_clear_systick_pending n = record n { systick_pending = false }

unfoldable pub nvic_enable_systick : Nvic → Bool → Nvic
nvic_enable_systick n enable = record n { systick_enabled = enable }

unfoldable pub nvic_set_systick_priority : Nvic → ℕ → Nvic
nvic_set_systick_priority n prio = record n { systick_priority = prio }

unfoldable pub nvic_get_systick_pending : Nvic → Bool
nvic_get_systick_pending n =
    if not n.systick_pending || not n.systick_enabled
    then false
    else ltb n.systick_priority n.current_priority
