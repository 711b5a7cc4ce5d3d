-- ===== src/Tests/Interrupts.antt =====
-- The theorems on the interrupt controller at concrete inputs.
use stm32_emulator.Base.{
  ℕ, ◌+◌, ◌*◌, ◌≤◌, ◌<◌, ◌≡◌, refl, ◌⊎◌, inl, Bool, true, false, not, ◌&&◌, ◌||◌, none, some, arith,
  ltb, update, filled,
}
use stm32_emulator.Nvic.{
  search_loop, search_step, Nvic, nvic_num_irq, nvic_get_pending_irq, nvic_acknowledge,
  nvic_complete,
}
use stm32_emulator.Nvic.Select.{MayPreempt, IsChosen, nvic_get_pending_irq-IsChosen}
use stm32_emulator.Nvic.Priority.{IsLeastActive, acknowledge_complete}
use stm32_emulator.Base.Bits.{bit}
use stm32_emulator.Nvic.Registers.{nvic_bus_read, nvic_bus_write}
use stm32_emulator.Nvic.Registers.Laws.{set_clear_registers}

-- Lines 28 and 37 wait, line 37 is the more urgent one.
abbrev two_waiting : Nvic
two_waiting = record {
  pending = update (update (filled false) 28 true) 37 true;
  active = filled false;
  enabled = filled true;
  priority = update (filled 0x20) 37 0x10;
  current_priority = 0xff;
  systick_pending = false;
  systick_enabled = false;
  systick_priority = 0;
}

none_active : IsLeastActive two_waiting 0xff
none_active = record { bound = omega arith; least = λ j lt on. ground arith; attained = inl refl }

nvic_get_pending_irq-IsChosen_example :
    let n : Nvic = two_waiting in
    ((k : ℕ) × (nvic_get_pending_irq n ≡ some k) × IsChosen n k)
    ⊎ ((nvic_get_pending_irq n ≡ none) × ((j : ℕ) → j < nvic_num_irq → ¬ MayPreempt n j))
nvic_get_pending_irq-IsChosen_example = nvic_get_pending_irq-IsChosen two_waiting

acknowledge_complete_example :
    let n : Nvic = two_waiting in
    let k : ℕ = 37 in
    let a : Nvic = nvic_acknowledge n k in
    (a.pending k ≡ false)
    × (a.current_priority < n.current_priority)
    × IsLeastActive a a.current_priority
    × ((j : ℕ) → n.priority k ≤ n.priority j → ¬ MayPreempt a j)
    × ((nvic_complete a k).current_priority ≡ n.current_priority)
    × ((j : ℕ) → (nvic_complete a k).active j ≡ n.active j)
unfolding nvic_get_pending_irq search_loop search_step
acknowledge_complete_example = acknowledge_complete two_waiting 37 none_active refl

set_clear_registers_example :
    let n : Nvic = two_waiting in
    let w : ℕ = 1 in
    let value : ℕ = 0x20 in
    let i : ℕ = 5 in
    let size : ℕ = 4 in
    let after : ℕ → Nvic = λ offset. (nvic_bus_write n offset value size).1 in
    let read : Nvic → ℕ → Bool = λ m offset. bit (nvic_bus_read m offset size) i in
    let exists : Bool = ltb i 32 && ltb (32 * w + i) nvic_num_irq in
    (read (after (4 * w)) (4 * w) ≡ (read n (4 * w) || exists && bit value i))
    × (read (after (0x80 + 4 * w)) (4 * w) ≡ (read n (4 * w) && not (exists && bit value i)))
    × (read (after (0x100 + 4 * w)) (0x100 + 4 * w)
        ≡ (read n (0x100 + 4 * w) || exists && bit value i))
    × (read (after (0x180 + 4 * w)) (0x100 + 4 * w)
        ≡ (read n (0x100 + 4 * w) && not (exists && bit value i)))
set_clear_registers_example = set_clear_registers two_waiting 1 0x20 5 4 (omega arith)
