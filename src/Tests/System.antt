-- ===== src/Tests/System.antt =====
-- The theorems on the bus, the memory, the event queue and the debugger at concrete inputs.
use stm32_emulator.Base.{
  ℕ, ◌+◌, ◌≤◌, ◌<◌, ◌≡◌, ◌⊎◌, Bool, not, ◌&&◌, ◌||◌, Option, none, some, arith, ltb, ◌==◌,
  if◌then◌else◌, of_bool,
}
use stm32_emulator.Events.{
  event_queue_init, event_queue_schedule, EventQueue, pop, Event, fresh_id, event_queue_capacity,
}
use stm32_emulator.Debugger.{
  debugger_init, Debugger, debugger_max_breakpoints, num_breakpoints, debugger_add_breakpoint,
  debugger_remove_breakpoint, debugger_check,
}
use stm32_emulator.Events.Up.{key}
use stm32_emulator.Events.Queue.{
  IsQueue, count_events, event_queue_init-IsQueue, schedule_adds_cases, schedule_adds, pop_removes,
}
use stm32_emulator.Debugger.Breakpoints.{IsDebugger, debugger_check-add, debugger_check-remove}

one_event-IsQueue : IsQueue (event_queue_schedule {F = ℕ} event_queue_init 7 (some 3)).1
unfolding event_queue_init
one_event-IsQueue =
    ((schedule_adds_cases event_queue_init 7 (some 3) event_queue_init-IsQueue).0 (omega arith)).2

one_event-filled : 0 < (event_queue_schedule {F = ℕ} event_queue_init 7 (some 3)).1.size
unfolding event_queue_init event_queue_schedule
one_event-filled = omega arith

fresh-IsDebugger : IsDebugger debugger_init
unfolding debugger_init
fresh-IsDebugger = record { bound = omega arith; distinct = tt }

-- Callbacks that do nothing.
abbrev do_nothing : ℕ → EventQueue ℕ × ℕ → EventQueue ℕ × ℕ
do_nothing f st = st

abbrev KeepsOrder : EventQueue ℕ × ℕ → Type 0
KeepsOrder st = IsQueue st.0

schedule_adds_example :
    let q : EventQueue ℕ = event_queue_init in
    let when : ℕ = 7 in
    let fire : Option ℕ = some 3 in
    let r : ℕ × EventQueue ℕ = event_queue_schedule q when fire in
    ((q.size < event_queue_capacity)
      × ((0 < r.0)
          × (r.0 ≡ fresh_id q.next_id)
          × IsQueue r.1
          × (r.1.next_id ≡ r.0)
          × ((p : Event ℕ → Bool)
              → count_events p r.1
                ≡ count_events p q
                  + of_bool (p (record { when = when; fire = fire; id = fresh_id q.next_id })))))
    ⊎ ((event_queue_capacity ≤ q.size) × (r ≡ (0, q)))
schedule_adds_example = schedule_adds event_queue_init 7 (some 3) event_queue_init-IsQueue

pop_removes_example :
    let q : EventQueue ℕ = (event_queue_schedule event_queue_init 7 (some 3)).1 in
    IsQueue (pop q)
    × ((p : Event ℕ → Bool) → count_events p (pop q) + of_bool (p (q.heap 0)) ≡ count_events p q)
    × ((i : ℕ) → i < q.size → key q.heap 0 ≤ key q.heap i)
pop_removes_example =
    pop_removes ((event_queue_schedule event_queue_init 7 (some 3)).1) one_event-IsQueue
      one_event-filled

debugger_check-add_example :
    let dbg : Debugger = debugger_init in
    let addr : ℕ = 0x100 in
    let pc : ℕ = 0x100 in
    let r : Option ℕ × Debugger = debugger_add_breakpoint dbg addr in
    let accepted : Bool =
      debugger_check dbg addr || ltb (num_breakpoints dbg.breakpoints) debugger_max_breakpoints in
    IsDebugger r.1
    × (r.0 ≡ (if accepted then some 0 else none))
    × (debugger_check r.1 pc ≡ (debugger_check dbg pc || accepted && addr == pc))
debugger_check-add_example = debugger_check-add debugger_init 0x100 0x100 fresh-IsDebugger

debugger_check-remove_example :
    let dbg : Debugger = debugger_init in
    let addr : ℕ = 0x100 in
    let pc : ℕ = 0x100 in
    let r : Option ℕ × Debugger = debugger_remove_breakpoint dbg addr in
    IsDebugger r.1
    × (r.0 ≡ (if debugger_check dbg addr then some 0 else none))
    × (debugger_check r.1 pc ≡ (debugger_check dbg pc && not (addr == pc)))
debugger_check-remove_example = debugger_check-remove debugger_init 0x100 0x100 fresh-IsDebugger
