-- ===== src/Events/Dispatch.antt =====
-- src/events/event_queue.c: `event_queue_dispatch` fires every due event, in order of time, and ends.
use stm32_emulator.Base.{ℕ, suc, ◌≤◌, ◌≡◌, Bool, true, false, List, [], ◌∷◌, leb}
use stm32_emulator.Events.{Event, EventQueue, pop, is_due, dispatch_round}
use stm32_emulator.Events.Queue.{IsQueue, count_events}

abbrev pub length {ℓ} : {A : Type ℓ} → List A → ℕ
length [] = 0
length (x ∷ xs) = suc (length xs)

-- The times rise from `lo` and end at `now`.
abbrev pub Ascending : ℕ → ℕ → List ℕ → Type 0
Ascending now lo [] = Unit {0}
Ascending now lo (w ∷ ws) = (lo ≤ w) × (w ≤ now) × Ascending now w ws

module _ {F S : Type 0} (run : F → EventQueue F × S → EventQueue F × S) (now : ℕ) where
  -- What the loop needs of the callbacks: an invariant of queue and machine that a round keeps, and
  -- under which a callback neither adds nor removes an event that is due at `now`.
  pub record FiresLater (P : EventQueue F × S → Type 0) : Type 0 where
    pub queue : (st : EventQueue F × S) → P st → IsQueue st.0
    pub keep : (st : EventQueue F × S) → P st → is_due st.0 now ≡ true → P (dispatch_round run st)
    pub later :
        (st : EventQueue F × S)
        → P st
        → is_due st.0 now ≡ true
        → (p : Event F → Bool) → ((e : Event F) → p e ≡ true → e.when ≤ now)
        → count_events p (dispatch_round run st).0 ≡ count_events p (pop st.0)

  -- A whole run of the loop, with the times of the events that it fires.
  pub data Fired : EventQueue F × S → List ℕ → EventQueue F × S → Type 0 where
    stop : (st : EventQueue F × S) → is_due st.0 now ≡ false → Fired st [] st
    step :
        (st : EventQueue F × S) {ws : List ℕ} {st' : EventQueue F × S}
        → is_due st.0 now ≡ true
        → Fired (dispatch_round run st) ws st'
        → Fired st ((st.0.heap 0).when ∷ ws) st'

  abbrev pub due_count : EventQueue F → ℕ
  due_count q = count_events (λ e. leb e.when now) q

  module _ (P : EventQueue F × S → Type 0) (c : FiresLater P) where
    abbrev pub Outcome : ℕ → EventQueue F × S → EventQueue F × S → Type 0
    Outcome lo st st' =
        (ws : List ℕ) × Fired st ws st'
        × Ascending now lo ws
        × (length ws ≡ due_count st.0)
        × (due_count st'.0 ≡ 0)
        × P st'
