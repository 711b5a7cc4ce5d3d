-- ===== src/Events.antt =====
-- src/events/event_queue.c: a binary min-heap of timed callbacks in an array. `F` stands for the
-- callback with the context that it is called on; `none` is a null pointer. Times are `uint64_t`.
-- The message on stderr of a full queue is left out.
pub mod Tally
pub mod Up
pub mod Down
pub mod Queue
pub mod Dispatch
use stm32_emulator.Base.{
  ℕ, zero, suc, ◌+◌, ◌-◌, ◌*◌, ◌/◌, Bool, ◌&&◌, Option, none, some, ltb, leb, ◌==◌, if◌then◌else◌,
  update, filled, u32,
}

-- `EVENT_QUEUE_CAPACITY`
abbrev pub event_queue_capacity : ℕ
event_queue_capacity = 256

-- `UINT64_MAX`
abbrev pub uint64_max : ℕ
uint64_max = 18446744073709551615

-- `Event`
pub record Event (F : Type 0) : Type 0 where
  pub when : ℕ
  pub fire : Option F
  pub id : ℕ

-- `EventQueue`
pub record EventQueue (F : Type 0) : Type 0 where
  pub heap : ℕ → Event F
  pub size : ℕ
  pub next_id : ℕ

-- `id = ++q->next_id`, and once more where that wraps to the reserved 0.
unfoldable pub fresh_id : ℕ → ℕ
fresh_id next_id = let id = u32 (next_id + 1) in if id == 0 then u32 (id + 1) else id

module _ {F : Type 0} where
  -- `swap(&heap[i], &heap[j])`
  unfoldable pub swap : (ℕ → Event F) → ℕ → ℕ → ℕ → Event F
  swap h i j = update (update h i (h j)) j (h i)

  -- The loop of `sift_up`; a round more than the index is enough fuel.
  unfoldable pub sift_up_loop : ℕ → (ℕ → Event F) → ℕ → ℕ → Event F
  sift_up_loop zero h i = h
  sift_up_loop (suc fuel) h i =
      let parent = (i - 1) / 2 in
      let rest = sift_up_loop fuel (swap h parent i) parent in
      if i == 0 then h else if leb (h parent).when (h i).when then h else rest

  unfoldable pub sift_up : (ℕ → Event F) → ℕ → ℕ → Event F
  sift_up h i = sift_up_loop (i + 1) h i

  -- The index of the least of `i` and its children.
  unfoldable pub smallest_of : (ℕ → Event F) → ℕ → ℕ → ℕ
  smallest_of h size i =
      let left = 2 * i + 1 in
      let right = 2 * i + 2 in
      let smallest = if ltb left size && ltb (h left).when (h i).when then left else i in
      if ltb right size && ltb (h right).when (h smallest).when then right else smallest

  -- The loop of `sift_down`; a round more than the distance to the end is enough fuel.
  unfoldable pub sift_down_loop : ℕ → (ℕ → Event F) → ℕ → ℕ → ℕ → Event F
  sift_down_loop zero h size i = h
  sift_down_loop (suc fuel) h size i =
      let smallest = smallest_of h size i in
      let rest = sift_down_loop fuel (swap h i smallest) size smallest in
      if smallest == i then h else rest

  unfoldable pub sift_down : (ℕ → Event F) → ℕ → ℕ → ℕ → Event F
  sift_down h size i = sift_down_loop (size + 1) h size i

  unfoldable pub event_queue_init : EventQueue F
  event_queue_init = record {
    heap = filled (record { when = 0; fire = none; id = 0 });
    size = 0;
    next_id = 0;
  }

  unfoldable pub event_queue_schedule : EventQueue F → ℕ → Option F → ℕ × EventQueue F
  event_queue_schedule q when fire =
      let id = fresh_id q.next_id in
      let e : Event F = record { when = when; fire = fire; id = id } in
      if leb event_queue_capacity q.size then (0, q) else (
        id,
        record { heap = sift_up (update q.heap q.size e) q.size; size = q.size + 1; next_id = id },
      )

  unfoldable pub event_queue_peek : EventQueue F → ℕ
  event_queue_peek q = if q.size == 0 then uint64_max else (q.heap 0).when

  -- `q->heap[0] = q->heap[--q->size]`, and the new root sifted down.
  unfoldable pub pop : EventQueue F → EventQueue F
  pop q =
      let size = q.size - 1 in
      let h = update q.heap 0 (q.heap size) in
      record q { heap = if ltb 0 size then sift_down h size 0 else h; size = size }

  -- The test of the loop of `event_queue_dispatch`.
  unfoldable pub is_due : EventQueue F → ℕ → Bool
  is_due q now = ltb 0 q.size && leb (q.heap 0).when now

-- A callback may schedule on the same queue and changes the rest of the machine, `S`.
module _ {F S : Type 0} (run : F → EventQueue F × S → EventQueue F × S) where
  -- `if (e.fire) e.fire(e.ctx)`
  unfoldable pub fire_event : Option F → EventQueue F × S → EventQueue F × S
  fire_event none st = st
  fire_event (some f) st = run f st

  -- One round of the loop: pop the earliest event and fire it.
  unfoldable pub dispatch_round : EventQueue F × S → EventQueue F × S
  dispatch_round (q, s) = fire_event (q.heap 0).fire (pop q, s)

  unfoldable pub event_queue_dispatch : ℕ → EventQueue F × S → ℕ → EventQueue F × S
  event_queue_dispatch zero st now = st
  event_queue_dispatch (suc fuel) st now =
      let rest = event_queue_dispatch fuel (dispatch_round st) now in
      if is_due st.0 now then rest else st
