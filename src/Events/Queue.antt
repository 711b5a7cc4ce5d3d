-- ===== src/Events/Queue.antt =====
-- src/events/event_queue.c: scheduling, peeking and popping keep the queue's promises.
use stm32_emulator.Base.{
  cases_of, lt_or_ge, zero_or_pos, Bool-cases, ◌⊎◌, ℕ, ◌+◌, ◌-◌, ◌≤◌, ◌<◌, ◌≡◌, refl, ◌∙◌, inl, inr,
  Bool, true, false, Option, arith, ltb, leb, ◌==◌, of_bool, ltb→lt, ==_refl, update,
}
use stm32_emulator.Events.{
  Event, EventQueue, event_queue_init, event_queue_schedule, event_queue_peek, pop, fresh_id,
  event_queue_capacity, uint64_max,
}
use stm32_emulator.Events.Tally.{
  tally, tally-update, tally-append, tally-last, tally-pos, tally-zero,
}
use stm32_emulator.Events.Up.{key, IsHeap, UpInv, sift_up_restores}
use stm32_emulator.Events.Down.{DownInv, sift_down_restores, root_least}

pub fresh_id-pos : (n : ℕ) → 0 < fresh_id n
unfolding fresh_id
fresh_id-pos n = ground arith

module _ {F : Type 0} where
  -- The queue fits its array and is ordered.
  pub record IsQueue (q : EventQueue F) : Type 0 where
    pub bounded : q.size ≤ event_queue_capacity
    pub heap : IsHeap q.heap q.size

  -- How many events of the queue satisfy a test.
  abbrev pub count_events : (Event F → Bool) → EventQueue F → ℕ
  count_events p q = tally p q.heap q.size

  pub event_queue_init-IsQueue : IsQueue (event_queue_init {F = F})
  unfolding event_queue_init
  event_queue_init-IsQueue = record { bounded = omega arith; heap = λ c p q. absurd (omega arith) }

  append-UpInv :
      (q : EventQueue F) (e : Event F)
      → IsQueue q
      → UpInv (update q.heap q.size e) (q.size + 1) q.size
  append-UpInv q e v = record {
    inside = omega arith;
    edges = λ c p lt ne. ground (arith, v.heap c);
    bridged = λ c p lt over pos. absurd (omega arith);
  }

  -- Each branch under its own condition.
  pub schedule_adds_cases :
      (q : EventQueue F) (when : ℕ) (fire : Option F)
      → IsQueue q
      → let r : ℕ × EventQueue F = event_queue_schedule q when fire in
        (q.size < event_queue_capacity
          → (0 < r.0)
            × (r.0 ≡ fresh_id q.next_id)
            × IsQueue r.1
            × (r.1.next_id ≡ r.0)
            × ((p : Event F → Bool)
                → count_events p r.1
                  ≡ count_events p q
                    + of_bool (p (record { when = when; fire = fire; id = fresh_id q.next_id }))))
        × (event_queue_capacity ≤ q.size → r ≡ (0, q))
  unfolding event_queue_schedule
  schedule_adds_cases q when fire v = (
    λ room.
        let open_guard : leb event_queue_capacity q.size ≡ false = ground arith in
        let e : Event F = record { when = when; fire = fire; id = fresh_id q.next_id } in
        let s =
          sift_up_restores (update q.heap q.size e) (q.size + 1) q.size (append-UpInv q e v) in
        rw open_guard (
          fresh_id-pos q.next_id,
          refl,
          record { bounded = omega arith; heap = s.heap },
          refl,
          λ p. s.same p ∙ tally-append p q.heap q.size e,
        ),
    λ full. let shut : leb event_queue_capacity q.size ≡ true = ground arith in rw shut,
  )

  -- Scheduling on a queue with room answers a nonzero id and keeps the queue in order; the queue then
  -- holds its earlier events and the new one, each as often as before or once more. A full queue
  -- drops the event, answers 0 and stays as it is.
  pub schedule_adds :
      (q : EventQueue F) (when : ℕ) (fire : Option F)
      → IsQueue q
      → let r : ℕ × EventQueue F = event_queue_schedule q when fire in
        ((q.size < event_queue_capacity)
          × ((0 < r.0)
              × (r.0 ≡ fresh_id q.next_id)
              × IsQueue r.1
              × (r.1.next_id ≡ r.0)
              × ((p : Event F → Bool)
                  → count_events p r.1
                    ≡ count_events p q
                      + of_bool
                          (p (record { when = when; fire = fire; id = fresh_id q.next_id })))))
        ⊎ ((event_queue_capacity ≤ q.size) × (r ≡ (0, q)))
  schedule_adds q when fire h1 = cases_of (lt_or_ge _ _) (schedule_adds_cases q when fire h1)

  drop-DownInv :
      (q : EventQueue F)
      → IsQueue q
      → 0 < q.size - 1
      → DownInv (update q.heap 0 (q.heap (q.size - 1))) (q.size - 1) 0
  drop-DownInv q v more = record {
    inside = more;
    edges = λ c p lt ne. ground (arith, v.heap c);
    bridged = λ c p lt over pos. absurd (omega arith);
  }

  -- Popping a queue that is not empty takes out its root, which no event precedes, and keeps the
  -- others and the order.
  pub pop_removes :
      (q : EventQueue F)
      → IsQueue q
      → 0 < q.size
      → IsQueue (pop q)
        × ((p : Event F → Bool)
            → count_events p (pop q) + of_bool (p (q.heap 0)) ≡ count_events p q)
        × ((i : ℕ) → i < q.size → key q.heap 0 ≤ key q.heap i)
  unfolding pop
  pop_removes q v pos = elim (Bool-cases (ltb 0 (q.size - 1))) [
    | inl more ↦
        let lt : 0 < q.size - 1 = ltb→lt _ _ more in
        let s = sift_down_restores _ (q.size - 1) 0 (drop-DownInv q v lt) in
        rw more (
          record { bounded = omega (arith, v.bounded); heap = s.heap },
          λ p. omega (
            arith,
            s.same p,
            tally-update p q.heap (q.size - 1) 0 (q.heap (q.size - 1)) lt,
            tally-last p q.heap q.size pos,
          ),
          λ i lt. root_least q.heap q.size i v.heap lt,
        )
    | inr last ↦
        let one : q.size ≡ 1 = ground arith in
        rw last (
          record { bounded = omega (arith, v.bounded); heap = λ c p lt. absurd (omega arith) },
          λ p. rw one (unfold tally in omega arith),
          λ i lt. root_least q.heap q.size i v.heap lt,
        )
  ]

  -- Each branch under its own condition.
  peek_earliest_cases :
      (q : EventQueue F)
      → IsQueue q
      → (q.size ≡ 0 → event_queue_peek q ≡ uint64_max)
        × (0 < q.size
            → (count_events (λ e. ltb e.when (event_queue_peek q)) q ≡ 0)
              × (0 < count_events (λ e. e.when == event_queue_peek q) q))
  unfolding event_queue_peek
  peek_earliest_cases q v = (
    λ empty. ground arith,
    λ pos.
        let full : (q.size == 0) ≡ false = ground arith in
        rw full (
          tally-zero _ q.heap q.size (λ i lt. ground (arith, root_least q.heap q.size i v.heap lt)),
          tally-pos _ q.heap q.size 0 pos (==_refl _),
        ),
  )

  -- `event_queue_peek` of a queue in order is the time of one of its events, and no event of the queue
  -- is earlier; of an empty queue it is `UINT64_MAX`.
  pub peek_earliest :
      (q : EventQueue F)
      → IsQueue q
      → ((q.size ≡ 0) × (event_queue_peek q ≡ uint64_max))
        ⊎ ((0 < q.size)
            × ((count_events (λ e. ltb e.when (event_queue_peek q)) q ≡ 0)
                × (0 < count_events (λ e. e.when == event_queue_peek q) q)))
  peek_earliest q h1 = cases_of (zero_or_pos _) (peek_earliest_cases q h1)
