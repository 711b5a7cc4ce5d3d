-- ===== src/Nvic/Select.antt =====
-- src/nvic/nvic.c: `nvic_get_pending_irq` picks the most urgent line that may preempt.
use stm32_emulator.Base.{
  ℕ, zero, suc, ◌+◌, ◌≤◌, ◌<◌, ◌≡◌, refl, ◌⊎◌, inl, inr, true, false, ◌&&◌, none, some, arith, ltb,
  Bool-cases,
}
use native.Mathlib.Decide.{ℕ_discrete}
use native.Mathlib.Nat.{add-zero}
use stm32_emulator.Nvic.{Nvic, nvic_num_irq, Search, search_step, search_loop, nvic_get_pending_irq}

-- Line `i` is pending, enabled and more urgent than what runs.
abbrev pub MayPreempt : Nvic → ℕ → Type 0
MayPreempt n i = (n.pending i ≡ true) × (n.enabled i ≡ true) × (n.priority i < n.current_priority)

-- Line `k` may preempt; no line that may is more urgent, and of equally urgent ones it is the first.
pub record IsChosen (n : Nvic) (k : ℕ) : Type 0 where
  pub inside : k < nvic_num_irq
  pub may : MayPreempt n k
  pub first :
      (j : ℕ)
      → j < nvic_num_irq
      → MayPreempt n j
      → (n.priority k < n.priority j) ⊎ ((n.priority k ≡ n.priority j) × (k ≤ j))

-- What the loop knows when it has seen the lines below `i`.
record Seen (n : Nvic) (i : ℕ) (s : Search) : Type 0 where
  bound : s.best_prio ≤ n.current_priority
  lost : (j : ℕ) → j < i → MayPreempt n j → s.best_prio ≤ n.priority j
  idle : s.found ≡ false → s.best_prio ≡ n.current_priority
  chosen :
      s.found ≡ true
      → (s.best_irq < i) × MayPreempt n s.best_irq × (n.priority s.best_irq ≡ s.best_prio)
  earlier : s.found ≡ true → (j : ℕ) → j < s.best_irq → MayPreempt n j → s.best_prio < n.priority j

search_step-Seen : (n : Nvic) (i : ℕ) (s : Search) → Seen n i s → Seen n (i + 1) (search_step n i s)
unfolding search_step
search_step-Seen n i s v =
    elim (Bool-cases ((n.pending i && n.enabled i) && ltb (n.priority i) s.best_prio)) [
      | inl better ↦ rw better (record {
        bound = ground (arith, v.bound);
        lost = λ j lt m. ground (arith, v.lost j, v.bound);
        idle = λ e. absurd (ground arith);
        chosen = λ e. ground (arith, v.bound);
        earlier = λ e j lt m. ground (arith, v.lost j);
      })
      | inr worse ↦ rw worse (record {
        bound = v.bound;
        lost = λ j lt m. elim (ℕ_discrete j i) [
          | yes same ↦ ground arith
          | no other ↦ v.lost j (omega arith) m
        ];
        idle = v.idle;
        chosen = λ e. ground (arith, v.chosen e);
        earlier = v.earlier;
      })
    ]

search_loop-Seen :
    (n : Nvic) (left i : ℕ) (s : Search) → Seen n i s → Seen n (i + left) (search_loop n left i s)
unfolding search_loop
search_loop-Seen n zero i s v = rw (add-zero i) v
search_loop-Seen n (suc left) i s v =
    let shift : i + suc left ≡ i + 1 + left = omega arith in
    rw shift (search_loop-Seen n left (i + 1) (search_step n i s) (search_step-Seen n i s v))

-- `nvic_get_pending_irq` finds a line exactly when one is pending, enabled and more urgent than
-- `current_priority`; it then answers the most urgent such line, and the lowest-numbered one of
-- those equally urgent.
pub nvic_get_pending_irq-IsChosen :
    (n : Nvic)
    → ((k : ℕ) × (nvic_get_pending_irq n ≡ some k) × IsChosen n k)
      ⊎ ((nvic_get_pending_irq n ≡ none) × ((j : ℕ) → j < nvic_num_irq → ¬ MayPreempt n j))
unfolding nvic_get_pending_irq
nvic_get_pending_irq-IsChosen n = elim (Bool-cases s.found) [
  | inl found ↦ inl (
    s.best_irq,
    rw found,
    record {
      inside = (v.chosen found).0;
      may = (v.chosen found).1;
      first = λ j lt m. ground (arith, v.lost j lt m, v.chosen found, v.earlier found j);
    },
  )
  | inr idle ↦ inr (rw idle, λ j lt m. absurd (ground (arith, v.lost j lt m, v.idle idle)))
]
  where
    start : Search
    start = record { best_prio = n.current_priority; found = false; best_irq = 0 }

    s : Search
    s = search_loop n nvic_num_irq 0 start

    v : Seen n nvic_num_irq s
    v = search_loop-Seen n nvic_num_irq 0 start (record {
      bound = omega arith;
      lost = λ j lt m. absurd (omega arith);
      idle = λ e. refl;
      chosen = λ e. cc;
      earlier = λ e. cc;
    })
