-- ===== src/Nvic/Priority.antt =====
-- src/nvic/nvic.c: `current_priority` through entry and exit.
use stm32_emulator.Base.{
  ℕ, zero, suc, ◌+◌, ◌≤◌, ◌<◌, ◌≡◌, refl, sym, ◌∙◌, ◌≢◌, ◌⊎◌, inl, inr, true, false, ◌&&◌, some,
  arith, ltb, if◌then◌else◌, lt→ltb, ==_refl, Bool-cases, update,
}
use native.Mathlib.Decide.{ℕ_discrete}
use native.Mathlib.Nat.{add-zero}
use stm32_emulator.Nvic.{
  Nvic, nvic_num_irq, nvic_acknowledge, nvic_complete, recalculate_loop, nvic_get_pending_irq,
}
use stm32_emulator.Nvic.Select.{IsChosen, MayPreempt, nvic_get_pending_irq-IsChosen}

-- `c` is the most urgent priority of the active lines, or 0xff where there is none.
pub record IsLeastActive (n : Nvic) (c : ℕ) : Type 0 where
  pub bound : c ≤ 0xff
  pub least : (j : ℕ) → j < nvic_num_irq → n.active j ≡ true → c ≤ n.priority j
  pub attained :
      (c ≡ 0xff) ⊎ ((j : ℕ) × (j < nvic_num_irq) × (n.active j ≡ true) × (n.priority j ≡ c))

-- What the loop knows when it has seen the lines below `i`.
record Seen (n : Nvic) (i c : ℕ) : Type 0 where
  bound : c ≤ 0xff
  least : (j : ℕ) → j < i → n.active j ≡ true → c ≤ n.priority j
  attained : (c ≡ 0xff) ⊎ ((j : ℕ) × (j < i) × (n.active j ≡ true) × (n.priority j ≡ c))

step-Seen :
    (n : Nvic) (i c : ℕ)
    → Seen n i c
    → Seen n (i + 1) (if n.active i && ltb (n.priority i) c then n.priority i else c)
step-Seen n i c v = elim (Bool-cases (n.active i && ltb (n.priority i) c)) [
  | inl lower ↦ rw lower (record {
    bound = ground (arith, v.bound);
    least = λ j lt a. elim (ℕ_discrete j i) [
      | yes same ↦ rw same (omega arith)
      | no other ↦ ground (arith, v.least j)
    ];
    attained = inr (i, omega arith, ground arith, refl);
  })
  | inr kept ↦ rw kept (record {
    bound = v.bound;
    least = λ j lt a. elim (ℕ_discrete j i) [
      | yes same ↦ ground arith
      | no other ↦ v.least j (omega arith) a
    ];
    attained = elim v.attained [
      | inl top ↦ inl top
      | inr (j, lt, a, e) ↦ inr (j, omega arith, a, e)
    ];
  })
]

loop-Seen : (n : Nvic) (left i c : ℕ) → Seen n i c → Seen n (i + left) (recalculate_loop n left i c)
unfolding recalculate_loop
loop-Seen n zero i c v = rw (add-zero i) v
loop-Seen n (suc left) i c v =
    let shift : i + suc left ≡ i + 1 + left = omega arith in
    rw shift (loop-Seen n left (i + 1) _ (step-Seen n i c v))

recalculate-IsLeastActive : (n : Nvic) → IsLeastActive n (recalculate_loop n nvic_num_irq 0 0xff)
recalculate-IsLeastActive n =
    let v = loop-Seen n nvic_num_irq 0 0xff (record {
      bound = omega arith;
      least = λ j lt a. absurd (omega arith);
      attained = inl refl;
    }) in
    record { bound = v.bound; least = v.least; attained = v.attained }

least_unique :
    (n m : Nvic) (c d : ℕ)
    → ((j : ℕ) → j < nvic_num_irq → n.active j ≡ m.active j)
    → ((j : ℕ) → n.priority j ≡ m.priority j)
    → IsLeastActive n c
    → IsLeastActive m d
    → c ≤ d
least_unique n m c d act pri v w = elim w.attained [
  | inl top ↦ omega (arith, v.bound, top)
  | inr (j, lt, a, e) ↦ ground (arith, v.least j lt (act j lt ∙ a), pri j)
]

preempting_line : (n : Nvic) (k : ℕ) → nvic_get_pending_irq n ≡ some k → IsChosen n k
preempting_line n k e = elim (nvic_get_pending_irq-IsChosen n) [
  | inl (j, found, c) ↦ let same : j ≡ k = cc in rw (← same) c
  | inr (nothing, _) ↦ cc
]

-- Completing a line makes it inactive and leaves `current_priority` the most urgent priority of the
-- lines that are still active, 0xff if none is.
pub nvic_complete-IsLeastActive :
    (n : Nvic) (irq : ℕ)
    → irq < nvic_num_irq
    → ((nvic_complete n irq).active irq ≡ false)
      × ((j : ℕ) → j ≢ irq → (nvic_complete n irq).active j ≡ n.active j)
      × IsLeastActive (nvic_complete n irq) (nvic_complete n irq).current_priority
unfolding nvic_complete
nvic_complete-IsLeastActive n irq lt =
    let inside : ltb irq nvic_num_irq ≡ true = lt→ltb _ _ lt in
    let n' : Nvic = record n { active = update n.active irq false } in
    let v = recalculate-IsLeastActive n' in
    rw inside (
      ==_refl_false irq,
      λ j ne. ground arith,
      record { bound = v.bound; least = v.least; attained = v.attained },
    )
  where
    ==_refl_false : (i : ℕ) → update n.active i false i ≡ false
    ==_refl_false i = rw (==_refl i)

nvic_complete-priority : (n : Nvic) (irq j : ℕ) → (nvic_complete n irq).priority j ≡ n.priority j
unfolding nvic_complete
nvic_complete-priority n irq j = ground arith

complete_after :
    (n : Nvic) (k : ℕ)
    → k < nvic_num_irq
    → n.active k ≡ false
    → IsLeastActive n n.current_priority
    → let a : Nvic = record n {
      pending = update n.pending k false;
      active = update n.active k true;
      current_priority = n.priority k;
    } in
      ((nvic_complete a k).current_priority ≡ n.current_priority)
      × ((j : ℕ) → (nvic_complete a k).active j ≡ n.active j)
complete_after n k lt idle v = (
  omega (
    arith,
    least_unique b n _ _ (λ j l. act j) pri w.2 v,
    least_unique n b _ _ (λ j l. sym (act j)) (λ j. sym (pri j)) v w.2,
  ),
  act,
)
  where
    a : Nvic
    a = record n {
      pending = update n.pending k false;
      active = update n.active k true;
      current_priority = n.priority k;
    }

    b : Nvic
    b = nvic_complete a k

    w :
        (b.active k ≡ false)
        × ((j : ℕ) → j ≢ k → b.active j ≡ a.active j)
        × IsLeastActive b b.current_priority
    w = nvic_complete-IsLeastActive a k lt

    act : (j : ℕ) → b.active j ≡ n.active j
    act j = elim (ℕ_discrete j k) [
      | yes same ↦ rw same (w.0 ∙ sym idle)
      | no other ↦ w.1 j other ∙ ground arith
    ]

    pri : (j : ℕ) → b.priority j ≡ n.priority j
    pri j = nvic_complete-priority a k j

-- Taking the line that `nvic_get_pending_irq` answers, while `current_priority` is the most urgent
-- active priority, clears its pending flag, raises the urgency, keeps `current_priority` the most
-- urgent active priority, and shuts out every line that is not more urgent. Completing it brings back
-- the active lines and the `current_priority` of before.
pub acknowledge_complete :
    (n : Nvic) (k : ℕ)
    → IsLeastActive n n.current_priority
    → nvic_get_pending_irq n ≡ some k
    → let a : Nvic = nvic_acknowledge n k in
      (a.pending k ≡ false)
      × (a.current_priority < n.current_priority)
      × IsLeastActive a a.current_priority
      × ((j : ℕ) → n.priority k ≤ n.priority j → ¬ MayPreempt a j)
      × ((nvic_complete a k).current_priority ≡ n.current_priority)
      × ((j : ℕ) → (nvic_complete a k).active j ≡ n.active j)
unfolding nvic_acknowledge
acknowledge_complete n k v e =
    let c = preempting_line n k e in
    let inside : ltb k nvic_num_irq ≡ true = lt→ltb _ _ c.inside in
    let idle : n.active k ≡ false = elim (Bool-cases (n.active k)) [
      | inl on ↦ absurd (omega (arith, v.least k c.inside on, c.may.2))
      | inr off ↦ off
    ] in
    rw inside (
      rw (==_refl k),
      c.may.2,
      record {
        bound = omega (arith, c.may.2, v.bound);
        least = λ j lt act. elim (ℕ_discrete j k) [
          | yes same ↦ rw same (omega arith)
          | no other ↦ ground (arith, v.least j, c.may.2)
        ];
        attained = inr (k, c.inside, rw (==_refl k), refl);
      },
      λ j le m. ground arith,
      (complete_after n k c.inside idle v).0,
      (complete_after n k c.inside idle v).1,
    )
