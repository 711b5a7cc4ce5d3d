-- ===== src/Events/Up.antt =====
-- src/events/event_queue.c: `sift_up` restores the heap order.
use stm32_emulator.Base.{
  ℕ, zero, suc, ◌+◌, ◌-◌, ◌/◌, ◌≤◌, ◌<◌, ◌≡◌, refl, ◌∙◌, ◌≢◌, inl, inr, Bool, arith, leb, ◌==◌,
  Bool-cases,
}
use stm32_emulator.Events.{Event, swap, sift_up_loop, sift_up}
use stm32_emulator.Events.Tally.{tally, tally-swap}

-- The parent of a node.
abbrev pub above : ℕ → ℕ
above c = (c - 1) / 2

module _ {F : Type 0} where
  abbrev pub key : (ℕ → Event F) → ℕ → ℕ
  key h i = (h i).when

  -- No event is earlier than its parent.
  abbrev pub IsHeap : (ℕ → Event F) → ℕ → Type 0
  IsHeap h n = (c : ℕ) → 0 < c → c < n → key h (above c) ≤ key h c

  -- The edges past `i`, from its parent to its children, are in order.
  abbrev pub IsBridged : (ℕ → Event F) → ℕ → ℕ → Type 0
  IsBridged h n i = (c : ℕ) → 0 < c → c < n → above c ≡ i → 0 < i → key h (above i) ≤ key h c

  -- Only the edge over `i` may be out of order.
  pub record UpInv (h : ℕ → Event F) (n i : ℕ) : Type 0 where
    pub inside : i < n
    pub edges : (c : ℕ) → 0 < c → c < n → c ≢ i → key h (above c) ≤ key h c
    pub bridged : IsBridged h n i

  -- `h'` is in order and holds the events of `h`.
  pub record Sifted (h h' : ℕ → Event F) (n : ℕ) : Type 0 where
    pub heap : IsHeap h' n
    pub same : (p : Event F → Bool) → tally p h' n ≡ tally p h n

  swap-UpInv :
      (h : ℕ → Event F) (n i : ℕ)
      → UpInv h n i
      → 0 < i
      → key h i < key h (above i)
      → UpInv (swap h (above i) i) n (above i)
  unfolding swap
  swap-UpInv h n i v pos below = record {
    inside = omega (arith, v.inside);
    edges = λ c p q r. ground (arith, v.edges c, v.bridged c, v.inside);
    bridged = λ c p q r s. ground (arith, v.edges c, v.edges (above i), v.inside);
  }

  pub sift_up_loop_restores :
      (fuel : ℕ) (h : ℕ → Event F) (n i : ℕ)
      → i < fuel
      → UpInv h n i
      → Sifted h (sift_up_loop fuel h i) n
  unfolding sift_up_loop
  sift_up_loop_restores zero h n i f v = absurd (omega arith)
  sift_up_loop_restores (suc fuel) h n i f v = elim (Bool-cases (i == 0)) [
    | inl root ↦ rw root (record { heap = λ c p q. v.edges c p q (ground arith); same = λ p. refl })
    | inr inner ↦ elim (Bool-cases (leb (key h (above i)) (key h i))) [
      | inl settled ↦
          rw (inner, settled)
            (record { heap = λ c p q. ground (arith, v.edges c); same = λ p. refl })
      | inr below ↦
          let pos : 0 < i = ground arith in
          let less : key h i < key h (above i) = ground arith in
          let rest =
            sift_up_loop_restores fuel (swap h (above i) i) n (above i) (omega arith)
              (swap-UpInv h n i v pos less) in
          rw (inner, below)
            (record {
              heap = rest.heap;
              same = λ p.
                  rest.same p ∙ tally-swap p h n (above i) i (omega (arith, v.inside)) v.inside;
            })
    ]
  ]

  -- The new leaf rises to its place.
  pub sift_up_restores : (h : ℕ → Event F) (n i : ℕ) → UpInv h n i → Sifted h (sift_up h i) n
  unfolding sift_up
  sift_up_restores h n i v = sift_up_loop_restores (i + 1) h n i (omega arith) v
