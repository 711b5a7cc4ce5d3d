-- ===== src/Events/Down.antt =====
-- src/events/event_queue.c: `sift_down` restores the heap order.
use stm32_emulator.Base.{
  ℕ, zero, suc, ◌+◌, ◌*◌, ◌≤◌, ◌<◌, ◌≡◌, refl, ◌∙◌, ◌≢◌, ◌⊎◌, inl, inr, arith, ◌==◌, Bool-cases,
}
use stm32_emulator.Events.{Event, swap, smallest_of, sift_down_loop, sift_down}
use stm32_emulator.Events.Tally.{tally-swap}
use stm32_emulator.Events.Up.{above, key, IsHeap, IsBridged, Sifted}

module _ {F : Type 0} where
  -- Only the edges under `i` may be out of order.
  pub record DownInv (h : ℕ → Event F) (n i : ℕ) : Type 0 where
    pub inside : i < n
    pub edges : (c : ℕ) → 0 < c → c < n → above c ≢ i → key h (above c) ≤ key h c
    pub bridged : IsBridged h n i

  -- What `smallest_of` finds: `i` itself if it may stay, or else its least child.
  record IsSmallest (h : ℕ → Event F) (n i m : ℕ) : Type 0 where
    inside : m < n
    least : (c : ℕ) → 0 < c → c < n → above c ≡ i → key h m ≤ key h c
    child : (m ≡ i) ⊎ ((0 < m) × (above m ≡ i) × (i < m) × (key h m < key h i))

  smallest_of-IsSmallest :
      (h : ℕ → Event F) (n i : ℕ) → i < n → IsSmallest h n i (smallest_of h n i)
  unfolding smallest_of
  smallest_of-IsSmallest h n i lt = record {
    inside = ground arith;
    least = λ c p q r. children c p q r (which c p r);
    child = ground arith;
  }
    where
      which : (c : ℕ) → 0 < c → above c ≡ i → (c ≡ 2 * i + 1) ⊎ (c ≡ 2 * i + 2)
      which c p r = omega arith

      children :
          (c : ℕ)
          → 0 < c
          → c < n
          → above c ≡ i
          → (c ≡ 2 * i + 1) ⊎ (c ≡ 2 * i + 2)
          → key h (smallest_of h n i) ≤ key h c
      children c p q r (inl e) = rw e (ground arith)
      children c p q r (inr e) = rw e (ground arith)

  swap-DownInv :
      (h : ℕ → Event F) (n i m : ℕ)
      → DownInv h n i
      → IsSmallest h n i m
      → 0 < m
      → above m ≡ i
      → i < m
      → key h m < key h i
      → DownInv (swap h i m) n m
  unfolding swap
  swap-DownInv h n i m v s pos up over below = record {
    inside = s.inside;
    edges = λ c p q r. ground (arith, v.edges c, v.bridged m, s.least c, s.inside, v.inside);
    bridged = λ c p q r t. ground (arith, v.edges c, s.inside, v.inside);
  }

  sift_down_loop_restores :
      (fuel : ℕ) (h : ℕ → Event F) (n i : ℕ)
      → n < fuel + i
      → DownInv h n i
      → Sifted h (sift_down_loop fuel h n i) n
  unfolding sift_down_loop
  sift_down_loop_restores zero h n i f v = absurd (omega (arith, v.inside))
  sift_down_loop_restores (suc fuel) h n i f v =
      let s = smallest_of-IsSmallest h n i v.inside in
      elim (Bool-cases (smallest_of h n i == i)) [
        | inl stays ↦
            rw stays
              (record { heap = λ c p q. ground (arith, v.edges c, s.least c); same = λ p. refl })
        | inr falls ↦ elim s.child [
          | inl stays ↦ absurd (ground arith)
          | inr (pos, over, up, below) ↦
              let m = smallest_of h n i in
              let rest =
                sift_down_loop_restores fuel (swap h i m) n m (omega arith)
                  (swap-DownInv h n i m v s pos over up below) in
              rw falls (record {
                heap = rest.heap;
                same = λ p. rest.same p ∙ tally-swap p h n i m v.inside s.inside;
              })
        ]
      ]

  -- The new root sinks to its place.
  pub sift_down_restores :
      (h : ℕ → Event F) (n i : ℕ) → DownInv h n i → Sifted h (sift_down h n i) n
  unfolding sift_down
  sift_down_restores h n i v = sift_down_loop_restores (n + 1) h n i (omega arith) v

  least_below :
      (fuel : ℕ) (h : ℕ → Event F) (n i : ℕ) → IsHeap h n → i < fuel → i < n → key h 0 ≤ key h i
  least_below zero h n i v f lt = absurd (omega arith)
  least_below (suc fuel) h n i v f lt = ground (arith, v i, least_below fuel h n (above i) v)

  -- The root of a heap is its earliest event.
  pub root_least : (h : ℕ → Event F) (n i : ℕ) → IsHeap h n → i < n → key h 0 ≤ key h i
  root_least h n i v lt = least_below (suc i) h n i v (omega arith) lt
