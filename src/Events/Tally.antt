-- ===== src/Events/Tally.antt =====
-- src/events/event_queue.c: how many queued events satisfy a test. Two queues hold the same events
-- when this agrees for every test.
use stm32_emulator.Base.{
  ℕ, zero, suc, ◌+◌, ◌-◌, ◌≤◌, ◌<◌, ◌≡◌, refl, ap, Bool, true, false, arith, ◌==◌, of_bool, ==_refl,
  ne→==, update,
}
use native.Mathlib.Decide.{ℕ_discrete}
use native.Mathlib.Numerals.{add-one}
use stm32_emulator.Events.{Event, swap}

module _ {F : Type 0} where
  unfoldable pub tally : (Event F → Bool) → (ℕ → Event F) → ℕ → ℕ
  tally p h zero = 0
  tally p h (suc n) = tally p h n + of_bool (p (h n))

  pub tally-update_out :
      (p : Event F → Bool) (h : ℕ → Event F) (n i : ℕ) (e : Event F)
      → n ≤ i
      → tally p (update h i e) n ≡ tally p h n
  unfolding tally
  tally-update_out p h zero i e le = refl
  tally-update_out p h (suc n) i e le =
      let other : (i == n) ≡ false = ground arith in
      rw (other, tally-update_out p h n i e (omega arith))

  pub tally-update :
      (p : Event F → Bool) (h : ℕ → Event F) (n i : ℕ) (e : Event F)
      → i < n
      → tally p (update h i e) n + of_bool (p (h i)) ≡ tally p h n + of_bool (p e)
  unfolding tally
  tally-update p h zero i e lt = absurd (omega arith)
  tally-update p h (suc n) i e lt = elim (ℕ_discrete i n) [
    | yes same ↦
        let here : update h i e n ≡ e = rw same (rw (==_refl n)) in
        omega (
          arith,
          ap (λ (x : Event F). of_bool (p x)) here,
          ap (λ (k : ℕ). of_bool (p (h k))) same,
          tally-update_out p h n i e (omega arith),
        )
    | no other ↦ rw (ne→== i n other) (omega (arith, tally-update p h n i e (omega arith)))
  ]

  pub tally-append :
      (p : Event F → Bool) (h : ℕ → Event F) (n : ℕ) (e : Event F)
      → tally p (update h n e) (n + 1) ≡ tally p h n + of_bool (p e)
  unfolding tally
  tally-append p h n e = rw (add-one n) (rw (==_refl n, tally-update_out p h n n e (omega arith)))

  pub tally-last :
      (p : Event F → Bool) (h : ℕ → Event F) (n : ℕ)
      → 0 < n
      → tally p h n ≡ tally p h (n - 1) + of_bool (p (h (n - 1)))
  unfolding tally
  tally-last p h zero lt = absurd (omega arith)
  tally-last p h (suc n) lt = let one_less : suc n - 1 ≡ n = omega arith in rw one_less

  pub tally-swap :
      (p : Event F → Bool) (h : ℕ → Event F) (n i j : ℕ)
      → i < n
      → j < n
      → tally p (swap h i j) n ≡ tally p h n
  unfolding swap
  tally-swap p h n i j hi hj =
      ground (arith, tally-update p h n i (h j) hi, tally-update p (update h i (h j)) n j (h i) hj)

  -- A tally is 0 when the test fails at every event.
  pub tally-zero :
      (p : Event F → Bool) (h : ℕ → Event F) (n : ℕ)
      → ((i : ℕ) → i < n → p (h i) ≡ false)
      → tally p h n ≡ 0
  unfolding tally
  tally-zero p h zero k = refl
  tally-zero p h (suc n) k =
      rw (k n (omega arith), tally-zero p h n (λ i lt. k i (omega arith))) refl

  pub tally_none :
      (p : Event F → Bool) (h : ℕ → Event F) (n i : ℕ) → tally p h n ≡ 0 → i < n → p (h i) ≡ false
  unfolding tally
  tally_none p h zero i z lt = absurd (omega arith)
  tally_none p h (suc n) i z lt = elim (ℕ_discrete i n) [
    | yes same ↦ rw same (ground arith)
    | no other ↦ tally_none p h n i (omega arith) (omega arith)
  ]

  -- One event that satisfies the test is counted.
  pub tally-pos :
      (p : Event F → Bool) (h : ℕ → Event F) (n i : ℕ) → i < n → p (h i) ≡ true → 0 < tally p h n
  tally-pos p h n i lt yes_p = elim (ℕ_discrete (tally p h n) 0) [
    | yes z ↦ absurd (cc (tally_none p h n i z lt, yes_p))
    | no nz ↦ omega arith
  ]
