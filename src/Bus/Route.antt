-- ===== src/Bus/Route.antt =====
-- src/bus/bus.c: which region an address reaches.
use stm32_emulator.Base.{
  cases_of, lt_or_ge, Bool-cases, ◌⊎◌, ℕ, ◌≤◌, ◌<◌, ◌≡◌, refl, ◌∙◌, inl, inr, true, false, Option,
  none, some, List, [], ◌∷◌, ◌++◌, arith, leb, if◌then◌else◌, sub32,
}
use stm32_emulator.Status.{Status, ok, error, invalid_address}
use stm32_emulator.Bus.{
  BusRegion, Bus, bus_max_regions, num_regions, bus_register_region, in_region, find_in,
  find_region, bus_read, bus_write,
}

module _ {M : Type 0} where
  -- No region of the list holds the address.
  abbrev pub Unmapped : ℕ → List (BusRegion M) → Type 0
  Unmapped addr [] = Unit {0}
  Unmapped addr (q ∷ rs) = (in_region q addr ≡ false) × Unmapped addr rs

  -- No address lies both in `r` and in a region of the list.
  abbrev pub Apart : BusRegion M → List (BusRegion M) → Type 0
  Apart r [] = Unit {0}
  Apart r (q ∷ rs) = ((addr : ℕ) → in_region r addr ≡ true → in_region q addr ≡ false) × Apart r rs

  -- No two regions of the list share an address.
  abbrev pub Disjoint : List (BusRegion M) → Type 0
  Disjoint [] = Unit {0}
  Disjoint (r ∷ rs) = Apart r rs × Disjoint rs

  -- `r` is an entry of the list.
  abbrev pub Registered : BusRegion M → List (BusRegion M) → Type 0
  Registered r [] = ⊥
  Registered r (q ∷ rs) = (q ≡ r) ⊎ Registered r rs

  find_in-append :
      (rs qs : List (BusRegion M)) (addr : ℕ)
      → find_in (rs ++ qs) addr
        ≡ elim (find_in rs addr) [ none ↦ find_in qs addr | some r ↦ some r ]
  unfolding find_in
  find_in-append [] qs addr = refl
  find_in-append (r ∷ rs) qs addr = elim (Bool-cases (in_region r addr)) [
    | inl e ↦ rw e
    | inr e ↦ rw e (find_in-append rs qs addr)
  ]

  find_in-Unmapped :
      (rs : List (BusRegion M)) (addr : ℕ) → Unmapped addr rs → find_in rs addr ≡ none
  unfolding find_in
  find_in-Unmapped [] addr h = refl
  find_in-Unmapped (r ∷ rs) addr h = rw h.0 (find_in-Unmapped rs addr h.1)

  in_later :
      (r q : BusRegion M) (rs : List (BusRegion M)) (addr : ℕ)
      → Apart q rs
      → Registered r rs
      → in_region r addr ≡ true
      → in_region q addr ≡ false
  in_later r q [] addr a m h = absurd m
  in_later r q (p ∷ rs) addr a (inl e) h = elim (Bool-cases (in_region q addr)) [
    | inl both ↦ cc (a.0 addr both, h, e)
    | inr off ↦ off
  ]
  in_later r q (p ∷ rs) addr a (inr m) h = in_later r q rs addr a.1 m h

  find_in-Registered :
      (r : BusRegion M) (rs : List (BusRegion M)) (addr : ℕ)
      → Disjoint rs
      → Registered r rs
      → in_region r addr ≡ true
      → find_in rs addr ≡ some r
  unfolding find_in
  find_in-Registered r [] addr d m h = absurd m
  find_in-Registered r (q ∷ rs) addr d (inl e) h = rw (e, h)
  find_in-Registered r (q ∷ rs) addr d (inr m) h =
      rw (in_later r q rs addr d.0 m h) (find_in-Registered r rs addr d.1 m h)

  -- On a bus whose regions share no address, an access to an address of a registered region
  -- calls exactly that region's functions, at the offset from its base, wherever it stands in
  -- the table; a null function pointer reads as 0 and refuses a write.
  pub bus_access-Registered :
      (bus : Bus M) (m : M) (r : BusRegion M) (addr value size : ℕ)
      → Disjoint bus.regions
      → Registered r bus.regions
      → in_region r addr ≡ true
      → (bus_read bus m addr size
          ≡ elim r.read [ none ↦ (0, m) | some f ↦ f m (sub32 addr r.base) size ])
        × (bus_write bus m addr value size ≡ elim r.write [
          | none ↦ (invalid_address, m)
          | some f ↦ f m (sub32 addr r.base) value size
        ])
  unfolding bus_read bus_write find_region
  bus_access-Registered bus m r addr value size d k h =
      let found = find_in-Registered r bus.regions addr d k h in
      (rw (found, bus_read), rw (found, bus_write))

  -- An address outside every region reads as 0, refuses a write, and neither changes the machine.
  pub bus_access-Unmapped :
      (bus : Bus M) (m : M) (addr value size : ℕ)
      → Unmapped addr bus.regions
      → (bus_read bus m addr size ≡ (0, m))
        × (bus_write bus m addr value size ≡ (invalid_address, m))
  unfolding bus_read bus_write find_region
  bus_access-Unmapped bus m addr value size h =
      let missing = find_in-Unmapped bus.regions addr h in
      (rw (missing, bus_read), rw (missing, bus_write))

  -- Each branch under its own condition.
  pub find_region-register_cases :
      (bus : Bus M) (base size : ℕ) (rd : Option (M → ℕ → ℕ → ℕ × M))
      (wr : Option (M → ℕ → ℕ → ℕ → Status × M)) (addr : ℕ)
      → let r : BusRegion M = record { base = base; size = size; read = rd; write = wr } in
        let after : Status × Bus M = bus_register_region bus base size rd wr in
        (num_regions bus.regions < bus_max_regions
          → (after.0 ≡ ok)
            × (find_region after.1 addr ≡ elim (find_region bus addr) [
              | none ↦ if in_region r addr then some r else none
              | some old ↦ some old
            ]))
        × (bus_max_regions ≤ num_regions bus.regions → after ≡ (error, bus))
  unfolding bus_register_region find_region
  find_region-register_cases bus base size rd wr addr = (
    λ room.
        let open_table : leb bus_max_regions (num_regions bus.regions) ≡ false = ground arith in
        (rw open_table, rw open_table (found room)),
    λ full.
        let shut : leb bus_max_regions (num_regions bus.regions) ≡ true = ground arith in rw shut,
  )
    where
      new : BusRegion M
      new = record { base = base; size = size; read = rd; write = wr }

      same :
          (o : Option (BusRegion M))
          → ◌≡◌ {A = Option (BusRegion M)}
              (elim o [ none ↦ find_in (new ∷ []) addr | some r ↦ some r ])
              (elim o [
                | none ↦ if in_region new addr then some new else none
                | some old ↦ some old
              ])
      same none = unfold find_in in refl
      same (some r) = refl

      found :
          num_regions bus.regions < bus_max_regions
          → find_in (bus.regions ++ new ∷ []) addr ≡ elim (find_in bus.regions addr) [
            | none ↦ if in_region new addr then some new else none
            | some old ↦ some old
          ]
      found room = find_in-append bus.regions (new ∷ []) addr ∙ same (find_in bus.regions addr)

  -- A registration on a bus with a free entry succeeds; afterwards an address that reached a
  -- region still reaches it, and any other reaches the new region exactly if that holds it. A full
  -- table refuses the registration and stays as it is.
  pub find_region-register :
      (bus : Bus M) (base size : ℕ) (rd : Option (M → ℕ → ℕ → ℕ × M))
      (wr : Option (M → ℕ → ℕ → ℕ → Status × M)) (addr : ℕ)
      → let r : BusRegion M = record { base = base; size = size; read = rd; write = wr } in
        let after : Status × Bus M = bus_register_region bus base size rd wr in
        ((num_regions bus.regions < bus_max_regions)
          × ((after.0 ≡ ok)
              × (find_region after.1 addr ≡ elim (find_region bus addr) [
                | none ↦ if in_region r addr then some r else none
                | some old ↦ some old
              ])))
        ⊎ ((bus_max_regions ≤ num_regions bus.regions) × (after ≡ (error, bus)))
  find_region-register bus base size rd wr addr =
      cases_of (lt_or_ge _ _) (find_region-register_cases bus base size rd wr addr)
