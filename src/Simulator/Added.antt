-- ===== src/Simulator/Added.antt =====
-- src/simulator/simulator.c: `simulator_add_peripheral`, and which device an address reaches after it.
use stm32_emulator.Base.{
  ℕ, ◌+◌, ◌-◌, ◌^◌, ◌≤◌, ◌<◌, ◌≡◌, refl, sym, ap, ◌∙◌, ◌⊎◌, inl, inr, true, false, ◌&&◌, none, some,
  [], ◌∷◌, ◌++◌, arith, ltb, leb, nonzero, if◌then◌else◌, sub32, Bool-cases, Option,
}
use stm32_emulator.Status.{Status, ok, invalid_address}
use stm32_emulator.Bus.{
  BusRegion, Bus, bus_max_regions, num_regions, bus_register_region, find_region, in_region,
  bus_read, bus_write,
}
use stm32_emulator.Bus.Route.{find_region-register_cases}
use stm32_emulator.Simulator.{Machine, Peripheral, Simulator, sim_max_peripherals}
use stm32_emulator.Simulator.Control.{num_peripherals, simulator_add_peripheral}
use stm32_emulator.Simulator.AddressMap.{region_of, inside, device_read, device_write}

module _ {X : Type 0} where
  -- Both tables have a free entry, and the device's range is not empty, does not begin at 0, and ends
  -- within 32 bits.
  pub record CanAdd (sim : Simulator X) (base size : ℕ) : Type 0 where
    pub slot : num_peripherals sim.peripherals < sim_max_peripherals
    pub region : num_regions sim.bus.regions < bus_max_regions
    pub above : 0 < base
    pub some_size : 0 < size
    pub word : base + size < 2 ^ 32

  added_bus :
      (sim : Simulator X) (p : Peripheral (Machine X)) (base size : ℕ)
      → CanAdd sim base size
      → simulator_add_peripheral sim p base size ≡ (
        ok,
        record sim {
          bus = (bus_register_region sim.bus base size p.read p.write).1;
          peripherals = sim.peripherals ++ p ∷ [];
        },
      )
  unfolding simulator_add_peripheral
  added_bus sim p base size c =
      let room : leb sim_max_peripherals (num_peripherals sim.peripherals) ≡ false =
        ground (arith, c.slot) in
      let fine = (find_region-register_cases sim.bus base size p.read p.write 0).0 c.region in
      let placed : nonzero base ≡ true = ground (arith, c.above) in
      let sized : nonzero size ≡ true = ground (arith, c.some_size) in
      rw (room, placed, sized, fine.0) refl

  -- What two buses answer at an address is the same.
  abbrev pub SameAccess : Bus (Machine X) → Bus (Machine X) → Machine X → ℕ → ℕ → ℕ → Type 0
  SameAccess bus before m addr value width =
      (bus_read bus m addr width ≡ bus_read before m addr width)
      × (bus_write bus m addr value width ≡ bus_write before m addr value width)

  -- What a bus answers at an address, with the new device behind an older bus.
  abbrev pub Reaches :
      Bus (Machine X)
      → Bus (Machine X)
      → Peripheral (Machine X)
      → ℕ
      → ℕ
      → Machine X
      → ℕ
      → ℕ
      → ℕ
      → Type 0
  Reaches bus before p base size m addr value width =
      ((q : BusRegion (Machine X)) × (find_region before addr ≡ some q)
        × SameAccess bus before m addr value width)
      ⊎ (((find_region before addr ≡ none)
            × (base ≤ addr)
            × (addr < base + size)
            × (bus_read bus m addr width ≡ device_read p m (addr - base) width)
            × (bus_write bus m addr value width ≡ device_write p m (addr - base) value width))
          ⊎ ((find_region before addr ≡ none)
              × ((addr < base) ⊎ (base + size ≤ addr))
              × (bus_read bus m addr width ≡ (0, m))
              × (bus_write bus m addr value width ≡ (invalid_address, m))))

  -- An address by the region that it is found in.
  at_region :
      (bus : Bus (Machine X)) (r : Option (BusRegion (Machine X))) (m : Machine X)
      (addr value width : ℕ)
      → find_region bus addr ≡ r
      → (bus_read bus m addr width ≡ elim r [
        | none ↦ (0, m)
        | some q ↦ elim q.read [ none ↦ (0, m) | some f ↦ f m (sub32 addr q.base) width ]
      ])
        × (bus_write bus m addr value width ≡ elim r [
          | none ↦ (invalid_address, m)
          | some q ↦ elim q.write [
            | none ↦ (invalid_address, m)
            | some f ↦ f m (sub32 addr q.base) value width
          ]
        ])
  unfolding bus_read bus_write
  at_region bus r m addr value width e = (rw (bus_read, e) refl, rw (bus_write, e) refl)

  module _ (sim : Simulator X) (p : Peripheral (Machine X)) (base size : ℕ)
      (c : CanAdd sim base size) (m : Machine X) (addr value width : ℕ) where
    after : Bus (Machine X)
    after = (bus_register_region sim.bus base size p.read p.write).1

    found : find_region after addr ≡ elim (find_region sim.bus addr) [
      | none ↦ if in_region (region_of base size p) addr then some (region_of base size p) else none
      | some old ↦ some old
    ]
    unfolding after
    found = ((find_region-register_cases sim.bus base size p.read p.write addr).0 c.region).1

    fits_word : (ltb base (base + size) && ltb (base + size) (2 ^ 32)) ≡ true
    fits_word = ground (arith, c.some_size, c.word)

    reached :
        (o : Option (BusRegion (Machine X)))
        → find_region sim.bus addr ≡ o
        → Reaches after sim.bus p base size m addr value width
    reached (some q) e =
        let now = at_region after (some q) m addr value width (found ∙ rw e) in
        let old = at_region sim.bus (some q) m addr value width e in
        inl (q, e, (now.0 ∙ sym old.0, now.1 ∙ sym old.1))
    reached none e = elim (Bool-cases (in_region (region_of base size p) addr)) [
      | inl within ↦
          (let now =
              at_region after (some (region_of base size p)) m addr value width
                (found ∙ rw (e, within)) in
            let span = sym (inside (region_of base size p) addr fits_word) ∙ within in
            let at : sub32 addr base ≡ addr - base = ground (arith, c.word, span) in
            inr (
              inl (
                e,
                ground (arith, span),
                ground (arith, span),
                now.0 ∙ ap (λ o. device_read p m o width) at,
                now.1 ∙ ap (λ o. device_write p m o value width) at,
              )))
      | inr outside ↦
          (let now = at_region after none m addr value width (found ∙ rw (e, outside)) in
            let span = sym (inside (region_of base size p) addr fits_word) ∙ outside in
            inr (inr (e, ground (arith, span), now.0, now.1)))
    ]

  -- Both tables have a free entry, and the range is not empty, does not begin at 0 and ends within 32 bits.
  -- Then adding the peripheral succeeds, and the device stands last in the list. An address
  -- that reached a device before reaches the same one. Any other within the range of the new device
  -- reaches that, at the offset from its base: a null read function reads as 0, and a null write function
  -- refuses the write. Outside the range an address that reached nothing still reads as 0 and refuses
  -- the write.
  pub bus_access-simulator_add_peripheral :
      (sim : Simulator X) (p : Peripheral (Machine X)) (base size : ℕ) (m : Machine X)
      (addr value width : ℕ)
      → CanAdd sim base size
      → let r : Status × Simulator X = simulator_add_peripheral sim p base size in
        (r.0 ≡ ok)
        × (r.1.peripherals ≡ sim.peripherals ++ p ∷ [])
        × Reaches r.1.bus sim.bus p base size m addr value width
  unfolding after
  bus_access-simulator_add_peripheral sim p base size m addr value width c =
      rw (added_bus sim p base size c)
        (refl, refl, reached sim p base size c m addr value width (find_region sim.bus addr) refl)
