-- ===== src/Simulator/AddressMap.antt =====
-- src/simulator/simulator.c: which device an address of the board reaches.
use stm32_emulator.Base.{
  ℕ, ◌+◌, ◌%◌, ◌^◌, ◌≤◌, ◌<◌, ◌≡◌, refl, sym, ap, ◌∙◌, inl, inr, Bool, true, false, ◌&&◌, ◌||◌,
  none, some, List, [], ◌∷◌, arith, ltb, leb, add32, sub32,
}
use stm32_emulator.Bus.{BusRegion, bus_read, bus_write, in_region, bus_init, bus_register_region}
use stm32_emulator.Bus.Route.{Apart, Disjoint, Registered, bus_access-Registered}
use stm32_emulator.Status.{Status, ok, error, invalid_address}
use stm32_emulator.Memory.{
  flash_base, flash_size, sram_base, sram_size, memory_flash_read, memory_flash_write,
  memory_sram_write,
}
use stm32_emulator.Memory.RoundTrip.{IsBytes, IsSize, sram_read-sram_write_cases}
use stm32_emulator.Simulator.{Machine, Peripheral}
use stm32_emulator.Simulator.Board.{
  tim2_base, tim2_size, usart1_base, usart1_size, syst_base, syst_size, rcc_base, rcc_size,
  gpioa_base, gpiob_base, gpioc_base, gpio_size, nvic_bus_base, nvic_bus_size, timer_as_peripheral,
  systick_as_peripheral, rcc_as_peripheral, gpioa_p, gpiob_p, gpioc_p, uart_as_peripheral,
  nvic_bus_as_peripheral, flash_region, sram_region, register, board_bus,
}
use mathlib.Core.Path.{subst}

module _ {M : Type 0} where
  -- The region that a device is registered as.
  abbrev pub region_of : ℕ → ℕ → Peripheral M → BusRegion M
  region_of base size p = record { base = base; size = size; read = p.read; write = p.write }

  -- The region is not empty and ends within 32 bits.
  abbrev fits : BusRegion M → Bool
  fits r = ltb r.base (r.base + r.size) && ltb (r.base + r.size) (2 ^ 32)

  -- Two such regions lie one after the other.
  abbrev separate : BusRegion M → BusRegion M → Bool
  separate r q = leb (r.base + r.size) q.base || leb (q.base + q.size) r.base

  abbrev separate_all : BusRegion M → List (BusRegion M) → Bool
  separate_all r [] = true
  separate_all r (q ∷ rs) = separate r q && separate_all r rs

  abbrev well_placed : List (BusRegion M) → Bool
  well_placed [] = true
  well_placed (r ∷ rs) = fits r && separate_all r rs && well_placed rs

  well_placed-cons :
      (r : BusRegion M) (rs : List (BusRegion M))
      → well_placed (r ∷ rs) ≡ true
      → (fits r ≡ true) × (separate_all r rs ≡ true) × (well_placed rs ≡ true)
  well_placed-cons r rs h = (ground arith, ground arith, ground arith)

  pub inside :
      (r : BusRegion M) (addr : ℕ)
      → fits r ≡ true
      → in_region r addr ≡ (leb r.base addr && ltb addr (r.base + r.size))
  unfolding in_region
  inside r addr h = let whole : add32 r.base r.size ≡ r.base + r.size = ground arith in rw whole

  separate-apart :
      (r q : BusRegion M) (addr : ℕ)
      → fits r ≡ true
      → fits q ≡ true
      → separate r q ≡ true
      → in_region r addr ≡ true
      → in_region q addr ≡ false
  separate-apart r q addr fr fq s h = inside q addr fq ∙ ground (arith, inside r addr fr)

  placed-Apart :
      (r : BusRegion M) (rs : List (BusRegion M))
      → fits r ≡ true
      → separate_all r rs ≡ true
      → well_placed rs ≡ true
      → Apart r rs
  placed-Apart r [] fr s w = tt
  placed-Apart r (q ∷ rs) fr s w =
      let parts = well_placed-cons q rs w in
      (
        λ addr h. separate-apart r q addr fr parts.0 (ground arith) h,
        placed-Apart r rs fr (ground arith) parts.2,
      )

  placed-Disjoint : (rs : List (BusRegion M)) → well_placed rs ≡ true → Disjoint rs
  placed-Disjoint [] w = tt
  placed-Disjoint (r ∷ rs) w =
      let parts = well_placed-cons r rs w in
      (placed-Apart r rs parts.0 parts.1 parts.2, placed-Disjoint rs parts.2)

  Registered-fits :
      (r : BusRegion M) (rs : List (BusRegion M))
      → well_placed rs ≡ true
      → Registered r rs
      → fits r ≡ true
  Registered-fits r [] w m = absurd m
  Registered-fits r (q ∷ rs) w (inl e) = rw (sym e) ((well_placed-cons q rs w).0)
  Registered-fits r (q ∷ rs) w (inr m) = Registered-fits r rs (well_placed-cons q rs w).2 m

module _ {X : Type 0} where
  -- The device's own answer, null function pointers included.
  abbrev pub device_read : Peripheral (Machine X) → Machine X → ℕ → ℕ → ℕ × Machine X
  device_read p m offset width = elim p.read [ none ↦ (0, m) | some f ↦ f m offset width ]

  abbrev pub device_write : Peripheral (Machine X) → Machine X → ℕ → ℕ → ℕ → Status × Machine X
  device_write p m offset value width = elim p.write [
    | none ↦ (invalid_address, m)
    | some f ↦ f m offset value width
  ]

  abbrev pub board_regions : List (BusRegion (Machine X))
  board_regions =
      region_of 0x00000000 flash_size flash_region
      ∷ region_of flash_base flash_size flash_region
      ∷ region_of sram_base sram_size sram_region
      ∷ region_of tim2_base tim2_size timer_as_peripheral
      ∷ region_of syst_base syst_size systick_as_peripheral
      ∷ region_of rcc_base rcc_size rcc_as_peripheral
      ∷ region_of gpioa_base gpio_size gpioa_p
      ∷ region_of gpiob_base gpio_size gpiob_p
      ∷ region_of gpioc_base gpio_size gpioc_p
      ∷ region_of usart1_base usart1_size uart_as_peripheral
      ∷ region_of nvic_bus_base nvic_bus_size nvic_bus_as_peripheral
      ∷ []

  pub board_table : board_bus.regions ≡ board_regions
  unfolding board_bus register bus_init bus_register_region
  board_table = refl

  -- A device of the board, registered at `base`, answers every address from there on, up to its size: a
  -- read or write through the board's bus is that device's function at the offset.
  pub bus_access-device :
      (base size : ℕ) (p : Peripheral (Machine X)) (m : Machine X) (offset value width : ℕ)
      → Registered (region_of base size p) board_bus.regions
      → offset < size
      → (bus_read board_bus m (base + offset) width ≡ device_read p m offset width)
        × (bus_write board_bus m (base + offset) value width ≡ device_write p m offset value width)
  bus_access-device base size p m offset value width known lt =
      let listed : Registered (region_of base size p) board_regions =
        subst (λ rs. Registered (region_of base size p) rs) board_table known in
      let ok_region = Registered-fits (region_of base size p) board_regions refl listed in
      let here : in_region (region_of base size p) (base + offset) ≡ true =
        inside (region_of base size p) (base + offset) ok_region ∙ ground arith in
      let at : sub32 (base + offset) base ≡ offset = ground arith in
      let apart : Disjoint (board_bus {X = X}).regions =
        rw board_table (placed-Disjoint board_regions refl) in
      let r =
        bus_access-Registered board_bus m (region_of base size p) (base + offset) value width apart
          known here in
      (
        r.0 ∙ ap (λ o. device_read p m o width) at,
        r.1 ∙ ap (λ o. device_write p m o value width) at,
      )

  -- A read of flash is the same at address 0 and at the flash's own address; a write there is refused
  -- and changes nothing.
  pub flash_alias :
      (m : Machine X) (offset value width : ℕ)
      → offset < flash_size
      → (bus_read board_bus m offset width ≡ bus_read board_bus m (flash_base + offset) width)
        × (bus_read board_bus m offset width ≡ (memory_flash_read m.memory offset width, m))
        × (bus_write board_bus m offset value width ≡ (error, m))
        × (bus_write board_bus m (flash_base + offset) value width ≡ (error, m))
  unfolding flash_region memory_flash_write
  flash_alias m offset value width lt =
      let start : 0 + offset ≡ offset = omega arith in
      let low =
        bus_access-device 0 flash_size flash_region m offset value width (rw board_table (inl refl))
          lt in
      let low_read =
        subst (λ a. bus_read board_bus m a width ≡ device_read flash_region m offset width) start
          low.0 in
      let low_write =
        subst
          (λ a.
            bus_write board_bus m a value width ≡ device_write flash_region m offset value width)
          start low.1 in
      let high =
        bus_access-device flash_base flash_size flash_region m offset value width
          (rw board_table (inr (inl refl))) lt in
      (low_read ∙ sym high.0, low_read, low_write, high.1)

  -- A write within SRAM through the board's bus succeeds; reading the address again gives the value cut
  -- to its width, and nothing of the machine but the memory has changed, of which flash is kept.
  pub sram_write_read :
      (m : Machine X) (offset value width : ℕ)
      → IsBytes m.memory
      → IsSize width
      → offset + width ≤ sram_size
      → let r : Status × Machine X = bus_write board_bus m (sram_base + offset) value width in
        (r.0 ≡ ok)
        × (bus_read board_bus r.1 (sram_base + offset) width ≡ (value % 256 ^ width, r.1))
        × (r.1 ≡ record m { memory = r.1.memory })
        × (r.1.memory.flash ≡ m.memory.flash)
        × IsBytes r.1.memory
  unfolding sram_region
  sram_write_read m offset value width b s lt =
      let wide : 0 < width = elim s [
        | inl e ↦ ground arith
        | inr (inl e) ↦ ground arith
        | inr (inr e) ↦ ground arith
      ] in
      let known : Registered (region_of sram_base sram_size sram_region)
          (board_bus {X = X}).regions =
        rw board_table (inr (inr (inl refl))) in
      let after : Machine X = record m {
        memory = (memory_sram_write m.memory offset value width).1;
      } in
      let access =
        bus_access-device sram_base sram_size sram_region m offset value width known
          (omega arith) in
      let again =
        bus_access-device sram_base sram_size sram_region after offset value width known
          (omega arith) in
      let kept = (sram_read-sram_write_cases m.memory offset value width b s (omega arith)).0 lt in
      rw access.1 (kept.0, again.0 ∙ rw kept.1, refl, kept.3, kept.4)
