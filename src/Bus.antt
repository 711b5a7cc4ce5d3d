-- ===== src/Bus.antt =====
-- src/bus/bus.c: the system bus. A region's `ctx` pointer and its two function pointers are one
-- function on the machine `M` that the pointers reach into; `none` is a null function pointer.
-- The first `num_regions` entries of `regions[24]` are a list. The messages on stderr are left out.
pub mod Route
use stm32_emulator.Base.{ℕ, zero, suc, ◌-◌, Bool, ◌&&◌, Option, none, some, List, [], ◌∷◌, ◌++◌}
use stm32_emulator.Base.{leb, ltb, if◌then◌else◌, u32, sub32, add32, ◌+◌}
use stm32_emulator.Status.{Status, ok, error, invalid_address}

-- `BusRegion`
pub record BusRegion (M : Type 0) : Type 0 where
  pub base : ℕ
  pub size : ℕ
  pub read : Option (M → ℕ → ℕ → ℕ × M)
  pub write : Option (M → ℕ → ℕ → ℕ → Status × M)

-- `BUS_MAX_REGIONS`
abbrev pub bus_max_regions : ℕ
bus_max_regions = 24

-- `Bus`
pub record Bus (M : Type 0) : Type 0 where
  pub regions : List (BusRegion M)

-- `num_regions`
abbrev pub num_regions {ℓ} : {A : Type ℓ} → List A → ℕ
num_regions [] = 0
num_regions (r ∷ rs) = suc (num_regions rs)

module _ {M : Type 0} where
  unfoldable pub bus_init : Bus M
  bus_init = record { regions = [] }

  unfoldable pub bus_register_region :
      Bus M
      → ℕ
      → ℕ
      → Option (M → ℕ → ℕ → ℕ × M)
      → Option (M → ℕ → ℕ → ℕ → Status × M)
      → Status × Bus M
  bus_register_region bus base size read_fn write_fn =
      if leb bus_max_regions (num_regions bus.regions) then (error, bus) else (
        ok,
        record {
          regions =
              bus.regions
              ++ record { base = base; size = size; read = read_fn; write = write_fn } ∷ [];
        },
      )

  -- The test of the loop; the end of the region is computed in 32 bits.
  unfoldable pub in_region : BusRegion M → ℕ → Bool
  in_region r addr = leb r.base addr && ltb addr (add32 r.base r.size)

  unfoldable pub find_in : List (BusRegion M) → ℕ → Option (BusRegion M)
  find_in [] addr = none
  find_in (r ∷ rs) addr = if in_region r addr then some r else find_in rs addr

  unfoldable pub find_region : Bus M → ℕ → Option (BusRegion M)
  find_region bus addr = find_in bus.regions addr

  unfoldable pub bus_read : Bus M → M → ℕ → ℕ → ℕ × M
  bus_read bus m addr size = elim (find_region bus addr) [
    | none ↦ (0, m)
    | some r ↦ elim r.read [ none ↦ (0, m) | some f ↦ f m (sub32 addr r.base) size ]
  ]

  unfoldable pub bus_write : Bus M → M → ℕ → ℕ → ℕ → Status × M
  bus_write bus m addr value size = elim (find_region bus addr) [
    | none ↦ (invalid_address, m)
    | some r ↦ elim r.write [
      | none ↦ (invalid_address, m)
      | some f ↦ f m (sub32 addr r.base) value size
    ]
  ]
