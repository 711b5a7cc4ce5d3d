-- ===== src/Memory/RoundTrip.antt =====
-- src/memory/memory.c: what a read returns after a write.
use stm32_emulator.Base.{
  cases_of, ge_or_lt, ◌⊎◌, ℕ, ◌+◌, ◌*◌, ◌/◌, ◌%◌, ◌^◌, ◌≤◌, ◌<◌, ◌≡◌, refl, inl, inr, true, false,
  ◌&&◌, arith, ltb, leb, ◌==◌, if◌then◌else◌, lt→ltb, le→ltb, add32,
}
use stm32_emulator.Status.{Status, ok, invalid_address}
use stm32_emulator.Base.{two_bytes, four_bytes}
use stm32_emulator.Memory.{
  Memory, read_le, write_le, memory_sram_read, memory_sram_write, sram_size,
}

-- Every byte of both arrays is a byte.
pub record IsBytes (mem : Memory) : Type 0 where
  pub flash_bytes : (i : ℕ) → mem.flash i < 256
  pub sram_bytes : (i : ℕ) → mem.sram i < 256

-- The sizes that the core uses.
abbrev pub IsSize : ℕ → Type 0
IsSize size = (size ≡ 1) ⊎ ((size ≡ 2) ⊎ (size ≡ 4))

-- What the four sizes of a read give, as numbers.
read_le_value :
    (base : ℕ → ℕ) (offset : ℕ)
    → ((i : ℕ) → base i < 256)
    → (read_le base offset 1 ≡ base offset)
      × (read_le base offset 2 ≡ base offset + base (offset + 1) * 256)
      × (read_le base offset 4
          ≡ base offset
            + base (offset + 1) * 256
            + base (offset + 2) * 65536
            + base (offset + 3) * 16777216)
unfolding read_le
read_le_value base offset h = (
  refl,
  two_bytes (base offset) (base (offset + 1)) (h offset) (h (offset + 1)),
  four_bytes (base offset) (base (offset + 1)) (base (offset + 2)) (base (offset + 3)) (h offset)
      (h (offset + 1)) (h (offset + 2)) (h (offset + 3)),
)

-- Within the range a write stores the value's bytes, lowest first; outside it changes nothing.
pub write_le-get :
    (base : ℕ → ℕ) (offset value size j : ℕ)
    → IsSize size
    → write_le base offset value size j ≡ (
        if j == offset
        then value % 256
        else if j == offset + 1 && leb 2 size
        then value / 256 % 256
        else if j == offset + 2 && leb 4 size
        then value / 65536 % 256
        else if j == offset + 3 && leb 4 size
        then value / 16777216 % 256
        else base j)
unfolding write_le
write_le-get base offset value size j (inl e) = rw e (ground arith)
write_le-get base offset value size j (inr (inl e)) = rw e (ground arith)
write_le-get base offset value size j (inr (inr e)) = rw e (ground arith)

write_le-bytes :
    (base : ℕ → ℕ) (offset value size : ℕ)
    → IsSize size
    → ((i : ℕ) → base i < 256)
    → (i : ℕ) → write_le base offset value size i < 256
write_le-bytes base offset value size s h i =
    rw (write_le-get base offset value size i s) (ground (arith, h i))

-- What a write leaves at each of its bytes.
write_le-at :
    (base : ℕ → ℕ) (offset value size : ℕ)
    → IsSize size
    → (write_le base offset value size offset ≡ value % 256)
      × (2 ≤ size → write_le base offset value size (offset + 1) ≡ value / 256 % 256)
      × (4 ≤ size → write_le base offset value size (offset + 2) ≡ value / 65536 % 256)
      × (4 ≤ size → write_le base offset value size (offset + 3) ≡ value / 16777216 % 256)
write_le-at base offset value size s = (
  rw (write_le-get base offset value size offset s) (ground arith),
  λ h. rw (write_le-get base offset value size (offset + 1) s) (ground arith),
  λ h. rw (write_le-get base offset value size (offset + 2) s) (ground arith),
  λ h. rw (write_le-get base offset value size (offset + 3) s) (ground arith),
)

pub read_le-write_le :
    (base : ℕ → ℕ) (offset value size : ℕ)
    → IsSize size
    → ((i : ℕ) → base i < 256)
    → read_le (write_le base offset value size) offset size ≡ value % 256 ^ size
read_le-write_le base offset value size s h = elim s [
  | inl e ↦
      rw e (omega (arith, (value_of 1 (inl refl)).0, write_le-at base offset value 1 (inl refl)))
  | inr (inl e) ↦ rw e (
      omega (
        arith,
        (value_of 2 (inr (inl refl))).1,
        (write_le-at base offset value 2 (inr (inl refl))).0,
        (write_le-at base offset value 2 (inr (inl refl))).1 (omega arith),
      ))
  | inr (inr e) ↦ rw e (
      omega (
        arith,
        (value_of 4 (inr (inr refl))).2,
        (write_le-at base offset value 4 (inr (inr refl))).0,
        (write_le-at base offset value 4 (inr (inr refl))).1 (omega arith),
        (write_le-at base offset value 4 (inr (inr refl))).2 (omega arith),
        (write_le-at base offset value 4 (inr (inr refl))).3 (omega arith),
      ))
]
  where
    value_of :
        (n : ℕ) (t : IsSize n)
        → let b : ℕ → ℕ = write_le base offset value n in
          (read_le b offset 1 ≡ b offset)
          × (read_le b offset 2 ≡ b offset + b (offset + 1) * 256)
          × (read_le b offset 4
              ≡ b offset
                + b (offset + 1) * 256
                + b (offset + 2) * 65536
                + b (offset + 3) * 16777216)
    value_of n t =
        read_le_value (write_le base offset value n) offset (write_le-bytes base offset value n t h)

-- Each branch under its own condition.
pub sram_read-sram_write_cases :
    (mem : Memory) (offset value size : ℕ)
    → IsBytes mem
    → IsSize size
    → offset < 2 ^ 31
    → let r : Status × Memory = memory_sram_write mem offset value size in
      (offset + size ≤ sram_size
        → (r.0 ≡ ok)
          × (memory_sram_read r.1 offset size ≡ value % 256 ^ size)
          × ((j : ℕ) → (j < offset) ⊎ (offset + size ≤ j) → r.1.sram j ≡ mem.sram j)
          × (r.1.flash ≡ mem.flash)
          × IsBytes r.1)
      × (sram_size < offset + size
          → (r ≡ (invalid_address, mem)) × (memory_sram_read mem offset size ≡ 0))
unfolding memory_sram_read memory_sram_write
sram_read-sram_write_cases mem offset value size b s small = (
  λ fits.
      let open_guard : ltb sram_size (add32 offset size) ≡ false = le→ltb _ _ (omega arith) in
      rw open_guard (
        refl,
        read_le-write_le mem.sram offset value size s b.sram_bytes,
        λ j out. rw (write_le-get mem.sram offset value size j s) (ground arith),
        refl,
        record {
          flash_bytes = b.flash_bytes;
          sram_bytes = write_le-bytes mem.sram offset value size s b.sram_bytes;
        },
      ),
  λ over.
      let shut : ltb sram_size (add32 offset size) ≡ true = lt→ltb _ _ (fits_word over) in
      (rw shut, rw shut),
)
  where
    fits_word : sram_size < offset + size → sram_size < add32 offset size
    fits_word over = ground arith

-- A write within SRAM succeeds; reading the same place back gives the value cut to the size, every
-- byte outside the place and the flash are as before, and bytes stay bytes. A write that does not
-- fit is refused and changes nothing, and a read that does not fit gives 0.
pub sram_read-sram_write :
    (mem : Memory) (offset value size : ℕ)
    → IsBytes mem
    → IsSize size
    → offset < 2 ^ 31
    → let r : Status × Memory = memory_sram_write mem offset value size in
      ((offset + size ≤ sram_size)
        × ((r.0 ≡ ok)
            × (memory_sram_read r.1 offset size ≡ value % 256 ^ size)
            × ((j : ℕ) → (j < offset) ⊎ (offset + size ≤ j) → r.1.sram j ≡ mem.sram j)
            × (r.1.flash ≡ mem.flash)
            × IsBytes r.1))
      ⊎ ((sram_size < offset + size)
          × ((r ≡ (invalid_address, mem)) × (memory_sram_read mem offset size ≡ 0)))
sram_read-sram_write mem offset value size h1 h2 h3 =
    cases_of (ge_or_lt _ _) (sram_read-sram_write_cases mem offset value size h1 h2 h3)
