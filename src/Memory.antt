-- ===== src/Memory.antt =====
-- src/memory/memory.c: flash and SRAM. The two byte arrays are functions of the index; what the
-- code guards before it indexes is in the callbacks. A file is the list of its bytes, or `none`
-- where it cannot be opened; the messages on stderr are left out.
pub mod RoundTrip
use stm32_emulator.Base.{
  ℕ, zero, suc, ◌+◌, bit_or, Option, none, some, List, [], ◌∷◌, ltb, ◌==◌, if◌then◌else◌, update,
  filled, u8, add32, shl32, shr,
}
use stm32_emulator.Status.{Status, ok, error, invalid_address}

abbrev pub flash_base : ℕ
flash_base = 0x08000000

abbrev pub flash_size : ℕ
flash_size = 65536

abbrev pub sram_base : ℕ
sram_base = 0x20000000

abbrev pub sram_size : ℕ
sram_size = 20480

-- `Memory`
pub record Memory : Type 0 where
  pub flash : ℕ → ℕ
  pub sram : ℕ → ℕ

unfoldable pub memory_init : Memory
memory_init = record { flash = filled 0; sram = filled 0 }

-- Flash is kept.
unfoldable pub memory_reset : Memory → Memory
memory_reset mem = record mem { sram = filled 0 }

-- `fread` stores the first bytes of the file, at most `room` of them, from index `at`.
unfoldable pub fread_bytes : ℕ → ℕ → List ℕ → (ℕ → ℕ) → ℕ × (ℕ → ℕ)
fread_bytes zero at file dest = (0, dest)
fread_bytes (suc room) at [] dest = (0, dest)
fread_bytes (suc room) at (b ∷ file) dest =
    let (n, dest') = fread_bytes room (suc at) file (update dest at (u8 b)) in (suc n, dest')

unfoldable pub memory_load_binary : Memory → Option (List ℕ) → Status × Memory
memory_load_binary mem none = (error, mem)
memory_load_binary mem (some file) =
    let (n, flash) = fread_bytes flash_size 0 file mem.flash in
    if n == 0 then (error, record mem { flash = flash }) else (ok, record mem { flash = flash })

unfoldable pub read_le : (ℕ → ℕ) → ℕ → ℕ → ℕ
read_le base offset size =
    if size == 1
    then base offset
    else if size == 2
    then bit_or (base offset) (shl32 (base (offset + 1)) 8)
    else if size == 4
    then bit_or
        (bit_or (bit_or (base offset) (shl32 (base (offset + 1)) 8)) (shl32 (base (offset + 2)) 16))
        (shl32 (base (offset + 3)) 24)
    else 0

unfoldable pub write_le : (ℕ → ℕ) → ℕ → ℕ → ℕ → ℕ → ℕ
write_le base offset value size =
    if size == 1
    then update base offset (u8 value)
    else if size == 2
    then update (update base offset (u8 value)) (offset + 1) (u8 (shr value 8))
    else if size == 4
    then update
        (update (update (update base offset (u8 value)) (offset + 1) (u8 (shr value 8)))
          (offset + 2) (u8 (shr value 16)))
        (offset + 3) (u8 (shr value 24))
    else base

-- `offset + size` is a `uint32_t`.
unfoldable pub memory_flash_read : Memory → ℕ → ℕ → ℕ
memory_flash_read mem offset size =
    if ltb flash_size (add32 offset size) then 0 else read_le mem.flash offset size

unfoldable pub memory_flash_write : Memory → ℕ → ℕ → ℕ → Status × Memory
memory_flash_write mem offset value size = (error, mem)

unfoldable pub memory_sram_read : Memory → ℕ → ℕ → ℕ
memory_sram_read mem offset size =
    if ltb sram_size (add32 offset size) then 0 else read_le mem.sram offset size

unfoldable pub memory_sram_write : Memory → ℕ → ℕ → ℕ → Status × Memory
memory_sram_write mem offset value size =
    if ltb sram_size (add32 offset size)
    then (invalid_address, mem)
    else (ok, record mem { sram = write_le mem.sram offset value size })
