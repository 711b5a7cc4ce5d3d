-- ===== src/Nvic/Registers.antt =====
-- src/nvic/nvic_bus.c: the controller's registers on the bus. `NvicBusState` is its one pointer to the
-- controller, so the functions take and return the controller itself.
pub mod Words
pub mod Laws
use stm32_emulator.Base.{
  ℕ, zero, suc, ◌+◌, ◌-◌, ◌*◌, ◌/◌, ◌^◌, bit_and, bit_or, Bool, ◌&&◌, ◌||◌, ltb, leb, ◌==◌, nonzero,
  if◌then◌else◌, u8, shl32, shr,
}
use stm32_emulator.Status.{Status, ok}
use stm32_emulator.Nvic.{
  Nvic, nvic_num_irq, nvic_enable_irq, nvic_disable_irq, nvic_set_pending, nvic_clear_pending,
  nvic_set_priority,
}

abbrev pub nvic_bus_base : ℕ
nvic_bus_base = 0xE000E100

abbrev pub nvic_bus_size : ℕ
nvic_bus_size = 0x400

-- The loop of `enabled_word`, `pending_word` and `active_word`, which differ in the array they read.
unfoldable pub word_loop : (ℕ → Bool) → ℕ → ℕ → ℕ → ℕ → ℕ
word_loop flags base zero i v = v
word_loop flags base (suc left) i v =
    word_loop flags base left (i + 1)
      (if ltb (base + i) nvic_num_irq && flags (base + i) then bit_or v (2 ^ i) else v)

unfoldable pub enabled_word : Nvic → ℕ → ℕ
enabled_word n base = word_loop n.enabled base 32 0 0

unfoldable pub pending_word : Nvic → ℕ → ℕ
pending_word n base = word_loop n.pending base 32 0 0

unfoldable pub active_word : Nvic → ℕ → ℕ
active_word n base = word_loop n.active base 32 0 0

-- The loop of `priority_word`.
unfoldable pub priority_loop : Nvic → ℕ → ℕ → ℕ → ℕ → ℕ
priority_loop n base_irq zero i v = v
priority_loop n base_irq (suc left) i v = priority_loop n base_irq left (i + 1) (
    if ltb (base_irq + i) nvic_num_irq
    then bit_or v (shl32 (n.priority (base_irq + i)) (i * 8))
    else v)

unfoldable pub priority_word : Nvic → ℕ → ℕ
priority_word n base_irq = priority_loop n base_irq 4 0 0

-- The test for the priority registers.
unfoldable pub in_ipr : ℕ → Bool
in_ipr offset = leb 0x300 offset && ltb offset (0x300 + 48)

unfoldable pub nvic_bus_read : Nvic → ℕ → ℕ → ℕ
nvic_bus_read n offset size =
    if offset == 0x000
    then enabled_word n 0
    else if offset == 0x004
    then enabled_word n 32
    else if offset == 0x080
    then enabled_word n 0
    else if offset == 0x084
    then enabled_word n 32
    else if offset == 0x100
    then pending_word n 0
    else if offset == 0x104
    then pending_word n 32
    else if offset == 0x180
    then pending_word n 0
    else if offset == 0x184
    then pending_word n 32
    else if offset == 0x200
    then active_word n 0
    else if offset == 0x204
    then active_word n 32
    else if in_ipr offset
    then priority_word n ((offset - 0x300) / 4 * 4)
    else 0

-- The four loops over the bits of a written word, which differ in the function that they call.
unfoldable pub bits_loop : (Nvic → ℕ → Nvic) → ℕ → ℕ → ℕ → ℕ → Nvic → Nvic
bits_loop op base value zero i n = n
bits_loop op base value (suc left) i n =
    bits_loop op base value left (i + 1) (
      if nonzero (bit_and value (2 ^ i)) && ltb (base + i) nvic_num_irq then op n (base + i) else n)

-- The loop over the four bytes of a priority register.
unfoldable pub bytes_loop : ℕ → ℕ → ℕ → ℕ → Nvic → Nvic
bytes_loop base_irq value zero i n = n
bytes_loop base_irq value (suc left) i n = bytes_loop base_irq value left (i + 1) (
    if ltb (base_irq + i) nvic_num_irq
    then nvic_set_priority n (base_irq + i) (u8 (bit_and (shr value (i * 8)) 0xff))
    else n)

unfoldable pub nvic_bus_write : Nvic → ℕ → ℕ → ℕ → Status × Nvic
nvic_bus_write n offset value size =
    if offset == 0x000 || offset == 0x004
    then (ok, bits_loop nvic_enable_irq (if offset == 0x000 then 0 else 32) value 32 0 n)
    else if offset == 0x080 || offset == 0x084
    then (ok, bits_loop nvic_disable_irq (if offset == 0x080 then 0 else 32) value 32 0 n)
    else if offset == 0x100 || offset == 0x104
    then (ok, bits_loop nvic_set_pending (if offset == 0x100 then 0 else 32) value 32 0 n)
    else if offset == 0x180 || offset == 0x184
    then (ok, bits_loop nvic_clear_pending (if offset == 0x180 then 0 else 32) value 32 0 n)
    else if offset == 0x200 || offset == 0x204
    then (ok, n)
    else if in_ipr offset
    then (ok, bytes_loop ((offset - 0x300) / 4 * 4) value 4 0 n)
    else (ok, n)
