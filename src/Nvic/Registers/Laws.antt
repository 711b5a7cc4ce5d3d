-- ===== src/Nvic/Registers/Laws.antt =====
-- src/nvic/nvic_bus.c: what a register reads as after a write.
use stm32_emulator.Base.{
  ℕ, zero, suc, ◌+◌, ◌-◌, ◌*◌, ◌/◌, ◌%◌, ◌^◌, ◌<◌, bit_and, bit_or, ◌≡◌, ap, ◌∙◌, Bool, true, false,
  not, ◌&&◌, ◌||◌, arith, ltb, leb, if◌then◌else◌, lt→ltb, update, u8, shl32, shr,
}
use stm32_emulator.Base.Bits.{bit, bit-zero, bit_and-low_mask}
use native.Mathlib.Decide.{ℕ_discrete}
use stm32_emulator.Base.{four_bytes, zero-bit_or}
use stm32_emulator.Nvic.{
  Nvic, nvic_num_irq, nvic_enable_irq, nvic_disable_irq, nvic_set_pending, nvic_clear_pending,
  nvic_set_priority,
}
use stm32_emulator.Nvic.Registers.{
  word_loop, bits_loop, enabled_word, pending_word, priority_loop, priority_word, bytes_loop,
  in_ipr, nvic_bus_read, nvic_bus_write,
}
use stm32_emulator.Nvic.Registers.Words.{word_loop-bit, bits_loop-get}

enable_law :
    (n : Nvic) (irq j : ℕ)
    → irq < nvic_num_irq
    → (nvic_enable_irq n irq).enabled j ≡ update n.enabled irq true j
unfolding nvic_enable_irq
enable_law n irq j lt = ground arith

disable_law :
    (n : Nvic) (irq j : ℕ)
    → irq < nvic_num_irq
    → (nvic_disable_irq n irq).enabled j ≡ update n.enabled irq false j
unfolding nvic_disable_irq
disable_law n irq j lt = ground arith

set_law :
    (n : Nvic) (irq j : ℕ)
    → irq < nvic_num_irq
    → (nvic_set_pending n irq).pending j ≡ update n.pending irq true j
unfolding nvic_set_pending
set_law n irq j lt = ground arith

clear_law :
    (n : Nvic) (irq j : ℕ)
    → irq < nvic_num_irq
    → (nvic_clear_pending n irq).pending j ≡ update n.pending irq false j
unfolding nvic_clear_pending
clear_law n irq j lt = ground arith

-- A line that the register has and the written word names is set to `b`; the others are kept.
word_after :
    (op : Nvic → ℕ → Nvic) (g : Nvic → ℕ → Bool) (b : Bool)
    → ((n : Nvic) (irq j : ℕ) → irq < nvic_num_irq → g (op n irq) j ≡ update (g n) irq b j)
    → (base value : ℕ) (n : Nvic) (i : ℕ)
    → bit (word_loop (g (bits_loop op base value 32 0 n)) base 32 0 0) i ≡ (
        if (ltb i 32 && ltb (base + i) nvic_num_irq) && bit value i
        then b
        else bit (word_loop (g n) base 32 0 0) i)
word_after op g b law base value n i =
    let at : base + i - base ≡ i = omega arith in
    rw
      (
        word_loop-bit (g (bits_loop op base value 32 0 n)) base 32 0 0 i,
        word_loop-bit (g n) base 32 0 0 i,
        bits_loop-get op g b law base value 32 0 n (base + i),
        at,
      )
      (ground (arith, bit-zero i))

-- Each word of the set-enable and set-pending registers, after a write to it, has the bits of before
-- and those written for lines that exist; after a write to the matching clear register it has lost
-- just the bits written. `w` is the number of the word; the clear registers stand 0x80 further.
pub set_clear_registers :
    (n : Nvic) (w value i size : ℕ)
    → w < 2
    → let after : ℕ → Nvic = λ offset. (nvic_bus_write n offset value size).1 in
      let read : Nvic → ℕ → Bool = λ m offset. bit (nvic_bus_read m offset size) i in
      let exists : Bool = ltb i 32 && ltb (32 * w + i) nvic_num_irq in
      (read (after (4 * w)) (4 * w) ≡ (read n (4 * w) || exists && bit value i))
      × (read (after (0x80 + 4 * w)) (4 * w) ≡ (read n (4 * w) && not (exists && bit value i)))
      × (read (after (0x100 + 4 * w)) (0x100 + 4 * w)
          ≡ (read n (0x100 + 4 * w) || exists && bit value i))
      × (read (after (0x180 + 4 * w)) (0x100 + 4 * w)
          ≡ (read n (0x100 + 4 * w) && not (exists && bit value i)))
unfolding nvic_bus_read nvic_bus_write enabled_word pending_word
set_clear_registers n zero value i size lt = (
  word_after nvic_enable_irq (λ m. m.enabled) true enable_law 0 value n i ∙ ground arith,
  word_after nvic_disable_irq (λ m. m.enabled) false disable_law 0 value n i ∙ ground arith,
  word_after nvic_set_pending (λ m. m.pending) true set_law 0 value n i ∙ ground arith,
  word_after nvic_clear_pending (λ m. m.pending) false clear_law 0 value n i ∙ ground arith,
)
set_clear_registers n (suc zero) value i size lt = (
  word_after nvic_enable_irq (λ m. m.enabled) true enable_law 32 value n i ∙ ground arith,
  word_after nvic_disable_irq (λ m. m.enabled) false disable_law 32 value n i ∙ ground arith,
  word_after nvic_set_pending (λ m. m.pending) true set_law 32 value n i ∙ ground arith,
  word_after nvic_clear_pending (λ m. m.pending) false clear_law 32 value n i ∙ ground arith,
)
set_clear_registers n (suc (suc w)) value i size lt = absurd (omega arith)

-- The byte that the loop stores at its round `i`.
abbrev byte_of : ℕ → ℕ → ℕ
byte_of value i = u8 (bit_and (shr value (i * 8)) 0xff)

bytes_loop-get :
    (base value left i : ℕ) (n : Nvic) (j : ℕ)
    → (bytes_loop base value left i n).priority j ≡ (
        if (leb (base + i) j && ltb j (base + i + left)) && ltb j nvic_num_irq
        then byte_of value (j - base)
        else n.priority j)
unfolding bytes_loop nvic_set_priority
bytes_loop-get base value zero i n j = ground arith
bytes_loop-get base value (suc left) i n j =
    bytes_loop-get base value left (i + 1) _ j ∙ elim (ℕ_discrete j (base + i)) [
      | yes same ↦ let at : j - base ≡ i = omega arith in rw at (ground arith)
      | no other ↦ ground arith
    ]

byte_of_lem :
    (value : ℕ)
    → (byte_of value 0 ≡ value % 256)
      × (byte_of value 1 ≡ value / 256 % 256)
      × (byte_of value 2 ≡ value / 65536 % 256)
      × (byte_of value 3 ≡ value / 16777216 % 256)
byte_of_lem value = (
  ap u8 (bit_and-low_mask 8 (shr value 0)) ∙ omega arith,
  ap u8 (bit_and-low_mask 8 (shr value 8)) ∙ omega arith,
  ap u8 (bit_and-low_mask 8 (shr value 16)) ∙ omega arith,
  ap u8 (bit_and-low_mask 8 (shr value 24)) ∙ omega arith,
)

stored_bytes :
    (n : Nvic) (base value k : ℕ)
    → k < 4
    → base + k < nvic_num_irq
    → (bytes_loop base value 4 0 n).priority (base + k) ≡ byte_of value k
stored_bytes n base value k lt inside =
    let at : base + k - base ≡ k = omega arith in
    bytes_loop-get base value 4 0 n (base + k) ∙ rw at (ground arith)

-- A word of four bytes that the loop stored, as the read puts it together.
abbrev or_bytes : ℕ → ℕ → ℕ → ℕ → ℕ
or_bytes p q r s =
    bit_or (bit_or (bit_or (bit_or 0 (shl32 p 0)) (shl32 q 8)) (shl32 r 16)) (shl32 s 24)

or_bytes_of :
    (value : ℕ)
    → value < 2 ^ 32
    → or_bytes (byte_of value 0) (byte_of value 1) (byte_of value 2) (byte_of value 3) ≡ value
or_bytes_of value small =
    let b = byte_of_lem value in
    let low : shl32 (byte_of value 0) 0 ≡ byte_of value 0 = omega (arith, b.0) in
    rw (zero-bit_or, low)
      (four_bytes (byte_of value 0) (byte_of value 1) (byte_of value 2) (byte_of value 3)
          (omega (arith, b.0)) (omega (arith, b.1)) (omega (arith, b.2)) (omega (arith, b.3))
        ∙ omega (arith, b))

word_of_bytes :
    (n : Nvic) (base value : ℕ)
    → value < 2 ^ 32
    → base + 3 < nvic_num_irq
    → priority_word (bytes_loop base value 4 0 n) base ≡ value
unfolding priority_word priority_loop
word_of_bytes n base value small inside =
    let line = λ (k : ℕ) (lt : k < 4). lt→ltb (base + k) nvic_num_irq (omega arith) in
    let stored = λ (k : ℕ) (lt : k < 4). stored_bytes n base value k lt (omega arith) in
    rw
      (
        line 0 (omega arith),
        line 1 (omega arith),
        line 2 (omega arith),
        line 3 (omega arith),
        stored 0 (omega arith),
        stored 1 (omega arith),
        stored 2 (omega arith),
        stored 3 (omega arith),
      )
      (or_bytes_of value small)

ipr_write :
    (n : Nvic) (w value size : ℕ)
    → w < 10
    → (nvic_bus_write n (0x300 + 4 * w) value size).1 ≡ bytes_loop (4 * w) value 4 0 n
unfolding nvic_bus_write in_ipr
ipr_write n w value size lt =
    let index : (0x300 + 4 * w - 0x300) / 4 * 4 ≡ 4 * w = omega arith in rw index (ground arith)

ipr_read :
    (n : Nvic) (w size : ℕ)
    → w < 10
    → nvic_bus_read n (0x300 + 4 * w) size ≡ priority_word n (4 * w)
unfolding nvic_bus_read in_ipr
ipr_read n w size lt =
    let index : (0x300 + 4 * w - 0x300) / 4 * 4 ≡ 4 * w = omega arith in rw index (ground arith)

-- Writing a word of four priorities gives each of its lines its byte, lowest first, and leaves the
-- other lines alone; reading the same word back gives what was written. (The last word that has
-- lines has only three, and is not covered.)
pub priority_registers :
    (n : Nvic) (w value j size : ℕ)
    → w < 10
    → value < 2 ^ 32
    → let after : Nvic = (nvic_bus_write n (0x300 + 4 * w) value size).1 in
      (nvic_bus_read after (0x300 + 4 * w) size ≡ value)
      × (after.priority j ≡ (
          if leb (4 * w) j && ltb j (4 * w + 4)
          then value / 2 ^ ((j - 4 * w) * 8) % 256
          else n.priority j))
priority_registers n w value j size lt small = rw (ipr_write n w value size lt) (
  ipr_read _ w size lt ∙ word_of_bytes n (4 * w) value small (omega arith),
  bytes_loop-get (4 * w) value 4 0 n j
      ∙ ground (arith, ap u8 (bit_and-low_mask 8 (shr value ((j - 4 * w) * 8)))),
)
