-- ===== src/Simulator/StackFrame.antt =====
-- src/simulator/simulator.c with src/core/core.c: an exception on the board, with the stack in SRAM.
use stm32_emulator.Base.{
  ℕ, ◌+◌, ◌-◌, ◌%◌, ◌^◌, ◌≤◌, ◌<◌, ◌≡◌, refl, ap, ◌∙◌, sym, ◌⊎◌, inl, inr, arith,
}
use stm32_emulator.Core.{Core, reg, get_xpsr, reg_sp, reg_lr, reg_pc}
use stm32_emulator.Core.Exceptions.{push_exception_frame, pop_exception_frame}
use stm32_emulator.Core.Exceptions.Frame.{IsWords, KeepsWords, pop-push_exception_frame}
use stm32_emulator.Memory.{
  Memory, flash_size, sram_base, sram_size, read_le, memory_sram_read, memory_sram_write,
}
use stm32_emulator.Memory.RoundTrip.{IsBytes, sram_read-sram_write_cases}
use stm32_emulator.Bus.{bus_read, bus_write}
use stm32_emulator.Bus.Route.{Registered}
use stm32_emulator.Simulator.{Machine, system_bus}
use stm32_emulator.Simulator.Board.{sram_region, board_bus}
use stm32_emulator.Simulator.AddressMap.{region_of, board_table, bus_access-device, flash_alias}
use mathlib.Core.Path.{subst}

-- A word of SRAM.
abbrev pub InSram : ℕ → Type 0
InSram addr = (sram_base ≤ addr) × (addr + 4 ≤ sram_base + sram_size)

other_word :
    (mem : Memory) (a b value : ℕ)
    → IsBytes mem
    → a + 4 ≤ sram_size
    → b + 4 ≤ sram_size
    → (a + 4 ≤ b) ⊎ (b + 4 ≤ a)
    → memory_sram_read (memory_sram_write mem a value 4).1 b 4 ≡ memory_sram_read mem b 4
unfolding memory_sram_read read_le
other_word mem a b value bytes fa fb apart =
    let kept =
      (sram_read-sram_write_cases mem a value 4 bytes (inr (inr refl)) (omega arith)).0 fa in
    let byte : (i : ℕ)
        → i < 4
        → (memory_sram_write mem a value 4).1.sram (b + i) ≡ mem.sram (b + i) =
      λ i lt.
        kept.2 (b + i) (elim apart [ inl le ↦ inr (omega arith) | inr le ↦ inl (omega arith) ]) in
    let first : (memory_sram_write mem a value 4).1.sram b ≡ mem.sram b =
      kept.2 b (elim apart [ inl le ↦ inr (omega arith) | inr le ↦ inl (omega arith) ]) in
    rw (first, byte 1 (omega arith), byte 2 (omega arith), byte 3 (omega arith))

offset_of : (addr : ℕ) → InSram addr → addr ≡ sram_base + (addr - sram_base)
offset_of addr h = omega (arith, h.0)

offset_fits : (addr : ℕ) → InSram addr → addr - sram_base + 4 ≤ sram_size
offset_fits addr h = omega (arith, h.0, h.1)

module _ {X : Type 0} where
  abbrev GoodMachine : Machine X → Type 0
  GoodMachine m = IsBytes m.memory

  -- A read of a word of SRAM at an offset.
  sram_word :
      (m : Machine X) (off value : ℕ)
      → off + 4 ≤ sram_size
      → (bus_read board_bus m (sram_base + off) 4 ≡ (memory_sram_read m.memory off 4, m))
        × ((bus_write board_bus m (sram_base + off) value 4).1
            ≡ record m { memory = (memory_sram_write m.memory off value 4).1 })
  unfolding sram_region
  sram_word m off value fits =
      let known : Registered (region_of sram_base sram_size sram_region)
          (board_bus {X = X}).regions =
        rw board_table (inr (inr (inl refl))) in
      let access =
        bus_access-device sram_base sram_size sram_region m off value 4 known (omega arith) in
      (access.0, ap (λ r. r.1) access.1)

  word_access :
      (m : Machine X) (addr value : ℕ)
      → InSram addr
      → (bus_read board_bus m addr 4 ≡ (memory_sram_read m.memory (addr - sram_base) 4, m))
        × ((bus_write board_bus m addr value 4).1
            ≡ record m { memory = (memory_sram_write m.memory (addr - sram_base) value 4).1 })
  word_access m addr value ok =
      let off : ℕ = addr - sram_base in
      subst
        (λ a.
          (bus_read board_bus m a 4 ≡ (memory_sram_read m.memory off 4, m))
          × ((bus_write board_bus m a value 4).1
              ≡ record m { memory = (memory_sram_write m.memory off value 4).1 }))
        (sym (offset_of addr ok)) (sram_word m off value (offset_fits addr ok))

  -- What a write of a word keeps and leaves there.
  word_written :
      (m : Machine X) (addr value : ℕ)
      → GoodMachine m
      → InSram addr
      → (memory_sram_read
            (memory_sram_write m.memory (addr - sram_base) value 4).1
            (addr - sram_base)
            4
          ≡ value % 256 ^ 4)
        × IsBytes (memory_sram_write m.memory (addr - sram_base) value 4).1
  word_written m addr value good ok =
      let kept =
        (sram_read-sram_write_cases m.memory (addr - sram_base) value 4 good (inr (inr refl))
            (omega (arith, offset_fits addr ok))).0
          (offset_fits addr ok) in
      (kept.1, kept.4)

  -- SRAM behind the board's bus is a memory of words.
  pub board-KeepsWords : KeepsWords (system_bus (board_bus {X = X})) GoodMachine InSram
  unfolding system_bus
  board-KeepsWords = record {
    kept = λ m addr value good ok.
        rw ((word_access m addr value ok).1) ((word_written m addr value good ok).1);
    same = λ m addr value good ok small.
        let after : Machine X = record m {
          memory = (memory_sram_write m.memory (addr - sram_base) value 4).1;
        } in
        rw ((word_access m addr value ok).1) (
          ap (λ r. r.0) (word_access after addr value ok).0
          ∙ (word_written m addr value good ok).0
          ∙ omega (arith, small));
    other = λ m a b value good oa ob apart.
        let after : Machine X = record m {
          memory = (memory_sram_write m.memory (a - sram_base) value 4).1;
        } in
        rw ((word_access m a value oa).1) (
          ap (λ r. r.0) (word_access after b value ob).0
          ∙ other_word m.memory (a - sram_base) (b - sram_base) value good (offset_fits a oa)
              (offset_fits b ob)
              (elim apart [
                | inl le ↦ inl (omega (arith, oa.0, ob.0, le))
                | inr le ↦ inr (omega (arith, oa.0, ob.0, le))
              ])
          ∙ sym (ap (λ r. r.0) (word_access m b value ob).0));
    silent = λ m addr good ok. ap (λ r. r.1) (word_access m addr 0 ok).0;
  }

  -- On the board, with the eight words below the stack pointer in SRAM and the vector in flash at address 0:
  -- leaving an exception with the memory as the entry left it and the same stack pointer, whatever the
  -- handler did to the other registers, brings back r0 to r3, r12, the stack pointer, the link
  -- register, the program counter and the flags of the interrupted code. Registers fit 32 bits, and
  -- memory holds bytes.
  pub pop-push_exception_frame_board :
      (s : Core × Machine X) (vector_addr : ℕ) (handler : Core)
      → IsWords s.0
      → IsBytes s.1.memory
      → vector_addr < flash_size
      → sram_base + 32 ≤ reg s.0 reg_sp
      → reg s.0 reg_sp ≤ sram_base + sram_size
      → reg handler reg_sp
        ≡ reg (push_exception_frame (system_bus board_bus) s vector_addr).0 reg_sp
      → let entered : Core × Machine X =
          push_exception_frame (system_bus board_bus) s vector_addr in
        let back : Core = (pop_exception_frame (system_bus board_bus) (handler, entered.1)).0 in
        (reg back 0 ≡ reg s.0 0)
        × (reg back 1 ≡ reg s.0 1)
        × (reg back 2 ≡ reg s.0 2)
        × (reg back 3 ≡ reg s.0 3)
        × (reg back 12 ≡ reg s.0 12)
        × (reg back reg_sp ≡ reg s.0 reg_sp)
        × (reg back reg_lr ≡ reg s.0 reg_lr)
        × (reg back reg_pc ≡ reg s.0 reg_pc)
        × (get_xpsr back ≡ get_xpsr s.0)
  pop-push_exception_frame_board s vector_addr handler words bytes vector low high sp =
      pop-push_exception_frame (system_bus board_bus) board-KeepsWords s vector_addr handler words
        bytes
        (λ m good. unfold system_bus in ap (λ r. r.1) (flash_alias m vector_addr 0 4 vector).1)
        (omega (arith, low)) (λ i lt. (omega (arith, low), omega (arith, high, low))) sp
