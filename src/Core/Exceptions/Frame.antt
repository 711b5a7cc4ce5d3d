-- ===== src/Core/Exceptions/Frame.antt =====
-- src/core/core.c: the frame on the stack through entry to and exit from an exception.
use native.Mathlib.Decide.{ℕ_discrete}
use stm32_emulator.Base.{
  ℕ, zero, suc, ◌+◌, ◌-◌, ◌*◌, ◌^◌, ◌≤◌, ◌<◌, ◌≡◌, refl, ◌∙◌, ◌⊎◌, inr, arith, ◌==◌, if◌then◌else◌,
  add32, sub32,
}
use stm32_emulator.Core.{Core, SystemBus, reg, get_xpsr, reg_sp, reg_lr, reg_pc}
use stm32_emulator.Core.Exceptions.{load, store, push_exception_frame, pop_exception_frame}

-- The address of word `i` of the frame, and the words that an entry stores.
abbrev slot : ℕ → ℕ → ℕ
slot frame i = add32 frame (4 * i)

frame_word : Core → ℕ → ℕ
frame_word core i =
    if i == 0
    then reg core 0
    else if i == 1
    then reg core 1
    else if i == 2
    then reg core 2
    else if i == 3
    then reg core 3
    else if i == 4
    then reg core 12
    else if i == 5
    then reg core reg_lr
    else if i == 6
    then reg core reg_pc
    else get_xpsr core

-- Registers and flags fit 32 bits.
pub record IsWords (core : Core) : Type 0 where
  pub regs : (n : ℕ) → reg core n < 2 ^ 32
  pub flags : get_xpsr core < 2 ^ 32

frame_word-lt : (core : Core) (i : ℕ) → IsWords core → frame_word core i < 2 ^ 32
unfolding frame_word
frame_word-lt core i h =
    ground (arith, h.flags, h.regs 0, h.regs 1, h.regs 2, h.regs 3, h.regs 12, h.regs 14, h.regs 15)

module _ {M : Type 0} (bus : SystemBus M) where
  -- On the machines `Good` the addresses `Ok` are a memory of words: what is written is read back, words
  -- that do not overlap do not disturb each other, a read there changes nothing, and a write
  -- keeps the machine good.
  pub record KeepsWords (Good : M → Type 0) (Ok : ℕ → Type 0) : Type 0 where
    pub kept : (m : M) (addr value : ℕ) → Good m → Ok addr → Good (bus.write m addr value 4).1
    pub same :
        (m : M) (addr value : ℕ)
        → Good m
        → Ok addr
        → value < 2 ^ 32
        → (bus.read (bus.write m addr value 4).1 addr 4).0 ≡ value
    pub other :
        (m : M) (a b value : ℕ)
        → Good m
        → Ok a
        → Ok b
        → (a + 4 ≤ b) ⊎ (b + 4 ≤ a)
        → (bus.read (bus.write m a value 4).1 b 4).0 ≡ (bus.read m b 4).0
    pub silent : (m : M) (addr : ℕ) → Good m → Ok addr → (bus.read m addr 4).1 ≡ m

  -- The machine after the first `n` words of the frame are stored.
  stored : M → ℕ → (ℕ → ℕ) → ℕ → M
  stored m frame word zero = m
  stored m frame word (suc n) = (bus.write (stored m frame word n) (slot frame n) (word n) 4).1

  stored-Good :
      {Good : M → Type 0} {Ok : ℕ → Type 0} (laws : KeepsWords Good Ok) (m : M) (frame : ℕ)
      (word : ℕ → ℕ) (n : ℕ)
      → Good m
      → ((i : ℕ) → i < 8 → Ok (slot frame i))
      → n ≤ 8
      → Good (stored m frame word n)
  unfolding stored
  stored-Good laws m frame word zero good ok le = good
  stored-Good laws m frame word (suc n) good ok le =
      laws.kept (stored m frame word n) (slot frame n) (word n)
        (stored-Good laws m frame word n good ok (omega arith)) (ok n (omega arith))

  read-stored :
      {Good : M → Type 0} {Ok : ℕ → Type 0} (laws : KeepsWords Good Ok) (m : M) (frame : ℕ)
      (word : ℕ → ℕ) (n j : ℕ)
      → Good m
      → frame + 32 ≤ 2 ^ 32
      → ((i : ℕ) → i < 8 → Ok (slot frame i))
      → ((i : ℕ) → word i < 2 ^ 32)
      → n ≤ 8
      → j < n
      → (bus.read (stored m frame word n) (slot frame j) 4).0 ≡ word j
  unfolding stored
  read-stored laws m frame word zero j good fits ok small le lt = absurd (omega arith)
  read-stored laws m frame word (suc n) j good fits ok small le lt =
      let before = stored-Good laws m frame word n good ok (omega arith) in
      elim (ℕ_discrete j n) [
        | yes e ↦ rw e (
            laws.same (stored m frame word n) (slot frame n) (word n) before (ok n (omega arith))
              (small n))
        | no ne ↦
            laws.other (stored m frame word n) (slot frame n) (slot frame j) (word n) before
              (ok n (omega arith)) (ok j (omega arith)) (inr (omega arith))
            ∙ read-stored laws m frame word n j good fits ok small (omega arith) (omega arith)
      ]

  pushed_machine :
      (s : Core × M) (vector_addr : ℕ)
      → let mem : M = stored s.1 (sub32 (reg s.0 reg_sp) 32) (frame_word s.0) 8 in
        (bus.read mem vector_addr 4).1 ≡ mem → (push_exception_frame bus s vector_addr).1 ≡ mem
  unfolding push_exception_frame store stored frame_word
  pushed_machine s vector_addr fetched = fetched

  pushed_sp :
      (s : Core × M) (vector_addr : ℕ)
      → reg (push_exception_frame bus s vector_addr).0 reg_sp ≡ sub32 (reg s.0 reg_sp) 32
  unfolding push_exception_frame store
  pushed_sp s vector_addr = refl

  -- Entry stores eight words of the context below the stack pointer. If the stack is memory that keeps
  -- words, does not run past address 0, and fetching the vector changes nothing, then leaving the
  -- exception with the same memory and the same stack pointer, whatever the handler did to the
  -- other registers, brings back r0 to r3, r12, the stack pointer, the link register, the program
  -- counter and the flags.
  pub pop-push_exception_frame :
      {Good : M → Type 0} {Ok : ℕ → Type 0} (laws : KeepsWords Good Ok) (s : Core × M)
      (vector_addr : ℕ) (handler : Core)
      → IsWords s.0
      → Good s.1
      → ((m : M) → Good m → (bus.read m vector_addr 4).1 ≡ m)
      → 32 ≤ reg s.0 reg_sp
      → ((i : ℕ) → i < 8 → Ok (reg s.0 reg_sp - 32 + 4 * i))
      → reg handler reg_sp ≡ reg (push_exception_frame bus s vector_addr).0 reg_sp
      → let back : Core =
          (pop_exception_frame bus (handler, (push_exception_frame bus s vector_addr).1)).0 in
        (reg back 0 ≡ reg s.0 0)
        × (reg back 1 ≡ reg s.0 1)
        × (reg back 2 ≡ reg s.0 2)
        × (reg back 3 ≡ reg s.0 3)
        × (reg back 12 ≡ reg s.0 12)
        × (reg back reg_sp ≡ reg s.0 reg_sp)
        × (reg back reg_lr ≡ reg s.0 reg_lr)
        × (reg back reg_pc ≡ reg s.0 reg_pc)
        × (get_xpsr back ≡ get_xpsr s.0)
  unfolding pop_exception_frame load frame_word
  pop-push_exception_frame {Ok = Ok} laws s vector_addr handler words good fetch room ok sp =
      let frame : ℕ = sub32 (reg s.0 reg_sp) 32 in
      let below : frame ≡ reg s.0 reg_sp - 32 = ground (arith, words.regs 13) in
      let fits : frame + 32 ≤ 2 ^ 32 = ground (arith, words.regs 13) in
      let at_slot : (i : ℕ) → i < 8 → Ok (slot frame i) = λ i le.
        let e : slot frame i ≡ reg s.0 reg_sp - 32 + 4 * i = omega arith in rw e (ok i le) in
      let stays = stored-Good laws s.1 frame (frame_word s.0) 8 good at_slot (omega arith) in
      let machine = pushed_machine s vector_addr (fetch _ stays) in
      let got : (j : ℕ)
          → j < 8
          → (bus.read (stored s.1 frame (frame_word s.0) 8) (slot frame j) 4).0 ≡ frame_word s.0 j =
        λ j lt.
          read-stored laws s.1 frame (frame_word s.0) 8 j good fits at_slot
            (λ i. frame_word-lt s.0 i words) (omega arith) lt in
      let mem : M = stored s.1 frame (frame_word s.0) 8 in
      let start : reg handler reg_sp ≡ frame = sp ∙ pushed_sp s vector_addr in
      let top : add32 frame 32 ≡ reg s.0 reg_sp = ground (arith, words.regs 13) in
      rw
        (
          machine,
          start,
          laws.silent mem (slot frame 0) stays (at_slot 0 (omega arith)),
          laws.silent mem (slot frame 1) stays (at_slot 1 (omega arith)),
          laws.silent mem (slot frame 2) stays (at_slot 2 (omega arith)),
          laws.silent mem (slot frame 3) stays (at_slot 3 (omega arith)),
          laws.silent mem (slot frame 4) stays (at_slot 4 (omega arith)),
          laws.silent mem (slot frame 5) stays (at_slot 5 (omega arith)),
          laws.silent mem (slot frame 6) stays (at_slot 6 (omega arith)),
        )
        (
          got 0 (omega arith),
          got 1 (omega arith),
          got 2 (omega arith),
          got 3 (omega arith),
          got 4 (omega arith),
          top,
          got 5 (omega arith),
          got 6 (omega arith),
          got 7 (omega arith),
        )
