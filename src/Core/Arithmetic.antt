-- ===== src/Core/Arithmetic.antt =====
-- src/core/core.c: the flags of additions, sign extension and the targets of branches.
use stm32_emulator.Base.{
  ℕ, suc, ◌+◌, ◌-◌, ◌*◌, ◌/◌, ◌%◌, ◌^◌, ◌<◌, bit_and, bit_or, bit_xor, ◌≡◌, refl, sym, ap, ◌∙◌, inl,
  inr, Bool, true, false, ◌&&◌, ◌||◌, arith, ltb, leb, ◌==◌, if◌then◌else◌, ne→==, Bool-cases,
  add32, shl32, shr, bit_or-shl,
}
use stm32_emulator.Base.Bits.{
  bit-or, bit-xor, bit_ext, bit-pow, lt_of_bits, bit_of_lt, bit_and-low_mask,
}
use stm32_emulator.Core.{
  Core, reg, reg_pc, add_overflow, update_flags_add, condition_passed, sign_extend,
}
use stm32_emulator.Core.Alu.{exec_add_reg, field3}
use stm32_emulator.Core.Branch.{branch_by, exec_b, exec_b_cond}
use native.Mathlib.Nat.{pow-suc}
use native.Mathlib.Decide.{ℕ_discrete}
use stm32_emulator.Core.{condition_holds}
use stm32_emulator.Core.{flag_bit, update_nz, set_flag}
use stm32_emulator.Core.Flags.{negative, add_overflow_lem, HasFlags, update_flags_add-HasFlags}

-- A word with its sign bit flipped: the signed value, moved up by 2 ^ 31.
abbrev pub biased : ℕ → ℕ
biased a = add32 a 0x80000000

overflow_lem :
    (a b : ℕ)
    → a < 2 ^ 32
    → b < 2 ^ 32
    → add_overflow a b (add32 a b)
      ≡ (ltb (biased a + biased b) (2 ^ 31) || leb (2 ^ 31 + 2 ^ 32) (biased a + biased b))
overflow_lem a b p q = rw (add_overflow_lem a b (add32 a b) p q (omega arith)) (ground arith)

-- ADD of two registers puts their sum, cut to 32 bits, into the destination. N and Z are those of the
-- sum, C is set exactly where it does not fit 32 bits, and V exactly where the sum of the signed
-- values is no signed 32-bit number. The other registers stay.
pub exec_add_reg-HasFlags :
    (core : Core) (instr i : ℕ)
    → ((n : ℕ) → reg core n < 2 ^ 32)
    → let a : ℕ = reg core (field3 instr 3) in
      let b : ℕ = reg core (field3 instr 6) in
      let after : Core = exec_add_reg core instr in
      HasFlags after
        (negative (add32 a b))
        (add32 a b == 0)
        (leb (2 ^ 32) (a + b))
        (ltb (biased a + biased b) (2 ^ 31) || leb (2 ^ 31 + 2 ^ 32) (biased a + biased b))
      × (reg after i ≡ (if field3 instr 0 == i then (a + b) % 2 ^ 32 else reg core i))
unfolding exec_add_reg flag_bit update_flags_add update_nz set_flag
exec_add_reg-HasFlags core instr i h =
    let a = reg core (field3 instr 3) in
    let b = reg core (field3 instr 6) in
    let flags = update_flags_add-HasFlags core a b (add32 a b) (omega arith) in
    (
      record {
        n_flag = flags.n_flag;
        z_flag = flags.z_flag;
        c_flag = flags.c_flag ∙ ground arith;
        v_flag = flags.v_flag ∙ overflow_lem a b (h (field3 instr 3)) (h (field3 instr 6));
      },
      refl,
    )

-- Flipping the highest bit of a field of k + 1 bits.
bit_xor-pow :
    (k x : ℕ) → x < 2 ^ suc k → bit_xor x (2 ^ k) ≡ (if ltb x (2 ^ k) then x + 2 ^ k else x - 2 ^ k)
bit_xor-pow k x lt =
    let one : 1 * 2 ^ k ≡ 2 ^ k = omega arith in
    elim (Bool-cases (ltb x (2 ^ k))) [
      | inl low ↦
          let small : x < 2 ^ k = ground arith in
          let same : bit_xor x (2 ^ k) ≡ bit_or x (2 ^ k) =
            bit_ext _ _
              (λ i. rw (bit-xor, bit-or, bit-pow) (ground (arith, bit_of_lt k x i small))) in
          let sum : bit_or x (1 * 2 ^ k) ≡ x + 1 * 2 ^ k = bit_or-shl k 1 x small in
          rw (low, same, sym one, sum)
      | inr high ↦
          let y : ℕ = x - 2 ^ k in
          let small : y < 2 ^ k = ground (arith, pow-suc 2 k) in
          let sum : bit_or y (1 * 2 ^ k) ≡ y + 1 * 2 ^ k = bit_or-shl k 1 y small in
          let split : x ≡ bit_or y (2 ^ k) = ground (arith, sum, one) in
          let back : bit_xor (bit_or y (2 ^ k)) (2 ^ k) ≡ y =
            bit_ext _ _
              (λ i. rw (bit-xor, bit-or, bit-pow) (ground (arith, bit_of_lt k y i small))) in
          rw high (ap (λ (t : ℕ). bit_xor t (2 ^ k)) split ∙ back)
    ]

-- The sign of a field of k + 1 bits is carried into the bits above it.
pub sign_extend_lem :
    (k value : ℕ)
    → k < 32
    → value < 2 ^ suc k
    → sign_extend value (suc k) ≡ (if ltb value (2 ^ k) then value else value + 2 ^ 32 - 2 ^ suc k)
unfolding sign_extend
sign_extend_lem k value lt fits =
    let low : suc k - 1 ≡ k = omega arith in
    let word : 2 ^ k < 2 ^ 32 = lt_of_bits 32 (2 ^ k) (λ i le. rw (bit-pow k i) (ground arith)) in
    let mask : shl32 1 k ≡ 2 ^ k = omega arith in
    let double : 2 ^ suc k ≡ 2 ^ k * 2 = pow-suc 2 k in
    rw (low, mask, bit_xor-pow k value fits) (ground (arith, double))

-- A branch of 12 bits: the program counter moves by the signed offset from the address four past the
-- instruction, and is not advanced again.
pub exec_b-target :
    (core : Core) (instr : ℕ)
    → reg core reg_pc < 2 ^ 32
    → let imm11 : ℕ = instr % 2048 in
      let after : Core = exec_b core instr in
      ((reg after reg_pc + (if leb 1024 imm11 then 4096 else 0)) % 2 ^ 32
        ≡ (reg core reg_pc + 4 + 2 * imm11) % 2 ^ 32)
      × (after.pc_written ≡ true)
unfolding exec_b branch_by
exec_b-target core instr h =
    let field : bit_and instr 0x7ff ≡ instr % 2048 = bit_and-low_mask 11 instr in
    let offset = sign_extend_lem 10 (instr % 2048) (omega arith) (omega arith) in
    (rw (field, offset) (ground arith), refl)

never_passed : (core : Core) → condition_passed core 15 ≡ false
unfolding condition_passed condition_holds
never_passed core = refl

-- A conditional branch whose condition fails changes no register. Otherwise the program counter moves by the
-- signed offset of nine bits from the address four past the instruction, and is not advanced again.
-- The move is modulo 2^32. Every other register stays.
pub exec_b_cond-target :
    (core : Core) (instr j : ℕ)
    → reg core reg_pc < 2 ^ 32
    → j < reg_pc
    → let imm8 : ℕ = instr % 256 in
      let taken : Bool = condition_passed core (instr / 256 % 16) in
      let after : Core = exec_b_cond core instr in
      ((reg after reg_pc + (if taken && leb 128 imm8 then 512 else 0)) % 2 ^ 32
        ≡ (reg core reg_pc + (if taken then 4 + 2 * imm8 else 0)) % 2 ^ 32)
      × (after.pc_written ≡ (core.pc_written || taken))
      × (reg after j ≡ reg core j)
unfolding exec_b_cond branch_by
exec_b_cond-target core instr j h lt =
    let field : bit_and instr 0xff ≡ instr % 256 = bit_and-low_mask 8 instr in
    let cond : bit_and (shr instr 8) 0xf ≡ instr / 256 % 16 = bit_and-low_mask 4 (shr instr 8) in
    let offset = sign_extend_lem 7 (instr % 256) (omega arith) (omega arith) in
    rw (field, cond, offset)
      (elim (ℕ_discrete (instr / 256 % 16) 15) [
        | yes same ↦ rw (same, never_passed core) (ground arith, ground arith, refl)
        | no other ↦
            rw (ne→== _ _ other) (elim (Bool-cases (condition_passed core (instr / 256 % 16))) [
              | inl taken ↦ rw taken (ground arith, ground arith, ground arith)
              | inr skipped ↦ rw skipped (ground arith, ground arith, refl)
            ])
      ])
