-- ===== src/Core/Flags.antt =====
-- src/core/core.c: what `update_nz`, `set_flag`, `update_flags_add` and `update_flags_sub` leave in
-- the four flags.
use stm32_emulator.Base.{
  ℕ, ◌+◌, ◌^◌, ◌<◌, bit_and, bit_or, bit_xor, ◌≡◌, refl, ap, ◌∙◌, Bool, true, false, not, ◌&&◌, xor,
  arith, ltb, leb, ◌==◌, nonzero, if◌then◌else◌, shr, not32,
}
use stm32_emulator.Base.Bits.{
  bit, bit-and, bit-or, bit-xor, bit-pow, bit-shr, bit-complement, complement-lt, nonzero-bit_and,
  bit_and-lt_left, bit_xor-lt,
}
use stm32_emulator.Core.{
  Core, get_xpsr, xpsr_n, xpsr_z, xpsr_c, xpsr_v, nz_of, update_nz, flag_of, set_flag, add_overflow,
  sub_overflow, update_flags_add, update_flags_sub, flag_bit,
}

-- The sign bit of a word.
abbrev pub negative : ℕ → Bool
negative a = leb 0x80000000 a

pub flag_bit-bit : (core : Core) (k : ℕ) → flag_bit core k ≡ bit (get_xpsr core) k
unfolding flag_bit
flag_bit-bit core k =
    let low : nonzero (bit_and (shr (get_xpsr core) k) 1) ≡ bit (shr (get_xpsr core) k) 0 =
      nonzero-bit_and (shr (get_xpsr core) k) 0 in
    low ∙ bit-shr k (get_xpsr core) 0 ∙ ap (bit (get_xpsr core)) (omega arith)

pub bit31 : (a : ℕ) → a < 2 ^ 32 → bit a 31 ≡ negative a
unfolding bit
bit31 a lt = ground arith

top_bit : (a : ℕ) → a < 2 ^ 32 → nonzero (shr a 31) ≡ bit a 31
unfolding bit
top_bit a lt = ground arith

pub bit-flag_of :
    (x k i : ℕ) (b : Bool) → i < 32 → bit (flag_of x (2 ^ k) b) i ≡ (if k == i then b else bit x i)
unfolding flag_of
bit-flag_of x k i true lt = rw (bit-or, bit-pow k i) (ground arith)
bit-flag_of x k i false lt = rw (bit-and, bit-complement, bit-pow k i) (ground arith)

pub bit-nz_of :
    (x result i : ℕ)
    → i < 32
    → result < 2 ^ 32
    → bit (nz_of x result) i
      ≡ (if i == 31 then negative result else if i == 30 then result == 0 else bit x i)
unfolding nz_of
bit-nz_of x result i lt small =
    let sign : nonzero (bit_and result 0x80000000) ≡ bit result 31 = nonzero-bit_and result 31 in
    rw (sign, bit31 result small) (cases (negative result) (result == 0) refl)
  where
    cases :
        (n z : Bool)
        → (result == 0) ≡ z
        → bit
            (let cleared = bit_and x (not32 (bit_or xpsr_n xpsr_z)) in
              let with_z = if z then bit_or cleared xpsr_z else cleared in
              if n then bit_or with_z xpsr_n else with_z)
            i
          ≡ (if i == 31 then n else if i == 30 then z else bit x i)
    cases true true e =
        rw
          (
            bit-or,
            bit-or,
            bit-and,
            bit-complement,
            bit-or i (2 ^ 31) (2 ^ 30),
            bit-pow 31 i,
            bit-pow 30 i,
          )
          (ground arith)
    cases true false e =
        rw (bit-or, bit-and, bit-complement, bit-or i (2 ^ 31) (2 ^ 30), bit-pow 31 i, bit-pow 30 i)
          (ground arith)
    cases false true e =
        rw (bit-or, bit-and, bit-complement, bit-or i (2 ^ 31) (2 ^ 30), bit-pow 31 i, bit-pow 30 i)
          (ground arith)
    cases false false e =
        rw (bit-and, bit-complement, bit-or i (2 ^ 31) (2 ^ 30), bit-pow 31 i, bit-pow 30 i)
          (ground arith)

pub sub_overflow_lem :
    (a b result : ℕ)
    → a < 2 ^ 32
    → b < 2 ^ 32
    → result < 2 ^ 32
    → sub_overflow a b result
      ≡ (xor (negative a) (negative b) && xor (negative a) (negative result))
unfolding sub_overflow
sub_overflow_lem a b result p q r =
    rw
      (
        top_bit _ (bit_and-lt_left 32 (bit_xor a b) (bit_xor a result) (bit_xor-lt 32 a b p q)),
        bit-and,
        bit-xor 31 a b,
        bit-xor 31 a result,
        bit31 a p,
        bit31 b q,
        bit31 result r,
      )
      refl

pub add_overflow_lem :
    (a b result : ℕ)
    → a < 2 ^ 32
    → b < 2 ^ 32
    → result < 2 ^ 32
    → add_overflow a b result
      ≡ (not (xor (negative a) (negative b)) && xor (negative a) (negative result))
unfolding add_overflow
add_overflow_lem a b result p q r =
    rw
      (
        top_bit _ (
            bit_and-lt_left 32 (not32 (bit_xor a b)) (bit_xor a result)
              (complement-lt 32 (bit_xor a b))),
        bit-and,
        bit-complement,
        bit-xor 31 a b,
        bit-xor 31 a result,
        bit31 a p,
        bit31 b q,
        bit31 result r,
      )
      refl

-- All flags after the two ways to set them.
pub flags_bit :
    (x result i : ℕ) (c v : Bool)
    → i < 32
    → result < 2 ^ 32
    → bit (flag_of (flag_of (nz_of x result) xpsr_c c) xpsr_v v) i ≡ (
        if i == 28
        then v
        else if i == 29
        then c
        else if i == 31
        then negative result
        else if i == 30
        then result == 0
        else bit x i)
flags_bit x result i c v lt small =
    rw
      (
        bit-flag_of (flag_of (nz_of x result) xpsr_c c) 28 i v lt,
        bit-flag_of (nz_of x result) 29 i c lt,
        bit-nz_of x result i lt small,
      )
      (ground arith)

-- The flags N, Z, C and V of a core.
pub record HasFlags (core : Core) (n z c v : Bool) : Type 0 where
  pub n_flag : flag_bit core 31 ≡ n
  pub z_flag : flag_bit core 30 ≡ z
  pub c_flag : flag_bit core 29 ≡ c
  pub v_flag : flag_bit core 28 ≡ v

pub flags-HasFlags :
    (core : Core) (x result : ℕ) (c v : Bool)
    → result < 2 ^ 32
    → get_xpsr core ≡ flag_of (flag_of (nz_of x result) xpsr_c c) xpsr_v v
    → HasFlags core (negative result) (result == 0) c v
flags-HasFlags core x result c v small e = record {
  n_flag = at 31 (omega arith);
  z_flag = at 30 (omega arith);
  c_flag = at 29 (omega arith);
  v_flag = at 28 (omega arith);
}
  where
    at :
        (i : ℕ)
        → i < 32
        → flag_bit core i ≡ (
            if i == 28
            then v
            else if i == 29
            then c
            else if i == 31
            then negative result
            else if i == 30
            then result == 0
            else bit x i)
    at i lt = flag_bit-bit core i ∙ ap (λ (t : ℕ). bit t i) e ∙ flags_bit x result i c v lt small

-- After a subtraction: N and Z of the result, C where there is no borrow, V on signed overflow.
pub update_flags_sub-HasFlags :
    (core : Core) (a b result : ℕ)
    → result < 2 ^ 32
    → HasFlags
        (update_flags_sub core a b result)
        (negative result)
        (result == 0)
        (leb b a)
        (sub_overflow a b result)
unfolding update_flags_sub update_nz set_flag
update_flags_sub-HasFlags core a b result small =
    flags-HasFlags _ (get_xpsr core) result _ _ small refl

pub update_flags_add-HasFlags :
    (core : Core) (a b result : ℕ)
    → result < 2 ^ 32
    → HasFlags
        (update_flags_add core a b result)
        (negative result)
        (result == 0)
        (ltb 0xffffffff (a + b))
        (add_overflow a b result)
unfolding update_flags_add update_nz set_flag
update_flags_add-HasFlags core a b result small =
    flags-HasFlags _ (get_xpsr core) result _ _ small refl
