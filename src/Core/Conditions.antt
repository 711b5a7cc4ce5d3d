-- ===== src/Core/Conditions.antt =====
-- src/core/core.c: the conditions after a comparison, and the flags of an addition, against the
-- order of the unsigned and of the signed words.
use stm32_emulator.Base.{
  ℕ, ◌^◌, ◌<◌, ◌≡◌, refl, ap, ◌∙◌, Bool, true, false, not, ◌&&◌, ◌||◌, xor, arith, ltb, leb, ◌==◌,
  if◌then◌else◌, add32, sub32,
}
use stm32_emulator.Core.{Core, update_flags_sub, sub_overflow, condition_holds, condition_passed}
use stm32_emulator.Core.Flags.{negative, sub_overflow_lem, HasFlags, update_flags_sub-HasFlags}

-- The order of two's complement, on the patterns: the sign bit is flipped.
abbrev pub signed_ltb : ℕ → ℕ → Bool
signed_ltb a b = ltb (add32 a 0x80000000) (add32 b 0x80000000)

-- What each of the fourteen conditions says of the operands of a comparison, by its number; the
-- sign and overflow conditions are those of the difference.
abbrev pub compared : ℕ → ℕ → ℕ → Bool
compared cond a b =
    if cond == 0
    then a == b
    else if cond == 1
    then not (a == b)
    else if cond == 2
    then leb b a
    else if cond == 3
    then ltb a b
    else if cond == 4
    then negative (sub32 a b)
    else if cond == 5
    then not (negative (sub32 a b))
    else if cond == 6
    then sub_overflow a b (sub32 a b)
    else if cond == 7
    then not (sub_overflow a b (sub32 a b))
    else if cond == 8
    then ltb b a
    else if cond == 9
    then leb a b
    else if cond == 10
    then not (signed_ltb a b)
    else if cond == 11
    then signed_ltb a b
    else if cond == 12
    then signed_ltb b a
    else if cond == 13
    then not (signed_ltb b a)
    else if cond == 14
    then true
    else false

passed_flags :
    (core : Core) (cond : ℕ) {n z c v : Bool}
    → HasFlags core n z c v
    → condition_passed core cond ≡ condition_holds cond n z c v
unfolding condition_passed
passed_flags core cond f = rw (f.n_flag, f.z_flag, f.c_flag, f.v_flag) refl

signed_lt :
    (a b : ℕ)
    → a < 2 ^ 32
    → b < 2 ^ 32
    → xor (negative (sub32 a b)) (sub_overflow a b (sub32 a b)) ≡ signed_ltb a b
signed_lt a b p q = rw (sub_overflow_lem a b (sub32 a b) p q (omega arith)) (ground arith)

signed_gt :
    (a b : ℕ) → a < 2 ^ 32 → b < 2 ^ 32 → (not (a == b) && not (signed_ltb a b)) ≡ signed_ltb b a
signed_gt a b p q = ground arith

-- The switch, where the combinations of the flags that it uses have the values `lo` .. `gt`.
switch_by :
    (cond : ℕ) (n z c v : Bool) {lo hi ls lt gt : Bool}
    → not c ≡ lo
    → (c && not z) ≡ hi
    → (not c || z) ≡ ls
    → xor n v ≡ lt
    → (not z && not lt) ≡ gt
    → condition_holds cond n z c v ≡ (
        if cond == 0
        then z
        else if cond == 1
        then not z
        else if cond == 2
        then c
        else if cond == 3
        then lo
        else if cond == 4
        then n
        else if cond == 5
        then not n
        else if cond == 6
        then v
        else if cond == 7
        then not v
        else if cond == 8
        then hi
        else if cond == 9
        then ls
        else if cond == 10
        then not lt
        else if cond == 11
        then lt
        else if cond == 12
        then gt
        else if cond == 13
        then not gt
        else if cond == 14
        then true
        else false)
unfolding condition_holds
switch_by cond n z c v e1 e2 e3 e4 e5 = ground (arith, e1, e2, e3, e4, e5)

-- After a comparison of two words every condition says of them what its name promises: EQ and NE
-- compare, HS, LO, HI and LS use the unsigned order, GE, LT, GT and LE the signed one.
pub condition_passed-compared :
    (core : Core) (a b cond : ℕ)
    → a < 2 ^ 32
    → b < 2 ^ 32
    → condition_passed (update_flags_sub core a b (sub32 a b)) cond ≡ compared cond a b
condition_passed-compared core a b cond p q =
    passed_flags _ cond (update_flags_sub-HasFlags core a b (sub32 a b) (omega arith))
    ∙ zero_flag
    ∙ switch_by cond _ _ _ _ (ground arith) (ground arith) (ground arith) (signed_lt a b p q)
        (signed_gt a b p q)
  where
    zero_flag :
        condition_holds cond
          (negative (sub32 a b))
          (sub32 a b == 0)
          (leb b a)
          (sub_overflow a b (sub32 a b))
        ≡ condition_holds cond
            (negative (sub32 a b))
            (a == b)
            (leb b a)
            (sub_overflow a b (sub32 a b))
    zero_flag =
        ap
          (λ z.
            condition_holds cond (negative (sub32 a b)) z (leb b a) (sub_overflow a b (sub32 a b)))
          (ground arith)
