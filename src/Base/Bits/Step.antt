-- ===== src/Base/Bits/Step.antt =====
-- The native bit operations mean a recursion on binary digits with fuel. Dropped fuel gives one
-- equation for the lowest digit, and that gives the law for each bit.
use Prim.Native.Nat.{ℕ, zero, suc, ◌+◌, ◌-◌, ◌*◌, ◌/◌, ◌%◌, ◌≤◌, ◌<◌, min, max, differ}
use Prim.Native.Nat.{bit_and, bit_or, bit_xor, digits, bitwise}
use Prim.Native.Nat.{bit_and-bitwise, bit_or-bitwise, bit_xor-bitwise}
use native.Mathlib.Decide.{ℕ_discrete}
use mathlib.Core.Path.{◌≡◌, refl, sym, ◌∙◌}
use mathlib.Core.Bool.{Bool, ◌&&◌, ◌||◌}
use native.Mathlib.Omega.{arith}
use stm32_emulator.Base.Tests.{◌==◌, xor}

-- Bit `i` of `x`: `(x >> i) & 1`.
unfoldable pub bit : ℕ → ℕ → Bool
bit x zero = x % 2 == 1
bit x (suc i) = bit (x / 2) i

module _ (on_zero : ℕ → ℕ) (digit : ℕ → ℕ → ℕ) where
  out_of_digits : (fuel y : ℕ) → digits on_zero digit fuel 0 y ≡ on_zero y
  out_of_digits zero y = refl
  out_of_digits (suc fuel) y = refl

  one_round_more :
      (fuel y x : ℕ)
      → x ≤ fuel
      → digits on_zero digit (suc fuel) x y ≡ digits on_zero digit fuel x y
  one_round_more fuel y zero le = sym (out_of_digits fuel y)
  one_round_more zero y (suc x) le = absurd (omega arith)
  one_round_more (suc fuel) y (suc x) le =
      rw (one_round_more fuel (y / 2) (suc x / 2) (omega arith))

  rounds_more :
      (k fuel total x y : ℕ)
      → total ≡ k + fuel
      → x ≤ fuel
      → digits on_zero digit total x y ≡ digits on_zero digit fuel x y
  rounds_more zero fuel total x y e le = let same : total ≡ fuel = omega arith in rw same
  rounds_more (suc k) fuel total x y e le =
      let next : total ≡ suc (k + fuel) = omega arith in
      rw next
        (one_round_more (k + fuel) y x (omega arith) ∙ rounds_more k fuel (k + fuel) x y refl le)

  -- The lowest digit apart, where the numbers without digits agree with that.
  lowest_apart :
      ((y : ℕ) → on_zero y ≡ on_zero (y / 2) * 2 + digit 0 (y % 2))
      → (x y : ℕ)
      → bitwise on_zero digit x y
        ≡ bitwise on_zero digit (x / 2) (y / 2) * 2 + digit (x % 2) (y % 2)
  lowest_apart ends zero y = ends y
  lowest_apart ends (suc x) y =
      let half = suc x / 2 in
      omega (arith, rounds_more (x - half) half x half (y / 2) (omega arith) (omega arith))

pub bit_or_step : (a b : ℕ) → bit_or a b ≡ bit_or (a / 2) (b / 2) * 2 + max (a % 2) (b % 2)
bit_or_step a b = simp bit_or-bitwise (lowest_apart (λ y. y) max (λ y. omega arith) a b)

bit_and_step : (a b : ℕ) → bit_and a b ≡ bit_and (a / 2) (b / 2) * 2 + min (a % 2) (b % 2)
bit_and_step a b = simp bit_and-bitwise (lowest_apart (λ y. 0) min (λ y. omega arith) a b)

pub bit-and : (i a b : ℕ) → bit (bit_and a b) i ≡ (bit a i && bit b i)
unfolding bit
bit-and zero a b = ground (arith, bit_and_step a b)
bit-and (suc i) a b =
    let half : bit_and a b / 2 ≡ bit_and (a / 2) (b / 2) = omega (arith, bit_and_step a b) in
    rw half (bit-and i (a / 2) (b / 2))

pub bit-or : (i a b : ℕ) → bit (bit_or a b) i ≡ (bit a i || bit b i)
unfolding bit
bit-or zero a b = ground (arith, bit_or_step a b)
bit-or (suc i) a b =
    let half : bit_or a b / 2 ≡ bit_or (a / 2) (b / 2) = omega (arith, bit_or_step a b) in
    rw half (bit-or i (a / 2) (b / 2))

-- Numbers are equal when their bits are.
bit_ext_below : (n a b : ℕ) → a ≤ n → b ≤ n → ((i : ℕ) → bit a i ≡ bit b i) → a ≡ b
unfolding bit
bit_ext_below zero a b p q h = omega arith
bit_ext_below (suc n) a b p q h = elim (ℕ_discrete a b) [
  | yes e ↦ e
  | no ne ↦
      let halves : a / 2 ≡ b / 2 =
        bit_ext_below n (a / 2) (b / 2) (omega arith) (omega arith) (λ i. h (suc i)) in
      ground (arith, h 0)
]

pub bit_ext : (a b : ℕ) → ((i : ℕ) → bit a i ≡ bit b i) → a ≡ b
bit_ext a b h = bit_ext_below (a + b) a b (omega arith) (omega arith) h

bit_xor_step : (a b : ℕ) → bit_xor a b ≡ bit_xor (a / 2) (b / 2) * 2 + differ (a % 2) (b % 2)
bit_xor_step a b = simp bit_xor-bitwise (lowest_apart (λ y. y) differ (λ y. omega arith) a b)

differ_digits :
    (a b : ℕ) → a < 2 → b < 2 → (differ a b < 2) × ((differ a b == 1) ≡ xor (a == 1) (b == 1))
differ_digits zero zero p q = (q, refl)
differ_digits zero (suc zero) p q = (q, refl)
differ_digits zero (suc (suc b)) p q = absurd (omega arith)
differ_digits (suc zero) zero p q = (omega arith, refl)
differ_digits (suc zero) (suc zero) p q = (omega arith, refl)
differ_digits (suc zero) (suc (suc b)) p q = absurd (omega arith)
differ_digits (suc (suc a)) b p q = absurd (omega arith)

pub bit-xor : (i a b : ℕ) → bit (bit_xor a b) i ≡ xor (bit a i) (bit b i)
unfolding bit
bit-xor zero a b =
    let d = differ_digits (a % 2) (b % 2) (omega arith) (omega arith) in
    let low : bit_xor a b % 2 ≡ differ (a % 2) (b % 2) = omega (arith, bit_xor_step a b, d.0) in
    rw low d.1
bit-xor (suc i) a b =
    let d = differ_digits (a % 2) (b % 2) (omega arith) (omega arith) in
    let half : bit_xor a b / 2 ≡ bit_xor (a / 2) (b / 2) = omega (arith, bit_xor_step a b, d.0) in
    rw half (bit-xor i (a / 2) (b / 2))
