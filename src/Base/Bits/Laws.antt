-- ===== src/Base/Bits/Laws.antt =====
-- Bits of powers of two, shifts, remainders, complements and single-bit masks.
use Prim.Native.Nat.{ℕ, zero, suc, ◌+◌, ◌-◌, ◌*◌, ◌/◌, ◌%◌, ◌^◌, ◌≤◌, ◌<◌, bit_and, bit_or}
use Prim.Native.Nat.{bit_xor}
use native.Mathlib.Nat.{pow-suc, one-le-pow, div-div-eq-div-mul, div-add-mod', mod-lt, mod-eq_of_lt}
use native.Mathlib.Nat.{
  mul-add-mod_self_right, mul-one, sub-zero, div-one, add-zero, mod-one, zero-mod,
}
use native.Mathlib.Decide.{ℕ_discrete}
use mathlib.Core.Path.{◌≡◌, refl, sym, ap, ◌∙◌}
use mathlib.Core.Bool.{Bool, true, false, not, ◌&&◌}
use mathlib.Core.Logic.{◌≢◌}
use native.Mathlib.Omega.{arith}
use stm32_emulator.Base.Tests.{◌==◌, ltb, if◌then◌else◌, nonzero}
use stm32_emulator.Base.Tests.{ne→==}
use stm32_emulator.Base.Bits.Step.{bit, bit-and, bit-or, bit-xor, bit_ext}

pub bit-zero : (i : ℕ) → bit 0 i ≡ false
unfolding bit
bit-zero zero = refl
bit-zero (suc i) = bit-zero i

pow_even : (k : ℕ) → 2 ^ suc k ≡ 2 * 2 ^ k
pow_even k = omega (arith, pow-suc 2 k)

pub pow-pos : (k : ℕ) → 0 < 2 ^ k
pow-pos k = one-le-pow k 2 (omega arith)

-- A power of two has one bit.
pub bit-pow : (k i : ℕ) → bit (2 ^ k) i ≡ (k == i)
unfolding bit
bit-pow zero zero = refl
bit-pow zero (suc i) = bit-zero i ∙ ground arith
bit-pow (suc k) zero = ground (arith, pow_even k)
bit-pow (suc k) (suc i) =
    let half : 2 ^ suc k / 2 ≡ 2 ^ k = omega (arith, pow_even k) in
    rw half (bit-pow k i ∙ ground arith)

-- Halving a number and a power of two together.
div-pow-suc : (k x : ℕ) → x / 2 ^ suc k ≡ x / 2 / 2 ^ k
div-pow-suc k x = ap (λ (t : ℕ). x / t) (pow_even k) ∙ sym (div-div-eq-div-mul x 2 (2 ^ k))

mod-pow-suc : (k x : ℕ) → x % 2 ^ suc k ≡ 2 * (x / 2 % 2 ^ k) + x % 2
mod-pow-suc k x =
    let split : x ≡ x / 2 / 2 ^ k * 2 ^ suc k + (2 * (x / 2 % 2 ^ k) + x % 2) =
      omega (arith, div-add-mod' (x / 2) (2 ^ k), ap (λ (t : ℕ). x / 2 / 2 ^ k * t) (pow_even k)) in
    let small : 2 * (x / 2 % 2 ^ k) + x % 2 < 2 ^ suc k =
      omega (arith, pow_even k, mod-lt (x / 2) (pow-pos k)) in
    ap (λ (t : ℕ). t % 2 ^ suc k) split
    ∙ mul-add-mod_self_right (x / 2 / 2 ^ k) (2 ^ suc k) (2 * (x / 2 % 2 ^ k) + x % 2)
    ∙ mod-eq_of_lt small

-- `(x << k)`, before it is cut to the word.
pub bit-shl : (k x i : ℕ) → bit (x * 2 ^ k) i ≡ (if ltb i k then false else bit x (i - k))
unfolding bit
bit-shl zero x i = rw (mul-one x, sub-zero i) (ground arith)
bit-shl (suc k) x zero =
    let even : x * 2 ^ suc k % 2 ≡ 0 = omega (arith, ap (λ (t : ℕ). x * t) (pow_even k)) in
    rw even (ground arith)
bit-shl (suc k) x (suc i) =
    let half : x * 2 ^ suc k / 2 ≡ x * 2 ^ k = omega (arith, ap (λ (t : ℕ). x * t) (pow_even k)) in
    let less : suc i - suc k ≡ i - k = omega arith in rw (half, less) (bit-shl k x i ∙ ground arith)

-- `(x >> k)`
pub bit-shr : (k x i : ℕ) → bit (x / 2 ^ k) i ≡ bit x (i + k)
unfolding bit
bit-shr zero x i = rw (div-one x, add-zero i)
bit-shr (suc k) x i =
    let more : i + suc k ≡ suc (i + k) = omega arith in
    rw (div-pow-suc k x, more) (bit-shr k (x / 2) i)

-- A cut to `w` bits.
pub bit-mod : (w x i : ℕ) → bit (x % 2 ^ w) i ≡ (ltb i w && bit x i)
unfolding bit
bit-mod zero x i = rw (mod-one x) (bit-zero i ∙ ground arith)
bit-mod (suc w) x zero =
    let low : x % 2 ^ suc w % 2 ≡ x % 2 = omega (arith, mod-pow-suc w x) in rw low (ground arith)
bit-mod (suc w) x (suc i) =
    let half : x % 2 ^ suc w / 2 ≡ x / 2 % 2 ^ w = omega (arith, mod-pow-suc w x) in
    rw half (bit-mod w (x / 2) i ∙ ground arith)

-- `~x` of `w` bits.
unfoldable pub complement : ℕ → ℕ → ℕ
complement w x = 2 ^ w - 1 - x % 2 ^ w

complement-suc : (w x : ℕ) → complement (suc w) x ≡ 2 * complement w (x / 2) + (1 - x % 2)
unfolding complement
complement-suc w x =
    omega (arith, pow_even w, mod-pow-suc w x, pow-pos w, mod-lt (x / 2) (pow-pos w))

pub bit-complement : (w x i : ℕ) → bit (complement w x) i ≡ (ltb i w && not (bit x i))
unfolding bit
bit-complement zero x i =
    let nothing : complement 0 x ≡ 0 = unfold complement in omega arith in
    rw nothing (bit-zero i ∙ ground arith)
bit-complement (suc w) x zero =
    let low : complement (suc w) x % 2 ≡ 1 - x % 2 = omega (arith, complement-suc w x) in
    rw low (ground arith)
bit-complement (suc w) x (suc i) =
    let half : complement (suc w) x / 2 ≡ complement w (x / 2) =
      omega (arith, complement-suc w x) in
    rw half (bit-complement w (x / 2) i ∙ ground arith)

pub complement-lt : (w x : ℕ) → complement w x < 2 ^ w
unfolding complement
complement-lt w x = omega (arith, pow-pos w)

-- A test of one bit by its mask.
one_bit : (b : Bool) (k i : ℕ) → (b && k == i) ≡ bit (if b then 2 ^ k else 0) i
one_bit true k i = sym (bit-pow k i)
one_bit false k i = sym (bit-zero i)

off_bit :
    (b c : Bool) (k i : ℕ) → k ≢ i → bit (if b then 2 ^ k else 0) i ≡ bit (if c then 2 ^ k else 0) i
off_bit true true k i ne = refl
off_bit false false k i ne = refl
off_bit true false k i ne = rw (bit-pow, bit-zero) (ne→== k i ne)
off_bit false true k i ne = rw (bit-pow, bit-zero) (sym (ne→== k i ne))

pub bit_and-pow : (x k : ℕ) → bit_and x (2 ^ k) ≡ (if bit x k then 2 ^ k else 0)
bit_and-pow x k = bit_ext _ _ λ i. elim (ℕ_discrete k i) [
  | yes e ↦ rw (← e, bit-and, bit-pow) (one_bit (bit x k) k k)
  | no ne ↦ rw (bit-and, bit-pow) (one_bit (bit x i) k i ∙ off_bit (bit x i) (bit x k) k i ne)
]

pub nonzero-bit_and : (x k : ℕ) → nonzero (bit_and x (2 ^ k)) ≡ bit x k
nonzero-bit_and x k = rw (bit_and-pow x k) (ground (arith, pow-pos k))

-- Bounds: a mask cuts, and a sum of bits stays in the word.
pub lt_of_bits : (w x : ℕ) → ((i : ℕ) → w ≤ i → bit x i ≡ false) → x < 2 ^ w
lt_of_bits w x h =
    let same : x ≡ x % 2 ^ w = bit_ext _ _ λ i. rw (bit-mod w x i) (ground (arith, h i)) in
    omega (arith, same, mod-lt x (pow-pos w))

pub bit_of_lt : (w x i : ℕ) → x < 2 ^ w → w ≤ i → bit x i ≡ false
bit_of_lt w x i h p =
    let same : x % 2 ^ w ≡ x = mod-eq_of_lt h in rw (← same) (bit-mod w x i ∙ ground arith)

pub bit_or-lt : (w a b : ℕ) → a < 2 ^ w → b < 2 ^ w → bit_or a b < 2 ^ w
bit_or-lt w a b p q =
    lt_of_bits w _ λ i h. bit-or i a b ∙ ground (arith, bit_of_lt w a i p h, bit_of_lt w b i q h)

pub bit_and-lt_left : (w a b : ℕ) → a < 2 ^ w → bit_and a b < 2 ^ w
bit_and-lt_left w a b p = lt_of_bits w _ λ i h. bit-and i a b ∙ ground (arith, bit_of_lt w a i p h)

pub bit_and-lt_right : (w a b : ℕ) → b < 2 ^ w → bit_and a b < 2 ^ w
bit_and-lt_right w a b p = lt_of_bits w _ λ i h. bit-and i a b ∙ ground (arith, bit_of_lt w b i p h)

pub bit_xor-lt : (w a b : ℕ) → a < 2 ^ w → b < 2 ^ w → bit_xor a b < 2 ^ w
bit_xor-lt w a b p q =
    lt_of_bits w _ λ i h. bit-xor i a b ∙ ground (arith, bit_of_lt w a i p h, bit_of_lt w b i q h)

-- A mask of `w` low bits is the remainder.
pub bit_and-low_mask : (w x : ℕ) → bit_and x (2 ^ w - 1) ≡ x % 2 ^ w
bit_and-low_mask w x = bit_ext _ _ λ i.
    let ones : bit (2 ^ w - 1) i ≡ ltb i w =
      let all : 2 ^ w - 1 ≡ complement w 0 = unfold complement in omega (arith, zero-mod (2 ^ w)) in
      rw all (bit-complement w 0 i ∙ ground (arith, bit-zero i)) in
    rw (bit-and, bit-mod, ones) (ground arith)
