-- ===== src/Nvic/Registers/Words.antt =====
-- src/nvic/nvic_bus.c: the words that the loops read and the flags that they write, bit by bit.
use stm32_emulator.Base.{
  ℕ, zero, suc, ◌+◌, ◌-◌, ◌^◌, ◌<◌, bit_or, ◌≡◌, ◌∙◌, Bool, true, false, ◌&&◌, ◌||◌, arith, ltb,
  leb, ◌==◌, if◌then◌else◌, update,
}
use stm32_emulator.Base.Bits.{bit, bit-or, bit-pow, nonzero-bit_and}
use native.Mathlib.Decide.{ℕ_discrete}
use stm32_emulator.Nvic.{Nvic, nvic_num_irq}
use stm32_emulator.Nvic.Registers.{word_loop, bits_loop}

add_bit :
    (m : Bool) (v i k : ℕ) → bit (if m then bit_or v (2 ^ i) else v) k ≡ (bit v k || m && i == k)
add_bit true v i k = rw (bit-or, bit-pow)
add_bit false v i k = ground arith

-- Bit `k` of a word read from the flags of the lines from `base`.
pub word_loop-bit :
    (flags : ℕ → Bool) (base left i v k : ℕ)
    → bit (word_loop flags base left i v) k ≡ (
        bit v k
        || (leb i k && ltb k (i + left)) && (ltb (base + k) nvic_num_irq && flags (base + k)))
unfolding word_loop
word_loop-bit flags base zero i v k = ground arith
word_loop-bit flags base (suc left) i v k =
    word_loop-bit flags base left (i + 1) _ k
    ∙ rw (add_bit (ltb (base + i) nvic_num_irq && flags (base + i)) v i k)
        (elim (ℕ_discrete i k) [ yes same ↦ rw same (ground arith) | no other ↦ ground arith ])

-- What the loop over the bits of a word leaves in an array `g` that each call sets at its line to `b`.
pub bits_loop-get :
    (op : Nvic → ℕ → Nvic) (g : Nvic → ℕ → Bool) (b : Bool)
    → ((n : Nvic) (irq j : ℕ) → irq < nvic_num_irq → g (op n irq) j ≡ update (g n) irq b j)
    → (base value left i : ℕ) (n : Nvic) (j : ℕ)
    → g (bits_loop op base value left i n) j ≡ (
        if (leb (base + i) j && ltb j (base + i + left))
          && (ltb j nvic_num_irq && bit value (j - base))
        then b
        else g n j)
unfolding bits_loop
bits_loop-get op g b law base value zero i n j = ground arith
bits_loop-get op g b law base value (suc left) i n j =
    bits_loop-get op g b law base value left (i + 1) _ j
    ∙ rw (nonzero-bit_and value i) (elim (ℕ_discrete j (base + i)) [
      | yes same ↦ let at : j - base ≡ i = omega arith in rw at (ground (arith, law n (base + i) j))
      | no other ↦ ground (arith, law n (base + i) j)
    ])
