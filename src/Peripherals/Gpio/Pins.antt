-- ===== src/Peripherals/Gpio/Pins.antt =====
-- src/peripherals/gpio/gpio.c: what each pin shows.
use stm32_emulator.Base.{
  cases_of, lt_or_ge, ◌⊎◌, ℕ, zero, suc, ◌+◌, ◌-◌, ◌*◌, ◌^◌, ◌≤◌, ◌<◌, bit_and, bit_or, ◌≡◌, refl,
  ◌∙◌, Bool, true, false, not, ◌&&◌, ◌||◌, arith, ltb, leb, ◌==◌, nonzero, if◌then◌else◌, of_bool,
  u16, shr, not32,
}
use stm32_emulator.Base.Bits.{
  bit, bit-and, bit-or, bit-zero, bit-pow, bit-shr, bit-mod, bit-complement, bit_and-pow,
  bit_and-low_mask,
}
use stm32_emulator.Status.{Status, ok}
use native.Mathlib.Decide.{ℕ_discrete}
use native.Mathlib.Nat.{sub-zero, zero-add}
use stm32_emulator.Peripherals.Gpio.{
  Gpio, mask_loop, output_mask, compute_idr, gpio_set_pin, gpio_get_pin, gpio_read, gpio_write,
  write_bsrr,
}

-- The mode bits of a pin in its configuration register say that it is an output.
pub is_output : Gpio → ℕ → Bool
is_output gpio pin =
    if ltb pin 8
    then nonzero (bit_and (shr gpio.crl (pin * 4)) 0x3)
    else nonzero (bit_and (shr gpio.crh ((pin - 8) * 4)) 0x3)

add_pin :
    (m : Bool) (mask p k : ℕ)
    → p < 16
    → bit (if m then bit_or mask (u16 (2 ^ p)) else mask) k ≡ (bit mask k || m && p == k)
add_pin true mask p k lt = rw (bit-or, bit-mod 16 (2 ^ p) k, bit-pow) (ground arith)
add_pin false mask p k lt = ground arith

mask_loop-bit :
    (reg first left i mask k : ℕ)
    → i + left ≤ 8
    → first ≤ 8
    → bit (mask_loop reg first left i mask) k ≡ (
        bit mask k
        || (leb (i + first) k && ltb k (i + first + left))
          && nonzero (bit_and (shr reg ((k - first) * 4)) 0x3))
unfolding mask_loop
mask_loop-bit reg first zero i mask k le fst = ground arith
mask_loop-bit reg first (suc left) i mask k le fst =
    mask_loop-bit reg first left (i + 1) _ k (omega arith) fst
    ∙ rw (add_pin (nonzero (bit_and (shr reg (i * 4)) 0x3)) mask (i + first) k (omega arith))
        (elim (ℕ_discrete k (i + first)) [
          | yes same ↦ let at : k - first ≡ i = omega arith in rw at (ground arith)
          | no other ↦ ground arith
        ])

output_mask-bit : (gpio : Gpio) (k : ℕ) → bit (output_mask gpio) k ≡ (ltb k 16 && is_output gpio k)
unfolding output_mask is_output
output_mask-bit gpio k =
    mask_loop-bit gpio.crh 8 8 0 _ k (omega arith) (omega arith)
    ∙ rw (mask_loop-bit gpio.crl 0 8 0 0 k (omega arith) (omega arith), bit-zero, sub-zero k)
        (ground arith)

-- Bit `k` of the input data register.
compute_idr-bit :
    (gpio : Gpio) (k : ℕ)
    → bit (compute_idr gpio) k
      ≡ (ltb k 16 && (if is_output gpio k then bit gpio.odr k else bit gpio.ext_input k))
unfolding compute_idr
compute_idr-bit gpio k =
    bit-mod 16 _ k ∙ rw (bit-or, bit-and, bit-and, bit-complement, output_mask-bit) (ground arith)

-- Each branch under its own condition.
gpio_get_pin-level_cases :
    (gpio : Gpio) (pin size : ℕ)
    → let level : Bool = if is_output gpio pin then bit gpio.odr pin else bit gpio.ext_input pin in
      (pin < 16
        → (gpio_get_pin gpio pin ≡ of_bool level) × (bit (gpio_read gpio 0x08 size) pin ≡ level))
      × (16 ≤ pin → gpio_get_pin gpio pin ≡ 0)
unfolding gpio_get_pin gpio_read
gpio_get_pin-level_cases gpio pin size = (
  λ lt.
      let inside : leb 16 pin ≡ false = ground arith in
      let shown : bit (compute_idr gpio) pin
          ≡ (if is_output gpio pin then bit gpio.odr pin else bit gpio.ext_input pin) =
        ground (arith, compute_idr-bit gpio pin) in
      (
        rw (inside, bit_and-pow (shr (compute_idr gpio) pin) 0, bit-shr pin (compute_idr gpio) 0)
            (rw (zero-add pin, shown) (as_number _)),
        rw (bit_and-low_mask 16 (compute_idr gpio), bit-mod 16 (compute_idr gpio) pin)
            (ground (arith, shown)),
      ),
  λ le. ground arith,
)
  where
    as_number : (b : Bool) → (if b then 1 else 0) ≡ of_bool b
    as_number true = refl
    as_number false = refl

-- For a pin of the port `gpio_get_pin` is the output bit where the pin is an output, and what drives the
-- pin from outside where it is an input; bit `pin` of the register `IDR` agrees. No other number is a
-- pin: it reads 0.
pub gpio_get_pin-level :
    (gpio : Gpio) (pin size : ℕ)
    → let level : Bool = if is_output gpio pin then bit gpio.odr pin else bit gpio.ext_input pin in
      ((pin < 16)
        × ((gpio_get_pin gpio pin ≡ of_bool level) × (bit (gpio_read gpio 0x08 size) pin ≡ level)))
      ⊎ ((16 ≤ pin) × (gpio_get_pin gpio pin ≡ 0))
gpio_get_pin-level gpio pin size = cases_of (lt_or_ge _ _) (gpio_get_pin-level_cases gpio pin size)

-- A write to `BSRR` sets the output bits named by its low half and then resets those named by its high
-- half, so that reset wins; a write to `BRR` resets those named by its low half. Both succeed and
-- change nothing but the output register.
pub gpio_write_set_reset :
    (gpio : Gpio) (value size i : ℕ)
    → let set_reset : Status × Gpio = gpio_write gpio 0x10 value size in
      let reset : Status × Gpio = gpio_write gpio 0x14 value size in
      (bit set_reset.1.odr i
        ≡ (ltb i 16 && (not (bit value (i + 16)) && (bit gpio.odr i || bit value i))))
      × (set_reset ≡ (ok, record gpio { odr = set_reset.1.odr }))
      × (bit reset.1.odr i ≡ (ltb i 16 && (bit gpio.odr i && not (bit value i))))
      × (reset ≡ (ok, record gpio { odr = reset.1.odr }))
unfolding gpio_write write_bsrr
gpio_write_set_reset gpio value size i = (
  bit-mod 16 _ i
      ∙ rw
          (
            bit-and,
            bit-or,
            bit-complement,
            low_half value i,
            low_half (shr value 16) i,
            bit-shr 16 value i,
          )
          (ground arith),
  refl,
  bit-mod 16 _ i ∙ rw (bit-and, bit-complement, low_half value i) (ground arith),
  refl,
)
  where
    low_half : (x k : ℕ) → bit (u16 (bit_and x 0xffff)) k ≡ (ltb k 16 && bit x k)
    low_half x k =
        bit-mod 16 (bit_and x 0xffff) k ∙ rw (bit_and-low_mask 16 x, bit-mod 16 x k) (ground arith)

driven :
    (gpio : Gpio) (p q : ℕ) (b : Bool)
    → p < 16
    → q < 16
    → (is_output (gpio_set_pin gpio p b) q ≡ is_output gpio q)
      × ((gpio_set_pin gpio p b).odr ≡ gpio.odr)
      × (bit (gpio_set_pin gpio p b).ext_input q ≡ (if p == q then b else bit gpio.ext_input q))
unfolding gpio_set_pin is_output
driven gpio p q true hp hq =
    let inside : leb 16 p ≡ false = ground arith in
    rw inside (refl, refl, rw (bit-or, bit-mod 16 (2 ^ p) q, bit-pow) (ground arith))
driven gpio p q false hp hq =
    let inside : leb 16 p ≡ false = ground arith in
    rw inside (
      refl,
      refl,
      rw (bit-and, bit-mod 16 (not32 (2 ^ p)) q, bit-complement, bit-pow) (ground arith),
    )

-- Driving pin `p` from outside shows at once where `p` is an input, does nothing visible where it is an
-- output, and leaves every other pin as it was.
pub gpio_get_pin-set_pin :
    (gpio : Gpio) (p q : ℕ) (level : Bool)
    → p < 16
    → q < 16
    → gpio_get_pin (gpio_set_pin gpio p level) q
      ≡ (if not (is_output gpio q) && p == q then of_bool level else gpio_get_pin gpio q)
gpio_get_pin-set_pin gpio p q level hp hq =
    ((gpio_get_pin-level_cases (gpio_set_pin gpio p level) q 4).0 hq).0
    ∙ rw
        (
          ((gpio_get_pin-level_cases gpio q 4).0 hq).0,
          (driven gpio p q level hp hq).0,
          (driven gpio p q level hp hq).1,
          (driven gpio p q level hp hq).2,
        )
        (ground arith)
