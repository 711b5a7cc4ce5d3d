-- ===== src/Peripherals/Gpio.antt =====
-- src/peripherals/gpio/gpio.c: one port of sixteen pins.
pub mod Pins
use stm32_emulator.Base.{
  ℕ, zero, suc, ◌+◌, ◌*◌, ◌^◌, bit_and, bit_or, Bool, leb, ◌==◌, nonzero, if◌then◌else◌, u16, shr,
  not32,
}
use stm32_emulator.Status.{Status, ok, error}

-- `GpioState`
pub record Gpio : Type 0 where
  pub crl : ℕ
  pub crh : ℕ
  pub odr : ℕ
  pub ext_input : ℕ
  pub lckr : ℕ

-- A loop of `output_mask`, over the eight pins from `first` of one configuration register.
unfoldable pub mask_loop : ℕ → ℕ → ℕ → ℕ → ℕ → ℕ
mask_loop reg first zero i mask = mask
mask_loop reg first (suc left) i mask =
    mask_loop reg first left (i + 1) (
      if nonzero (bit_and (shr reg (i * 4)) 0x3) then bit_or mask (u16 (2 ^ (i + first))) else mask)

unfoldable pub output_mask : Gpio → ℕ
output_mask gpio = mask_loop gpio.crh 8 8 0 (mask_loop gpio.crl 0 8 0 0)

unfoldable pub compute_idr : Gpio → ℕ
compute_idr gpio =
    let out = output_mask gpio in
    u16 (bit_or (bit_and out gpio.odr) (bit_and (not32 out) gpio.ext_input))

unfoldable pub gpio_init : Gpio
gpio_init = record { crl = 0x44444444; crh = 0x44444444; odr = 0; ext_input = 0; lckr = 0 }

unfoldable pub gpio_reset : Gpio → Gpio
gpio_reset gpio = gpio_init

unfoldable pub gpio_set_pin : Gpio → ℕ → Bool → Gpio
gpio_set_pin gpio pin level =
    if leb 16 pin
    then gpio
    else if level
    then record gpio { ext_input = bit_or gpio.ext_input (u16 (2 ^ pin)) }
    else record gpio { ext_input = bit_and gpio.ext_input (u16 (not32 (2 ^ pin))) }

unfoldable pub gpio_get_pin : Gpio → ℕ → ℕ
gpio_get_pin gpio pin = if leb 16 pin then 0 else bit_and (shr (compute_idr gpio) pin) 1

unfoldable pub gpio_read : Gpio → ℕ → ℕ → ℕ
gpio_read gpio offset size =
    if offset == 0x00
    then gpio.crl
    else if offset == 0x04
    then gpio.crh
    else if offset == 0x08
    then bit_and (compute_idr gpio) 0xffff
    else if offset == 0x0C
    then bit_and gpio.odr 0xffff
    else if offset == 0x10
    then 0
    else if offset == 0x14
    then 0
    else if offset == 0x18
    then gpio.lckr
    else 0

-- The case `GPIO_BSRR_OFFSET` of `gpio_write`.
unfoldable pub write_bsrr : Gpio → ℕ → Gpio
write_bsrr gpio value =
    let set_bits = u16 (bit_and value 0xffff) in
    let reset_bits = u16 (bit_and (shr value 16) 0xffff) in
    let odr = bit_or gpio.odr set_bits in record gpio { odr = u16 (bit_and odr (not32 reset_bits)) }

unfoldable pub gpio_write : Gpio → ℕ → ℕ → ℕ → Status × Gpio
gpio_write gpio offset value size =
    if offset == 0x00
    then (ok, record gpio { crl = value })
    else if offset == 0x04
    then (ok, record gpio { crh = value })
    else if offset == 0x0C
    then (ok, record gpio { odr = u16 (bit_and value 0xffff) })
    else if offset == 0x10
    then (ok, write_bsrr gpio value)
    else if offset == 0x14
    then (ok, record gpio { odr = u16 (bit_and gpio.odr (not32 (u16 (bit_and value 0xffff)))) })
    else if offset == 0x18
    then (ok, record gpio { lckr = value })
    else (error, gpio)
