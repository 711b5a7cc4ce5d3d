-- ===== src/Peripherals/Rcc.antt =====
-- src/peripherals/rcc/rcc.c: the clock controller, ten registers with some read-only bits.
pub mod Flags
use stm32_emulator.Base.{
  ℕ, ◌/◌, ◌%◌, ◌^◌, bit_and, bit_or, Bool, ◌||◌, leb, ◌==◌, nonzero, if◌then◌else◌, update, filled,
  shl32, not32,
}
use stm32_emulator.Status.{Status, ok, error}

-- The bits of `CR`.
abbrev pub hsion : ℕ
hsion = 2 ^ 0

abbrev pub hsirdy : ℕ
hsirdy = 2 ^ 1

abbrev pub hseon : ℕ
hseon = 2 ^ 16

abbrev pub hserdy : ℕ
hserdy = 2 ^ 17

abbrev pub pllon : ℕ
pllon = 2 ^ 24

abbrev pub pllrdy : ℕ
pllrdy = 2 ^ 25

-- `RCC_CFGR_SW_MASK` and `RCC_CFGR_SWS_MASK`, `3U << 0` and `3U << 2`.
abbrev pub sw_mask : ℕ
sw_mask = 3

abbrev pub sws_mask : ℕ
sws_mask = 12

-- `RCC_NUM_REGS`
abbrev pub rcc_num_regs : ℕ
rcc_num_regs = 10

-- `RccState`
pub record Rcc : Type 0 where
  pub regs : ℕ → ℕ

unfoldable pub rcc_load_reset_values : Rcc
rcc_load_reset_values = record {
  regs =
      update
        (update (update (update (filled 0) 0 (bit_or (bit_or hsion hsirdy) (shl32 16 3))) 1 0) 5
          0x14)
        9 0x0C000000;
}

-- `if (cr & on) cr |= ready; else cr &= ~ready;`
unfoldable pub follow : ℕ → ℕ → ℕ → ℕ
follow on ready cr = if nonzero (bit_and cr on) then bit_or cr ready else bit_and cr (not32 ready)

unfoldable pub rcc_update_cr_ready : Rcc → Rcc
rcc_update_cr_ready rcc =
    let cr = follow pllon pllrdy (follow hseon hserdy (follow hsion hsirdy (rcc.regs 0))) in
    record { regs = update rcc.regs 0 cr }

unfoldable pub rcc_update_cfgr_sws : Rcc → Rcc
rcc_update_cfgr_sws rcc =
    let cfgr = rcc.regs 1 in
    let sw = bit_and cfgr sw_mask in
    record { regs = update rcc.regs 1 (bit_or (bit_and cfgr (not32 sws_mask)) (shl32 sw 2)) }

unfoldable pub rcc_init : Rcc
rcc_init = rcc_load_reset_values

unfoldable pub rcc_reset : Rcc → Rcc
rcc_reset rcc = rcc_load_reset_values

-- The test for an offset that names no register.
unfoldable pub unknown_offset : ℕ → Bool
unknown_offset offset = nonzero (offset % 4) || leb rcc_num_regs (offset / 4)

unfoldable pub rcc_read : Rcc → ℕ → ℕ → ℕ
rcc_read rcc offset size = if unknown_offset offset then 0 else rcc.regs (offset / 4)

-- The register write, by its index.
unfoldable pub write_reg : Rcc → ℕ → ℕ → Rcc
write_reg rcc idx value =
    if idx == 0
    then rcc_update_cr_ready (record {
      regs = update rcc.regs 0 (bit_and value (not32 (bit_or (bit_or hsirdy hserdy) pllrdy)));
    })
    else if idx == 1
    then rcc_update_cfgr_sws (record { regs = update rcc.regs 1 (bit_and value (not32 sws_mask)) })
    else if idx == 9
    then (if nonzero (bit_and value (2 ^ 24))
        then record { regs = update rcc.regs 9 (bit_and (rcc.regs 9) (not32 0xFF000000)) }
        else record { regs = update rcc.regs 9 value })
    else record { regs = update rcc.regs idx value }

unfoldable pub rcc_write : Rcc → ℕ → ℕ → ℕ → Status × Rcc
rcc_write rcc offset value size =
    if unknown_offset offset then (error, rcc) else (ok, write_reg rcc (offset / 4) value)
