-- ===== src/Core/Wide/DataProcessing.antt =====
-- src/core/core.c: the data processing case of `execute_32bit`. `none` is its `default`, after
-- which the source goes on to the next cases. As in the source, the flags of ADD, ADC, SBC, SUB and
-- RSB are computed from the registers after the result is written.
use stm32_emulator.Base.{
  ℕ, ◌-◌, bit_and, bit_or, bit_xor, Bool, true, not, Option, none, some, ◌==◌, nonzero,
  if◌then◌else◌, add32, sub32, shl32, shr, not32,
}
use stm32_emulator.Core.{
  Core, reg, set_reg, get_xpsr, update_nz, update_flags_add, update_flags_sub,
}

unfoldable pub thumb_expand_imm : ℕ → ℕ
thumb_expand_imm imm12 =
    let byte = bit_and imm12 0xff in
    let kind = bit_and (shr imm12 8) 0xf in
    let val = bit_or 0x80 (bit_and imm12 0x7f) in
    let amount = bit_and (shr imm12 7) 0x1f in
    if kind == 0x0
    then byte
    else if kind == 0x1
    then bit_or (shl32 byte 16) byte
    else if kind == 0x2
    then bit_or (shl32 byte 24) (shl32 byte 8)
    else if kind == 0x3
    then bit_or (bit_or (bit_or (shl32 byte 24) (shl32 byte 16)) (shl32 byte 8)) byte
    else bit_or (shr val amount) (shl32 val (32 - amount))

-- `(i << 11) | (imm3 << 8) | imm8`
unfoldable pub imm12_of : ℕ → ℕ → ℕ
imm12_of hw1 hw2 =
    bit_or (bit_or (shl32 (bit_and (shr hw1 10) 1) 11) (shl32 (bit_and (shr hw2 12) 0x7) 8))
      (bit_and hw2 0xff)

-- The register is written, and N and Z follow the result under `S`.
abbrev pub logical : Core → Bool → Bool → ℕ → ℕ → Core
logical core s writes rd result =
    let core' : Core = if writes then set_reg core rd result else core in
    if s then update_nz core' result else core'

-- The register is written; under `S` the flags are those of the sum or difference of what the
-- operands are then.
abbrev pub added : Core → Bool → Bool → ℕ → ℕ → ℕ → ℕ → Core
added core s writes rd rn imm32 result =
    let core' : Core = if writes then set_reg core rd result else core in
    if s then update_flags_add core' (reg core' rn) imm32 result else core'

abbrev pub subtracted : Core → Bool → Bool → ℕ → ℕ → ℕ → ℕ → Core
subtracted core s writes rd rn imm32 result =
    let core' : Core = if writes then set_reg core rd result else core in
    if s then update_flags_sub core' (reg core' rn) imm32 result else core'

-- `(XPSR >> 29) & 1`
abbrev pub carry_bit : Core → ℕ
carry_bit core = bit_and (shr (get_xpsr core) 29) 1

unfoldable pub data_processing : Core → ℕ → ℕ → Option Core
data_processing core hw1 hw2 =
    let op = bit_and (shr hw1 5) 0xf in
    let s = nonzero (bit_and (shr hw1 4) 1) in
    let rn = bit_and hw1 0xf in
    let rd = bit_and (shr hw2 8) 0xf in
    let imm32 = thumb_expand_imm (imm12_of hw1 hw2) in
    let a = reg core rn in
    let carry = carry_bit core in
    let writes = not (rd == 0xf) in
    if op == 0x0
    then some (logical core s writes rd (bit_and a imm32))
    else if op == 0x1
    then some (logical core s true rd (bit_and a (not32 imm32)))
    else if op == 0x2
    then some (logical core s true rd (if rn == 0xf then imm32 else bit_or a imm32))
    else if op == 0x3
    then some (logical core s true rd (if rn == 0xf then not32 imm32 else bit_or a (not32 imm32)))
    else if op == 0x4
    then some (logical core s writes rd (bit_xor a imm32))
    else if op == 0x8
    then some (added core s writes rd rn imm32 (add32 a imm32))
    else if op == 0x9
    then some (added core s true rd rn imm32 (add32 (add32 a imm32) carry))
    else if op == 0xa
    then some (subtracted core s true rd rn imm32 (sub32 (sub32 a imm32) (1 - carry)))
    else if op == 0xd
    then some (subtracted core s writes rd rn imm32 (sub32 a imm32))
    else if op == 0xe
    then (let result = sub32 imm32 a in
        let core' : Core = set_reg core rd result in
        some (if s then update_flags_sub core' imm32 (reg core' rn) result else core'))
    else none
