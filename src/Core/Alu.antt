-- ===== src/Core/Alu.antt =====
-- src/core/core.c: shifts, additions, subtractions and the logical operations on registers
-- (`exec_lsl_imm` .. `exec_mvn`). Each handler takes the instruction's halfword.
use stm32_emulator.Base.{
  ℕ, ◌+◌, ◌-◌, ◌*◌, ◌^◌, bit_and, bit_or, bit_xor, Bool, false, ltb, leb, ◌==◌, nonzero,
  if◌then◌else◌, of_bool, u32, add32, sub32, shl32, shr, not32,
}
use stm32_emulator.Core.{
  Core, reg, set_reg, get_xpsr, update_nz, set_flag, xpsr_c, xpsr_v, update_flags_add,
  update_flags_sub, add_overflow, sub_overflow,
}

-- The fields of an instruction word: three bits from `k`, and the immediates.
abbrev pub field3 : ℕ → ℕ → ℕ
field3 instr k = bit_and (shr instr k) 0x7

abbrev pub imm5 : ℕ → ℕ
imm5 instr = bit_and (shr instr 6) 0x1f

abbrev pub imm8 : ℕ → ℕ
imm8 instr = bit_and instr 0xff

-- `R(rd) = value; update_nz(core, R(rd));`
abbrev pub set_reg_nz : Core → ℕ → ℕ → Core
set_reg_nz core rd value = update_nz (set_reg core rd value) value

-- The bit `k` of a register as C's condition.
abbrev pub reg_bit : Core → ℕ → ℕ → Bool
reg_bit core n k = nonzero (bit_and (shr (reg core n) k) 1)

unfoldable pub exec_lsl_imm : Core → ℕ → Core
exec_lsl_imm core instr =
    let rd = field3 instr 0 in
    let rs = field3 instr 3 in
    let amount = imm5 instr in
    if amount == 0
    then set_reg_nz core rd (reg core rs)
    else set_reg_nz (set_flag core xpsr_c (reg_bit core rs (32 - amount))) rd
        (shl32 (reg core rs) amount)

unfoldable pub exec_lsr_imm : Core → ℕ → Core
exec_lsr_imm core instr =
    let rd = field3 instr 0 in
    let rs = field3 instr 3 in
    let amount = if imm5 instr == 0 then 32 else imm5 instr in
    if amount == 32
    then set_reg_nz (set_flag core xpsr_c (reg_bit core rs 31)) rd 0
    else set_reg_nz (set_flag core xpsr_c (reg_bit core rs (amount - 1))) rd
        (shr (reg core rs) amount)

-- `(uint32_t)((int32_t)x >> amount)` for `amount` below 32: the sign bit is shifted in.
unfoldable pub asr32 : ℕ → ℕ → ℕ
asr32 x amount =
    if nonzero (bit_and x 0x80000000)
    then shr x amount + (2 ^ 32 - 2 ^ (32 - amount))
    else shr x amount

unfoldable pub exec_asr_imm : Core → ℕ → Core
exec_asr_imm core instr =
    let rd = field3 instr 0 in
    let rs = field3 instr 3 in
    let amount = if imm5 instr == 0 then 32 else imm5 instr in
    if amount == 32
    then set_reg_nz (set_flag core xpsr_c (reg_bit core rs 31)) rd
        (if reg_bit core rs 31 then 0xffffffff else 0)
    else set_reg_nz (set_flag core xpsr_c (reg_bit core rs (amount - 1))) rd
        (asr32 (reg core rs) amount)

-- `result = a + b`, its flags, and the register.
abbrev pub add_to : Core → ℕ → ℕ → ℕ → Core
add_to core rd a b = set_reg (update_flags_add core a b (add32 a b)) rd (add32 a b)

abbrev pub sub_to : Core → ℕ → ℕ → ℕ → Core
sub_to core rd a b = set_reg (update_flags_sub core a b (sub32 a b)) rd (sub32 a b)

unfoldable pub exec_add_reg : Core → ℕ → Core
exec_add_reg core instr =
    add_to core (field3 instr 0) (reg core (field3 instr 3)) (reg core (field3 instr 6))

unfoldable pub exec_sub_reg : Core → ℕ → Core
exec_sub_reg core instr =
    sub_to core (field3 instr 0) (reg core (field3 instr 3)) (reg core (field3 instr 6))

unfoldable pub exec_add_imm3 : Core → ℕ → Core
exec_add_imm3 core instr = add_to core (field3 instr 0) (reg core (field3 instr 3)) (field3 instr 6)

unfoldable pub exec_sub_imm3 : Core → ℕ → Core
exec_sub_imm3 core instr = sub_to core (field3 instr 0) (reg core (field3 instr 3)) (field3 instr 6)

unfoldable pub exec_mov_imm : Core → ℕ → Core
exec_mov_imm core instr = set_reg_nz core (field3 instr 8) (imm8 instr)

unfoldable pub exec_cmp_imm : Core → ℕ → Core
exec_cmp_imm core instr =
    let a = reg core (field3 instr 8) in update_flags_sub core a (imm8 instr) (sub32 a (imm8 instr))

unfoldable pub exec_add_imm8 : Core → ℕ → Core
exec_add_imm8 core instr = add_to core (field3 instr 8) (reg core (field3 instr 8)) (imm8 instr)

unfoldable pub exec_sub_imm8 : Core → ℕ → Core
exec_sub_imm8 core instr = sub_to core (field3 instr 8) (reg core (field3 instr 8)) (imm8 instr)

unfoldable pub exec_and : Core → ℕ → Core
exec_and core instr =
    let rd = field3 instr 0 in
    set_reg_nz core rd (bit_and (reg core rd) (reg core (field3 instr 3)))

unfoldable pub exec_eor : Core → ℕ → Core
exec_eor core instr =
    let rd = field3 instr 0 in
    set_reg_nz core rd (bit_xor (reg core rd) (reg core (field3 instr 3)))

unfoldable pub exec_lsl_reg : Core → ℕ → Core
exec_lsl_reg core instr =
    let rd = field3 instr 0 in
    let shift = bit_and (reg core (field3 instr 3)) 0xff in
    if shift == 0
    then update_nz core (reg core rd)
    else if ltb shift 32
    then set_reg_nz (set_flag core xpsr_c (reg_bit core rd (32 - shift))) rd
        (shl32 (reg core rd) shift)
    else if shift == 32
    then set_reg_nz (set_flag core xpsr_c (nonzero (bit_and (reg core rd) 1))) rd 0
    else set_reg_nz (set_flag core xpsr_c false) rd 0

unfoldable pub exec_lsr_reg : Core → ℕ → Core
exec_lsr_reg core instr =
    let rd = field3 instr 0 in
    let shift = bit_and (reg core (field3 instr 3)) 0xff in
    if shift == 0
    then update_nz core (reg core rd)
    else if ltb shift 32
    then set_reg_nz (set_flag core xpsr_c (reg_bit core rd (shift - 1))) rd
        (shr (reg core rd) shift)
    else if shift == 32
    then set_reg_nz (set_flag core xpsr_c (reg_bit core rd 31)) rd 0
    else set_reg_nz (set_flag core xpsr_c false) rd 0

unfoldable pub exec_asr_reg : Core → ℕ → Core
exec_asr_reg core instr =
    let rd = field3 instr 0 in
    let shift = bit_and (reg core (field3 instr 3)) 0xff in
    if shift == 0
    then update_nz core (reg core rd)
    else if ltb shift 32
    then set_reg_nz (set_flag core xpsr_c (reg_bit core rd (shift - 1))) rd
        (asr32 (reg core rd) shift)
    else set_reg_nz (set_flag core xpsr_c (reg_bit core rd 31)) rd
        (if reg_bit core rd 31 then 0xffffffff else 0)

-- `(XPSR & XPSR_C) ? 1 : 0`
abbrev pub carry_in : Core → ℕ
carry_in core = of_bool (nonzero (bit_and (get_xpsr core) xpsr_c))

unfoldable pub exec_adc : Core → ℕ → Core
exec_adc core instr =
    let rd = field3 instr 0 in
    let a = reg core rd in
    let b = reg core (field3 instr 3) in
    let result = a + b + carry_in core in
    let c1 = update_nz core (u32 result) in
    let c2 = set_flag c1 xpsr_c (ltb 0xffffffff result) in
    let c3 = set_flag c2 xpsr_v (add_overflow a b (u32 result)) in set_reg c3 rd (u32 result)

unfoldable pub exec_sbc : Core → ℕ → Core
exec_sbc core instr =
    let rd = field3 instr 0 in
    let a = reg core rd in
    let b = reg core (field3 instr 3) in
    let borrow = 1 - carry_in core in
    let result = sub32 (sub32 a b) borrow in
    let c1 = update_nz core result in
    let c2 = set_flag c1 xpsr_c (leb (b + borrow) a) in
    let c3 = set_flag c2 xpsr_v (sub_overflow a b result) in set_reg c3 rd result

unfoldable pub exec_ror : Core → ℕ → Core
exec_ror core instr =
    let rd = field3 instr 0 in
    let shift = bit_and (reg core (field3 instr 3)) 0xff in
    let low = bit_and shift 0x1f in
    if shift == 0
    then update_nz core (reg core rd)
    else if low == 0
    then update_nz (set_flag core xpsr_c (reg_bit core rd 31)) (reg core rd)
    else set_reg_nz (set_flag core xpsr_c (reg_bit core rd (low - 1))) rd
        (bit_or (shr (reg core rd) low) (shl32 (reg core rd) (32 - low)))

unfoldable pub exec_tst : Core → ℕ → Core
exec_tst core instr =
    update_nz core (bit_and (reg core (field3 instr 0)) (reg core (field3 instr 3)))

unfoldable pub exec_neg : Core → ℕ → Core
exec_neg core instr = sub_to core (field3 instr 0) 0 (reg core (field3 instr 3))

unfoldable pub exec_cmp_reg : Core → ℕ → Core
exec_cmp_reg core instr =
    let a = reg core (field3 instr 0) in
    let b = reg core (field3 instr 3) in update_flags_sub core a b (sub32 a b)

unfoldable pub exec_cmn : Core → ℕ → Core
exec_cmn core instr =
    let a = reg core (field3 instr 0) in
    let b = reg core (field3 instr 3) in update_flags_add core a b (add32 a b)

unfoldable pub exec_orr : Core → ℕ → Core
exec_orr core instr =
    let rd = field3 instr 0 in set_reg_nz core rd (bit_or (reg core rd) (reg core (field3 instr 3)))

unfoldable pub exec_mul : Core → ℕ → Core
exec_mul core instr =
    let rd = field3 instr 0 in set_reg_nz core rd (u32 (reg core rd * reg core (field3 instr 3)))

unfoldable pub exec_bic : Core → ℕ → Core
exec_bic core instr =
    let rd = field3 instr 0 in
    set_reg_nz core rd (bit_and (reg core rd) (not32 (reg core (field3 instr 3))))

unfoldable pub exec_mvn : Core → ℕ → Core
exec_mvn core instr = set_reg_nz core (field3 instr 0) (not32 (reg core (field3 instr 3)))
