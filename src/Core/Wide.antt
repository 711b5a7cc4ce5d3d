-- ===== src/Core/Wide.antt =====
-- src/core/core.c: `thumb_expand_imm` and `execute_32bit`, one function for each of its cases.
pub mod DataProcessing
use stm32_emulator.Base.{
  ℕ, ◌+◌, ◌-◌, ◌*◌, ◌^◌, bit_and, bit_or, bit_xor, Bool, not, ◌&&◌, ◌||◌, none, some, ◌==◌, nonzero,
  if◌then◌else◌, u8, u16, u32, u64, add32, sub32, shl32, shr, not32,
}
use stm32_emulator.Status.{Status, ok, invalid_instruction}
use stm32_emulator.Core.{Core, SystemBus, reg, set_reg, mark_pc, reg_lr, reg_pc, sign_extend}
use stm32_emulator.Core.Exceptions.{load, store}
use stm32_emulator.Core.Wide.DataProcessing.{data_processing, imm12_of}

-- BL: the signed offset's 32-bit pattern.
unfoldable pub bl_offset : ℕ → ℕ → ℕ
bl_offset hw1 hw2 =
    let s = bit_and (shr hw1 10) 1 in
    let j1 = bit_and (shr hw2 13) 1 in
    let j2 = bit_and (shr hw2 11) 1 in
    let i1 = bit_and (not32 (bit_xor j1 s)) 1 in
    let i2 = bit_and (not32 (bit_xor j2 s)) 1 in
    let imm10 = bit_and hw1 0x3ff in
    let imm11 = bit_and hw2 0x7ff in
    let raw =
      bit_or (bit_or (bit_or (bit_or (shl32 s 24) (shl32 i1 23)) (shl32 i2 22)) (shl32 imm10 12))
        (shl32 imm11 1) in
    sign_extend raw 25

unfoldable pub branch_link : Core → ℕ → ℕ → Core
branch_link core hw1 hw2 =
    let next = add32 (reg core reg_pc) 4 in
    let linked = set_reg core reg_lr (bit_or next 1) in
    mark_pc (set_reg linked reg_pc (add32 next (bl_offset hw1 hw2)))

-- `(imm4 << 12) | (i << 11) | (imm3 << 8) | imm8`
unfoldable pub imm16_of : ℕ → ℕ → ℕ
imm16_of hw1 hw2 = bit_or (shl32 (bit_and hw1 0xf) 12) (imm12_of hw1 hw2)

abbrev pub rd_of : ℕ → ℕ
rd_of hw2 = bit_and (shr hw2 8) 0xf

unfoldable pub movw : Core → ℕ → ℕ → Core
movw core hw1 hw2 = set_reg core (rd_of hw2) (imm16_of hw1 hw2)

unfoldable pub movt : Core → ℕ → ℕ → Core
movt core hw1 hw2 =
    set_reg core (rd_of hw2)
      (bit_or (bit_and (reg core (rd_of hw2)) 0xffff) (shl32 (imm16_of hw1 hw2) 16))

-- The address of a 32-bit load or store, and the core with the base register written back.
unfoldable pub wide_address : Core → ℕ → ℕ → Core × ℕ
wide_address core hw1 hw2 =
    let rn = bit_and hw1 0xf in
    let base = reg core rn in
    let imm8 = bit_and hw2 0xff in
    let p = nonzero (bit_and (shr hw2 10) 1) in
    let u = nonzero (bit_and (shr hw2 9) 1) in
    let w = nonzero (bit_and (shr hw2 8) 1) in
    let moved = if u then add32 base imm8 else sub32 base imm8 in
    if nonzero (bit_and (shr hw1 7) 1)
    then (core, add32 base (bit_and hw2 0xfff))
    else if nonzero (bit_and hw2 0x0800)
    then (if w || not p then set_reg core rn moved else core, if p then moved else base)
    else (core, add32 base (shl32 (reg core (bit_and hw2 0xf)) (bit_and (shr hw2 4) 0x3)))

abbrev pub rt_of : ℕ → ℕ
rt_of hw2 = bit_and (shr hw2 12) 0xf

unfoldable pub umull : Core → ℕ → ℕ → Core
umull core hw1 hw2 =
    let result = reg core (bit_and hw1 0xf) * reg core (bit_and hw2 0xf) in
    set_reg (set_reg core (rt_of hw2) (u32 result)) (rd_of hw2) (shr result 32)

-- `(int64_t)(int32_t)x` as a 64-bit pattern
abbrev pub widen : ℕ → ℕ
widen x = if nonzero (bit_and x 0x80000000) then x + (2 ^ 64 - 2 ^ 32) else x

unfoldable pub smull : Core → ℕ → ℕ → Core
smull core hw1 hw2 =
    let result = u64 (widen (reg core (bit_and hw1 0xf)) * widen (reg core (bit_and hw2 0xf))) in
    set_reg (set_reg core (rt_of hw2) (u32 result)) (rd_of hw2) (shr result 32)

-- The guards of `execute_32bit`, which `core_step` tests again for the profiler.
abbrev pub is_bl : ℕ → ℕ → Bool
is_bl hw1 hw2 = bit_and hw1 0xf800 == 0xf000 && bit_and hw2 0xd000 == 0xd000

abbrev pub is_movw : ℕ → ℕ → Bool
is_movw hw1 hw2 = bit_and hw1 0xfbf0 == 0xf240 && not (nonzero (bit_and hw2 0x8000))

abbrev pub is_movt : ℕ → ℕ → Bool
is_movt hw1 hw2 = bit_and hw1 0xfbf0 == 0xf2c0 && not (nonzero (bit_and hw2 0x8000))

abbrev pub is_data_processing : ℕ → ℕ → Bool
is_data_processing hw1 hw2 = bit_and hw1 0xfa00 == 0xf000 && not (nonzero (bit_and hw2 0x8000))

module _ {M : Type 0} (bus : SystemBus M) where
  unfoldable pub load_store : Core × M → ℕ → ℕ → Core × M
  load_store s hw1 hw2 =
      let sz = bit_and (shr hw1 5) 3 in
      let nbytes = if sz == 0 then 1 else if sz == 1 then 2 else 4 in
      let addressed = wide_address s.0 hw1 hw2 in
      if nonzero (bit_and (shr hw1 4) 1)
      then load bus (addressed.0, s.1) (rt_of hw2) addressed.1 nbytes
      else store bus (addressed.0, s.1) addressed.1 (reg addressed.0 (rt_of hw2)) nbytes

  unfoldable pub load_signed : Core × M → ℕ → ℕ → Core × M
  load_signed s hw1 hw2 =
      let byte = bit_and (shr hw1 5) 1 == 0 in
      let addressed = wide_address s.0 hw1 hw2 in
      let got = bus.read s.1 addressed.1 (if byte then 1 else 2) in
      (
        set_reg addressed.0 (rt_of hw2)
            (if byte then sign_extend (u8 got.0) 8 else sign_extend (u16 got.0) 16),
        got.1,
      )

  -- The cases after the data processing one.
  unfoldable pub execute_memory : Core × M → ℕ → ℕ → Status × (Core × M)
  execute_memory s hw1 hw2 =
      if bit_and hw1 0xff00 == 0xf800
      then (ok, load_store s hw1 hw2)
      else if bit_and hw1 0xff00 == 0xf900
      then (ok, load_signed s hw1 hw2)
      else if bit_and hw1 0xfff0 == 0xfba0
      then (ok, (umull s.0 hw1 hw2, s.1))
      else if bit_and hw1 0xfff0 == 0xfb80
      then (ok, (smull s.0 hw1 hw2, s.1))
      else (invalid_instruction, s)

  unfoldable pub execute_32bit : Core × M → ℕ → ℕ → Status × (Core × M)
  execute_32bit s hw1 hw2 =
      if is_bl hw1 hw2
      then (ok, (branch_link s.0 hw1 hw2, s.1))
      else if is_movw hw1 hw2
      then (ok, (movw s.0 hw1 hw2, s.1))
      else if is_movt hw1 hw2
      then (ok, (movt s.0 hw1 hw2, s.1))
      else if is_data_processing hw1 hw2
      then elim (data_processing s.0 hw1 hw2) [
        | some core ↦ (ok, (core, s.1))
        | none ↦ execute_memory s hw1 hw2
      ]
      else execute_memory s hw1 hw2
