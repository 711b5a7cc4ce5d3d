-- ===== src/Core/Stack.antt =====
-- src/core/core.c: `exec_push` and `exec_pop`.
use stm32_emulator.Base.{
  ℕ, zero, suc, ◌+◌, ◌*◌, ◌^◌, bit_and, Bool, not, nonzero, if◌then◌else◌, add32, sub32, shr, not32,
}
use stm32_emulator.Core.{Core, SystemBus, reg, set_reg, mark_pc, reg_sp, reg_lr, reg_pc}
use stm32_emulator.Core.Exceptions.{is_exc_return, load, store, exit_exception}

-- `rlist & (1 << i)`
abbrev pub listed : ℕ → ℕ → Bool
listed rlist i = nonzero (bit_and rlist (2 ^ i))

-- The loop that counts the listed registers.
unfoldable pub count_loop : ℕ → ℕ → ℕ → ℕ → ℕ
count_loop rlist zero i count = count
count_loop rlist (suc left) i count =
    count_loop rlist left (i + 1) (if listed rlist i then count + 1 else count)

module _ {M : Type 0} (bus : SystemBus M) where
  -- The loop that stores the listed registers; the result has the next address.
  unfoldable pub push_loop : ℕ → ℕ → ℕ → Core × M → ℕ → (Core × M) × ℕ
  push_loop rlist zero i s addr = (s, addr)
  push_loop rlist (suc left) i s addr =
      let s' : Core × M = if listed rlist i then store bus s addr (reg s.0 i) 4 else s in
      push_loop rlist left (i + 1) s' (if listed rlist i then add32 addr 4 else addr)

  unfoldable pub exec_push : Core × M → ℕ → Core × M
  exec_push s instr =
      let rlist = bit_and instr 0xff in
      let store_lr = nonzero (bit_and (shr instr 8) 1) in
      let listed_count = count_loop rlist 8 0 0 in
      let count = if store_lr then listed_count + 1 else listed_count in
      let sp = sub32 (reg s.0 reg_sp) (count * 4) in
      let pushed = push_loop rlist 8 0 (set_reg s.0 reg_sp sp, s.1) sp in
      if store_lr then store bus pushed.0 pushed.1 (reg pushed.0.0 reg_lr) 4 else pushed.0

  -- The loop that loads the listed registers; the result has the next address.
  unfoldable pub pop_loop : ℕ → ℕ → ℕ → Core × M → ℕ → (Core × M) × ℕ
  pop_loop rlist zero i s addr = (s, addr)
  pop_loop rlist (suc left) i s addr =
      let s' : Core × M = if listed rlist i then load bus s i addr 4 else s in
      pop_loop rlist left (i + 1) s' (if listed rlist i then add32 addr 4 else addr)

  unfoldable pub exec_pop : Core × M → ℕ → Core × M
  exec_pop s instr =
      let rlist = bit_and instr 0xff in
      let load_pc = nonzero (bit_and (shr instr 8) 1) in
      let popped = pop_loop rlist 8 0 s (reg s.0 reg_sp) in
      let core = popped.0.0 in
      let addr = popped.1 in
      let got = bus.read popped.0.1 addr 4 in
      let next = add32 addr 4 in
      if not load_pc
      then (set_reg core reg_sp addr, popped.0.1)
      else if is_exc_return got.0
      then (let left = exit_exception bus (set_reg core reg_sp next, got.1) in
          (mark_pc left.0, left.1))
      else (set_reg (mark_pc (set_reg core reg_pc (bit_and got.0 (not32 1)))) reg_sp next, got.1)
