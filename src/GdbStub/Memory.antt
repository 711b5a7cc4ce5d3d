-- ===== src/GdbStub/Memory.antt =====
-- src/gdb_stub/gdb_stub.c: the packets `m` and `M`.
use stm32_emulator.Base.{
  ℕ, zero, suc, ◌+◌, bit_and, none, some, List, [], ◌++◌, ltb, if◌then◌else◌, u32, add32,
}
use stm32_emulator.GdbStub.{Wire, Buffer}
use stm32_emulator.GdbStub.Text.{literal, string_at, strchr, strtoul, hex2}
use stm32_emulator.GdbStub.Packet.{reply}
use stm32_emulator.GdbStub.Registers.{decode_byte}
use stm32_emulator.Bus.{Bus, bus_read, bus_write}
use stm32_emulator.Simulator.{Simulator}

-- `(uint32_t)strtoul(s, NULL, 16)` of the string at an index
abbrev pub word_at : Buffer → ℕ → ℕ
word_at buf pos = u32 (strtoul (string_at buf pos))

module _ {M : Type 0} (bus : Bus M) where
  -- `len` reads of a byte each, from `addr` on, and the text of what they give.
  unfoldable pub read_bytes : ℕ → ℕ → M → List ℕ × M
  read_bytes zero addr m = ([], m)
  read_bytes (suc len) addr m =
      let b = bus_read bus m addr 1 in
      let rest = read_bytes len (add32 addr 1) b.1 in (hex2 (bit_and b.0 0xff) ++ rest.0, rest.1)

  -- `len` writes of a byte each; the statuses are ignored.
  unfoldable pub write_bytes : ℕ → ℕ → Buffer → ℕ → M → M
  write_bytes zero addr buf hex m = m
  write_bytes (suc len) addr buf hex m =
      write_bytes len (add32 addr 1) buf (hex + 2) (bus_write bus m addr (decode_byte buf hex) 1).1

module _ {X : Type 0} where
  unfoldable pub handle_read_mem : Wire × Simulator X → Buffer → ℕ → Wire × Simulator X
  handle_read_mem (w, sim) buf pos = elim (strchr buf pos b',') [
    | none ↦ (reply w (literal "E00"), sim)
    | some comma ↦
        (let addr = word_at buf pos in
          let asked = word_at buf (comma + 1) in
          let len = if ltb 1024 asked then 1024 else asked in
          let r = read_bytes sim.bus len addr sim.machine in
          (reply w r.0, record sim { machine = r.1 }))
  ]

  unfoldable pub handle_write_mem : Wire × Simulator X → Buffer → ℕ → Wire × Simulator X
  handle_write_mem (w, sim) buf pos = elim (strchr buf pos b',') [
    | none ↦ (reply w (literal "E00"), sim)
    | some comma ↦ elim (strchr buf pos b':') [
      | none ↦ (reply w (literal "E00"), sim)
      | some colon ↦
          (let addr = word_at buf pos in
            let len = word_at buf (comma + 1) in
            let m = write_bytes sim.bus len addr buf (colon + 1) sim.machine in
            (reply w (literal "OK"), record sim { machine = m }))
    ]
  ]
