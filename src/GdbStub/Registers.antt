-- ===== src/GdbStub/Registers.antt =====
-- src/gdb_stub/gdb_stub.c: the text of a register, and the packets `g`, `G`, `p` and `P`.
use stm32_emulator.Base.{
  ℕ, zero, suc, ◌+◌, ◌*◌, bit_and, bit_or, none, some, List, [], ◌++◌, ltb, ◌==◌, if◌then◌else◌,
  update, u8, u32, shl32, shr,
}
use stm32_emulator.GdbStub.{Wire, Buffer}
use stm32_emulator.GdbStub.Text.{literal, string_at, strchr, strtoul, strtol, two_chars, hex2}
use stm32_emulator.GdbStub.Packet.{reply}
use stm32_emulator.Core.{CoreState}
use stm32_emulator.Simulator.{Simulator}

-- Byte `i` of a word.
unfoldable pub byte_of : ℕ → ℕ → ℕ
byte_of val i = bit_and (shr val (8 * i)) 0xff

unfoldable pub encode_u32le : ℕ → List ℕ
encode_u32le val =
    hex2 (byte_of val 0) ++ hex2 (byte_of val 1) ++ hex2 (byte_of val 2) ++ hex2 (byte_of val 3)

-- The byte that two characters of the packet write.
unfoldable pub decode_byte : Buffer → ℕ → ℕ
decode_byte buf pos = u8 (strtoul (two_chars (buf pos) (buf (pos + 1))))

unfoldable pub decode_u32le : Buffer → ℕ → ℕ
decode_u32le buf pos =
    bit_or
      (bit_or (bit_or (decode_byte buf pos) (shl32 (decode_byte buf (pos + 2)) 8))
        (shl32 (decode_byte buf (pos + 4)) 16))
      (shl32 (decode_byte buf (pos + 6)) 24)

-- The loop over `r[0]` to `r[n - 1]`.
unfoldable pub encode_regs : ℕ → (ℕ → ℕ) → List ℕ
encode_regs zero r = []
encode_regs (suc n) r = encode_regs n r ++ encode_u32le (r n)

unfoldable pub decode_regs : ℕ → (ℕ → ℕ) → Buffer → ℕ → (ℕ → ℕ)
decode_regs zero r buf pos = r
decode_regs (suc n) r buf pos = update (decode_regs n r buf pos) n (decode_u32le buf (pos + n * 8))

-- The text of all registers.
unfoldable pub regs_text : CoreState → List ℕ
regs_text s = encode_regs 16 s.r ++ encode_u32le s.xpsr

module _ {X : Type 0} where
  -- `stub->sim->core.state`, assigned.
  abbrev pub set_state : Simulator X → CoreState → Simulator X
  set_state sim s = record sim { core = record sim.core { state = s } }

  unfoldable pub handle_read_regs : Wire × Simulator X → Wire × Simulator X
  handle_read_regs (w, sim) = (reply w (regs_text sim.core.state), sim)

  unfoldable pub handle_write_regs : Wire × Simulator X → Buffer → ℕ → Wire × Simulator X
  handle_write_regs (w, sim) buf pos =
      let s : CoreState = record sim.core.state {
        r = decode_regs 16 sim.core.state.r buf pos;
        xpsr = decode_u32le buf (pos + 16 * 8);
      } in
      (reply w (literal "OK"), set_state sim s)

  -- `n` is an `int`; that it lies from 0 to 15 or is 16 is said of its 32 bits.
  unfoldable pub handle_read_reg : Wire × Simulator X → Buffer → ℕ → Wire × Simulator X
  handle_read_reg (w, sim) buf pos =
      let n = u32 (strtol (string_at buf pos)) in
      let s = sim.core.state in
      if ltb n 16
      then (reply w (encode_u32le (s.r n)), sim)
      else if n == 16
      then (reply w (encode_u32le s.xpsr), sim)
      else (reply w (literal "E00"), sim)

  unfoldable pub handle_write_reg : Wire × Simulator X → Buffer → ℕ → Wire × Simulator X
  handle_write_reg (w, sim) buf pos = elim (strchr buf pos b'=') [
    | none ↦ (reply w (literal "E00"), sim)
    | some eq ↦
        (let n = u32 (strtol (string_at buf pos)) in
          let val = decode_u32le buf (eq + 1) in
          let s = sim.core.state in
          if ltb n 16
          then (reply w (literal "OK"), set_state sim (record s { r = update s.r n val }))
          else if n == 16
          then (reply w (literal "OK"), set_state sim (record s { xpsr = val }))
          else (reply w (literal "E00"), sim))
  ]
