-- ===== src/GdbStub/Session.antt =====
-- src/gdb_stub/gdb_stub.c: `rsp_session`, `gdb_stub_init` and `gdb_stub_close`.
use stm32_emulator.Base.{
  ℕ, zero, suc, ◌+◌, Bool, ◌&&◌, ◌||◌, Option, none, some, List, [], ◌∷◌, ◌++◌, ◌==◌, if◌then◌else◌,
}
use stm32_emulator.GdbStub.{Wire, Buffer, pkt_buf_size}
use stm32_emulator.GdbStub.Text.{literal, string_at, starts_with, equals}
use stm32_emulator.GdbStub.Packet.{reply, rsp_recv_packet}
use stm32_emulator.GdbStub.Registers.{
  handle_read_regs, handle_write_regs, handle_read_reg, handle_write_reg,
}
use stm32_emulator.GdbStub.Memory.{handle_read_mem, handle_write_mem}
use stm32_emulator.GdbStub.Control.{handle_continue, handle_step, handle_set_bp, handle_remove_bp}
use stm32_emulator.GdbStub.Query.{handle_features_xml, handle_monitor_cmd}
use stm32_emulator.Peripherals.UartLogger.{UartLogger}
use stm32_emulator.Simulator.{Simulator}
use stm32_emulator.Simulator.Control.{simulator_halt}
use mathlib.Core.Option

-- `GdbStub` without the simulator; a descriptor is `none` where the code has -1.
pub record GdbStub : Type 0 where
  pub server_fd : Option ℕ
  pub client_fd : Option ℕ
  pub port : ℕ

unfoldable pub gdb_stub_init : ℕ → GdbStub
gdb_stub_init port = record { server_fd = none; client_fd = none; port = port }

-- The descriptors that are closed, and the stub.
unfoldable pub gdb_stub_close : GdbStub → List ℕ × GdbStub
gdb_stub_close stub = (
  elim stub.client_fd [ none ↦ [] | some fd ↦ fd ∷ [] ]
      ++ elim stub.server_fd [ none ↦ [] | some fd ↦ fd ∷ [] ],
  record stub { client_fd = none; server_fd = none },
)

-- How a round of the loop of `rsp_session` ends: the session goes on or is over.
pub data Round (S : Type 0) : Type 0 where
  next : S → Round S
  over : S → Round S

module _ {X : Type 0} (diagram : Option UartLogger → List ℕ) where
  -- The case `q`.
  unfoldable pub handle_query : Wire × Simulator X → Buffer → ℕ → Wire × Simulator X
  handle_query (w, sim) buf pos =
      let args = string_at buf pos in
      if starts_with args (literal "Supported")
      then (reply w (literal "PacketSize=1000;qXfer:features:read+"), sim)
      else if starts_with args (literal "Rcmd,")
      then handle_monitor_cmd diagram (w, sim) buf (pos + 5)
      else if starts_with args (literal "Xfer:features:read:target.xml:")
      then (handle_features_xml w buf (pos + 30), sim)
      else if starts_with args (literal "Attached")
      then (reply w (literal "1"), sim)
      else if equals args (literal "C")
      then (reply w (literal "QC0"), sim)
      else if starts_with args (literal "fThreadInfo")
      then (reply w (literal "m0"), sim)
      else if starts_with args (literal "sThreadInfo")
      then (reply w (literal "l"), sim)
      else (reply w (literal ""), sim)

  -- The `switch` over the command, but for `c`, `D` and `k`.
  unfoldable pub handle_command : ℕ → Wire × Simulator X → Buffer → Wire × Simulator X
  handle_command cmd (w, sim) buf =
      if cmd == b'?'
      then (reply w (literal "S05"), sim)
      else if cmd == b'g'
      then handle_read_regs (w, sim)
      else if cmd == b'G'
      then handle_write_regs (w, sim) buf 1
      else if cmd == b'p'
      then handle_read_reg (w, sim) buf 1
      else if cmd == b'P'
      then handle_write_reg (w, sim) buf 1
      else if cmd == b'm'
      then handle_read_mem (w, sim) buf 1
      else if cmd == b'M'
      then handle_write_mem (w, sim) buf 1
      else if cmd == b's'
      then handle_step (w, sim) buf 1
      else if cmd == b'Z'
      then handle_set_bp (w, sim) buf 1
      else if cmd == b'z'
      then handle_remove_bp (w, sim) buf 1
      else if cmd == b'H' || cmd == b'T'
      then (reply w (literal "OK"), sim)
      else if cmd == b'q'
      then handle_query (w, sim) buf 1
      else (reply w (literal ""), sim)

  -- A packet of length `len` in the buffer; `none` means that the fuel of `handle_continue` ran out.
  unfoldable pub handle_packet :
      (ℕ → Bool) → ℕ → ℕ → Buffer → Wire × Simulator X → Option (Round (Wire × Simulator X))
  handle_packet arrived fuel len buf (w, sim) =
      if len == 1 && buf 0 == 0x03
      then some (next (reply w (literal "S02"), simulator_halt sim))
      else if buf 0 == b'c'
      then Option.map next (handle_continue arrived fuel (w, sim) buf 1)
      else if buf 0 == b'D'
      then some (over (reply w (literal "OK"), sim))
      else if buf 0 == b'k'
      then some (over (w, sim))
      else some (next (handle_command (buf 0) (w, sim) buf))

  -- The session: the packet that is received, and the rounds after it. `arrived n k` is asked after step `k`
  -- of a `c` of round `n`, and `fuel` is what each of these has.
  unfoldable pub rsp_session :
      (ℕ → ℕ → Bool) → ℕ → ℕ → ℕ → Buffer → Wire × Simulator X → Option (Wire × Simulator X)
  rsp_session arrived fuel zero n buf s = none
  rsp_session arrived fuel (suc rounds) n buf (w, sim) =
      let r = rsp_recv_packet w buf pkt_buf_size in
      elim r.0 [
        | none ↦ some (r.1.1, sim)
        | some len ↦ elim (handle_packet (arrived n) fuel len r.1.0 (r.1.1, sim)) [
          | none ↦ none
          | some (over s) ↦ some s
          | some (next s) ↦ rsp_session arrived fuel rounds (n + 1) r.1.0 s
        ]
      ]
