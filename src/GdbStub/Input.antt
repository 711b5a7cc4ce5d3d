-- ===== src/GdbStub/Input.antt =====
-- src/gdb_stub/gdb_stub.c: no handler puts anything back into the connection.
use stm32_emulator.Base.{
  ℕ, zero, suc, ◌+◌, ◌≤◌, inl, inr, Bool, false, Option, none, some, List, [], ◌∷◌, arith, ◌==◌,
  Option-cases,
}
use stm32_emulator.GdbStub.{Wire, Buffer}
use stm32_emulator.GdbStub.Text.{strlen, strchr}
use stm32_emulator.GdbStub.Packet.{rsp_send_packet, recv_byte, send_raw, reply}
use stm32_emulator.GdbStub.Registers.{
  handle_read_regs, handle_write_regs, handle_read_reg, handle_write_reg,
}
use stm32_emulator.GdbStub.Memory.{handle_read_mem, handle_write_mem}
use stm32_emulator.GdbStub.Control.{handle_step, handle_set_bp, handle_remove_bp}
use stm32_emulator.GdbStub.Query.{handle_features_xml, handle_monitor_cmd, send_output, output_loop}
use stm32_emulator.GdbStub.Session.{handle_query, handle_command}
use stm32_emulator.Peripherals.UartLogger.{UartLogger}
use stm32_emulator.Simulator.{Simulator}
use stm32_emulator.GdbStub.Memory.{word_at}
use stm32_emulator.Debugger.{debugger_add_breakpoint, debugger_remove_breakpoint}

-- The bytes that are still to come.
abbrev pub left : Wire → ℕ
left w = strlen w.input

answer_left :
    (input output : List ℕ)
    → let sent : Wire = record { input = input; output = output } in
      let answered : Bool × Wire = elim (recv_byte sent) [
        | none ↦ (false, sent)
        | some (ack, w') ↦ (ack == b'+', w')
      ] in
      left answered.1 ≤ strlen input
unfolding recv_byte strlen
answer_left [] output = omega arith
answer_left (c ∷ cs) output = omega arith

pub left-reply : (w : Wire) (text : List ℕ) → left (reply w text) ≤ left w
unfolding rsp_send_packet send_raw
left-reply w text = answer_left w.input _

output_left : (fuel : ℕ) (w : Wire) (text : List ℕ) → left (output_loop fuel w text) ≤ left w
unfolding output_loop
output_left zero w text = omega arith
output_left (suc fuel) w [] = omega arith
output_left (suc fuel) w (c ∷ cs) = omega (arith, output_left fuel _ _, left-reply w _)

-- What the handlers take from the connection.
module _ {X : Type 0} (s : Wire × Simulator X) (buf : Buffer) (pos : ℕ) where
  read_regs_left : left (handle_read_regs s).0 ≤ left s.0
  unfolding handle_read_regs
  read_regs_left = grind (arith, left-reply)

  write_regs_left : left (handle_write_regs s buf pos).0 ≤ left s.0
  unfolding handle_write_regs
  write_regs_left = left-reply s.0 _

  read_reg_left : left (handle_read_reg s buf pos).0 ≤ left s.0
  unfolding handle_read_reg
  read_reg_left = grind (arith, left-reply)

  write_reg_left : left (handle_write_reg s buf pos).0 ≤ left s.0
  unfolding handle_write_reg
  write_reg_left = elim (Option-cases (strchr buf pos b'=')) [
    | inl e ↦ grind (arith, left-reply)
    | inr (eq, e) ↦ grind (arith, left-reply)
  ]

  read_mem_left : left (handle_read_mem s buf pos).0 ≤ left s.0
  unfolding handle_read_mem
  read_mem_left = elim (Option-cases (strchr buf pos b',')) [
    | inl e ↦ grind (arith, left-reply)
    | inr (comma, e) ↦ grind (arith, left-reply)
  ]

  write_mem_left : left (handle_write_mem s buf pos).0 ≤ left s.0
  unfolding handle_write_mem
  write_mem_left = elim (Option-cases (strchr buf pos b',')) [
    | inl e ↦ grind (arith, left-reply)
    | inr (comma, e) ↦ elim (Option-cases (strchr buf pos b':')) [
      | inl e' ↦ grind (arith, left-reply)
      | inr (colon, e') ↦ grind (arith, left-reply)
    ]
  ]

  step_left : left (handle_step s buf pos).0 ≤ left s.0
  unfolding handle_step
  step_left = left-reply s.0 _

  set_bp_left : left (handle_set_bp s buf pos).0 ≤ left s.0
  unfolding handle_set_bp
  set_bp_left = elim (Option-cases (strchr buf pos b',')) [
    | inl e ↦ grind (arith, left-reply)
    | inr (p, e) ↦
        elim (Option-cases (debugger_add_breakpoint s.1.debugger (word_at buf (p + 1))).0) [
          | inl e' ↦ grind (arith, left-reply)
          | inr (z, e') ↦ grind (arith, left-reply)
        ]
  ]

  remove_bp_left : left (handle_remove_bp s buf pos).0 ≤ left s.0
  unfolding handle_remove_bp
  remove_bp_left = elim (Option-cases (strchr buf pos b',')) [
    | inl e ↦ grind (arith, left-reply)
    | inr (p, e) ↦
        elim (Option-cases (debugger_remove_breakpoint s.1.debugger (word_at buf (p + 1))).0) [
          | inl e' ↦ grind (arith, left-reply)
          | inr (z, e') ↦ grind (arith, left-reply)
        ]
  ]

  features_left : left (handle_features_xml s.0 buf pos) ≤ left s.0
  unfolding handle_features_xml
  features_left = elim (Option-cases (strchr buf pos b',')) [
    | inl e ↦ grind (arith, left-reply)
    | inr (comma, e) ↦ grind (arith, left-reply)
  ]

  module _ (diagram : Option UartLogger → List ℕ) where
    monitor_left : left (handle_monitor_cmd diagram s buf pos).0 ≤ left s.0
    unfolding handle_monitor_cmd send_output
    monitor_left = grind (arith, left-reply, output_left)

module _ {X : Type 0} (diagram : Option UartLogger → List ℕ) (s : Wire × Simulator X)
    (buf : Buffer) where
  query_left : (pos : ℕ) → left (handle_query diagram s buf pos).0 ≤ left s.0
  unfolding handle_query
  query_left pos =
      grind
        (arith, left-reply, monitor_left s buf (pos + 5) diagram, features_left s buf (pos + 30))

  pub command_left : (cmd : ℕ) → left (handle_command diagram cmd s buf).0 ≤ left s.0
  unfolding handle_command
  command_left cmd = grind (
    arith,
    left-reply,
    read_regs_left s buf 1,
    write_regs_left s buf 1,
    read_reg_left s buf 1,
    write_reg_left s buf 1,
    read_mem_left s buf 1,
    write_mem_left s buf 1,
    step_left s buf 1,
    set_bp_left s buf 1,
    remove_bp_left s buf 1,
    query_left 1,
  )
