-- ===== src/GdbStub/Ending.antt =====
-- src/gdb_stub/gdb_stub.c: the session ends, if each `c` of it does.
use stm32_emulator.Base.{
  ℕ, zero, suc, ◌+◌, ◌≤◌, ◌<◌, ◌≡◌, ◌⊎◌, inl, inr, Bool, ◌&&◌, Option, none, some, List, arith,
  ◌==◌, Bool-cases, Option-cases,
}
use stm32_emulator.GdbStub.{Wire, Buffer, pkt_buf_size}
use stm32_emulator.GdbStub.Text.{literal}
use stm32_emulator.GdbStub.Packet.{rsp_recv_packet, reply}
use stm32_emulator.GdbStub.Control.{check_interrupt, continue_loop, stop_running, handle_continue}
use stm32_emulator.GdbStub.Session.{Round, next, over, handle_command, handle_packet, rsp_session}
use stm32_emulator.GdbStub.Progress.{asked_left, rsp_recv_packet-left}
use stm32_emulator.GdbStub.Input.{left, left-reply, command_left}
use stm32_emulator.Status.{
  Status, ok, error, invalid_address, invalid_instruction, breakpoint_hit, halted,
}
use stm32_emulator.Simulator.Cycle.{simulator_step}
use stm32_emulator.Peripherals.UartLogger.{UartLogger}
use stm32_emulator.Simulator.{Simulator}
use stm32_emulator.Simulator.Control.{simulator_halt}
use mathlib.Core.Option
use mathlib.Core.Path.{subst}

module _ {X : Type 0} where
  -- A result, if there is one, with at most `n` bytes to come.
  abbrev AtMost : ℕ → Option (Wire × Simulator X) → Type 0
  AtMost n none = Unit {0}
  AtMost n (some s) = left s.0 ≤ n

  AtMost-later : (n k : ℕ) (o : Option (Wire × Simulator X)) → n ≤ k → AtMost n o → AtMost k o
  AtMost-later n k none le h = tt
  AtMost-later n k (some s) le h = omega arith

  AtMost-status :
      (n : ℕ) (st : Status) (on : Option (Wire × Simulator X)) (stop : Wire × Simulator X)
      → AtMost n on
      → left stop.0 ≤ n
      → AtMost n (elim st [ ok ↦ on | other ↦ some stop ])
  AtMost-status n ok on stop h le = h
  AtMost-status n error on stop h le = le
  AtMost-status n invalid_address on stop h le = le
  AtMost-status n invalid_instruction on stop h le = le
  AtMost-status n breakpoint_hit on stop h le = le
  AtMost-status n halted on stop h le = le

  continue-AtMost :
      (arrived : ℕ → Bool) (fuel k : ℕ) (s : Wire × Simulator X)
      → AtMost (left s.0) (continue_loop arrived fuel k s)
  unfolding continue_loop
  continue-AtMost arrived zero k s = tt
  continue-AtMost arrived (suc fuel) k (w, sim) =
      let done = simulator_step sim in
      let asked = check_interrupt (arrived k) w in
      let taken : left asked.1 ≤ left w = asked_left (arrived k) w.input w.output in
      elim (Bool-cases sim.halted) [
        | inl stopped ↦ rw (stopped, continue_loop) (omega arith)
        | inr live ↦ elim (Bool-cases asked.0) [
          | inl yes_asked ↦ rw (live, continue_loop, yes_asked) taken
          | inr no_asked ↦
              rw (live, continue_loop, no_asked)
                (AtMost-status (left w) done.0
                  (continue_loop arrived fuel (k + 1) (asked.1, done.1)) (asked.1, done.1)
                  (AtMost-later (left asked.1) (left w) _ taken
                    (continue-AtMost arrived fuel (k + 1) (asked.1, done.1)))
                  taken)
        ]
      ]

  AtMost-stopped :
      (n : ℕ) (o : Option (Wire × Simulator X)) → AtMost n o → AtMost n (Option.map stop_running o)
  unfolding stop_running
  AtMost-stopped n none h = tt
  AtMost-stopped n (some s) h = omega (arith, left-reply s.0 (literal "S05"))

  handle_continue-AtMost :
      (arrived : ℕ → Bool) (fuel : ℕ) (s : Wire × Simulator X) (buf : Buffer) (pos : ℕ)
      → AtMost (left s.0) (handle_continue arrived fuel s buf pos)
  unfolding handle_continue
  handle_continue-AtMost arrived fuel (w, sim) buf pos =
      AtMost-stopped (left w) _ (continue-AtMost arrived fuel 0 (w, _))

  -- The states that a packet leads to.
  abbrev RoundAtMost : ℕ → Option (Round (Wire × Simulator X)) → Type 0
  RoundAtMost n none = Unit {0}
  RoundAtMost n (some (next s)) = left s.0 ≤ n
  RoundAtMost n (some (over s)) = left s.0 ≤ n

  AtMost-next :
      (n : ℕ) (o : Option (Wire × Simulator X)) → AtMost n o → RoundAtMost n (Option.map next o)
  AtMost-next n none h = tt
  AtMost-next n (some s) h = h

module _ {X : Type 0} (diagram : Option UartLogger → List ℕ) (arrived : ℕ → ℕ → Bool)
    (fuel : ℕ) where
  -- The packet is answered, with no more bytes to come than before.
  abbrev Answered : ℕ → ℕ → Buffer → Wire × Simulator X → Type 0
  Answered n len buf s =
      (r : Round (Wire × Simulator X)) × (handle_packet diagram (arrived n) fuel len buf s ≡ some r)
      × RoundAtMost (left s.0) (some r)

  packet-Answered :
      (n len : ℕ) (buf : Buffer) (s : Wire × Simulator X)
      → Answered n len buf s ⊎ (handle_continue (arrived n) fuel s buf 1 ≡ none)
  unfolding handle_packet
  packet-Answered n len buf (w, sim) = elim (Bool-cases (len == 1 && buf 0 == 0x03)) [
    | inl e ↦ inl (next (reply w (literal "S02"), simulator_halt sim), rw e, left-reply w _)
    | inr e ↦ elim (Bool-cases (buf 0 == b'c')) [
      | inl e1 ↦ elim (Option-cases (handle_continue (arrived n) fuel (w, sim) buf 1)) [
        | inl stuck ↦ inr stuck
        | inr (s', done) ↦ inl (
          next s',
          rw (e, e1, done),
          subst (AtMost (left w)) done (handle_continue-AtMost (arrived n) fuel (w, sim) buf 1),
        )
      ]
      | inr e1 ↦ elim (Bool-cases (buf 0 == b'D')) [
        | inl e2 ↦ inl (over (reply w (literal "OK"), sim), rw (e, e1, e2), left-reply w _)
        | inr e2 ↦ elim (Bool-cases (buf 0 == b'k')) [
          | inl e3 ↦ inl (over (w, sim), rw (e, e1, e2, e3), omega arith)
          | inr e3 ↦ inl (
            next (handle_command diagram (buf 0) (w, sim) buf),
            rw (e, e1, e2, e3),
            command_left diagram (w, sim) buf (buf 0),
          )
        ]
      ]
    ]
  ]

  -- The session comes to a `c` whose loop does not end with the fuel that it is given.
  pub data RunsOn : ℕ → Buffer → Wire × Simulator X → Type 0 where
    now :
        (n : ℕ) (buf : Buffer) (w : Wire) (sim : Simulator X) (len : ℕ)
        → (rsp_recv_packet w buf pkt_buf_size).0 ≡ some len
        → handle_continue
            (arrived n)
            fuel
            ((rsp_recv_packet w buf pkt_buf_size).1.1, sim)
            (rsp_recv_packet w buf pkt_buf_size).1.0
            1
          ≡ none
        → RunsOn n buf (w, sim)
    later :
        (n : ℕ) (buf : Buffer) (w : Wire) (sim : Simulator X) (len : ℕ) (s : Wire × Simulator X)
        → (rsp_recv_packet w buf pkt_buf_size).0 ≡ some len
        → handle_packet diagram
            (arrived n)
            fuel
            len
            (rsp_recv_packet w buf pkt_buf_size).1.0
            ((rsp_recv_packet w buf pkt_buf_size).1.1, sim)
          ≡ some (next s)
        → RunsOn (n + 1) (rsp_recv_packet w buf pkt_buf_size).1.0 s
        → RunsOn n buf (w, sim)

  -- A session with a round more than there are bytes to come ends, unless it comes to a `c` whose loop does not end
  -- with its fuel: every other packet is answered or ends it, and each packet takes bytes from the
  -- connection and no answer gives any back.
  pub rsp_session-ends :
      (rounds n : ℕ) (buf : Buffer) (s : Wire × Simulator X)
      → left s.0 < rounds
      → ((s' : Wire × Simulator X) × (rsp_session diagram arrived fuel rounds n buf s ≡ some s'))
        ⊎ RunsOn n buf s
  unfolding rsp_session
  rsp_session-ends zero n buf s lt = absurd (omega arith)
  rsp_session-ends (suc rounds) n buf (w, sim) lt =
      let r = rsp_recv_packet w buf pkt_buf_size in
      elim (Option-cases r.0) [
        | inl gone ↦ inl ((r.1.1, sim), rw (gone, rsp_session))
        | inr (len, e) ↦
            let taken : left r.1.1 < left w = rsp_recv_packet-left w buf len e in
            elim (packet-Answered n len r.1.0 (r.1.1, sim)) [
              | inr stuck ↦ inr (RunsOn.now n buf w sim len e stuck)
              | inl (over s', done, le) ↦ inl (s', rw (e, rsp_session, done))
              | inl (next s', done, le) ↦
                  elim (rsp_session-ends rounds (n + 1) r.1.0 s' (omega arith)) [
                    | inl (last, ended) ↦ inl (last, rw (e, rsp_session, done) ended)
                    | inr on ↦ inr (RunsOn.later n buf w sim len s' e done on)
                  ]
            ]
      ]
