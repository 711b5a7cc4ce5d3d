-- ===== src/GdbStub/Progress.antt =====
-- src/gdb_stub/gdb_stub.c: each packet that is received takes bytes from the connection.
use stm32_emulator.Base.{
  ℕ, ◌+◌, ◌≤◌, ◌<◌, ◌≡◌, refl, inl, inr, Bool, Option, none, some, List, [], ◌∷◌, arith, ◌==◌,
  Bool-cases, update, u8,
}
use stm32_emulator.GdbStub.{Wire, Buffer, pkt_buf_size}
use stm32_emulator.GdbStub.Text.{strlen}
use stm32_emulator.GdbStub.Packet.{
  Start, closed, interrupt, opened, wait_start, read_packet, check_packet, rsp_recv_packet,
  send_raw,
}
use stm32_emulator.GdbStub.Control.{check_interrupt}
use stm32_emulator.GdbStub.Input.{left}
use mathlib.Core.Option.{none-ne-some}
use mathlib.Core.Path.{subst}

-- The input behind the start of a packet is shorter.
abbrev Shorter : ℕ → Start → Type 0
Shorter n closed = Unit {0}
Shorter n (interrupt cs) = strlen cs < n
Shorter n (opened cs) = strlen cs < n

later-Shorter : (n : ℕ) (s : Start) → Shorter n s → Shorter (n + 1) s
later-Shorter n closed h = tt
later-Shorter n (interrupt cs) h = omega arith
later-Shorter n (opened cs) h = omega arith

start-Shorter : (input : List ℕ) → Shorter (strlen input) (wait_start input)
unfolding wait_start strlen
start-Shorter [] = tt
start-Shorter (c ∷ cs) = elim (Bool-cases (c == 0x03)) [
  | inl e ↦ rw e (omega arith)
  | inr e ↦ elim (Bool-cases (c == b'$')) [
    | inl e' ↦ rw (e, e') (omega arith)
    | inr e' ↦ rw (e, e') (later-Shorter (strlen cs) (wait_start cs) (start-Shorter cs))
  ]
]

read_left :
    (maxlen : ℕ) (input : List ℕ) (len chk : ℕ) (buf : Buffer)
    → strlen (read_packet maxlen input len chk buf).1.1 ≤ strlen input
unfolding read_packet strlen
read_left maxlen [] len chk buf = omega arith
read_left maxlen (c ∷ cs) len chk buf =
    grind (arith, read_left maxlen cs (len + 1) (u8 (chk + u8 c)) (update buf len c))

checked_left :
    (len chk : ℕ) (input output : List ℕ)
    → left (check_packet len chk (record { input = input; output = output })).1 ≤ strlen input
unfolding check_packet strlen send_raw
checked_left len chk [] output = omega arith
checked_left len chk (a ∷ []) output = omega arith
checked_left len chk (a ∷ b ∷ cs) output = grind arith

pub asked_left :
    (arrived : Bool) (input output : List ℕ)
    → left (check_interrupt arrived (record { input = input; output = output })).1 ≤ strlen input
unfolding check_interrupt strlen
asked_left arrived [] output = omega arith
asked_left arrived (c ∷ cs) output = grind arith

-- A packet that is received has taken bytes from the connection.
module _ (w : Wire) (buf : Buffer) where
  abbrev Took : Option ℕ × (Buffer × Wire) → Type 0
  Took r = (n : ℕ) → r.0 ≡ some n → left r.1.1 < left w

  Took-opened :
      (cs : List ℕ) (o : Option (ℕ × ℕ))
      → strlen cs < left w
      → wait_start w.input ≡ opened cs
      → (read_packet pkt_buf_size cs 0 0 buf).0 ≡ o
      → Took (rsp_recv_packet w buf pkt_buf_size)
  unfolding rsp_recv_packet
  Took-opened cs none lt start e = rw (start, rsp_recv_packet, e) (λ n h. absurd (none-ne-some _ h))
  Took-opened cs (some (len, chk)) lt start e =
      rw (start, rsp_recv_packet, e)
        (λ n h. omega (
          arith,
          read_left pkt_buf_size cs 0 0 buf,
          checked_left len chk (read_packet pkt_buf_size cs 0 0 buf).1.1 w.output,
        ))

  Took-started : (s : Start) → wait_start w.input ≡ s → Took (rsp_recv_packet w buf pkt_buf_size)
  unfolding rsp_recv_packet
  Took-started closed e = rw (e, rsp_recv_packet) (λ n h. absurd (none-ne-some _ h))
  Took-started (interrupt cs) e =
      let lt : strlen cs < left w = subst (Shorter (left w)) e (start-Shorter w.input) in
      rw (e, rsp_recv_packet) (λ n h. lt)
  Took-started (opened cs) e =
      Took-opened cs _ (subst (Shorter (left w)) e (start-Shorter w.input)) e refl

-- A packet that is received has taken at least one byte from the connection.
pub rsp_recv_packet-left :
    (w : Wire) (buf : Buffer) (n : ℕ)
    → (rsp_recv_packet w buf pkt_buf_size).0 ≡ some n
    → left (rsp_recv_packet w buf pkt_buf_size).1.1 < left w
rsp_recv_packet-left w buf n e = Took-started w buf _ refl n e
