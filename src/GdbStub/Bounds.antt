-- ===== src/GdbStub/Bounds.antt =====
-- src/gdb_stub/gdb_stub.c: no input makes `rsp_recv_packet` write outside the buffer.
use stm32_emulator.Base.{
  ℕ, ◌+◌, ◌-◌, ◌≤◌, ◌<◌, ◌≡◌, refl, ◌∙◌, ◌⊎◌, inl, inr, Option, none, some, List, [], ◌∷◌, arith,
  leb, ◌==◌, Bool-cases, update, u8,
}
use stm32_emulator.GdbStub.{Wire, Buffer, pkt_buf_size}
use stm32_emulator.GdbStub.Packet.{
  Start, wait_start, closed, interrupt, opened, read_packet, check_packet, rsp_recv_packet,
}
use mathlib.Core.Path.{subst}

-- A length that leaves room for the NUL, if there is one.
abbrev Below : ℕ → Option (ℕ × ℕ) → Type 0
Below maxlen none = Unit {0}
Below maxlen (some (n, chk)) = n < maxlen

read_packet-Below :
    (maxlen : ℕ) (input : List ℕ) (len chk : ℕ) (buf : Buffer) (j : ℕ)
    → len < maxlen
    → maxlen ≤ j
    → let r : Option (ℕ × ℕ) × (Buffer × List ℕ) = read_packet maxlen input len chk buf in
      Below maxlen r.0 × (r.1.0 j ≡ buf j)
unfolding read_packet
read_packet-Below maxlen [] len chk buf j lt out = (tt, refl)
read_packet-Below maxlen (c ∷ cs) len chk buf j lt out = elim (Bool-cases (c == b'#')) [
  | inl e ↦ rw e (lt, refl)
  | inr e ↦ elim (Bool-cases (leb (maxlen - 1) len)) [
    | inl full ↦ rw (e, full) (tt, refl)
    | inr room ↦
        let rest =
          read_packet-Below maxlen cs (len + 1) (u8 (chk + u8 c)) (update buf len c) j
            (ground arith) out in
        rw (e, room) (rest.0, rest.1 ∙ ground arith)
  ]
]

-- What a result of `rsp_recv_packet` says of the buffer: the packet ends with a NUL inside it.
abbrev pub Terminated : Buffer → Option ℕ → Type 0
Terminated buf none = Unit {0}
Terminated buf (some n) = (n < pkt_buf_size) × (buf n ≡ 0)

checked_length :
    (len chk : ℕ) (input output : List ℕ)
    → let r : Option ℕ × Wire = check_packet len chk (record { input = input; output = output }) in
      (r.0 ≡ some len) ⊎ (r.0 ≡ none)
unfolding check_packet
checked_length len chk [] output = inr refl
checked_length len chk (a ∷ []) output = inr refl
checked_length len chk (a ∷ b ∷ cs) output = ground arith

-- A buffer that holds a packet of length `len`, checked or refused.
Terminated-checked :
    (len chk : ℕ) (buf : Buffer) (w : Wire)
    → len < pkt_buf_size
    → Terminated (update buf len 0) (check_packet len chk w).0
Terminated-checked len chk buf w lt = elim (checked_length len chk w.input w.output) [
  | inl e ↦ rw e (lt, ground arith)
  | inr e ↦ rw e tt
]

module _ (w : Wire) (buf : Buffer) (j : ℕ) (out : pkt_buf_size ≤ j) where
  -- What is claimed of a result.
  abbrev Within : Option ℕ × (Buffer × Wire) → Type 0
  Within r = (r.1.0 j ≡ buf j) × Terminated r.1.0 r.0

  opened-Within :
      (cs : List ℕ) (o : Option (ℕ × ℕ))
      → wait_start w.input ≡ opened cs
      → (read_packet pkt_buf_size cs 0 0 buf).0 ≡ o
      → Within (rsp_recv_packet w buf pkt_buf_size)
  unfolding rsp_recv_packet
  opened-Within cs none start e =
      let read = read_packet-Below pkt_buf_size cs 0 0 buf j (omega arith) out in
      rw (start, rsp_recv_packet, e) (read.1, tt)
  opened-Within cs (some (len, chk)) start e =
      let read = read_packet-Below pkt_buf_size cs 0 0 buf j (omega arith) out in
      let lt : len < pkt_buf_size = subst (Below pkt_buf_size) e read.0 in
      rw (start, rsp_recv_packet, e) (ground (arith, read.1), Terminated-checked len chk _ _ lt)

  started-Within :
      (s : Start) → wait_start w.input ≡ s → Within (rsp_recv_packet w buf pkt_buf_size)
  unfolding rsp_recv_packet
  started-Within closed e = rw (e, rsp_recv_packet) (refl, tt)
  started-Within (interrupt cs) e = rw (e, rsp_recv_packet) (ground arith, (omega arith, refl))
  started-Within (opened cs) e = opened-Within cs _ e refl

-- Whatever comes in, a packet is stored inside the buffer: no index from its size on is written, and where a
-- length is the result it is smaller than the buffer and a NUL stands at it.
pub rsp_recv_packet-Terminated :
    (w : Wire) (buf : Buffer) (j : ℕ)
    → pkt_buf_size ≤ j
    → let r : Option ℕ × (Buffer × Wire) = rsp_recv_packet w buf pkt_buf_size in
      (r.1.0 j ≡ buf j) × Terminated r.1.0 r.0
rsp_recv_packet-Terminated w buf j out = started-Within w buf j out _ refl
