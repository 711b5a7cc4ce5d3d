-- ===== src/GdbStub/Framing.antt =====
-- src/gdb_stub/gdb_stub.c: what a packet on the wire is received as.
use stm32_emulator.Base.{
  ℕ, ◌+◌, ◌-◌, ◌/◌, ◌%◌, ◌<◌, ◌≡◌, refl, ap, ◌∙◌, inl, inr, Bool, true, false, none, some, List, [],
  ◌∷◌, ◌++◌, arith, leb, ◌==◌, if◌then◌else◌, ==_refl, Bool-cases, update, u8,
}
use stm32_emulator.GdbStub.{Wire, Buffer, pkt_buf_size}
use stm32_emulator.GdbStub.Text.{literal, strlen, strtoul, two_chars, hex_digit, hex2}
use stm32_emulator.GdbStub.Packet.{
  recv_byte, send_raw, checksum_loop, rsp_checksum, wait_start, opened, read_packet, check_packet,
  rsp_recv_packet, rsp_send_packet, reply,
}
use stm32_emulator.GdbStub.Words.{strtoul-digits}
use native.Mathlib.Nat.{mod-lt}
use mathlib.Core.List.{append_assoc}

-- Bytes that the first loop skips: none is a `$` or the interrupt.
abbrev pub Skipped : List ℕ → Type 0
Skipped [] = Unit {0}
Skipped (c ∷ cs) = ((c == 0x03) ≡ false) × ((c == b'$') ≡ false) × Skipped cs

-- Bytes of a packet's text: none is a `#`.
abbrev pub Plain : List ℕ → Type 0
Plain [] = Unit {0}
Plain (c ∷ cs) = ((c == b'#') ≡ false) × Plain cs

-- The buffer after the text has been stored from an index on.
abbrev pub stored : Buffer → ℕ → List ℕ → Buffer
stored buf pos [] = buf
stored buf pos (c ∷ cs) = stored (update buf pos c) (pos + 1) cs

wait_start-Skipped :
    (noise rest : List ℕ) → Skipped noise → wait_start (noise ++ b'$' ∷ rest) ≡ opened rest
unfolding wait_start
wait_start-Skipped [] rest h = refl
wait_start-Skipped (c ∷ cs) rest h = rw (h.0, h.1, wait_start-Skipped cs rest h.2)

read_packet-Plain :
    (maxlen : ℕ) (text rest : List ℕ) (len chk : ℕ) (buf : Buffer)
    → Plain text
    → len + strlen text < maxlen
    → read_packet maxlen (text ++ b'#' ∷ rest) len chk buf
      ≡ (some (len + strlen text, checksum_loop chk text), (stored buf len text, rest))
unfolding read_packet strlen checksum_loop
read_packet-Plain maxlen [] rest len chk buf h lt =
    ap (λ n. (some (n, chk), (buf, rest))) (omega arith)
read_packet-Plain maxlen (c ∷ cs) rest len chk buf h lt =
    let room : leb (maxlen - 1) len ≡ false = ground arith in
    let count : len + 1 + strlen cs ≡ len + (strlen cs + 1) = omega arith in
    rw (h.0, room)
      (read_packet-Plain maxlen cs rest (len + 1) (u8 (chk + u8 c)) (update buf len c) h.1
          (omega arith)
        ∙ rw count)

check_packet_lem :
    (len chk a b : ℕ) (rest output : List ℕ)
    → let accepted : Bool = chk == u8 (strtoul (two_chars a b)) in
      check_packet len chk (record { input = a ∷ b ∷ rest; output = output }) ≡ (
        if accepted then some len else none,
        record { input = rest; output = output ++ literal (if accepted then "+" else "-") },
      )
unfolding check_packet send_raw
check_packet_lem len chk a b rest output = elim (Bool-cases (chk == u8 (strtoul (two_chars a b)))) [
  | inl e ↦ rw e
  | inr e ↦ rw e
]

-- A packet on the wire, behind bytes that are skipped, with any two checksum characters.
abbrev pub packet : List ℕ → List ℕ → ℕ → ℕ → List ℕ → List ℕ
packet noise text a b rest = noise ++ b'$' ∷ (text ++ b'#' ∷ a ∷ b ∷ rest)

pub rsp_recv_packet-packet :
    (w : Wire) (buf : Buffer) (noise text : List ℕ) (a b : ℕ) (rest : List ℕ)
    → w.input ≡ packet noise text a b rest
    → Skipped noise
    → Plain text
    → strlen text < pkt_buf_size
    → let accepted : Bool = rsp_checksum text == u8 (strtoul (two_chars a b)) in
      rsp_recv_packet w buf pkt_buf_size ≡ (
        if accepted then some (strlen text) else none,
        (
          update (stored buf 0 text) (strlen text) 0,
          record { input = rest; output = w.output ++ literal (if accepted then "+" else "-") },
        ),
      )
unfolding rsp_recv_packet rsp_checksum
rsp_recv_packet-packet w buf noise text a b rest e h p lt =
    let behind : List ℕ = text ++ b'#' ∷ a ∷ b ∷ rest in
    let start : wait_start w.input ≡ opened behind =
      ap wait_start e ∙ wait_start-Skipped noise behind h in
    let count : 0 + strlen text ≡ strlen text = omega arith in
    let read : read_packet pkt_buf_size behind 0 0 buf
        ≡ (some (strlen text, checksum_loop 0 text), (stored buf 0 text, a ∷ b ∷ rest)) =
      read_packet-Plain pkt_buf_size text (a ∷ b ∷ rest) 0 0 buf p (omega arith) ∙ rw count in
    rw (
      start,
      rsp_recv_packet,
      read,
      ap (λ r. r.1) read,
      check_packet_lem (strlen text) (checksum_loop 0 text) a b rest w.output,
    )

checksum-lt : (sum : ℕ) (text : List ℕ) → sum < 256 → checksum_loop sum text < 256
unfolding checksum_loop
checksum-lt sum [] lt = lt
checksum-lt sum (c ∷ cs) lt = checksum-lt (u8 (sum + u8 c)) cs (mod-lt (sum + u8 c) (omega arith))

-- The bytes that `rsp_send_packet` sends.
abbrev pub frame : List ℕ → List ℕ
frame text = literal "$" ++ (text ++ (literal "#" ++ hex2 (rsp_checksum text)))

answer_kept :
    (input output : List ℕ)
    → let sent : Wire = record { input = input; output = output } in
      let answered : Bool × Wire = elim (recv_byte sent) [
        | none ↦ (false, sent)
        | some (ack, w') ↦ (ack == b'+', w')
      ] in
      answered.1.output ≡ output
unfolding recv_byte
answer_kept [] output = refl
answer_kept (c ∷ cs) output = refl

sent_frame : (w : Wire) (text : List ℕ) → (reply w text).output ≡ w.output ++ frame text
unfolding rsp_send_packet send_raw literal
sent_frame w text =
    answer_kept w.input (((w.output ++ b'$' ∷ []) ++ text) ++ (b'#' ∷ hex2 (rsp_checksum text)))
    ∙ (append_assoc (w.output ++ b'$' ∷ []) text (b'#' ∷ hex2 (rsp_checksum text))
        ∙ append_assoc w.output (b'$' ∷ []) (text ++ (b'#' ∷ hex2 (rsp_checksum text))))

-- What `rsp_send_packet` sends is received as it was sent: its length is the result and a `+` is the answer, the
-- text stands in the buffer, ended by a NUL, and the input goes on behind the packet. The text has
-- no `#` and fits the buffer.
pub rsp_recv_packet-send :
    (w : Wire) (text noise rest answers : List ℕ) (buf : Buffer)
    → w.output ≡ []
    → Skipped noise
    → Plain text
    → strlen text < pkt_buf_size
    → rsp_recv_packet
        (record { input = noise ++ ((reply w text).output ++ rest); output = answers })
        buf
        pkt_buf_size
      ≡ (
        some (strlen text),
        (
          update (stored buf 0 text) (strlen text) 0,
          record { input = rest; output = answers ++ literal "+" },
        ),
      )
unfolding literal hex2
rsp_recv_packet-send w text noise rest answers buf fresh h p lt =
    let chk = rsp_checksum text in
    let high = hex_digit (chk / 16) in
    let low = hex_digit (chk % 16) in
    let small : chk < 256 = unfold rsp_checksum in checksum-lt 0 text (omega arith) in
    let value : u8 (strtoul (two_chars high low)) ≡ chk =
      rw (strtoul-digits (chk / 16) (chk % 16) (omega arith) (mod-lt chk (omega arith)))
        (omega arith) in
    let right : (chk == u8 (strtoul (two_chars high low))) ≡ true = rw value (==_refl chk) in
    let alone : (reply w text).output ≡ frame text = sent_frame w text ∙ rw fresh in
    let wire : noise ++ ((reply w text).output ++ rest) ≡ packet noise text high low rest =
      rw alone (ap (λ t. noise ++ b'$' ∷ t) (append_assoc text (b'#' ∷ high ∷ low ∷ []) rest)) in
    rsp_recv_packet-packet
      (record { input = noise ++ ((reply w text).output ++ rest); output = answers }) buf noise text
      high low rest wire h p lt
    ∙ rw right
