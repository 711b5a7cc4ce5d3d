-- ===== src/GdbStub/Packet.antt =====
-- src/gdb_stub/gdb_stub.c: `recv_byte`, `send_raw`, `rsp_checksum`, `rsp_recv_packet` and `rsp_send_packet`.
use stm32_emulator.Base.{
  ℕ, ◌+◌, ◌-◌, Bool, false, Option, none, some, List, [], ◌∷◌, ◌++◌, leb, ◌==◌, if◌then◌else◌,
  update, u8,
}
use stm32_emulator.GdbStub.{Wire, Buffer}
use stm32_emulator.GdbStub.Text.{literal, strtoul, two_chars, hex2}

unfoldable pub recv_byte : Wire → Option (ℕ × Wire)
recv_byte w = elim w.input [ [] ↦ none | c ∷ cs ↦ some (c, record w { input = cs }) ]

unfoldable pub send_raw : Wire → List ℕ → Wire
send_raw w sent = record w { output = w.output ++ sent }

-- The loop of `rsp_checksum`; `sum` is a `uint8_t`.
unfoldable pub checksum_loop : ℕ → List ℕ → ℕ
checksum_loop sum [] = sum
checksum_loop sum (c ∷ cs) = checksum_loop (u8 (sum + u8 c)) cs

unfoldable pub rsp_checksum : List ℕ → ℕ
rsp_checksum text = checksum_loop 0 text

-- How the first loop of `rsp_recv_packet` ends, with what is left of the input.
pub data Start : Type 0 where
  closed : Start
  interrupt : List ℕ → Start
  opened : List ℕ → Start

unfoldable pub wait_start : List ℕ → Start
wait_start [] = closed
wait_start (c ∷ cs) =
    if c == 0x03 then interrupt cs else if c == b'$' then opened cs else wait_start cs

-- The second loop: the length and the sum, unless the input ends or the packet is too long; the buffer; and
-- what is left of the input.
unfoldable pub read_packet : ℕ → List ℕ → ℕ → ℕ → Buffer → Option (ℕ × ℕ) × (Buffer × List ℕ)
read_packet maxlen [] len chk buf = (none, (buf, []))
read_packet maxlen (c ∷ cs) len chk buf =
    let rest = read_packet maxlen cs (len + 1) (u8 (chk + u8 c)) (update buf len c) in
    if c == b'#'
    then (some (len, chk), (buf, cs))
    else if leb (maxlen - 1) len
    then (none, (buf, cs))
    else rest

-- The two digits of the checksum, and the answer.
unfoldable pub check_packet : ℕ → ℕ → Wire → Option ℕ × Wire
check_packet len chk w = elim w.input [
  | [] ↦ (none, w)
  | a ∷ [] ↦ (none, record w { input = [] })
  | a ∷ b ∷ cs ↦
      (let rest : Wire = record w { input = cs } in
        if chk == u8 (strtoul (two_chars a b))
        then (some len, send_raw rest (literal "+"))
        else (none, send_raw rest (literal "-")))
]

-- `none` is the result -1.
unfoldable pub rsp_recv_packet : Wire → Buffer → ℕ → Option ℕ × (Buffer × Wire)
rsp_recv_packet w buf maxlen = elim (wait_start w.input) [
  | closed ↦ (none, (buf, record w { input = [] }))
  | interrupt cs ↦ (some 1, (update (update buf 0 0x03) 1 0, record w { input = cs }))
  | opened cs ↦
      (let r = read_packet maxlen cs 0 0 buf in
        let left : Wire = record w { input = r.1.1 } in
        elim r.0 [
          | none ↦ (none, (r.1.0, left))
          | some (len, chk) ↦
              (let checked = check_packet len chk left in
                (checked.0, (update r.1.0 len 0, checked.1)))
        ])
]

unfoldable pub rsp_send_packet : Wire → List ℕ → Bool × Wire
rsp_send_packet w text =
    let sent =
      send_raw (send_raw (send_raw w (literal "$")) text)
        (literal "#" ++ hex2 (rsp_checksum text)) in
    elim (recv_byte sent) [ none ↦ (false, sent) | some (ack, w') ↦ (ack == b'+', w') ]

-- A call whose result is ignored.
abbrev pub reply : Wire → List ℕ → Wire
reply w text = (rsp_send_packet w text).1
