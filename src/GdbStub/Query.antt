-- ===== src/GdbStub/Query.antt =====
-- src/gdb_stub/gdb_stub.c: console output, `handle_monitor_cmd` and `handle_features_xml`. The drawing
-- `uart_logger_generate_diagram` is the argument `diagram`.
use stm32_emulator.Base.{
  ℕ, zero, suc, ◌+◌, ◌-◌, Bool, ◌||◌, Option, none, some, List, [], ◌∷◌, ◌++◌, ltb, leb, ◌==◌,
  if◌then◌else◌,
}
use stm32_emulator.GdbStub.{Wire, Buffer, pkt_buf_size}
use stm32_emulator.GdbStub.Text.{literal, strlen, strchr, equals, hex2}
use stm32_emulator.GdbStub.Packet.{reply}
use stm32_emulator.GdbStub.Registers.{decode_byte}
use stm32_emulator.GdbStub.Memory.{word_at}
use stm32_emulator.Peripherals.Uart.{Uart}
use stm32_emulator.Peripherals.UartLogger.{UartLogger, uart_logger_clear}
use stm32_emulator.Simulator.{Simulator}
use stm32_emulator.Simulator.Control.{simulator_reset, simulator_halt}
use mathlib.Core.Option

-- The target's description.
unfoldable pub target_xml : List ℕ
target_xml =
    literal "<?xml version=\"1.0\"?>"
    ++ literal "<!DOCTYPE target SYSTEM \"gdb-target.dtd\">"
    ++ literal "<target version=\"1.0\">"
    ++ literal "<architecture>arm</architecture>"
    ++ literal "<feature name=\"org.gnu.gdb.arm.m-profile\">"
    ++ literal "<reg name=\"r0\"  bitsize=\"32\" regnum=\"0\"/>"
    ++ literal "<reg name=\"r1\"  bitsize=\"32\" regnum=\"1\"/>"
    ++ literal "<reg name=\"r2\"  bitsize=\"32\" regnum=\"2\"/>"
    ++ literal "<reg name=\"r3\"  bitsize=\"32\" regnum=\"3\"/>"
    ++ literal "<reg name=\"r4\"  bitsize=\"32\" regnum=\"4\"/>"
    ++ literal "<reg name=\"r5\"  bitsize=\"32\" regnum=\"5\"/>"
    ++ literal "<reg name=\"r6\"  bitsize=\"32\" regnum=\"6\"/>"
    ++ literal "<reg name=\"r7\"  bitsize=\"32\" regnum=\"7\"/>"
    ++ literal "<reg name=\"r8\"  bitsize=\"32\" regnum=\"8\"/>"
    ++ literal "<reg name=\"r9\"  bitsize=\"32\" regnum=\"9\"/>"
    ++ literal "<reg name=\"r10\" bitsize=\"32\" regnum=\"10\"/>"
    ++ literal "<reg name=\"r11\" bitsize=\"32\" regnum=\"11\"/>"
    ++ literal "<reg name=\"r12\" bitsize=\"32\" regnum=\"12\"/>"
    ++ literal "<reg name=\"sp\"  bitsize=\"32\" regnum=\"13\" type=\"data_ptr\"/>"
    ++ literal "<reg name=\"lr\"  bitsize=\"32\" regnum=\"14\"/>"
    ++ literal "<reg name=\"pc\"  bitsize=\"32\" regnum=\"15\" type=\"code_ptr\"/>"
    ++ literal "<reg name=\"xpsr\" bitsize=\"32\" regnum=\"16\"/>"
    ++ literal "</feature>"
    ++ literal "</target>"

abbrev pub take : ℕ → List ℕ → List ℕ
take zero cs = []
take (suc n) [] = []
take (suc n) (c ∷ cs) = c ∷ take n cs

abbrev pub drop : ℕ → List ℕ → List ℕ
drop zero cs = cs
drop (suc n) [] = []
drop (suc n) (c ∷ cs) = drop n cs

unfoldable pub hex_text : List ℕ → List ℕ
hex_text [] = []
hex_text (c ∷ cs) = hex2 c ++ hex_text cs

-- The loop of `send_output`, 200 characters a packet; a round for each character is enough.
unfoldable pub output_loop : ℕ → Wire → List ℕ → Wire
output_loop zero w text = w
output_loop (suc fuel) w text =
    let sent = reply w (b'O' ∷ hex_text (take 200 text)) in
    let rest = output_loop fuel sent (drop 200 text) in elim text [ [] ↦ w | c ∷ cs ↦ rest ]

unfoldable pub send_output : Wire → List ℕ → Wire
send_output w text = output_loop (strlen text) w text

-- The loop that decodes the command; `room` is what is left of `cmd`.
unfoldable pub decode_cmd : ℕ → Buffer → ℕ → List ℕ
decode_cmd zero buf i = []
decode_cmd (suc room) buf i =
    let rest = decode_byte buf i ∷ decode_cmd room buf (i + 2) in
    if buf i == 0 then [] else if buf (i + 1) == 0 then [] else rest

-- The characters that the second loop removes at the end.
unfoldable pub is_blank : ℕ → Bool
is_blank c = c == 10 || (c == 13 || c == b' ')

unfoldable pub trim : List ℕ → List ℕ
trim [] = []
trim (c ∷ cs) = elim (trim cs) [ [] ↦ if is_blank c then [] else c ∷ [] | d ∷ ds ↦ c ∷ d ∷ ds ]

-- The C string in `cmd`, which ends at the first NUL.
unfoldable pub until_nul : List ℕ → List ℕ
until_nul [] = []
until_nul (c ∷ cs) = if c == 0 then [] else c ∷ until_nul cs

unfoldable pub handle_features_xml : Wire → Buffer → ℕ → Wire
handle_features_xml w buf pos = elim (strchr buf pos b',') [
  | none ↦ reply w (literal "E00")
  | some comma ↦
      (let offset = word_at buf pos in
        let length = word_at buf (comma + 1) in
        let xml_len = strlen target_xml in
        let whole = xml_len - offset in
        let asked = if ltb length whole then length else whole in
        let avail = if ltb (pkt_buf_size - 2) asked then pkt_buf_size - 2 else asked in
        let head = if leb xml_len (offset + avail) then b'l' else b'm' in
        if leb xml_len offset
        then reply w (literal "l")
        else reply w (head ∷ take avail (drop offset target_xml)))
]

module _ {X : Type 0} (diagram : Option UartLogger → List ℕ) where
  unfoldable pub handle_monitor_cmd : Wire × Simulator X → Buffer → ℕ → Wire × Simulator X
  handle_monitor_cmd (w, sim) buf pos =
      let cmd = until_nul (trim (decode_cmd 255 buf pos)) in
      if equals cmd (literal "halt")
      then (reply w (literal "OK"), simulator_halt sim)
      else if equals cmd (literal "reset") || equals cmd (literal "reset halt")
      then (reply w (literal "OK"), simulator_halt (simulator_reset sim))
      else if equals cmd (literal "uart-diagram")
      then (reply (send_output w (diagram sim.machine.uart.logger)) (literal "OK"), sim)
      else if equals cmd (literal "uart-clear")
      then (let uart : Uart = record sim.machine.uart {
        logger = Option.map uart_logger_clear sim.machine.uart.logger;
      } in
          (
            reply (send_output w (literal "UART log cleared.\r\n")) (literal "OK"),
            record sim { machine = record sim.machine { uart = uart } },
          ))
      else if equals cmd (literal "uart-svg")
      then (reply (send_output w (literal "Written to uart_diagram.html\r\n")) (literal "OK"), sim)
      else (reply w (literal "OK"), sim)
