-- ===== src/Tests/Remote.antt =====
-- The theorems on the remote debugger at concrete inputs.
use stm32_emulator.Base.{
  ℕ, ◌+◌, ◌-◌, ◌≡◌, refl, ◌⊎◌, Bool, true, false, ◌&&◌, Option, some, List, [], ◌∷◌, ◌++◌, arith,
  ltb, leb, ◌==◌, if◌then◌else◌, update, filled,
}
use stm32_emulator.GdbStub.{Wire, Buffer, pkt_buf_size}
use stm32_emulator.GdbStub.Text.{
  strlen, literal, hex2, hex_digit, strchr, string_at, string_loop, index_of, strtoul, parse_hex,
  skip_spaces, is_space, sign_of, skip_prefix, hex_value, hex_number,
}
use stm32_emulator.Memory.{sram_base, Memory}
use stm32_emulator.GdbStub.Bytes.{byte_at, Writes, Asks, bytes_hex}
use stm32_emulator.Peripherals.UartLogger.{UartLogger}
use stm32_emulator.Simulator.{Simulator}
use stm32_emulator.Simulator.Board.{simulator_init}
use stm32_emulator.GdbStub.Packet.{rsp_recv_packet, reply}
use stm32_emulator.GdbStub.Framing.{stored, rsp_recv_packet-send}
use stm32_emulator.GdbStub.Bounds.{Terminated, rsp_recv_packet-Terminated}
use stm32_emulator.GdbStub.Session.{rsp_session}
use stm32_emulator.GdbStub.Ending.{RunsOn, rsp_session-ends}
use stm32_emulator.GdbStub.Memory.{handle_read_mem, handle_write_mem}
use stm32_emulator.Events.Dispatch.{length}
use stm32_emulator.GdbStub.Sram.{handle_read_mem-handle_write_mem}

abbrev board : Simulator ℕ
board = simulator_init 0

-- A connection on which an acknowledgement waits, and one with a packet whose checksum is wrong.
abbrev fresh_wire : Wire
fresh_wire = record { input = b'+' ∷ []; output = [] }

abbrev damaged : Wire
damaged = record { input = b'$' ∷ b'g' ∷ b'#' ∷ b'0' ∷ b'0' ∷ []; output = [] }

abbrev blank_buffer : Buffer
blank_buffer = filled 0

-- A buffer full of zeros in text.
abbrev zero_text : Buffer
zero_text = filled b'0'

abbrev all_zeros : List ℕ → Bool
all_zeros [] = true
all_zeros (c ∷ cs) = c == b'0' && all_zeros cs

-- A packet that writes two bytes to SRAM, and one that asks for them.
abbrev write_text : Buffer
write_text = byte_at (literal "M20000010,2:ab12")

abbrev ask_text : Buffer
ask_text = byte_at (literal "m20000010,2")

two_bytes_written : Writes write_text 1 (sram_base + 0x10) (0xab ∷ 0x12 ∷ [])
unfolding literal hex2 hex_digit strchr string_at string_loop index_of strtoul parse_hex skip_spaces
    is_space sign_of skip_prefix hex_value hex_number
two_bytes_written = record {
  comma = 9;
  colon = 11;
  comma_found = refl;
  colon_found = refl;
  address = refl;
  count = refl;
  text = (refl, (refl, (refl, (refl, tt))));
}

two_bytes_asked : Asks ask_text 1 (sram_base + 0x10) 2
unfolding literal hex2 hex_digit strchr string_at string_loop index_of strtoul parse_hex skip_spaces
    is_space sign_of skip_prefix hex_value hex_number
two_bytes_asked = record { comma = 9; comma_found = refl; address = refl; count = refl }

rsp_recv_packet-send_example :
    let w : Wire = fresh_wire in
    let text : List ℕ = b'g' ∷ [] in
    let noise : List ℕ = b'+' ∷ [] in
    let rest : List ℕ = [] in
    let answers : List ℕ = [] in
    let buf : Buffer = blank_buffer in
    rsp_recv_packet
      (record { input = noise ++ ((reply w text).output ++ rest); output = answers })
      buf
      pkt_buf_size
    ≡ (
      some (strlen text),
      (
        update (stored buf 0 text) (strlen text) 0,
        record { input = rest; output = answers ++ literal "+" },
      ),
    )
unfolding strlen
rsp_recv_packet-send_example =
    rsp_recv_packet-send fresh_wire (b'g' ∷ []) (b'+' ∷ []) ([]) ([]) blank_buffer refl
      ((refl, refl, tt)) ((refl, tt)) (omega arith)

rsp_recv_packet-Terminated_example :
    let w : Wire = damaged in
    let buf : Buffer = blank_buffer in
    let j : ℕ = 4096 in
    let r : Option ℕ × (Buffer × Wire) = rsp_recv_packet w buf pkt_buf_size in
    (r.1.0 j ≡ buf j) × Terminated r.1.0 r.0
rsp_recv_packet-Terminated_example =
    rsp_recv_packet-Terminated damaged blank_buffer 4096 (omega arith)

rsp_session-ends_example :
    let diagram : Option UartLogger → List ℕ = λ log. [] in
    let arrived : ℕ → ℕ → Bool = λ n k. false in
    let fuel : ℕ = 100 in
    let rounds : ℕ = 6 in
    let n : ℕ = 0 in
    let buf : Buffer = blank_buffer in
    let s : Wire × Simulator ℕ = (damaged, board) in
    ((s' : Wire × Simulator ℕ) × (rsp_session diagram arrived fuel rounds n buf s ≡ some s'))
    ⊎ RunsOn diagram arrived fuel n buf s
unfolding strlen
rsp_session-ends_example =
    rsp_session-ends (λ log. []) (λ n k. false) 100 6 0 blank_buffer ((damaged, board))
      (omega arith)

handle_read_mem-handle_write_mem_example :
    let w : Wire = fresh_wire in
    let later : Wire = fresh_wire in
    let sim : Simulator ℕ = board in
    let packet : Buffer = write_text in
    let asking : Buffer = ask_text in
    let at : ℕ = 1 in
    let pos : ℕ = 1 in
    let off : ℕ = 0x10 in
    let bs : List ℕ = 0xab ∷ 0x12 ∷ [] in
    let j : ℕ = 0x11 in
    let r : Wire × Simulator ℕ = handle_write_mem (w, sim) packet at in
    let memory : Memory = r.1.machine.memory in
    (r.0 ≡ reply w (literal "OK"))
    × (memory.sram j ≡ (
        if leb off j && ltb j (off + length bs)
        then byte_at bs (j - off)
        else sim.machine.memory.sram j))
    × (r.1 ≡ record sim {
      machine = record sim.machine { memory = record sim.machine.memory { sram = memory.sram } };
    })
    × (handle_read_mem (later, r.1) asking pos ≡ (reply later (bytes_hex bs), r.1))
unfolding simulator_init
handle_read_mem-handle_write_mem_example =
    handle_read_mem-handle_write_mem fresh_wire fresh_wire board write_text ask_text 1 1 0x10
      (0xab ∷ 0x12 ∷ []) 0x11 refl (omega arith) (omega arith) ((omega arith, (omega arith, tt)))
      two_bytes_written two_bytes_asked
