-- ===== src/Program.antt =====
-- src/main.c: the options, the run without a terminal, and the strings of its report. The output is the list
-- of the bytes written; the rest of the report only prints.
pub mod Batch
pub mod Report
use stm32_emulator.Base.{
  ℕ, zero, suc, ◌+◌, ◌-◌, ◌/◌, ◌%◌, ◌^◌, Bool, true, false, ◌&&◌, ◌||◌, Option, none, some, List,
  [], ◌∷◌, ◌++◌, ◌⊎◌, inl, inr, ltb, leb, ◌==◌, if◌then◌else◌, u32,
}
use stm32_emulator.GdbStub.Text.{literal, equals, skip_spaces, sign_of, hex_digit}
use stm32_emulator.Status.{ok, invalid_instruction, breakpoint_hit, halted}
use stm32_emulator.Peripherals.UartLogger.{tx, rx, UartLogger, uart_log_max_events}
use stm32_emulator.Simulator.{Simulator}
use stm32_emulator.Simulator.Cycle.{simulator_step}
use stm32_emulator.Ui.Parse.{digits_number}

-- A byte in `json_write_str`.
unfoldable pub json_char : ℕ → List ℕ
json_char c =
    if c == b'"'
    then b'\\' ∷ b'"' ∷ []
    else if c == b'\\'
    then b'\\' ∷ b'\\' ∷ []
    else if c == 10
    then b'\\' ∷ b'n' ∷ []
    else if c == 13
    then b'\\' ∷ b'r' ∷ []
    else if c == 9
    then b'\\' ∷ b't' ∷ []
    else if ltb c 32
    then b'\\' ∷ b'u' ∷ b'0' ∷ b'0' ∷ hex_digit (c / 16) ∷ hex_digit (c % 16) ∷ []
    else c ∷ []

unfoldable pub json_chars : List ℕ → List ℕ
json_chars [] = []
json_chars (c ∷ cs) = json_char c ++ json_chars cs

unfoldable pub json_write_str : List ℕ → List ℕ
json_write_str s = b'"' ∷ (json_chars s ++ b'"' ∷ [])

-- The loop that fills `tx_buf`, from event `i` on.
unfoldable pub tx_loop : UartLogger → ℕ → ℕ → ℕ → List ℕ
tx_loop ul start_idx zero i = []
tx_loop ul start_idx (suc n) i =
    let e = ul.events ((start_idx + i) % uart_log_max_events) in
    let rest = tx_loop ul start_idx n (i + 1) in elim e.dir [ tx ↦ e.byte ∷ rest | rx ↦ rest ]

unfoldable pub uart_tx : UartLogger → List ℕ
uart_tx ul =
    let total = if ltb ul.count uart_log_max_events then ul.count else uart_log_max_events in
    let start_idx = if leb uart_log_max_events ul.count then ul.head else 0 in
    tx_loop ul start_idx total 0

-- `(int)strtol(s, NULL, 10)`, which is `atoi`, in two's complement.
unfoldable pub atoi : List ℕ → ℕ
atoi s =
    let signed = sign_of (skip_spaces s) in
    let v = digits_number 10 0 signed.1 in
    u32 (
      if signed.0
      then (if leb (2 ^ 63) v then 2 ^ 63 else (2 ^ 64 - v) % 2 ^ 64)
      else if leb (2 ^ 63) v
      then 2 ^ 63 - 1
      else v)

-- `strtoull(s, NULL, 10)`
unfoldable pub strtoull : List ℕ → ℕ
strtoull s =
    let signed = sign_of (skip_spaces s) in
    let v = digits_number 10 0 signed.1 in
    if leb (2 ^ 64) v then 2 ^ 64 - 1 else if signed.0 then (2 ^ 64 - v) % 2 ^ 64 else v

abbrev pub gdb_stub_default_port : ℕ
gdb_stub_default_port = 3333

-- The variables that `main` sets from its arguments; a port of 0 means no remote debugger.
pub record Options : Type 0 where
  pub binary : Option (List ℕ)
  pub gdb_port : ℕ
  pub max_cycles : ℕ
  pub json_mode : Bool

unfoldable pub no_options : Options
no_options = record { binary = none; gdb_port = 0; max_cycles = 0; json_mode = false }

-- `argv[i][0] == '-'`
unfoldable pub begins_with_dash : List ℕ → Bool
begins_with_dash [] = false
begins_with_dash (c ∷ cs) = c == b'-'

-- The arguments that take no other: the exit status, or the options.
unfoldable pub take_flag : Options → List ℕ → ℕ ⊎ Options
take_flag o arg =
    if equals arg (literal "--json")
    then inr (record o { json_mode = true })
    else if equals arg (literal "--help") || equals arg (literal "-h")
    then inl 0
    else if begins_with_dash arg
    then inl 1
    else inr (record o { binary = some arg })

-- The loop over `argv` from 1 on.
unfoldable pub parse_args : Options → List (List ℕ) → ℕ ⊎ Options
parse_args o [] = inr o
parse_args o (arg ∷ []) =
    if equals arg (literal "--gdb")
    then inr (record o { gdb_port = gdb_stub_default_port })
    else if equals arg (literal "--max-cycles")
    then inl 1
    else take_flag o arg
parse_args o (arg ∷ value ∷ args) =
    let port = atoi value in
    if equals arg (literal "--gdb")
    then (if begins_with_dash value
        then parse_args (record o { gdb_port = gdb_stub_default_port }) (value ∷ args)
        else if port == 0 || ltb 65535 port
        then inl 1
        else parse_args (record o { gdb_port = port }) args)
    else if equals arg (literal "--max-cycles")
    then parse_args (record o { max_cycles = strtoull value }) args
    else elim (take_flag o arg) [ inl status ↦ inl status | inr o' ↦ parse_args o' (value ∷ args) ]

-- `halt_reason`: "max_cycles", "halted", "invalid_instruction" and "error".
pub data HaltReason : Type 0 where
  reached_max_cycles : HaltReason
  was_halted : HaltReason
  met_invalid_instruction : HaltReason
  met_error : HaltReason

-- `limit`
unfoldable pub limit_of : ℕ → ℕ
limit_of cycles = if ltb 0 cycles then cycles else 2 ^ 64 - 1

module _ {X : Type 0} where
  -- The loop under `--json`, for the rounds that are left.
  unfoldable pub batch_loop : ℕ → Simulator X → HaltReason × Simulator X
  batch_loop zero sim = (reached_max_cycles, sim)
  batch_loop (suc n) sim =
      let done = simulator_step sim in
      elim done.1.halted [
        | true ↦ (was_halted, done.1)
        | false ↦ elim done.0 [
          | halted ↦ (was_halted, done.1)
          | invalid_instruction ↦ (met_invalid_instruction, done.1)
          | ok ↦ batch_loop n done.1
          | breakpoint_hit ↦ batch_loop n done.1
          | other ↦ (met_error, done.1)
        ]
      ]
