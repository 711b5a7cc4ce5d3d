-- ===== src/Peripherals/UartLogger/Timeline.antt =====
-- src/peripherals/uart/uart_logger.c: the two rows of the timeline that `uart_logger_generate_diagram`
-- draws, and the counts above them. The text around the rows is not modelled.
use stm32_emulator.Base.{
  ℕ, zero, suc, ◌+◌, ◌-◌, ◌*◌, ◌/◌, ◌%◌, ◌^◌, ◌≤◌, ◌<◌, ◌≡◌, refl, ◌⊎◌, inl, inr, false, ◌&&◌,
  arith, ltb, leb, ◌==◌, if◌then◌else◌, ltb→lt, Bool-cases, lt_or_ge, update, filled, u64, sub64,
}
use stm32_emulator.Peripherals.UartLogger.{
  UartLogger, UartLogEvent, UartLogDir, tx, rx, uart_log_max_events,
}
use native.Mathlib.Nat.{div-lt_iff_lt-mul}

-- `UART_DIAGRAM_COLS`
abbrev pub uart_diagram_cols : ℕ
uart_diagram_cols = 60

unfoldable pub printable : ℕ → ℕ
printable b = if leb 0x20 b && ltb b 0x7f then b else b'.'

-- The index of the oldest event; `head - count + 256` is not negative, since `count` is at most 256.
unfoldable pub oldest : UartLogger → ℕ
oldest log = (log.head + uart_log_max_events - log.count) % uart_log_max_events

-- Event `i` of those held, the oldest first.
unfoldable pub event_at : UartLogger → ℕ → UartLogEvent
event_at log i = log.events ((oldest log + i) % uart_log_max_events)

-- The first loop: how many of the first `n` events went out, and how many came in.
unfoldable pub count_dirs : ℕ → UartLogger → ℕ × ℕ
count_dirs zero log = (0, 0)
count_dirs (suc n) log =
    let before = count_dirs n log in
    elim (event_at log n).dir [ tx ↦ (before.0 + 1, before.1) | rx ↦ (before.0, before.1 + 1) ]

-- `t_min` and `t_max` after the first `n` events.
unfoldable pub time_range : ℕ → UartLogger → ℕ × ℕ
time_range zero log = ((log.events (oldest log)).tick, (log.events (oldest log)).tick)
time_range (suc n) log =
    let before = time_range n log in
    let t = (event_at log n).tick in
    (if ltb t before.0 then t else before.0, if ltb before.1 t then t else before.1)

unfoldable pub span_of : ℕ × ℕ → ℕ
span_of range = if ltb range.0 range.1 then range.1 - range.0 else 1

-- The column of a tick.
unfoldable pub column_of : ℕ × ℕ → ℕ → ℕ
column_of range tick =
    let col = u64 (sub64 tick range.0 * (uart_diagram_cols - 1)) / span_of range in
    if leb uart_diagram_cols col then uart_diagram_cols - 1 else col

-- A cell is written if nothing stands in it yet.
unfoldable pub mark : (ℕ → ℕ) → ℕ → ℕ → (ℕ → ℕ)
mark row col c = if row col == b'.' then update row col c else row

-- The rows of what went out and of what came in, after the first `n` events.
unfoldable pub timeline_rows : ℕ → UartLogger → (ℕ → ℕ) × (ℕ → ℕ)
timeline_rows zero log = (filled b'.', filled b'.')
timeline_rows (suc n) log =
    let before = timeline_rows n log in
    let e = event_at log n in
    let col = column_of (time_range log.count log) e.tick in
    elim e.dir [
      | tx ↦ (mark before.0 col (printable e.byte), before.1)
      | rx ↦ (before.0, mark before.1 col (printable e.byte))
    ]

dir_cases : (d : UartLogDir) → (d ≡ tx) ⊎ (d ≡ rx)
dir_cases tx = inl refl
dir_cases rx = inr refl

-- Every held event is counted once.
pub count_dirs-sum : (n : ℕ) (log : UartLogger) → (count_dirs n log).0 + (count_dirs n log).1 ≡ n
unfolding count_dirs
count_dirs-sum zero log = refl
count_dirs-sum (suc n) log = elim (dir_cases (event_at log n).dir) [
  | inl e ↦ rw (e, count_dirs) (omega (arith, count_dirs-sum n log))
  | inr e ↦ rw (e, count_dirs) (omega (arith, count_dirs-sum n log))
]

-- The range holds the ticks of all its events.
time_range-bounds :
    (n : ℕ) (log : UartLogger) (i : ℕ)
    → i < n
    → ((time_range n log).0 ≤ (event_at log i).tick)
      × ((event_at log i).tick ≤ (time_range n log).1)
unfolding time_range
time_range-bounds zero log i lt = absurd (omega arith)
time_range-bounds (suc n) log i lt = elim (Bool-cases (ltb i n)) [
  | inl before ↦
      let h = time_range-bounds n log i (ltb→lt _ _ before) in (ground arith, ground arith)
  | inr last ↦ let same : i ≡ n = ground arith in rw same (ground arith, ground arith)
]

-- The quotient of the column, with its factor and its span.
column_of-quotient : (x d : ℕ) → 0 < d → x ≤ d → x * 59 / d < 60
column_of-quotient x d pos le = (div-lt_iff_lt-mul pos).1 (omega arith)

span_of-bounds :
    (range : ℕ × ℕ) (tick : ℕ)
    → range.0 ≤ tick
    → tick ≤ range.1
    → (0 < span_of range) × (tick - range.0 ≤ span_of range)
unfolding span_of
span_of-bounds range tick lo hi = (ground arith, ground arith)

-- Ticks are 64-bit numbers. An event that the log holds has a tick in the range of all of them and a column
-- within the rows. As long
-- as 59 times the span fits 64 bits, the column is the event's exact share of the span, not cut
-- to the last one; a longer span makes the product wrap, and the column is only known to be within the rows.
pub column_of-lt :
    (log : UartLogger) (i : ℕ)
    → i < log.count
    → ((j : ℕ) → (log.events j).tick < 2 ^ 64)
    → let range : ℕ × ℕ = time_range log.count log in
      let tick : ℕ = (event_at log i).tick in
      (range.0 ≤ tick)
      × (tick ≤ range.1)
      × (column_of range tick < uart_diagram_cols)
      × ((column_of range tick ≡ (tick - range.0) * (uart_diagram_cols - 1) / span_of range)
          ⊎ (2 ^ 64 ≤ (range.1 - range.0) * (uart_diagram_cols - 1)))
unfolding column_of
column_of-lt log i lt small =
    let range : ℕ × ℕ = time_range log.count log in
    let tick : ℕ = (event_at log i).tick in
    let (lo, hi) = time_range-bounds log.count log i lt in
    let (pos, le) = span_of-bounds range tick lo hi in
    let word : tick < 2 ^ 64 = unfold event_at in small ((oldest log + i) % uart_log_max_events) in
    let since : sub64 tick range.0 ≡ tick - range.0 = omega arith in
    (
      lo,
      hi,
      ground arith,
      elim (lt_or_ge ((range.1 - range.0) * 59) (2 ^ 64)) [
        | inr long ↦ inr long
        | inl short ↦
            (let fits : (tick - range.0) * 59 < 2 ^ 64 = omega (arith, lo, hi, short) in
              let exact : u64 ((tick - range.0) * 59) ≡ (tick - range.0) * 59 =
                omega (arith, fits) in
              let inside : (tick - range.0) * 59 / span_of range < 60 =
                column_of-quotient (tick - range.0) (span_of range) pos le in
              let uncut : leb 60 ((tick - range.0) * 59 / span_of range) ≡ false = ground arith in
              inl (rw (since, exact, uncut)))
      ],
    )
