-- ===== src/Peripherals/Uart/Receive.antt =====
-- src/peripherals/uart/uart.c: the receive buffer is a queue of at most sixteen characters.
use stm32_emulator.Base.{
  cases_of, lt_or_ge, pos_or_zero, ◌⊎◌, ℕ, zero, suc, ◌+◌, ◌-◌, ◌%◌, ◌^◌, ◌≤◌, ◌<◌, bit_and, bit_or,
  ◌≡◌, refl, ap, true, false, ◌&&◌, Option, none, List, [], ◌∷◌, ◌++◌, arith, ltb, leb, ◌==◌,
  if◌then◌else◌, lt→ltb, ==_refl, update, u8, not32,
}
use stm32_emulator.Base.Bits.{bit, bit-and, bit-or, bit-pow, bit-complement, nonzero-bit_and}
use stm32_emulator.Nvic.{Nvic, nvic_set_pending}
use stm32_emulator.Peripherals.UartLogger.{UartLogger}
use stm32_emulator.Peripherals.Uart.{
  Uart, uart_rx_buffer_size, sr_rxne, sr_txe, sr_tc, read_dr, uart_read, uart_write,
  uart_incoming_char, uart_init, uart_reset, uart_tick, write_dr, complete_transmission, cleared,
}

-- The `n` characters from index `at`, oldest first.
pub run_from : (ℕ → ℕ) → ℕ → ℕ → List ℕ
run_from buffer at zero = []
run_from buffer at (suc n) = buffer at ∷ run_from buffer ((at + 1) % uart_rx_buffer_size) n

-- The characters that wait, oldest first.
abbrev pub waiting : Uart → List ℕ
waiting uart = run_from uart.rx_buffer uart.rx_tail uart.rx_count

-- The indices are in range and `rx_count` apart, and the flag RXNE is set only while characters wait.
pub record IsBuffer (uart : Uart) : Type 0 where
  pub tail_inside : uart.rx_tail < uart_rx_buffer_size
  pub capped : uart.rx_count ≤ uart_rx_buffer_size
  pub spaced : uart.rx_head ≡ (uart.rx_tail + uart.rx_count) % uart_rx_buffer_size
  pub flagged : bit uart.sr 5 ≡ true → 0 < uart.rx_count

run_from-append :
    (buffer : ℕ → ℕ) (at n head c : ℕ)
    → at < uart_rx_buffer_size
    → n < uart_rx_buffer_size
    → head ≡ (at + n) % uart_rx_buffer_size
    → run_from (update buffer head c) at (suc n) ≡ run_from buffer at n ++ c ∷ []
unfolding run_from
run_from-append buffer at zero head c h lt e =
    let same : head ≡ at = omega arith in rw (same, ==_refl at)
run_from-append buffer at (suc n) head c h lt e =
    let other : (head == at) ≡ false = ground arith in
    rw other (
      ap (◌∷◌ (buffer at)) (
        run_from-append buffer ((at + 1) % uart_rx_buffer_size) n head c (omega arith) (omega arith)
          (omega arith)))

run_from-pos :
    (buffer : ℕ → ℕ) (at n : ℕ)
    → 0 < n
    → run_from buffer at n ≡ buffer at ∷ run_from buffer ((at + 1) % uart_rx_buffer_size) (n - 1)
unfolding run_from
run_from-pos buffer at zero h = absurd (omega arith)
run_from-pos buffer at (suc n) h = let less : suc n - 1 ≡ n = omega arith in rw less

rxne_set : (sr : ℕ) → bit (bit_or sr sr_rxne) 5 ≡ true
rxne_set sr = rw (bit-or, bit-pow 5 5) (ground arith)

rxne_cleared : (sr : ℕ) → bit (bit_and sr (not32 sr_rxne)) 5 ≡ false
rxne_cleared sr = rw (bit-and, bit-complement, bit-pow 5 5) (ground arith)

-- Each branch under its own condition.
uart_incoming_char-waiting_cases :
    (uart : Uart) (nvic : Nvic) (c : ℕ)
    → IsBuffer uart
    → let r : Uart × Nvic = uart_incoming_char uart nvic c in
      (uart.rx_count < uart_rx_buffer_size
        → (waiting r.0 ≡ waiting uart ++ u8 c ∷ [])
          × IsBuffer r.0
          × (bit r.0.sr 5 ≡ true)
          × (r.1 ≡ (
              if bit uart.cr1 5 && bit uart.cr1 13 then nvic_set_pending nvic uart.irq else nvic)))
      × (uart_rx_buffer_size ≤ uart.rx_count → r ≡ (uart, nvic))
unfolding uart_incoming_char
uart_incoming_char-waiting_cases uart nvic c v = (
  λ room.
      let open_guard : leb uart_rx_buffer_size uart.rx_count ≡ false = ground arith in
      let more : uart.rx_count + 1 ≡ suc uart.rx_count = omega arith in
      rw open_guard (
        rw more (
            run_from-append uart.rx_buffer uart.rx_tail uart.rx_count uart.rx_head (u8 c)
              v.tail_inside room v.spaced),
        record {
          tail_inside = v.tail_inside;
          capped = omega arith;
          spaced = omega (arith, v.spaced);
          flagged = λ e. omega arith;
        },
        rxne_set uart.sr,
        rw (nonzero-bit_and uart.cr1 5, nonzero-bit_and uart.cr1 13),
      ),
  λ full. let shut : leb uart_rx_buffer_size uart.rx_count ≡ true = ground arith in rw shut,
)

-- While there is room, a character from outside goes to the end of the queue and sets RXNE, and the
-- interrupt is raised exactly where it and the port are enabled; a full buffer drops it and changes
-- nothing.
pub uart_incoming_char-waiting :
    (uart : Uart) (nvic : Nvic) (c : ℕ)
    → IsBuffer uart
    → let r : Uart × Nvic = uart_incoming_char uart nvic c in
      ((uart.rx_count < uart_rx_buffer_size)
        × ((waiting r.0 ≡ waiting uart ++ u8 c ∷ [])
            × IsBuffer r.0
            × (bit r.0.sr 5 ≡ true)
            × (r.1 ≡ (
                if bit uart.cr1 5 && bit uart.cr1 13
                then nvic_set_pending nvic uart.irq
                else nvic))))
      ⊎ ((uart_rx_buffer_size ≤ uart.rx_count) × (r ≡ (uart, nvic)))
uart_incoming_char-waiting uart nvic c h1 =
    cases_of (lt_or_ge _ _) (uart_incoming_char-waiting_cases uart nvic c h1)

-- Each branch under its own condition.
uart_read-waiting_cases :
    (uart : Uart) (size : ℕ)
    → IsBuffer uart
    → let r : ℕ × Uart = uart_read uart 0x04 size in
      (0 < uart.rx_count
        → (waiting uart ≡ r.0 ∷ waiting r.1)
          × IsBuffer r.1
          × (r.1.rx_count ≡ 0 → bit r.1.sr 5 ≡ false))
      × (uart.rx_count ≡ 0 → r ≡ (0, uart))
unfolding uart_read read_dr
uart_read-waiting_cases uart size v = (
  λ some_left.
      let open_guard : ltb 0 uart.rx_count ≡ true = lt→ltb _ _ some_left in
      rw open_guard (
        run_from-pos uart.rx_buffer uart.rx_tail uart.rx_count some_left,
        record {
          tail_inside = omega arith;
          capped = omega (arith, v.capped);
          spaced = omega (arith, v.spaced);
          flagged = ground (arith, rxne_cleared uart.sr, v.flagged);
        },
        λ e. ground (arith, rxne_cleared uart.sr),
      ),
  λ empty. ground arith,
)

-- Reading the data register takes the oldest waiting character out of the queue, and clears RXNE with
-- the last one; an empty queue reads as 0 and nothing changes.
pub uart_read-waiting :
    (uart : Uart) (size : ℕ)
    → IsBuffer uart
    → let r : ℕ × Uart = uart_read uart 0x04 size in
      ((0 < uart.rx_count)
        × ((waiting uart ≡ r.0 ∷ waiting r.1)
            × IsBuffer r.1
            × (r.1.rx_count ≡ 0 → bit r.1.sr 5 ≡ false)))
      ⊎ ((uart.rx_count ≡ 0) × (r ≡ (0, uart)))
uart_read-waiting uart size h1 = cases_of (pos_or_zero _) (uart_read-waiting_cases uart size h1)

rxne_kept : (sr mask : ℕ) → bit (bit_and sr mask) 5 ≡ true → bit sr 5 ≡ true
rxne_kept sr mask h = ground (arith, bit-and 5 sr mask)

rxne_ready : (sr : ℕ) → bit (bit_or sr 0xC0) 5 ≡ bit sr 5
rxne_ready sr = rw (bit-or, bit-or 5 (2 ^ 7) (2 ^ 6), bit-pow 7 5, bit-pow 6 5) (ground arith)

cleared-IsBuffer :
    (irq : ℕ) (output : Option (List ℕ)) (logger : Option UartLogger)
    → IsBuffer (cleared irq output logger)
unfolding cleared bit
cleared-IsBuffer irq output logger = record {
  tail_inside = omega arith;
  capped = omega arith;
  spaced = refl;
  flagged = λ e. cc;
}

write-IsBuffer :
    (uart : Uart) (offset value size : ℕ)
    → IsBuffer uart
    → IsBuffer (uart_write uart offset value size).1
      × (waiting (uart_write uart offset value size).1 ≡ waiting uart)
unfolding uart_write write_dr
write-IsBuffer uart offset value size v =
    ground
      (arith, v.flagged, rxne_kept uart.sr value, rxne_kept uart.sr (not32 (bit_or sr_txe sr_tc)))

tick-IsBuffer :
    (uart : Uart) (nvic : Nvic)
    → IsBuffer uart
    → IsBuffer (uart_tick uart nvic).0 × (waiting (uart_tick uart nvic).0 ≡ waiting uart)
unfolding uart_tick complete_transmission
tick-IsBuffer uart nvic v = ground (arith, v.flagged, rxne_ready uart.sr)

pub uart_init-IsBuffer : (irq : ℕ) → IsBuffer (uart_init irq)
unfolding uart_init
uart_init-IsBuffer irq = cleared-IsBuffer irq none none

-- A fresh port and a reset one have a sound buffer in which no character waits. Where the buffer is
-- sound, every register write and every tick leaves it sound and the waiting characters as they were.
pub uart-IsBuffer :
    (uart : Uart) (nvic : Nvic) (irq offset value size : ℕ)
    → IsBuffer uart
    → IsBuffer (uart_init irq)
      × (waiting (uart_init irq) ≡ [])
      × (waiting (uart_reset uart) ≡ [])
      × IsBuffer (uart_reset uart)
      × IsBuffer (uart_write uart offset value size).1
      × (waiting (uart_write uart offset value size).1 ≡ waiting uart)
      × IsBuffer (uart_tick uart nvic).0
      × (waiting (uart_tick uart nvic).0 ≡ waiting uart)
unfolding uart_init uart_reset cleared run_from
uart-IsBuffer uart nvic irq offset value size v = (
  cleared-IsBuffer irq none none,
  refl,
  refl,
  cleared-IsBuffer uart.irq uart.output uart.logger,
  (write-IsBuffer uart offset value size v).0,
  (write-IsBuffer uart offset value size v).1,
  (tick-IsBuffer uart nvic v).0,
  (tick-IsBuffer uart nvic v).1,
)
