-- ===== src/Peripherals/UartLogger/Window.antt =====
-- src/peripherals/uart/uart_logger.c: the ring holds the latest transfers.
use stm32_emulator.Base.{
  ℕ, zero, suc, ◌+◌, ◌-◌, ◌%◌, ◌≤◌, ◌<◌, ◌≡◌, refl, sym, ap, ◌∙◌, inl, inr, false, List, [], ◌∷◌,
  arith, ltb, ◌==◌, ltb→lt, ==_refl, Bool-cases, update,
}
use stm32_emulator.Peripherals.UartLogger.{
  UartLogger, UartLogEvent, UartLogDir, push_event, uart_log_max_events,
}

-- The index at which the transfer `k` places before the next write stands.
abbrev back : ℕ → ℕ → ℕ
back head k = (head + uart_log_max_events - k) % uart_log_max_events

-- The latest `n` transfers before index `head`, the newest first.
pub latest : (ℕ → UartLogEvent) → ℕ → ℕ → List UartLogEvent
latest events head zero = []
latest events head (suc n) = events (back head 1) ∷ latest events (back head 1) n

-- What the log holds, the newest transfer first.
abbrev pub held : UartLogger → List UartLogEvent
held log = latest log.events log.head log.count

abbrev pub take {ℓ} : {A : Type ℓ} → ℕ → List A → List A
take zero xs = []
take (suc n) [] = []
take (suc n) (x ∷ xs) = x ∷ take n xs

-- The indices of the ring are in range.
pub record IsRing (log : UartLogger) : Type 0 where
  pub inside : log.head < uart_log_max_events
  pub capped : log.count ≤ uart_log_max_events

latest-update :
    (events : ℕ → UartLogEvent) (at head : ℕ) (e : UartLogEvent) (n k : ℕ)
    → at < uart_log_max_events
    → k + n < uart_log_max_events
    → head ≡ back at k
    → latest (update events at e) head n ≡ latest events head n
unfolding latest
latest-update events at head e zero k h lt same = refl
latest-update events at head e (suc n) k h lt same =
    let step : back head 1 ≡ back at (k + 1) = omega arith in
    let other : (at == back head 1) ≡ false = ground arith in
    rw (other, latest-update events at (back head 1) e n (k + 1) h (omega arith) step)

take-latest :
    (events : ℕ → UartLogEvent) (head n : ℕ)
    → take n (latest events head (suc n)) ≡ latest events head n
unfolding latest
take-latest events head zero = refl
take-latest events head (suc n) =
    ap (◌∷◌ (events (back head 1))) (take-latest events (back head 1) n)

take-latest_le :
    (events : ℕ → UartLogEvent) (m head n : ℕ)
    → n ≤ m
    → take m (latest events head n) ≡ latest events head n
unfolding latest
take-latest_le events zero head zero le = refl
take-latest_le events (suc m) head zero le = refl
take-latest_le events zero head (suc n) le = absurd (omega arith)
take-latest_le events (suc m) head (suc n) le =
    ap (◌∷◌ (events (back head 1))) (take-latest_le events m (back head 1) n (omega arith))

-- The list after a write of `e` at `head`, one transfer longer.
latest_after :
    (events : ℕ → UartLogEvent) (head n : ℕ) (e : UartLogEvent)
    → head < uart_log_max_events
    → n < uart_log_max_events
    → latest (update events head e) ((head + 1) % uart_log_max_events) (suc n)
      ≡ e ∷ latest events head n
unfolding latest
latest_after events head n e h lt =
    let before : back ((head + 1) % uart_log_max_events) 1 ≡ head = omega arith in
    rw (before, ==_refl head)
      (ap (◌∷◌ e) (latest-update events head head e n 0 h (omega arith) (omega arith)))

-- A recorded transfer becomes the newest of those held, with the current tick; the others stay in order,
-- and where the ring is full the oldest goes. The tick counter is not touched, and the indices stay in
-- range.
pub push_event-held :
    (log : UartLogger) (dir : UartLogDir) (byte : ℕ)
    → IsRing log
    → (held (push_event log dir byte)
        ≡ take uart_log_max_events
            (record { tick = log.tick_count; dir = dir; byte = byte } ∷ held log))
      × ((push_event log dir byte).tick_count ≡ log.tick_count)
      × IsRing (push_event log dir byte)
unfolding push_event
push_event-held log dir byte v = (
  elim (Bool-cases (ltb log.count uart_log_max_events)) [
    | inl room ↦
        let e : UartLogEvent = record { tick = log.tick_count; dir = dir; byte = byte } in
        let more : log.count + 1 ≡ suc log.count = omega arith in
        rw (room, more)
          (latest_after log.events log.head log.count e v.inside (ltb→lt _ _ room)
            ∙ ap (◌∷◌ e) (sym (take-latest_le log.events 255 log.head log.count (ground arith))))
    | inr full ↦
        let e : UartLogEvent = record { tick = log.tick_count; dir = dir; byte = byte } in
        let all : log.count ≡ 256 = ground (arith, v.capped) in
        rw (full, all)
          (latest_after log.events log.head 255 e v.inside (omega arith)
            ∙ ap (◌∷◌ e) (sym (take-latest log.events log.head 255)))
  ],
  refl,
  record { inside = omega arith; capped = ground (arith, v.capped) },
)
