-- ===== src/Peripherals/UartLogger.antt =====
-- src/peripherals/uart/uart_logger.c: the ring of the last 256 transfers. Of the diagrams that are drawn from
-- it, the timeline is modelled.
pub mod Window
pub mod Timeline
use stm32_emulator.Base.{ℕ, ◌+◌, ◌%◌, ltb, if◌then◌else◌, update, filled, u64}

abbrev pub uart_log_max_events : ℕ
uart_log_max_events = 256

-- `UartLogDir`
pub data UartLogDir : Type 0 where
  tx : UartLogDir
  rx : UartLogDir

-- `UartLogEvent`
pub record UartLogEvent : Type 0 where
  pub tick : ℕ
  pub dir : UartLogDir
  pub byte : ℕ

-- `UartLogger`
pub record UartLogger : Type 0 where
  pub events : ℕ → UartLogEvent
  pub count : ℕ
  pub head : ℕ
  pub tick_count : ℕ

unfoldable pub uart_logger_init : UartLogger
uart_logger_init = record {
  events = filled (record { tick = 0; dir = tx; byte = 0 });
  count = 0;
  head = 0;
  tick_count = 0;
}

unfoldable pub uart_logger_tick : UartLogger → UartLogger
uart_logger_tick log = record log { tick_count = u64 (log.tick_count + 1) }

-- The tick counter keeps running.
unfoldable pub uart_logger_clear : UartLogger → UartLogger
uart_logger_clear log = record uart_logger_init { tick_count = log.tick_count }

unfoldable pub push_event : UartLogger → UartLogDir → ℕ → UartLogger
push_event log dir byte = record log {
  events = update log.events log.head (record { tick = log.tick_count; dir = dir; byte = byte });
  head = (log.head + 1) % uart_log_max_events;
  count = if ltb log.count uart_log_max_events then log.count + 1 else log.count;
}

unfoldable pub uart_logger_log_tx : UartLogger → ℕ → UartLogger
uart_logger_log_tx log byte = push_event log tx byte

unfoldable pub uart_logger_log_rx : UartLogger → ℕ → UartLogger
uart_logger_log_rx log byte = push_event log rx byte
