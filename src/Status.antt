-- ===== src/Status.antt =====
-- src/common/status.h: the status codes of every module.

-- `STATUS_OK`, `STATUS_ERROR` and the others, in the order of the header.
pub data Status : Type 0 where
  ok : Status
  error : Status
  invalid_address : Status
  invalid_instruction : Status
  breakpoint_hit : Status
  halted : Status
