-- ===== src/Tests.antt =====
-- The theorems at concrete inputs.
mod System
mod Interrupts
mod Devices
mod Timers
mod Processor
mod Machine
mod Remote
