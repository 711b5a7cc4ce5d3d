-- ===== src/Peripherals.antt =====
-- src/peripherals/: the memory-mapped devices. Each device is its register file and the state behind it;
-- the pointers to the interrupt controller, the event queue and the cycle counter are arguments and
-- results of the functions that use them. Access sizes are ignored by every device, as in the source.
pub mod Gpio
pub mod Rcc
pub mod UartLogger
pub mod Uart
pub mod Timer
pub mod SysTick
