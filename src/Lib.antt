-- ===== src/Lib.antt =====
-- The STM32 emulator: a Cortex-M3 processor, its memory and its devices, in C.
--
-- The program's parts and where they are modelled. The processor (src/core) fetches an instruction
-- through the system bus (src/bus), executes it and then asks the interrupt controller (src/nvic)
-- for an interrupt to enter. The bus routes an access to flash and SRAM (src/memory) or to a device
-- (src/peripherals). The timers queue their overflows in the event queue (src/events), which the
-- simulator dispatches at each cycle.
--
--   Core            src/core/core.c: registers and flags; Core.Alu, Core.Move, Core.LoadStore,
--                   Core.Stack and Core.Branch have the handlers of the 16-bit instructions under
--                   the names of the source, Core.Wide the 32-bit ones, Core.Decode the table
--                   `instr_table`, Core.Exceptions entry and exit, Core.Step reset and step
--   Bus             src/bus/bus.c: the table of regions
--   Memory          src/memory/memory.c: flash, SRAM and the loading of a binary
--   Events          src/events/event_queue.c: the heap of timed callbacks
--   Nvic            src/nvic/nvic.c; its registers, src/nvic/nvic_bus.c, are Nvic.Registers
--   Peripherals     src/peripherals: Gpio, Rcc, Uart, UartLogger, Timer and SysTick
--   Debugger        src/debugger/debugger.c: breakpoints
--   Profiler        src/profiler.c: cycle and instruction counts
--   Simulator       src/simulator/simulator.c: Simulator.Board is `simulator_init` with the address map
--                   and the functions `.._as_peripheral` (src/peripherals/peripheral.h),
--                   Simulator.Cycle `simulator_step`, Simulator.Control reset, run, load and the
--                   addition of peripherals
--   GdbStub         src/gdb_stub/gdb_stub.c: GdbStub.Text what it uses of the C library's strings,
--                   GdbStub.Packet the framing, GdbStub.Registers, GdbStub.Memory and
--                   GdbStub.Control the packets, GdbStub.Query console output, monitor commands
--                   and the target's description, GdbStub.Session the session
--   Ui              src/ui/ui.c: the commands, Ui.Parse numbers and the words of a line
--   Program         src/main.c: the options, the run under `--json` and the strings of its report
--   Status          src/common/status.h
--   Base            numbers, words, arrays, and the laws of the bit operations
--   Tests           the theorems at concrete inputs
--
-- Numbers are natural numbers; every operation on `uint32_t` or `uint64_t` that can leave its range
-- is cut back explicitly. A C array is a function of the index, a struct is a record, an object
-- that the source changes through a pointer is an argument and a result. The core works on any
-- machine that fills the interface `SystemBus`. A callback of the event queue is a value of a
-- parameter type, run by a parameter function.
--
-- Fuel: the loops of the heap run on fuel that their callers compute from the index or the size.
-- `event_queue_dispatch` takes fuel as an argument; one round more than there are due events is
-- enough, under the condition that no callback schedules what is already due.
--
-- The simulator gives it one round more than there are events, which is enough for its two
-- callbacks. `simulator_run` takes fuel and the user's interrupt as a function of the round; it
-- returns `none` where the fuel runs out, and a run that is interrupted at round n needs n + 1.
--
-- `handle_continue` takes fuel and whether input has come in after each step; `rsp_session` takes
-- fuel for its rounds, of which one more than there are bytes to come is enough.
--
-- Not modelled: messages on stderr, the text of the serial log (`GdbStub.Query` takes the
-- drawing as an argument), the reports of the profiler, what the command line and src/main.c
-- print beside the strings of the report, the making of sockets in `gdb_stub_run`, and the example firmware.
pub mod Base
pub mod Status
pub mod Bus
pub mod Memory
pub mod Events
pub mod Nvic
pub mod Peripherals
pub mod Profiler
pub mod Program
pub mod Debugger
pub mod Core
pub mod Simulator
pub mod GdbStub
pub mod Ui
pub mod Tests
