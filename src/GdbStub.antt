-- ===== src/GdbStub.antt =====
-- src/gdb_stub/gdb_stub.c: the server of GDB's remote protocol. A socket is the list of the bytes that will
-- still be received from it and the list of those sent; an exhausted input is a closed connection, and
-- sending does not fail. A `char` is its byte. The file `uart_diagram.html` is not modelled.
pub mod Text
pub mod Packet
pub mod Registers
pub mod Memory
pub mod Control
pub mod Query
pub mod Session
pub mod Framing
pub mod Bounds
pub mod Bytes
pub mod Sram
pub mod Input
pub mod Progress
pub mod Ending
pub mod Words
use stm32_emulator.Base.{ℕ, List}

-- `PKT_BUF_SIZE`
abbrev pub pkt_buf_size : ℕ
pkt_buf_size = 4096

-- The socket.
pub record Wire : Type 0 where
  pub input : List ℕ
  pub output : List ℕ

-- `char buf[PKT_BUF_SIZE]`
abbrev pub Buffer : Type 0
Buffer = ℕ → ℕ
