-- ===== src/GdbStub/Sram.antt =====
-- src/gdb_stub/gdb_stub.c: the bytes that `M` writes to SRAM are those that `m` reads there.
use stm32_emulator.Base.{
  ℕ, zero, suc, ◌+◌, ◌-◌, ◌≤◌, ◌<◌, ◌≡◌, refl, ap, ◌∙◌, inl, inr, false, ◌&&◌, List, arith, ltb,
  leb, if◌then◌else◌, update, u8, add32,
}
use stm32_emulator.GdbStub.{Wire, Buffer}
use stm32_emulator.GdbStub.Text.{literal}
use stm32_emulator.GdbStub.Registers.{decode_byte}
use stm32_emulator.GdbStub.Memory.{read_bytes, write_bytes, handle_read_mem, handle_write_mem}
use stm32_emulator.GdbStub.Packet.{reply}
use stm32_emulator.GdbStub.Words.{HoldsText}
use stm32_emulator.Events.Dispatch.{length}
use stm32_emulator.Status.{ok}
use stm32_emulator.Memory.{
  Memory, sram_base, sram_size, read_le, write_le, memory_sram_read, memory_sram_write,
}
use stm32_emulator.Bus.{bus_read, bus_write}
use stm32_emulator.Simulator.{Machine, Simulator}
use stm32_emulator.Simulator.Board.{sram_region, board_bus}
use stm32_emulator.Simulator.AddressMap.{bus_access-device, board_table}
use stm32_emulator.GdbStub.Bytes.{
  bytes_text, put_bytes, bytes_text-put, bytes_hex, IsByteList, byte_at, Writes, Asks,
  written_text-hex, put_bytes-list,
}

next_byte : (off : ℕ) → off < sram_size → add32 (sram_base + off) 1 ≡ sram_base + (off + 1)
next_byte off lt = omega arith

module _ {X : Type 0} where
  sram_read_byte :
      (m : Machine X) (off : ℕ)
      → off < sram_size
      → bus_read board_bus m (sram_base + off) 1 ≡ (m.memory.sram off, m)
  unfolding sram_region memory_sram_read read_le
  sram_read_byte m off lt =
      let inside : ltb sram_size (add32 off 1) ≡ false = ground arith in
      (bus_access-device sram_base sram_size sram_region m off 0 1
        (rw board_table (inr (inr (inl refl)))) lt).0
      ∙ rw inside

  sram_write_byte :
      (m : Machine X) (off v : ℕ)
      → off < sram_size
      → bus_write board_bus m (sram_base + off) v 1
        ≡ (ok, record m { memory = record m.memory { sram = update m.memory.sram off (u8 v) } })
  unfolding sram_region memory_sram_write write_le
  sram_write_byte m off v lt =
      let inside : ltb sram_size (add32 off 1) ≡ false = ground arith in
      (bus_access-device sram_base sram_size sram_region m off v 1
        (rw board_table (inr (inr (inl refl)))) lt).1
      ∙ rw inside

  read_bytes-sram :
      (len off : ℕ) (m : Machine X)
      → off + len ≤ sram_size
      → read_bytes board_bus len (sram_base + off) m ≡ (bytes_text len m.memory.sram off, m)
  unfolding read_bytes
  read_bytes-sram zero off m lt = refl
  read_bytes-sram (suc len) off m lt =
      let here = sram_read_byte m off (omega arith) in
      let step = next_byte off (omega arith) in
      rw (here, step, read_bytes-sram len (off + 1) m (omega arith))

  write_bytes-sram :
      (len off hex : ℕ) (buf : Buffer) (m : Machine X)
      → off + len ≤ sram_size
      → write_bytes board_bus len (sram_base + off) buf hex m
        ≡ record m { memory = record m.memory { sram = put_bytes len m.memory.sram off buf hex } }
  unfolding write_bytes
  write_bytes-sram zero off hex buf m lt = refl
  write_bytes-sram (suc len) off hex buf m lt =
      let v = decode_byte buf hex in
      let after : Machine X = record m {
        memory = record m.memory { sram = update m.memory.sram off (u8 v) };
      } in
      rw (sram_write_byte m off v (omega arith), next_byte off (omega arith))
        (write_bytes-sram len (off + 1) (hex + 2) buf after (omega arith))

  bytes_written :
      (bs : List ℕ) (m : Machine X) (off : ℕ) (buf : Buffer) (hex j : ℕ)
      → off + length bs ≤ sram_size
      → IsByteList bs
      → HoldsText buf hex (bytes_hex bs)
      → let after : Machine X = write_bytes board_bus (length bs) (sram_base + off) buf hex m in
        (read_bytes board_bus (length bs) (sram_base + off) after ≡ (bytes_hex bs, after))
        × (after.memory.sram j ≡ (
            if leb off j && ltb j (off + length bs) then byte_at bs (j - off) else m.memory.sram j))
        × (after ≡ record m { memory = record m.memory { sram = after.memory.sram } })
  bytes_written bs m off buf hex j lt small held =
      let f = m.memory.sram in
      let after : Machine X = record m {
        memory = record m.memory { sram = put_bytes (length bs) f off buf hex };
      } in
      rw (write_bytes-sram (length bs) off hex buf m lt) (
        read_bytes-sram (length bs) off after lt
            ∙ ap (λ t. (t, after))
                (bytes_text-put (length bs) f off buf hex ∙ written_text-hex bs buf hex small held),
        put_bytes-list bs f off buf hex j small held,
        refl,
      )

  write_packet :
      (w : Wire) (sim : Simulator X) (packet : Buffer) (at addr : ℕ) (bs : List ℕ)
      → (wr : Writes packet at addr bs)
      → handle_write_mem (w, sim) packet at ≡ (
        reply w (literal "OK"),
        record sim {
          machine = write_bytes sim.bus (length bs) addr packet (wr.colon + 1) sim.machine;
        },
      )
  unfolding handle_write_mem
  write_packet w sim packet at addr bs wr =
      rw (handle_write_mem, wr.comma_found, wr.colon_found, wr.address, wr.count) refl

  read_packet :
      (w : Wire) (sim : Simulator X) (asking : Buffer) (pos addr len : ℕ)
      → Asks asking pos addr len
      → len ≤ 1024
      → handle_read_mem (w, sim) asking pos ≡ (
        reply w (read_bytes sim.bus len addr sim.machine).0,
        record sim { machine = (read_bytes sim.bus len addr sim.machine).1 },
      )
  unfolding handle_read_mem
  read_packet w sim asking pos addr len ask few =
      let whole : ltb 1024 len ≡ false = ground arith in
      rw (handle_read_mem, ask.comma_found, ask.address, ask.count, whole) refl

  -- On the board's bus, an `M` packet writes bytes to a range of SRAM, from their hexadecimal text in the
  -- packet, and is answered `OK`. Each
  -- byte then stands in SRAM at its place; the rest of SRAM and all else of the simulator is as before.
  -- An `m` packet for the same range, of at most 1024 bytes, is answered with the text of those bytes, two
  -- lower case digits each, and changes nothing.
  pub handle_read_mem-handle_write_mem :
      (w later : Wire) (sim : Simulator X) (packet asking : Buffer) (at pos off : ℕ) (bs : List ℕ)
      (j : ℕ)
      → sim.bus ≡ board_bus
      → off + length bs ≤ sram_size
      → length bs ≤ 1024
      → IsByteList bs
      → Writes packet at (sram_base + off) bs
      → Asks asking pos (sram_base + off) (length bs)
      → let r : Wire × Simulator X = handle_write_mem (w, sim) packet at in
        let memory : Memory = r.1.machine.memory in
        (r.0 ≡ reply w (literal "OK"))
        × (memory.sram j ≡ (
            if leb off j && ltb j (off + length bs)
            then byte_at bs (j - off)
            else sim.machine.memory.sram j))
        × (r.1 ≡ record sim {
          machine = record sim.machine {
            memory = record sim.machine.memory { sram = memory.sram };
          };
        })
        × (handle_read_mem (later, r.1) asking pos ≡ (reply later (bytes_hex bs), r.1))
  handle_read_mem-handle_write_mem w later sim packet asking at pos off bs j board lt few small wr
        ask =
      let (again, stored, kept) =
        bytes_written bs sim.machine off packet (wr.colon + 1) j lt small wr.text in
      let sent = write_packet w sim packet at (sram_base + off) bs wr in
      let after : Simulator X = record sim {
        bus = board_bus;
        machine =
            write_bytes board_bus (length bs) (sram_base + off) packet (wr.colon + 1) sim.machine;
      } in
      let answer = read_packet later after asking pos (sram_base + off) (length bs) ask few in
      rw (sent, board)
        (
          refl,
          stored,
          ap (λ m. record sim { bus = board_bus; machine = m }) kept,
          answer ∙ ap (λ r. (reply later r.0, record after { machine = r.1 })) again,
        )
