-- ===== src/Simulator/Flash.antt =====
-- src/simulator/simulator.c, src/memory/memory.c: what flash holds after an image has been loaded.
use stm32_emulator.Base.{
  ℕ, zero, suc, ◌+◌, ◌-◌, ◌≡◌, refl, ap, ◌∙◌, inl, inr, true, ◌&&◌, Option, none, some, List, [],
  ◌∷◌, arith, ltb, leb, ◌==◌, if◌then◌else◌, Bool-cases, update, u8,
}
use stm32_emulator.Memory.{Memory, fread_bytes, memory_load_binary, flash_size}
use stm32_emulator.Status.{Status, ok, error}
use stm32_emulator.Events.Dispatch.{length}
use stm32_emulator.Simulator.{Simulator}
use stm32_emulator.Simulator.Control.{simulator_reset, simulator_load}
use stm32_emulator.Simulator.Reset.{IsBoard, reset_board, simulator_reset-fresh}
use mathlib.Core.Path.{fun_ext}

-- The byte of the file at an index, 0 past its end.
abbrev pub byte_at : List ℕ → ℕ → ℕ
byte_at [] i = 0
byte_at (b ∷ file) zero = b
byte_at (b ∷ file) (suc i) = byte_at file i

-- `fread` stores the bytes that fit, in order, and nothing else.
pub fread_bytes_lem :
    (room at : ℕ) (file : List ℕ) (dest : ℕ → ℕ) (i : ℕ)
    → let r : ℕ × (ℕ → ℕ) = fread_bytes room at file dest in
      (r.0 ≡ (if leb (length file) room then length file else room))
      × (r.1 i ≡ (if leb at i && ltb i (at + r.0) then u8 (byte_at file (i - at)) else dest i))
unfolding fread_bytes
fread_bytes_lem zero at [] dest i = (refl, ground arith)
fread_bytes_lem zero at (b ∷ file) dest i = (ground arith, ground arith)
fread_bytes_lem (suc room) at [] dest i = (ground arith, ground arith)
fread_bytes_lem (suc room) at (b ∷ file) dest i =
    let rest = fread_bytes_lem room (suc at) file (update dest at (u8 b)) i in
    let (n, flash) = fread_bytes room (suc at) file (update dest at (u8 b)) in
    (
      ground (arith, rest.0),
      rest.1 ∙ elim (Bool-cases (i == at)) [
        | inl e ↦ let here : i - at ≡ 0 = ground arith in rw here (ground arith)
        | inr e ↦ elim (Bool-cases (leb at i)) [
          | inl le ↦ let next : i - at ≡ suc (i - suc at) = ground arith in rw next (ground arith)
          | inr gt ↦ ground arith
        ]
      ],
    )

-- The bytes of the file that fit in flash, in order; the rest as it was.
abbrev pub with_image : List ℕ → (ℕ → ℕ) → (ℕ → ℕ)
with_image file flash i =
    if ltb i flash_size && ltb i (length file) then u8 (byte_at file i) else flash i

empty_image :
    (file : List ℕ) (flash : ℕ → ℕ) → (length file == 0) ≡ true → with_image file flash ≡ flash
empty_image file flash e = fun_ext (λ i. ground arith)

loaded_image :
    (mem : Memory) (file : List ℕ)
    → memory_load_binary mem (some file)
      ≡ (if length file == 0 then error else ok, record mem { flash = with_image file mem.flash })
unfolding memory_load_binary
loaded_image mem file =
    let r : ℕ × (ℕ → ℕ) = fread_bytes flash_size 0 file mem.flash in
    let count = (fread_bytes_lem flash_size 0 file mem.flash 0).0 in
    let image : r.1 ≡ with_image file mem.flash = fun_ext (λ i.
      let stored = (fread_bytes_lem flash_size 0 file mem.flash i).1 in
      let here : i - 0 ≡ i = omega arith in stored ∙ rw (here, count) (ground arith)) in
    rw image (ground (arith, count))

module _ {X : Type 0} where
  -- The machine of a board with an image in flash.
  abbrev pub with_flash : Simulator X → List ℕ → Simulator X
  with_flash sim file = record sim {
    machine = record sim.machine {
      memory = record sim.machine.memory { flash = with_image file sim.machine.memory.flash };
    };
  }

  load_missing : (sim : Simulator X) → simulator_load sim none ≡ (error, sim)
  unfolding simulator_load memory_load_binary
  load_missing sim = refl

  -- With another flash.
  abbrev with_flash_of : Simulator X → (ℕ → ℕ) → Simulator X
  with_flash_of sim flash = record sim {
    machine = record sim.machine { memory = record sim.machine.memory { flash = flash } };
  }

  -- What `simulator_load` does with the result of `memory_load_binary`.
  abbrev after_load : Simulator X → Status × Memory → Status × Simulator X
  after_load sim r =
      let loaded : Simulator X = record sim { machine = record sim.machine { memory = r.1 } } in
      elim r.0 [ ok ↦ (ok, simulator_reset loaded) | other ↦ (other, loaded) ]

  -- Loading a file that is not empty succeeds: flash begins with the bytes of the file that fit, each cut to
  -- eight bits, and keeps what it held behind them, and the board is reset, so that the core
  -- starts with the stack pointer and the entry point of the image. A file that is empty
  -- or cannot be opened is an error and changes nothing.
  pub simulator_load-image :
      (sim : Simulator X) (file : Option (List ℕ))
      → IsBoard sim
      → simulator_load sim file ≡ elim file [
        | none ↦ (error, sim)
        | some bytes ↦
            if length bytes == 0 then (error, sim) else (ok, reset_board (with_flash sim bytes))
      ]
  unfolding simulator_load
  simulator_load-image sim none b = load_missing sim
  simulator_load-image sim (some bytes) b =
      ap (after_load sim) (loaded_image sim.machine.memory bytes)
      ∙ elim (Bool-cases (length bytes == 0)) [
        | inl e ↦ rw e (ap (λ f. (error, with_flash_of sim f)) (empty_image bytes _ e))
        | inr e ↦ rw e (
            ap (λ s. (ok, s))
              (simulator_reset-fresh (with_flash sim bytes) (record {
                bus = b.bus;
                peripherals = b.peripherals;
                timer_line = b.timer_line;
                uart_line = b.uart_line;
              })))
      ]
