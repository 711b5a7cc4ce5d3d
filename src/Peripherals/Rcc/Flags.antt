-- ===== src/Peripherals/Rcc/Flags.antt =====
-- src/peripherals/rcc/rcc.c: what each register reads as after a write.
use stm32_emulator.Base.{
  ap, ℕ, ◌-◌, ◌*◌, ◌/◌, ◌%◌, ◌^◌, ◌≤◌, ◌<◌, bit_and, bit_or, ◌≡◌, refl, ◌∙◌, ◌≢◌, ◌⊎◌, Bool, true,
  false, not, ◌&&◌, ◌||◌, arith, ltb, ◌==◌, if◌then◌else◌, update, not32,
}
use stm32_emulator.Base.Bits.{
  bit, bit-and, bit-or, bit-pow, bit-shl, bit-mod, complement, bit-complement, nonzero-bit_and,
  bit_of_lt, bit_and-low_mask,
}
use stm32_emulator.Status.{Status, ok, error}
use native.Mathlib.Decide.{ℕ_discrete}
use stm32_emulator.Peripherals.Rcc.{
  Rcc, rcc_num_regs, hsirdy, hserdy, pllrdy, sw_mask, sws_mask, follow, rcc_update_cr_ready,
  rcc_update_cfgr_sws, unknown_offset, rcc_read, write_reg, rcc_write,
}

-- Bit `r` follows bit `o`; the others stay.
follow-bit :
    (o r cr i : ℕ)
    → r < 32
    → bit (follow (2 ^ o) (2 ^ r) cr) i
      ≡ (if r == i then bit cr o else bit cr i && (ltb i 32 || bit cr o))
unfolding follow
follow-bit o r cr i lt = rw (nonzero-bit_and cr o) (set_or_clear (bit cr o))
  where
    set_or_clear :
        (b : Bool)
        → bit (if b then bit_or cr (2 ^ r) else bit_and cr (not32 (2 ^ r))) i
          ≡ (if r == i then b else bit cr i && (ltb i 32 || b))
    set_or_clear true = rw (bit-or, bit-pow) (ground arith)
    set_or_clear false = rw (bit-and, bit-complement, bit-pow) (ground arith)

-- A write to register `w` succeeds, and leaves every other register as it was.
rcc_write-frame :
    (rcc : Rcc) (w value size j : ℕ)
    → w < rcc_num_regs
    → ((rcc_write rcc (4 * w) value size).0 ≡ ok)
      × (j ≢ w → (rcc_write rcc (4 * w) value size).1.regs j ≡ rcc.regs j)
unfolding rcc_write unknown_offset write_reg rcc_update_cr_ready rcc_update_cfgr_sws
rcc_write-frame rcc w value size j lt =
    let index : 4 * w / 4 ≡ w = omega arith in
    let known : 4 * w % 4 ≡ 0 = omega arith in rw (index, known) (ground arith, λ ne. ground arith)

cr_ready :
    (rcc : Rcc) (value i : ℕ)
    → value < 2 ^ 32
    → bit ((write_reg rcc 0 value).regs 0) i ≡ (
        if i == 1
        then bit value 0
        else if i == 17
        then bit value 16
        else if i == 25
        then bit value 24
        else bit value i)
unfolding write_reg rcc_update_cr_ready
cr_ready rcc value i small =
    rw
      (
        follow-bit 24 25 _ i (omega arith),
        follow-bit 16 17 _ i (omega arith),
        follow-bit 16 17 _ 24 (omega arith),
        follow-bit 0 1 _ i (omega arith),
        follow-bit 0 1 _ 16 (omega arith),
        follow-bit 0 1 _ 24 (omega arith),
        masked i,
        masked 0,
        masked 16,
        masked 24,
      )
      (ground (arith, bit_of_lt 32 value i small))
  where
    masked :
        (k : ℕ)
        → bit (bit_and value (not32 (bit_or (bit_or hsirdy hserdy) pllrdy))) k
          ≡ (bit value k && (ltb k 32 && not ((1 == k || 17 == k) || 25 == k)))
    masked k = rw (
      bit-and,
      bit-complement,
      bit-or k (bit_or hsirdy hserdy) pllrdy,
      bit-or k hsirdy hserdy,
      bit-pow 1 k,
      bit-pow 17 k,
      bit-pow 25 k,
    )

cfgr_status :
    (rcc : Rcc) (value i : ℕ)
    → value < 2 ^ 32
    → bit ((write_reg rcc 1 value).regs 1) i
      ≡ (if i == 2 then bit value 0 else if i == 3 then bit value 1 else bit value i)
unfolding write_reg rcc_update_cfgr_sws
cfgr_status rcc value i small =
    rw (bit-or, cleared_twice, bit-mod 32 _ i, bit-shl 2 _ i, source (i - 2))
      (elim (ℕ_discrete i 2) [
        | yes two ↦ rw two (ground arith)
        | no other ↦ elim (ℕ_discrete i 3) [
          | yes three ↦ rw three (ground arith)
          | no rest ↦ ground (arith, bit_of_lt 32 value i small)
        ]
      ])
  where
    sws : (k : ℕ) → bit sws_mask k ≡ (2 == k || 3 == k)
    sws k = rw (bit-or k (2 ^ 2) (2 ^ 3), bit-pow 2 k, bit-pow 3 k)

    cleared :
        (k : ℕ)
        → bit (bit_and value (not32 sws_mask)) k
          ≡ (bit value k && (ltb k 32 && not (2 == k || 3 == k)))
    cleared k = rw (bit-and, bit-complement, sws k)

    cleared_twice : bit (bit_and (bit_and value (not32 sws_mask)) (not32 sws_mask)) i ≡ (
        (bit value i && (ltb i 32 && not (2 == i || 3 == i)))
        && (ltb i 32 && not (2 == i || 3 == i)))
    cleared_twice =
        bit-and i (bit_and value (not32 sws_mask)) (not32 sws_mask)
        ∙ rw (cleared i, bit-complement 32 sws_mask i, sws i)

    source :
        (k : ℕ)
        → bit (bit_and (bit_and value (not32 sws_mask)) sw_mask) k
          ≡ (ltb k 2 && (bit value k && (ltb k 32 && not (2 == k || 3 == k))))
    source k = rw (bit_and-low_mask 2 (bit_and value (not32 sws_mask)), bit-mod 2 _ k, cleared k)

csr_flags :
    (rcc : Rcc) (value : ℕ)
    → (write_reg rcc 9 value).regs 9 ≡ (if bit value 24 then rcc.regs 9 % 2 ^ 24 else value)
unfolding write_reg complement
csr_flags rcc value = rw (nonzero-bit_and value 24) (remove (bit value 24))
  where
    remove :
        (b : Bool)
        → (if b
              then record { regs = update rcc.regs 9 (bit_and (rcc.regs 9) (not32 0xFF000000)) }
              else (let r : Rcc = record { regs = update rcc.regs 9 value } in r)).regs
            9
          ≡ (if b then rcc.regs 9 % 2 ^ 24 else value)
    remove true = bit_and-low_mask 24 (rcc.regs 9)
    remove false = refl

read_back :
    (rcc : Rcc) (w value size : ℕ)
    → w < rcc_num_regs
    → rcc_read (rcc_write rcc (4 * w) value size).1 (4 * w) size ≡ (write_reg rcc w value).regs w
unfolding rcc_read rcc_write unknown_offset
read_back rcc w value size lt =
    let index : 4 * w / 4 ≡ w = omega arith in
    let known : 4 * w % 4 ≡ 0 = omega arith in rw (index, known) (ground arith)

plain_reg :
    (rcc : Rcc) (w value : ℕ) → w ≢ 0 → w ≢ 1 → w ≢ 9 → (write_reg rcc w value).regs w ≡ value
unfolding write_reg
plain_reg rcc w value a b c = ground arith

-- Each register under its own condition.
rcc_read-write_cases :
    (rcc : Rcc) (w value size i : ℕ)
    → w < rcc_num_regs
    → value < 2 ^ 32
    → let back : ℕ = rcc_read (rcc_write rcc (4 * w) value size).1 (4 * w) size in
      (w ≡ 0
        → bit back i ≡ (
            if i == 1
            then bit value 0
            else if i == 17
            then bit value 16
            else if i == 25
            then bit value 24
            else bit value i))
      × (w ≡ 1
          → bit back i
            ≡ (if i == 2 then bit value 0 else if i == 3 then bit value 1 else bit value i))
      × (w ≡ 9 → back ≡ (if bit value 24 then rcc.regs 9 % 2 ^ 24 else value))
      × (w ≢ 0 → w ≢ 1 → w ≢ 9 → back ≡ value)
rcc_read-write_cases rcc w value size i lt small = rw (read_back rcc w value size lt) (
  λ e. rw e (cr_ready rcc value i small),
  λ e. rw e (cfgr_status rcc value i small),
  λ e. rw e (csr_flags rcc value),
  plain_reg rcc w value,
)

-- A write to a register succeeds, and that register reads back as it was written, but for its read-only
-- bits: in `CR` each ready flag follows its enable bit at once, and in `CFGR` the status of the clock
-- switch (bits 2, 3) shows the source just asked for (bits 0, 1), so firmware that waits for them does
-- not hang. A write to `CSR` with bit 24 set takes away the reset flags and keeps the rest of the old
-- value. `w` is the register; every other register `j` stays.
pub rcc_read-write :
    (rcc : Rcc) (w value size i j : ℕ)
    → w < rcc_num_regs
    → value < 2 ^ 32
    → j ≢ w
    → let after : Status × Rcc = rcc_write rcc (4 * w) value size in
      (after.0 ≡ ok)
      × (bit (rcc_read after.1 (4 * w) size) i ≡ (
          if w == 0
          then (if i == 1
              then bit value 0
              else if i == 17
              then bit value 16
              else if i == 25
              then bit value 24
              else bit value i)
          else if w == 1
          then (if i == 2 then bit value 0 else if i == 3 then bit value 1 else bit value i)
          else if w == 9
          then bit (if bit value 24 then rcc.regs 9 % 2 ^ 24 else value) i
          else bit value i))
      × (after.1.regs j ≡ rcc.regs j)
rcc_read-write rcc w value size i j lt small ne =
    let c = rcc_read-write_cases rcc w value size i lt small in
    let frame = rcc_write-frame rcc w value size j lt in
    let see = λ (x : ℕ). bit x i in
    (
      frame.0,
      elim (ℕ_discrete w 0) [
        | yes e ↦ c.0 e ∙ ground arith
        | no n0 ↦ elim (ℕ_discrete w 1) [
          | yes e ↦ c.1 e ∙ ground arith
          | no n1 ↦ elim (ℕ_discrete w 9) [
            | yes e ↦ ap see (c.2 e) ∙ ground arith
            | no n9 ↦ ap see (c.3 n0 n1 n9) ∙ ground arith
          ]
        ]
      ],
      frame.1 ne,
    )

-- At an offset that is not a multiple of 4 or is past the last register a write is refused and changes
-- nothing, and a read is 0.
pub rcc_write_bounds :
    (rcc : Rcc) (offset value size : ℕ)
    → (offset % 4 ≢ 0) ⊎ (4 * rcc_num_regs ≤ offset)
    → (rcc_write rcc offset value size ≡ (error, rcc)) × (rcc_read rcc offset size ≡ 0)
unfolding rcc_write rcc_read unknown_offset
rcc_write_bounds rcc offset value size bad = (ground arith, ground arith)
