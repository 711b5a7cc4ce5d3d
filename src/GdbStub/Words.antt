-- ===== src/GdbStub/Words.antt =====
-- src/gdb_stub/gdb_stub.c: a byte and a word survive their text.
use stm32_emulator.Base.{
  ℕ, zero, suc, ◌+◌, ◌*◌, ◌/◌, ◌%◌, ◌^◌, ◌<◌, ◌≡◌, refl, sym, ap, ◌∙◌, false, some, List, [], ◌∷◌,
  ◌++◌, arith, ltb, ◌==◌, if◌then◌else◌,
}
use stm32_emulator.Base.Bits.{bit_and-low_mask}
use stm32_emulator.Base.{four_bytes}
use stm32_emulator.GdbStub.{Buffer}
use stm32_emulator.GdbStub.Text.{
  strlen, is_space, skip_spaces, hex_value, hex_number, sign_of, skip_prefix, parse_hex, strtoul,
  two_chars, hex_digit, hex2,
}
use stm32_emulator.GdbStub.Registers.{
  byte_of, encode_u32le, decode_byte, decode_u32le, encode_regs, decode_regs,
}
use stm32_emulator.Simulator.{Simulator}
use native.Mathlib.Decide.{ℕ_discrete}
use native.Mathlib.Nat.{mod-lt}
use mathlib.Core.Path.{subst}

-- The buffer holds the text from an index on.
abbrev pub HoldsText : Buffer → ℕ → List ℕ → Type 0
HoldsText buf pos [] = Unit {0}
HoldsText buf pos (c ∷ cs) = (buf pos ≡ c) × HoldsText buf (pos + 1) cs

-- A text in two parts.
pub HoldsText-append :
    (buf : Buffer) (pos : ℕ) (cs ds : List ℕ)
    → HoldsText buf pos (cs ++ ds)
    → HoldsText buf pos cs × HoldsText buf (pos + strlen cs) ds
unfolding strlen
HoldsText-append buf pos [] ds h =
    let here : pos ≡ pos + 0 = omega arith in (tt, subst (λ p. HoldsText buf p ds) here h)
HoldsText-append buf pos (c ∷ cs) ds h =
    let rest = HoldsText-append buf (pos + 1) cs ds h.1 in
    let here : pos + 1 + strlen cs ≡ pos + (strlen cs + 1) = omega arith in
    ((h.0, rest.0), subst (λ p. HoldsText buf p ds) here rest.1)

pub hex_value-hex_digit : (d : ℕ) → d < 16 → hex_value (hex_digit d) ≡ some d
unfolding hex_value hex_digit
hex_value-hex_digit d lt = ground arith

-- A digit is printed as a character that is neither a NUL, a space nor a sign.
plain_digit :
    (d : ℕ)
    → d < 16
    → ((hex_digit d == 0) ≡ false)
      × (is_space (hex_digit d) ≡ false)
      × ((hex_digit d == b'-') ≡ false)
      × ((hex_digit d == b'+') ≡ false)
unfolding hex_digit is_space
plain_digit d lt = (ground arith, ground arith, ground arith, ground arith)

digits_kept :
    (h l : ℕ)
    → h < 16
    → l < 16
    → two_chars (hex_digit h) (hex_digit l) ≡ hex_digit h ∷ hex_digit l ∷ []
unfolding two_chars
digits_kept h l hh hl = rw ((plain_digit h hh).0, (plain_digit l hl).0)

digits_signed :
    (h : ℕ) (cs : List ℕ)
    → h < 16
    → sign_of (skip_spaces (hex_digit h ∷ cs)) ≡ (false, hex_digit h ∷ cs)
unfolding skip_spaces sign_of
digits_signed h cs hh = let p = plain_digit h hh in rw (p.1, sign_of, p.2, p.3)

digits_number :
    (h l : ℕ) → h < 16 → l < 16 → hex_number 0 (hex_digit h ∷ hex_digit l ∷ []) ≡ h * 16 + l
unfolding hex_number
digits_number h l hh hl =
    rw (hex_value-hex_digit h hh, hex_number, hex_value-hex_digit l hl) (omega arith)

digits_parsed :
    (h l : ℕ) → h < 16 → l < 16 → parse_hex (hex_digit h ∷ hex_digit l ∷ []) ≡ (false, h * 16 + l)
unfolding parse_hex skip_prefix
digits_parsed h l hh hl =
    rw (digits_signed h (hex_digit l ∷ []) hh, skip_prefix, digits_number h l hh hl)

pub strtoul-digits :
    (h l : ℕ) → h < 16 → l < 16 → strtoul (two_chars (hex_digit h) (hex_digit l)) ≡ h * 16 + l
unfolding strtoul
strtoul-digits h l hh hl = rw (digits_kept h l hh hl, digits_parsed h l hh hl) (ground arith)

pub decode_byte-hex2 :
    (buf : Buffer) (pos b : ℕ) → b < 256 → HoldsText buf pos (hex2 b) → decode_byte buf pos ≡ b
unfolding decode_byte hex2
decode_byte-hex2 buf pos b lt h =
    rw (h.0, h.1.0, strtoul-digits (b / 16) (b % 16) (omega arith) (mod-lt b (omega arith)))
      (omega arith)

byte_of_lem : (val i : ℕ) → byte_of val i ≡ val / 2 ^ (8 * i) % 256
unfolding byte_of
byte_of_lem val i = bit_and-low_mask 8 (val / 2 ^ (8 * i))

byte_of-lt : (val i : ℕ) → byte_of val i < 256
byte_of-lt val i = rw (byte_of_lem val i) (mod-lt (val / 2 ^ (8 * i)) (omega arith))

-- A word that is stored as its text is read back.
pub decode-encode_u32le :
    (buf : Buffer) (pos val : ℕ)
    → val < 2 ^ 32
    → HoldsText buf pos (encode_u32le val)
    → decode_u32le buf pos ≡ val
unfolding decode_u32le encode_u32le hex2 strlen
decode-encode_u32le buf pos val lt h =
    let hex : ℕ → List ℕ = λ i. hex2 (byte_of val i) in
    let s0 = HoldsText-append buf pos (hex 0) (hex 1 ++ hex 2 ++ hex 3) h in
    let s1 = HoldsText-append buf (pos + 2) (hex 1) (hex 2 ++ hex 3) s0.1 in
    let s2 = HoldsText-append buf (pos + 2 + 2) (hex 2) (hex 3) s1.1 in
    let at4 : pos + 4 ≡ pos + 2 + 2 = omega arith in
    let at6 : pos + 6 ≡ pos + 2 + 2 + 2 = omega arith in
    let d0 = decode_byte-hex2 buf pos _ (byte_of-lt val 0) s0.0 in
    let d1 = decode_byte-hex2 buf (pos + 2) _ (byte_of-lt val 1) s1.0 in
    let d2 =
      ap (decode_byte buf) at4 ∙ decode_byte-hex2 buf (pos + 2 + 2) _ (byte_of-lt val 2) s2.0 in
    let d3 =
      ap (decode_byte buf) at6 ∙ decode_byte-hex2 buf (pos + 2 + 2 + 2) _ (byte_of-lt val 3) s2.1 in
    rw (d0, d1, d2, d3)
      (four_bytes _ _ _ _ (byte_of-lt val 0) (byte_of-lt val 1) (byte_of-lt val 2)
          (byte_of-lt val 3)
        ∙ rw (byte_of_lem val 0, byte_of_lem val 1, byte_of_lem val 2, byte_of_lem val 3)
            (omega arith))

encode-strlen : (val : ℕ) → strlen (encode_u32le val) ≡ 8
unfolding strlen encode_u32le hex2
encode-strlen val = refl

append-strlen : (cs ds : List ℕ) → strlen (cs ++ ds) ≡ strlen cs + strlen ds
unfolding strlen
append-strlen [] ds = omega arith
append-strlen (c ∷ cs) ds = ground (arith, append-strlen cs ds)

pub encode_regs-strlen : (n : ℕ) (r : ℕ → ℕ) → strlen (encode_regs n r) ≡ n * 8
unfolding encode_regs strlen
encode_regs-strlen zero r = refl
encode_regs-strlen (suc n) r =
    append-strlen (encode_regs n r) (encode_u32le (r n))
    ∙ rw (encode_regs-strlen n r, encode-strlen (r n)) (omega arith)

-- Every register whose text is stored is read back, and no other is changed.
pub decode_regs-encode_regs :
    (n : ℕ) (r old : ℕ → ℕ) (buf : Buffer) (pos i : ℕ)
    → ((j : ℕ) → r j < 2 ^ 32)
    → HoldsText buf pos (encode_regs n r)
    → decode_regs n old buf pos i ≡ (if ltb i n then r i else old i)
unfolding decode_regs encode_regs
decode_regs-encode_regs zero r old buf pos i small h = ground arith
decode_regs-encode_regs (suc n) r old buf pos i small h =
    let parts = HoldsText-append buf pos (encode_regs n r) (encode_u32le (r n)) h in
    let here : pos + strlen (encode_regs n r) ≡ pos + n * 8 = rw (encode_regs-strlen n r) refl in
    let last : decode_u32le buf (pos + n * 8) ≡ r n =
      decode-encode_u32le buf (pos + n * 8) (r n) (small n)
        (subst (λ p. HoldsText buf p (encode_u32le (r n))) here parts.1) in
    let before = decode_regs-encode_regs n r old buf pos i small parts.0 in
    elim (ℕ_discrete n i) [
      | yes e ↦ rw (sym e, last) (ground arith)
      | no ne ↦ ground (arith, before)
    ]
