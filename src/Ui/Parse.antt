-- ===== src/Ui/Parse.antt =====
-- src/ui/ui.c: `parse_uint32` and the splitting of a line. `strtoul` in base 0 is written out from the
-- functions of GdbStub.Text.
use stm32_emulator.Base.{
  ℕ, ◌+◌, ◌-◌, ◌*◌, ◌%◌, ◌^◌, ◌&&◌, ◌||◌, Option, none, some, List, [], ◌∷◌, ltb, leb, ◌==◌,
  if◌then◌else◌, u32,
}
use stm32_emulator.GdbStub.Text.{is_space, skip_spaces, hex_value, hex_number, sign_of}

-- The number of the leading digits below `base`, after `acc`.
unfoldable pub digits_number : ℕ → ℕ → List ℕ → ℕ
digits_number base acc [] = acc
digits_number base acc (c ∷ cs) =
    let rest = digits_number base (acc * base + (c - b'0')) cs in
    if leb b'0' c && ltb c (b'0' + base) then rest else acc

-- `0x` with a digit behind it begins a hexadecimal number, another 0 an octal one; `none` where no digit stands.
unfoldable pub auto_number : List ℕ → Option ℕ
auto_number [] = none
auto_number (z ∷ x ∷ d ∷ ds) =
    if z == b'0' && (x == b'x' || x == b'X')
    then (elim (hex_value d) [ none ↦ some 0 | some v ↦ some (hex_number 0 (d ∷ ds)) ])
    else if z == b'0'
    then some (digits_number 8 0 (z ∷ x ∷ d ∷ ds))
    else if leb b'1' z && leb z b'9'
    then some (digits_number 10 0 (z ∷ x ∷ d ∷ ds))
    else none
auto_number (z ∷ cs) =
    if z == b'0'
    then some (digits_number 8 0 (z ∷ cs))
    else if leb b'1' z && leb z b'9'
    then some (digits_number 10 0 (z ∷ cs))
    else none

-- `(uint32_t)strtoul(str, &end, 0)`, or `none` where `end == str`.
unfoldable pub strtoul_auto : List ℕ → Option ℕ
strtoul_auto s =
    let signed = sign_of (skip_spaces s) in
    elim (auto_number signed.1) [
      | none ↦ none
      | some v ↦ some (
          u32
            (if leb (2 ^ 64) v then 2 ^ 64 - 1 else if signed.0 then (2 ^ 64 - v) % 2 ^ 64 else v))
    ]

unfoldable pub parse_uint32 : List ℕ → Option ℕ
parse_uint32 str = elim (skip_spaces str) [ [] ↦ none | c ∷ cs ↦ strtoul_auto (c ∷ cs) ]

-- The characters up to the first space, and those from it on.
unfoldable pub take_word : List ℕ → List ℕ
take_word [] = []
take_word (c ∷ cs) = if is_space c then [] else c ∷ take_word cs

unfoldable pub drop_word : List ℕ → List ℕ
drop_word [] = []
drop_word (c ∷ cs) = if is_space c then c ∷ cs else drop_word cs

-- The line without the newlines at its end.
unfoldable pub strip_newline : List ℕ → List ℕ
strip_newline [] = []
strip_newline (c ∷ cs) = elim (strip_newline cs) [
  | [] ↦ if c == 10 || c == 13 then [] else c ∷ []
  | d ∷ ds ↦ c ∷ d ∷ ds
]
