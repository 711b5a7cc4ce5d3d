-- ===== src/Program/Report.antt =====
-- src/main.c: the strings of the report, against a reader of JSON strings.
use stm32_emulator.Base.{
  ℕ, zero, suc, ◌+◌, ◌*◌, ◌/◌, ◌%◌, ◌<◌, ◌||◌, ◌≡◌, refl, ◌∙◌, ap, inl, inr, false, Bool-cases,
  Option, none, some, List, [], ◌∷◌, ◌++◌, ltb, ◌==◌, if◌then◌else◌, arith,
}
use stm32_emulator.GdbStub.Text.{hex_value, hex_digit}
use stm32_emulator.GdbStub.Words.{hex_value-hex_digit}
use stm32_emulator.Program.{json_char, json_chars, json_write_str}
use mathlib.Core.Option
use mathlib.Core.List.{append_assoc}

-- Where the reader stands: in the text, behind a backslash, or in the number of `\u` with so many digits to
-- come behind the next.
data Lexer : Type 0 where
  plain : Lexer
  escaped : Lexer
  number : ℕ → ℕ → Lexer

abbrev pub Read : Type 0
Read = Option (List ℕ × List ℕ)

abbrev cons_read : ℕ → Read → Read
cons_read c = Option.map (λ r. (c ∷ r.0, r.1))

-- The characters of a JSON string in ASCII, and what follows its closing quote; a control character or a
-- byte from 128 on does not stand in one.
unfoldable read_chars : Lexer → List ℕ → Read
read_chars state [] = none
read_chars plain (c ∷ cs) =
    let next = read_chars plain cs in
    let escape = read_chars escaped cs in
    if c == b'"'
    then some ([], cs)
    else if c == b'\\'
    then escape
    else if ltb c 32 || ltb 127 c
    then none
    else cons_read c next
read_chars escaped (c ∷ cs) =
    let next = read_chars plain cs in
    let digits = read_chars (number 3 0) cs in
    if c == b'"'
    then cons_read c next
    else if c == b'\\'
    then cons_read c next
    else if c == b'n'
    then cons_read 10 next
    else if c == b'r'
    then cons_read 13 next
    else if c == b't'
    then cons_read 9 next
    else if c == b'u'
    then digits
    else none
read_chars (number zero acc) (c ∷ cs) = elim (hex_value c) [
  | none ↦ none
  | some d ↦ cons_read (acc * 16 + d) (read_chars plain cs)
]
read_chars (number (suc n) acc) (c ∷ cs) = elim (hex_value c) [
  | none ↦ none
  | some d ↦ read_chars (number n (acc * 16 + d)) cs
]

pub read_json_str : List ℕ → Read
read_json_str [] = none
read_json_str (c ∷ cs) = if c == b'"' then read_chars plain cs else none

two_digits :
    (h l : ℕ) (rest : List ℕ)
    → h < 16
    → l < 16
    → read_chars plain (b'\\' ∷ b'u' ∷ b'0' ∷ b'0' ∷ hex_digit h ∷ hex_digit l ∷ rest)
      ≡ cons_read (h * 16 + l) (read_chars plain rest)
unfolding read_chars hex_value
two_digits h l rest hh hl =
    rw (hex_value-hex_digit h hh, read_chars, hex_value-hex_digit l hl)
      (ap (λ v. cons_read v (read_chars plain rest)) (omega arith))

read_chars-json_char :
    (c : ℕ) (rest : List ℕ)
    → c < 128
    → read_chars plain (json_char c ++ rest) ≡ cons_read c (read_chars plain rest)
unfolding read_chars json_char
read_chars-json_char c rest ascii = elim (Bool-cases (c == b'"')) [
  | inl e ↦ (let eq : c ≡ b'"' = ground arith in rw eq refl)
  | inr n1 ↦ elim (Bool-cases (c == b'\\')) [
    | inl e ↦ (let eq : c ≡ b'\\' = ground arith in rw eq refl)
    | inr n2 ↦ elim (Bool-cases (c == 10)) [
      | inl e ↦ (let eq : c ≡ 10 = ground arith in rw eq refl)
      | inr n3 ↦ elim (Bool-cases (c == 13)) [
        | inl e ↦ (let eq : c ≡ 13 = ground arith in rw eq refl)
        | inr n4 ↦ elim (Bool-cases (c == 9)) [
          | inl e ↦ (let eq : c ≡ 9 = ground arith in rw eq refl)
          | inr n5 ↦ elim (Bool-cases (ltb c 32)) [
            | inl low ↦
                (let small : c < 32 = ground arith in
                  let high_digit : c / 16 < 16 = omega (arith, small) in
                  rw (n1, n2, n3, n4, n5, low)
                    (two_digits (c / 16) (c % 16) rest high_digit (omega arith)
                      ∙ ap (λ v. cons_read v (read_chars plain rest)) (omega arith)))
            | inr high ↦
                (let seven_bits : ltb 127 c ≡ false = ground arith in
                  rw (n1, n2, n3, n4, n5, high, read_chars, n1, n2, high, seven_bits))
          ]
        ]
      ]
    ]
  ]
]

-- Every byte of the string is an ASCII character.
abbrev pub IsAscii : List ℕ → Type 0
IsAscii [] = Unit {0}
IsAscii (c ∷ cs) = (c < 128) × IsAscii cs

read_chars-json_chars :
    (s rest : List ℕ)
    → IsAscii s
    → read_chars plain ((json_chars s ++ b'"' ∷ []) ++ rest) ≡ some (s, rest)
unfolding json_chars read_chars
read_chars-json_chars [] rest ascii = refl
read_chars-json_chars (c ∷ cs) rest ascii =
    let end : List ℕ = b'"' ∷ [] in
    ap (λ l. read_chars plain (l ++ rest)) (append_assoc (json_char c) (json_chars cs) end)
    ∙ ap (read_chars plain) (append_assoc (json_char c) (json_chars cs ++ end) rest)
    ∙ read_chars-json_char c ((json_chars cs ++ end) ++ rest) ascii.0
    ∙ ap (cons_read c) (read_chars-json_chars cs rest ascii.1)

-- A string of ASCII characters that `json_write_str` writes, control characters, quotes and backslashes
-- included, is read back by a reader of JSON strings in ASCII, whatever follows it; the reader stops behind its
-- closing quote.
pub read_json_str-json_write_str :
    (s rest : List ℕ) → IsAscii s → read_json_str (json_write_str s ++ rest) ≡ some (s, rest)
unfolding read_json_str json_write_str
read_json_str-json_write_str s rest ascii = read_chars-json_chars s rest ascii
