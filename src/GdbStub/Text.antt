-- ===== src/GdbStub/Text.antt =====
-- src/gdb_stub/gdb_stub.c: its uses of `strlen`, `strchr`, `strtoul`, `strtol`, `strncmp` and of the
-- format `%02x`. A pointer into the packet is its index; a C string that one of these reads is a list.
use stm32_emulator.Base.{
  ℕ, zero, suc, ◌+◌, ◌-◌, ◌*◌, ◌/◌, ◌%◌, ◌^◌, Bool, true, false, ◌&&◌, ◌||◌, Option, none, some,
  List, [], ◌∷◌, ltb, leb, ◌==◌, if◌then◌else◌,
}
use stm32_emulator.GdbStub.{Buffer, pkt_buf_size}
use Prim.Native.Char.{code}
use Prim.Native.String.{String}
use mathlib.Core.Option

-- The bytes of a literal.
unfoldable pub literal : String → List ℕ
literal String.[] = []
literal (String.◌∷◌ c s) = code c ∷ literal s

-- `strlen`
unfoldable pub strlen : List ℕ → ℕ
strlen [] = 0
strlen (c ∷ cs) = strlen cs + 1

-- The string that begins at an index, up to its NUL. It ends within the buffer, whose size is the fuel.
unfoldable pub string_loop : ℕ → Buffer → ℕ → List ℕ
string_loop zero buf pos = []
string_loop (suc fuel) buf pos =
    let rest = string_loop fuel buf (pos + 1) in if buf pos == 0 then [] else buf pos ∷ rest

unfoldable pub string_at : Buffer → ℕ → List ℕ
string_at buf pos = string_loop pkt_buf_size buf pos

unfoldable pub index_of : List ℕ → ℕ → Option ℕ
index_of [] c = none
index_of (d ∷ ds) c = if d == c then some 0 else Option.map (λ i. i + 1) (index_of ds c)

-- `strchr`; `none` is a null pointer.
unfoldable pub strchr : Buffer → ℕ → ℕ → Option ℕ
strchr buf pos c = Option.map (λ i. pos + i) (index_of (string_at buf pos) c)

-- `strncmp(s, literal, strlen(literal)) == 0`
unfoldable pub starts_with : List ℕ → List ℕ → Bool
starts_with s [] = true
starts_with [] (d ∷ ds) = false
starts_with (c ∷ cs) (d ∷ ds) = c == d && starts_with cs ds

-- `strcmp(s, literal) == 0`
unfoldable pub equals : List ℕ → List ℕ → Bool
equals [] [] = true
equals [] (d ∷ ds) = false
equals (c ∷ cs) [] = false
equals (c ∷ cs) (d ∷ ds) = c == d && equals cs ds

unfoldable pub is_space : ℕ → Bool
is_space c = c == b' ' || (leb 9 c && leb c 13)

unfoldable pub skip_spaces : List ℕ → List ℕ
skip_spaces [] = []
skip_spaces (c ∷ cs) = if is_space c then skip_spaces cs else c ∷ cs

unfoldable pub hex_value : ℕ → Option ℕ
hex_value c =
    if leb b'0' c && leb c b'9'
    then some (c - b'0')
    else if leb b'a' c && leb c b'f'
    then some (c - b'a' + 10)
    else if leb b'A' c && leb c b'F'
    then some (c - b'A' + 10)
    else none

-- The number that the leading digits write, after `acc`.
unfoldable pub hex_number : ℕ → List ℕ → ℕ
hex_number acc [] = acc
hex_number acc (c ∷ cs) = elim (hex_value c) [ none ↦ acc | some d ↦ hex_number (acc * 16 + d) cs ]

-- A sign, and what follows it.
unfoldable pub sign_of : List ℕ → Bool × List ℕ
sign_of [] = (false, [])
sign_of (c ∷ cs) =
    if c == b'-' then (true, cs) else if c == b'+' then (false, cs) else (false, c ∷ cs)

-- `0x` or `0X` is skipped where a digit follows it.
unfoldable pub skip_prefix : List ℕ → List ℕ
skip_prefix (z ∷ x ∷ d ∷ ds) =
    if z == b'0' && (x == b'x' || x == b'X')
    then (elim (hex_value d) [ none ↦ z ∷ x ∷ d ∷ ds | some v ↦ d ∷ ds ])
    else z ∷ x ∷ d ∷ ds
skip_prefix cs = cs

-- The sign and the digits' number, for both functions.
unfoldable pub parse_hex : List ℕ → Bool × ℕ
parse_hex s =
    let signed = sign_of (skip_spaces s) in (signed.0, hex_number 0 (skip_prefix signed.1))

-- `strtoul(s, NULL, 16)`, a 64-bit `unsigned long`
unfoldable pub strtoul : List ℕ → ℕ
strtoul s =
    let r = parse_hex s in
    if leb (2 ^ 64) r.1 then 2 ^ 64 - 1 else if r.0 then (2 ^ 64 - r.1) % 2 ^ 64 else r.1

-- `strtol(s, NULL, 16)`, a 64-bit `long` in two's complement
unfoldable pub strtol : List ℕ → ℕ
strtol s =
    let r = parse_hex s in
    if r.0
    then (if leb (2 ^ 63) r.1 then 2 ^ 63 else (2 ^ 64 - r.1) % 2 ^ 64)
    else if leb (2 ^ 63) r.1
    then 2 ^ 63 - 1
    else r.1

-- `char bs[3] = { a, b, '\0' }`
unfoldable pub two_chars : ℕ → ℕ → List ℕ
two_chars a b = if a == 0 then [] else if b == 0 then a ∷ [] else a ∷ b ∷ []

unfoldable pub hex_digit : ℕ → ℕ
hex_digit d = if ltb d 10 then b'0' + d else b'a' + (d - 10)

-- `%02x` of a byte
unfoldable pub hex2 : ℕ → List ℕ
hex2 b = hex_digit (b / 16) ∷ hex_digit (b % 16) ∷ []
