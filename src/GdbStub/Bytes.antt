-- ===== src/GdbStub/Bytes.antt =====
-- src/gdb_stub/gdb_stub.c: bytes and their hexadecimal text, in an array and in the packets `m` and `M`.
use stm32_emulator.Base.{
  ℕ, zero, suc, ◌+◌, ◌-◌, ◌==◌, some, ◌∷◌, ◌<◌, bit_and, ◌≡◌, refl, ap, ◌∙◌, ◌&&◌, List, [], ◌++◌,
  arith, ltb, leb, if◌then◌else◌, update, u8,
}
use stm32_emulator.Base.Bits.{bit_and-low_mask}
use stm32_emulator.GdbStub.{Buffer}
use stm32_emulator.GdbStub.Text.{strlen, strchr, hex2}
use stm32_emulator.GdbStub.Registers.{decode_byte}
use stm32_emulator.GdbStub.Memory.{word_at}
use stm32_emulator.GdbStub.Words.{HoldsText, HoldsText-append, decode_byte-hex2}
use stm32_emulator.Events.Dispatch.{length}

-- The text of `len` bytes of an array.
abbrev pub bytes_text : ℕ → (ℕ → ℕ) → ℕ → List ℕ
bytes_text zero f at = []
bytes_text (suc len) f at = hex2 (bit_and (f at) 0xff) ++ bytes_text len f (at + 1)

-- The text of `len` bytes that the packet writes, in lower case and two digits each.
abbrev pub written_text : ℕ → Buffer → ℕ → List ℕ
written_text zero buf hex = []
written_text (suc len) buf hex = hex2 (decode_byte buf hex) ++ written_text len buf (hex + 2)

-- SRAM after the packet's bytes have been written from an index on.
abbrev pub put_bytes : ℕ → (ℕ → ℕ) → ℕ → Buffer → ℕ → (ℕ → ℕ)
put_bytes zero f at buf hex = f
put_bytes (suc len) f at buf hex =
    put_bytes len (update f at (u8 (decode_byte buf hex))) (at + 1) buf (hex + 2)

put_bytes_outside :
    (len : ℕ) (f : ℕ → ℕ) (at : ℕ) (buf : Buffer) (hex j : ℕ)
    → let after : ℕ → ℕ = put_bytes len f at buf hex in
      after j ≡ (if leb at j && ltb j (at + len) then after j else f j)
put_bytes_outside zero f at buf hex j = ground arith
put_bytes_outside (suc len) f at buf hex j =
    ground (
      arith,
      put_bytes_outside len (update f at (u8 (decode_byte buf hex))) (at + 1) buf (hex + 2) j,
    )

low_byte : (v : ℕ) → bit_and (u8 (u8 v)) 0xff ≡ u8 v
low_byte v = bit_and-low_mask 8 (u8 (u8 v)) ∙ omega arith

pub bytes_text-put :
    (len : ℕ) (f : ℕ → ℕ) (at : ℕ) (buf : Buffer) (hex : ℕ)
    → bytes_text len (put_bytes len f at buf hex) at ≡ written_text len buf hex
unfolding decode_byte
bytes_text-put zero f at buf hex = refl
bytes_text-put (suc len) f at buf hex =
    let v = decode_byte buf hex in
    let first : put_bytes (suc len) f at buf hex at ≡ u8 v =
      put_bytes_outside len (update f at (u8 v)) (at + 1) buf (hex + 2) at ∙ ground arith in
    rw (first, low_byte _, bytes_text-put len (update f at (u8 v)) (at + 1) buf (hex + 2))

-- The text of a list of bytes.
abbrev pub bytes_hex : List ℕ → List ℕ
bytes_hex [] = []
bytes_hex (b ∷ bs) = hex2 b ++ bytes_hex bs

abbrev pub IsByteList : List ℕ → Type 0
IsByteList [] = Unit {0}
IsByteList (b ∷ bs) = (b < 256) × IsByteList bs

-- Byte `n` of a list, and 0 behind its end.
abbrev pub byte_at : List ℕ → ℕ → ℕ
byte_at [] n = 0
byte_at (b ∷ bs) n = if n == 0 then b else byte_at bs (n - 1)

-- The arguments of an `M` packet at an index: the address, the number of bytes, and their text.
pub record Writes (buf : Buffer) (pos addr : ℕ) (bs : List ℕ) : Type 0 where
  pub comma : ℕ
  pub colon : ℕ
  pub comma_found : strchr buf pos b',' ≡ some comma
  pub colon_found : strchr buf pos b':' ≡ some colon
  pub address : word_at buf pos ≡ addr
  pub count : word_at buf (comma + 1) ≡ length bs
  pub text : HoldsText buf (colon + 1) (bytes_hex bs)

-- The arguments of an `m` packet at an index: the address and the number of bytes.
pub record Asks (buf : Buffer) (pos addr len : ℕ) : Type 0 where
  pub comma : ℕ
  pub comma_found : strchr buf pos b',' ≡ some comma
  pub address : word_at buf pos ≡ addr
  pub count : word_at buf (comma + 1) ≡ len

first_byte :
    (b : ℕ) (bs : List ℕ) (buf : Buffer) (hex : ℕ)
    → b < 256
    → HoldsText buf hex (bytes_hex (b ∷ bs))
    → (decode_byte buf hex ≡ b) × HoldsText buf (hex + 2) (bytes_hex bs)
unfolding hex2 strlen
first_byte b bs buf hex lt held =
    let parts = HoldsText-append buf hex (hex2 b) (bytes_hex bs) held in
    (decode_byte-hex2 buf hex b lt parts.0, parts.1)

pub written_text-hex :
    (bs : List ℕ) (buf : Buffer) (hex : ℕ)
    → IsByteList bs
    → HoldsText buf hex (bytes_hex bs)
    → written_text (length bs) buf hex ≡ bytes_hex bs
written_text-hex [] buf hex small held = refl
written_text-hex (b ∷ bs) buf hex small held =
    let first = first_byte b bs buf hex small.0 held in
    rw (first.0, written_text-hex bs buf (hex + 2) small.1 first.1)

pub put_bytes-list :
    (bs : List ℕ) (f : ℕ → ℕ) (at : ℕ) (buf : Buffer) (hex j : ℕ)
    → IsByteList bs
    → HoldsText buf hex (bytes_hex bs)
    → put_bytes (length bs) f at buf hex j
      ≡ (if leb at j && ltb j (at + length bs) then byte_at bs (j - at) else f j)
put_bytes-list [] f at buf hex j small held = ground arith
put_bytes-list (b ∷ bs) f at buf hex j small held =
    let first = first_byte b bs buf hex small.0 held in
    let whole : u8 b ≡ b = omega (arith, small.0) in
    let rest = put_bytes-list bs (update f at b) (at + 1) buf (hex + 2) j small.1 first.1 in
    let next : j - at - 1 ≡ j - (at + 1) = omega arith in
    ap (λ v. put_bytes (length bs) (update f at (u8 v)) (at + 1) buf (hex + 2) j) first.0
    ∙ ap (λ v. put_bytes (length bs) (update f at v) (at + 1) buf (hex + 2) j) whole
    ∙ rest
    ∙ rw next (ground arith)
