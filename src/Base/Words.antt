-- ===== src/Base/Words.antt =====
-- The unsigned words of C: casts, wrapping arithmetic and shifts. A `uint32_t` is a number below
-- 2 ^ 32, and every operation that can leave that range is cut back here.
use stm32_emulator.Base.Bits.{bit-or, bit-zero, bit_ext, bit_or_step, complement}
use Prim.Native.Nat.{ℕ, zero, suc, ◌+◌, ◌-◌, ◌*◌, ◌/◌, ◌%◌, ◌^◌, ◌<◌, bit_or}
use mathlib.Core.Path.{◌≡◌, ap, ◌∙◌}
use native.Mathlib.Omega.{arith}
use native.Mathlib.Nat.{pow-suc}

abbrev pub u8 : ℕ → ℕ
u8 x = x % 256

abbrev pub u16 : ℕ → ℕ
u16 x = x % 65536

abbrev pub u32 : ℕ → ℕ
u32 x = x % 4294967296

abbrev pub u64 : ℕ → ℕ
u64 x = x % 18446744073709551616

abbrev pub add32 : ℕ → ℕ → ℕ
add32 a b = u32 (a + b)

-- `-` on ℕ stops at 0, so the modulus is added first.
abbrev pub sub32 : ℕ → ℕ → ℕ
sub32 a b = u32 (a + 4294967296 - b)

abbrev pub add64 : ℕ → ℕ → ℕ
add64 a b = u64 (a + b)

abbrev pub sub64 : ℕ → ℕ → ℕ
sub64 a b = u64 (a + 18446744073709551616 - b)

-- `x << k` in 32 bits, and `x >> k`.
abbrev pub shl32 : ℕ → ℕ → ℕ
shl32 x k = u32 (x * 2 ^ k)

abbrev pub shr : ℕ → ℕ → ℕ
shr x k = x / 2 ^ k

abbrev pub not16 : ℕ → ℕ
not16 x = complement 16 x

abbrev pub not32 : ℕ → ℕ
not32 x = complement 32 x

-- The low fields of a word are put together by `|` as by `+`.
pub bit_or-shl : (k q r : ℕ) → r < 2 ^ k → bit_or r (q * 2 ^ k) ≡ r + q * 2 ^ k
bit_or-shl zero q zero h =
    bit_ext (bit_or 0 (q * 2 ^ 0)) (q * 2 ^ 0) (λ i. rw (bit-or, bit-zero)) ∙ omega arith
bit_or-shl zero q (suc r) h = absurd (omega arith)
bit_or-shl (suc k) q r h =
    let twice : q * 2 ^ suc k ≡ 2 * (q * 2 ^ k) =
      omega (arith, ap (λ (t : ℕ). q * t) (pow-suc 2 k)) in
    let half : q * 2 ^ suc k / 2 ≡ q * 2 ^ k = omega arith in
    let step = bit_or_step r (q * 2 ^ suc k) in
    ground (arith, step, half, pow-suc 2 k, bit_or-shl k q (r / 2))

pub zero-bit_or : (x : ℕ) → bit_or 0 x ≡ x
zero-bit_or x = bit_ext (bit_or 0 x) x (λ i. rw (bit-or, bit-zero))

-- Bytes put together to a word, lowest first.
pub two_bytes : (a b : ℕ) → a < 256 → b < 256 → bit_or a (shl32 b 8) ≡ a + b * 256
two_bytes a b p q = let small : shl32 b 8 ≡ b * 2 ^ 8 = omega arith in rw small (bit_or-shl 8 b a p)

pub four_bytes :
    (a b c d : ℕ)
    → a < 256
    → b < 256
    → c < 256
    → d < 256
    → bit_or (bit_or (bit_or a (shl32 b 8)) (shl32 c 16)) (shl32 d 24)
      ≡ a + b * 256 + c * 65536 + d * 16777216
four_bytes a b c d p q r s =
    let third : shl32 c 16 ≡ c * 2 ^ 16 = omega arith in
    let fourth : shl32 d 24 ≡ d * 2 ^ 24 = omega arith in
    rw
      (
        two_bytes a b p q,
        third,
        bit_or-shl 16 c (a + b * 256) (omega arith),
        fourth,
        bit_or-shl 24 d (a + b * 256 + c * 2 ^ 16) (omega arith),
      )
      (omega arith)
