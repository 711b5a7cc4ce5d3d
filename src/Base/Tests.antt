-- ===== src/Base/Tests.antt =====
-- C's comparisons on unsigned numbers, its conditional, and case splits that keep the equation.
use Prim.Native.Nat.{ℕ, ◌≤◌, ◌<◌, compare, Ordering}
use mathlib.Core.Path.{◌≡◌, refl}
use mathlib.Core.Logic.{◌≢◌, ◌↔◌, ◌⊎◌, inl, inr}
use mathlib.Core.Bool.{Bool, true, false, not}
use mathlib.Core.Option.{Option, none, some}
use native.Mathlib.Omega.{arith}

abbrev pub ltb : ℕ → ℕ → Bool
ltb a b = elim (compare a b) [ Ordering.lt ↦ true | _ ↦ false ]

abbrev pub leb : ℕ → ℕ → Bool
leb a b = elim (compare a b) [ Ordering.gt ↦ false | _ ↦ true ]

infix 50 ◌==◌
abbrev pub ◌==◌ : ℕ → ℕ → Bool
a == b = elim (compare a b) [ Ordering.eq ↦ true | _ ↦ false ]

-- C reads a number as a condition.
abbrev pub nonzero : ℕ → Bool
nonzero a = not (a == 0)

abbrev pub xor : Bool → Bool → Bool
xor true b = not b
xor false b = b

infix 1 if◌then◌else◌
abbrev pub if◌then◌else◌ {ℓ} : {A : Type ℓ} → Bool → A → A → A
if true then x else y = x
if false then x else y = y

-- C's value of a comparison.
abbrev pub of_bool : Bool → ℕ
of_bool true = 1
of_bool false = 0

pub ltb→lt : (a b : ℕ) → ltb a b ≡ true → a < b
ltb→lt a b h = ground arith

pub lt→ltb : (a b : ℕ) → a < b → ltb a b ≡ true
lt→ltb a b h = ground arith

pub le→ltb : (a b : ℕ) → b ≤ a → ltb a b ≡ false
le→ltb a b h = ground arith

pub ==_iff : (a b : ℕ) → ((a == b) ≡ true) ↔ (a ≡ b)
==_iff a b = ground arith

pub ==_refl : (a : ℕ) → (a == a) ≡ true
==_refl a = ground arith

pub ne→== : (a b : ℕ) → a ≢ b → (a == b) ≡ false
ne→== a b h = ground arith

pub Bool-cases : (b : Bool) → (b ≡ true) ⊎ (b ≡ false)
Bool-cases true = inl refl
Bool-cases false = inr refl

pub Option-cases {ℓ} : {A : Type ℓ} (o : Option A) → (o ≡ none) ⊎ ((a : A) × (o ≡ some a))
Option-cases none = inl refl
Option-cases (some a) = inr (a, refl)

pub lt_or_ge : (a b : ℕ) → (a < b) ⊎ (b ≤ a)
lt_or_ge a b = elim (Bool-cases (ltb a b)) [
  | inl e ↦ inl (ground arith)
  | inr e ↦ inr (ground arith)
]

pub ge_or_lt : (a b : ℕ) → (a ≤ b) ⊎ (b < a)
ge_or_lt a b = elim (lt_or_ge b a) [ inl h ↦ inr h | inr h ↦ inl h ]

pub zero_or_pos : (n : ℕ) → (n ≡ 0) ⊎ (0 < n)
zero_or_pos n = elim (lt_or_ge 0 n) [ inl h ↦ inr h | inr h ↦ inl (omega arith) ]

pub pos_or_zero : (n : ℕ) → (0 < n) ⊎ (n ≡ 0)
pos_or_zero n = elim (lt_or_ge 0 n) [ inl h ↦ inl h | inr h ↦ inr (omega arith) ]

-- What holds under each of two conditions, with the condition that holds.
pub cases_of {ℓ} : {A B X Y : Type ℓ} → A ⊎ B → (A → X) × (B → Y) → (A × X) ⊎ (B × Y)
cases_of (inl a) (f, g) = inl (a, f a)
cases_of (inr b) (f, g) = inr (b, g b)
