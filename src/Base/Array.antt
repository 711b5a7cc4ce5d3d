-- ===== src/Base/Array.antt =====
-- A C array is a function from indices; the code's bounds are stated where it indexes.
use Prim.Native.Nat.{ℕ}
use stm32_emulator.Base.Tests.{◌==◌, if◌then◌else◌}

-- `a[i] = v`
abbrev pub update {ℓ} : {A : Type ℓ} → (ℕ → A) → ℕ → A → ℕ → A
update a i v j = if i == j then v else a j

-- `memset(a, 0, ..)` and its like
abbrev pub filled {ℓ} : {A : Type ℓ} → A → ℕ → A
filled v j = v
