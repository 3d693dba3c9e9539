-- ===== src/Base/Int.antt =====
-- Go's signed integers: exact integers over the native numbers, and their wrap-around at 64 bits.
use Prim.Native.Nat.{ℕ, suc, ◌+◌, ◌-◌, ◌*◌, ◌%◌, ◌^◌, ◌≤◌, ◌<◌}
use mathlib.Core.Bool.{Bool}
use mathlib.Core.Path.{◌≡◌, refl}
use mathlib.Core.Logic.{◌⊎◌, inl, inr}
use native.Mathlib.Omega.{arith}
use threadmill_agent_teams.Base.Tests.{Eq, Number-discrete, if◌then◌else◌, ltb, leb}

-- `negsuc n` is -(n + 1).
pub data ℤ : Type 0 where
  pos : ℕ → ℤ
  negsuc : ℕ → ℤ

unfoldable pub Integer-discrete : Discrete ℤ
unfolding Number-discrete
Integer-discrete = hlevel Number-discrete

instance abbrev pub int_eq : Eq ℤ
int_eq = record { dec = Integer-discrete }

-- How far above zero, and how far below.
abbrev pub above : ℤ → ℕ
above (pos n) = n
above (negsuc n) = 0

abbrev pub below : ℤ → ℕ
below (pos n) = 0
below (negsuc n) = suc n

abbrev pub difference : ℕ → ℕ → ℤ
difference up down = if ltb up down then negsuc (down - up - 1) else pos (up - down)

infixl 65 ◌+ℤ◌ ◌-ℤ◌
infixl 70 ◌*ℤ◌
unfoldable pub ◌+ℤ◌ : ℤ → ℤ → ℤ
x +ℤ y = difference (above x + above y) (below x + below y)

unfoldable pub ◌-ℤ◌ : ℤ → ℤ → ℤ
x -ℤ y = difference (above x + below y) (below x + above y)

-- The product with a number.
unfoldable pub ◌*ℤ◌ : ℤ → ℕ → ℤ
x *ℤ n = difference (above x * n) (below x * n)

infix 50 ◌≤ℤ◌ ◌<ℤ◌
abbrev pub ◌≤ℤ◌ : ℤ → ℤ → Type 0
x ≤ℤ y = above x + below y ≤ above y + below x

abbrev pub ◌<ℤ◌ : ℤ → ℤ → Type 0
x <ℤ y = above x + below y < above y + below x

abbrev pub ltb_ℤ : ℤ → ℤ → Bool
ltb_ℤ x y = ltb (above x + below y) (above y + below x)

abbrev pub leb_ℤ : ℤ → ℤ → Bool
leb_ℤ x y = leb (above x + below y) (above y + below x)

-- The signed reading of a 64-bit pattern.
abbrev pub signed : ℕ → ℤ
signed n = if ltb n (2 ^ 63) then pos n else negsuc (2 ^ 64 - n - 1)

-- What is left of an integer in 64 bits.
unfoldable pub int64 : ℤ → ℤ
int64 x = signed ((above x + (2 ^ 64 - below x % 2 ^ 64)) % 2 ^ 64)

-- An integer that 64 bits can hold.
abbrev pub Fits : ℤ → Type 0
Fits x = (above x < 2 ^ 63) × (below x ≤ 2 ^ 63)

pub int64-Fits : (x : ℤ) → Fits x → int64 x ≡ x
unfolding int64
int64-Fits x h = ground arith

pub +ℤ_lem : (x y : ℤ) → above (x +ℤ y) + below x + below y ≡ below (x +ℤ y) + above x + above y
unfolding ◌+ℤ◌
+ℤ_lem x y = ground arith

pub -ℤ_lem : (x y : ℤ) → above (x -ℤ y) + below x + above y ≡ below (x -ℤ y) + above x + below y
unfolding ◌-ℤ◌
-ℤ_lem x y = ground arith

pub one_side : (x : ℤ) → (above x ≡ 0) ⊎ (below x ≡ 0)
one_side (pos n) = inr refl
one_side (negsuc n) = inl refl
