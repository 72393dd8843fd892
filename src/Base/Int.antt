-- ===== src/Base/Int.antt =====
-- Whole numbers of either sign, over the native numbers. A number is read by its two halves, of which
-- one is zero.
use cpp_burst_pool_node.Base.Tests.{ltb, if◌then◌else◌}
use Prim.Native.Nat.{ℕ, ◌+◌, ◌-◌, ◌≤◌}
use mathlib.Core.Bool.{Bool}
use mathlib.Core.Path.{◌≡◌}
use native.Mathlib.Omega.{arith}

-- `negsuc n` is -(n + 1)
pub data ℤ : Type 0 where
  pos : ℕ → ℤ
  negsuc : ℕ → ℤ

abbrev pub above_zero : ℤ → ℕ
above_zero (pos n) = n
above_zero (negsuc n) = 0

abbrev pub below_zero : ℤ → ℕ
below_zero (pos n) = 0
below_zero (negsuc n) = n + 1

-- The first less the second.
abbrev pub difference : ℕ → ℕ → ℤ
difference m n = if ltb m n then negsuc (n - m - 1) else pos (m - n)

infixl 65 ◌+ℤ◌ ◌-ℤ◌
infix 50 ◌≤ℤ◌
unfoldable pub ◌+ℤ◌ : ℤ → ℤ → ℤ
x +ℤ y = difference (above_zero x + above_zero y) (below_zero x + below_zero y)

unfoldable pub ◌-ℤ◌ : ℤ → ℤ → ℤ
x -ℤ y = difference (above_zero x + below_zero y) (below_zero x + above_zero y)

abbrev pub ◌≤ℤ◌ : ℤ → ℤ → Type 0
x ≤ℤ y = above_zero x + below_zero y ≤ above_zero y + below_zero x

abbrev pub ltb_ℤ : ℤ → ℤ → Bool
ltb_ℤ x y = ltb (above_zero x + below_zero y) (above_zero y + below_zero x)

pub +ℤ-halves :
    (x y : ℤ)
    → above_zero (x +ℤ y) + (below_zero x + below_zero y)
      ≡ below_zero (x +ℤ y) + (above_zero x + above_zero y)
unfolding ◌+ℤ◌
+ℤ-halves x y = ground arith

pub -ℤ-halves :
    (x y : ℤ)
    → above_zero (x -ℤ y) + (below_zero x + above_zero y)
      ≡ below_zero (x -ℤ y) + (above_zero x + below_zero y)
unfolding ◌-ℤ◌
-ℤ-halves x y = ground arith

pub halves-eq : (x y : ℤ) → above_zero x + below_zero y ≡ above_zero y + below_zero x → x ≡ y
halves-eq x y h = ground arith

pub ruleset int_laws = (arith, +ℤ-halves, -ℤ-halves, halves-eq)
