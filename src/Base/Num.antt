-- ===== src/Base/Num.antt =====
-- Floating-point numbers (`float`, and `Decimal`) as an interface: their type and the operations
-- that the program calls, and as separate records the laws that some theorems use. The laws hold of
-- IEEE numbers and of `Decimal` away from NaN: the order is total, and an operation that is
-- rounded is still monotone.
use Prim.Native.Nat.{ℕ}
use mathlib.Core.Path.{◌≡◌}
use mathlib.Core.Logic.{◌⊎◌}
use mathlib.Core.Bool.{Bool, true, not}
use matp.Base.Tests.{if◌then◌else◌}

pub record Num (F : Type 0) : Type 0 where
  pub add : F → F → F
  pub sub : F → F → F
  pub mul : F → F → F
  -- the quotient, where the divisor is not zero
  pub div : F → F → F
  pub neg : F → F
  pub abs : F → F
  pub lt : F → F → Bool
  pub le : F → F → Bool
  pub eq : F → F → Bool
  -- the literal n / 10 ^ k
  pub decimal : ℕ → ℕ → F
  -- `round(x, k)`
  pub round : F → ℕ → F

module _ {F : Type 0} ⦃num : Num F⦄ where
  open num use {lt, decimal}

  abbrev pub nought : F
  nought = decimal 0 0

  abbrev pub one : F
  one = decimal 1 0

  -- Python's `max(a, b)` and `min(a, b)`, which keep the first argument on a tie
  abbrev pub max : F → F → F
  max a b = if lt a b then b else a

  abbrev pub min : F → F → F
  min a b = if lt b a then b else a

-- The order away from NaN.
pub record IsOrdered (F : Type 0) ⦃num : Num F⦄ : Type 0 where
  pub lt-eq-not-le : (a b : F) → num.lt a b ≡ not (num.le b a)
  pub le_total : (a b : F) → (num.le a b ≡ true) ⊎ (num.le b a ≡ true)
  pub le_trans : (a b c : F) → num.le a b ≡ true → num.le b c ≡ true → num.le a c ≡ true

-- Rounded operations are monotone.
pub record IsMonotone (F : Type 0) ⦃num : Num F⦄ : Type 0 where
  pub add_mono : (c a b : F) → num.le a b ≡ true → num.le (num.add c a) (num.add c b) ≡ true
  pub sub_anti : (c a b : F) → num.le a b ≡ true → num.le (num.sub c b) (num.sub c a) ≡ true
  pub mul_mono :
      (c a b : F)
      → num.le nought c ≡ true
      → num.le a b ≡ true
      → num.le (num.mul c a) (num.mul c b) ≡ true

-- Rounding to decimals is monotone.
pub record IsRounding (F : Type 0) ⦃num : Num F⦄ : Type 0 where
  pub round_mono :
      (a b : F) (k : ℕ) → num.le a b ≡ true → num.le (num.round a k) (num.round b k) ≡ true

-- Sums are exact, as those of `numeric` columns and of `Decimal` are within the precision.
pub record IsExact (F : Type 0) ⦃num : Num F⦄ : Type 0 where
  pub add_assoc : (a b c : F) → num.add (num.add a b) c ≡ num.add a (num.add b c)
  pub add_comm : (a b : F) → num.add a b ≡ num.add b a
  pub add_nought : (a : F) → num.add nought a ≡ a
  pub add-sub : (a b : F) → num.add a (num.sub b a) ≡ b
