-- ===== src/Base/Order.antt =====
-- Consequences of the order laws of `Base/Num.antt` for `max` and `min`.
use mathlib.Core.Path.{◌≡◌}
use mathlib.Core.Bool.{true, false}
use native.Mathlib.Omega.{arith}
use matp.Base.Num.{Num, IsOrdered, max, min}

module _ {F : Type 0} ⦃num : Num F⦄ (order : IsOrdered F) where
  open num use {lt, le}

  pub le_refl : (a : F) → le a a ≡ true
  le_refl a = ground (arith, order.le_total a a)

  pub le_of_not_lt : (a b : F) → lt a b ≡ false → le b a ≡ true
  le_of_not_lt a b h = ground (arith, order.lt-eq-not-le a b)

  pub le_of_not_le : (a b : F) → le a b ≡ false → le b a ≡ true
  le_of_not_le a b h = ground (arith, order.le_total a b)

  pub le_of_lt : (a b : F) → lt a b ≡ true → le a b ≡ true
  le_of_lt a b h = ground (arith, order.lt-eq-not-le a b, order.le_total a b)

  pub le-max_left : (a b : F) → le a (max a b) ≡ true
  le-max_left a b = ground (arith, le_of_lt a b, le_refl a)

  pub le-max_right : (a b : F) → le b (max a b) ≡ true
  le-max_right a b = ground (arith, le_of_not_lt a b, le_refl b)

  pub min-le_left : (a b : F) → le (min a b) a ≡ true
  min-le_left a b = ground (arith, le_of_lt b a, le_refl a)

  pub min-le_right : (a b : F) → le (min a b) b ≡ true
  min-le_right a b = ground (arith, le_of_not_lt b a, le_refl b)

  -- a value clamped to a range that is not empty lies in it
  pub clamp-le : (lo hi x : F) → le lo hi ≡ true → le (max lo (min hi x)) hi ≡ true
  clamp-le lo hi x h = ground (arith, min-le_left hi x)
