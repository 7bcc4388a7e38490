-- ===== src/Base/Fixed.antt =====
-- A concrete number type for tests: decimals with six places, stored in millionths and rounded
-- towards zero. It meets the laws of `Base/Num.antt`.
use Prim.Native.Nat.{ℕ, zero, suc, ◌+◌, ◌-◌, ◌*◌, ◌/◌, ◌^◌, ◌≤◌}
use mathlib.Core.Path.{◌≡◌}
use mathlib.Core.Bool.{true}
use native.Mathlib.Nat.{le-div_iff_mul-le, div-mul-le_self, mul-le-mul_right, zero-lt-suc}
use native.Mathlib.Omega.{arith}
use matp.Base.Int.{ℤ, pos, negsuc, pos_part, neg_part, sub_ℕ, ◌+ℤ◌, ◌-ℤ◌, ltb_ℤ, leb_ℤ, eqb_ℤ}
use matp.Base.Num.{Num, IsOrdered, IsMonotone, IsRounding, IsExact}

abbrev pub Fixed : Type 0
Fixed = ℤ

abbrev scale : ℕ
scale = 1000000

unfoldable pub mul : Fixed → Fixed → Fixed
mul a b =
    sub_ℕ ((pos_part a * pos_part b + neg_part a * neg_part b) / scale)
      ((pos_part a * neg_part b + neg_part a * pos_part b) / scale)

unfoldable pub div : Fixed → Fixed → Fixed
div a b =
    let d = pos_part b + neg_part b in
    sub_ℕ ((pos_part a * (scale * pos_part b) + neg_part a * (scale * neg_part b)) / (d * d))
      ((pos_part a * (scale * neg_part b) + neg_part a * (scale * pos_part b)) / (d * d))

unfoldable pub neg : Fixed → Fixed
neg a = sub_ℕ (neg_part a) (pos_part a)

unfoldable pub abs : Fixed → Fixed
abs a = pos (pos_part a + neg_part a)

-- n / 10 ^ k
unfoldable pub decimal : ℕ → ℕ → Fixed
decimal n k = pos (n * scale / 10 ^ k)

-- to k places, for k up to 6, towards zero
unfoldable pub round : Fixed → ℕ → Fixed
round a k = let unit = 10 ^ (6 - k) in sub_ℕ (pos_part a / unit * unit) (neg_part a / unit * unit)

instance abbrev pub fixed_num : Num Fixed
fixed_num = record {
  add = ◌+ℤ◌;
  sub = ◌-ℤ◌;
  mul = mul;
  div = div;
  neg = neg;
  abs = abs;
  lt = ltb_ℤ;
  le = leb_ℤ;
  eq = eqb_ℤ;
  decimal = decimal;
  round = round;
}

pub Fixed-IsOrdered : IsOrdered Fixed
Fixed-IsOrdered = record {
  lt-eq-not-le = λ a b. ground arith;
  le_total = λ a b. ground arith;
  le_trans = λ a b c p q. ground arith;
}

add_mono : (c a b : Fixed) → leb_ℤ a b ≡ true → leb_ℤ (c +ℤ a) (c +ℤ b) ≡ true
unfolding ◌+ℤ◌
add_mono c a b h = ground arith

sub_anti : (c a b : Fixed) → leb_ℤ a b ≡ true → leb_ℤ (c -ℤ b) (c -ℤ a) ≡ true
unfolding ◌-ℤ◌
sub_anti c a b h = ground arith

mul-le : (n x y : ℕ) → x ≤ y → n * x ≤ n * y
mul-le n x y h = grind arith

scaled-le : (n x y : ℕ) → x ≤ y → n * x / scale ≤ n * y / scale
scaled-le n x y h = omega (arith, mul-le n x y h)

mul_mono :
    (c a b : Fixed)
    → leb_ℤ (decimal 0 0) c ≡ true
    → leb_ℤ a b ≡ true
    → leb_ℤ (mul c a) (mul c b) ≡ true
unfolding mul decimal
mul_mono (negsuc n) a b p h = absurd (ground arith)
mul_mono (pos n) (pos x) (pos y) p h = ground (arith, scaled-le n x y)
mul_mono (pos n) (pos x) (negsuc y) p h = absurd (ground arith)
mul_mono (pos n) (negsuc x) (pos y) p h = ground arith
mul_mono (pos n) (negsuc x) (negsuc y) p h = ground (arith, scaled-le n (suc y) (suc x))

pub Fixed-IsMonotone : IsMonotone Fixed
Fixed-IsMonotone = record { add_mono = add_mono; sub_anti = sub_anti; mul_mono = mul_mono }

grid-le : (x y u : ℕ) → x ≤ y → x / u * u ≤ y / u * u
grid-le x y zero h = omega arith
grid-le x y (suc u) h =
    mul-le-mul_right (suc u)
      ((le-div_iff_mul-le (zero-lt-suc u)).1 (omega (arith, div-mul-le_self x (suc u))))

round_mono : (a b : Fixed) (k : ℕ) → leb_ℤ a b ≡ true → leb_ℤ (round a k) (round b k) ≡ true
unfolding round
round_mono (pos x) (pos y) k h = ground (arith, grid-le x y (10 ^ (6 - k)))
round_mono (pos x) (negsuc y) k h = absurd (ground arith)
round_mono (negsuc x) (pos y) k h = ground arith
round_mono (negsuc x) (negsuc y) k h = ground (arith, grid-le (suc y) (suc x) (10 ^ (6 - k)))

pub Fixed-IsRounding : IsRounding Fixed
Fixed-IsRounding = record { round_mono = round_mono }

add_assoc : (a b c : Fixed) → a +ℤ b +ℤ c ≡ a +ℤ (b +ℤ c)
unfolding ◌+ℤ◌
add_assoc a b c = ground arith

add-sub : (a b : Fixed) → a +ℤ (b -ℤ a) ≡ b
unfolding ◌+ℤ◌ ◌-ℤ◌
add-sub a b = ground arith

pub Fixed-IsExact : IsExact Fixed
unfolding ◌+ℤ◌ ◌-ℤ◌ decimal
Fixed-IsExact = record {
  add_assoc = add_assoc;
  add_comm = λ a b. ground arith;
  add_nought = λ a. ground arith;
  add-sub = add-sub;
}
