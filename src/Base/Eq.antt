-- ===== src/Base/Eq.antt =====
-- Equality tests as an interface, with instances for numbers and texts, and update of a function.
use Prim.Native.Nat.{ℕ}
use mathlib.Core.Path.{◌≡◌}
use mathlib.Core.Logic.{◌↔◌}
use mathlib.Core.Bool.{Bool, true, false, ◌||◌}
use mathlib.Core.List.{List, [], ◌∷◌}
use native.Mathlib.Omega.{arith}
use matp.Base.Tests.{◌==◌, ==_iff, if◌then◌else◌}
use matp.Base.Text.{Text, text_eq, text_eq_iff}

pub record Eq (K : Type 0) : Type 0 where
  pub beq : K → K → Bool
  pub beq_iff : (a b : K) → (beq a b ≡ true) ↔ (a ≡ b)

instance abbrev pub nat_eq : Eq ℕ
nat_eq = record { beq = ◌==◌; beq_iff = ==_iff }

instance abbrev pub text_keys : Eq Text
text_keys = record { beq = text_eq; beq_iff = text_eq_iff }

module _ {K : Type 0} ⦃e : Eq K⦄ where
  -- `k in s`
  abbrev pub member : K → List K → Bool
  member k [] = false
  member k (x ∷ s) = e.beq x k || member k s

  -- `s.discard(k)`
  abbrev pub discard : K → List K → List K
  discard k [] = []
  discard k (x ∷ s) = let rest = discard k s in if e.beq x k then rest else x ∷ rest

  pub member-discard :
      (k j : K) (s : List K) → member j (discard k s) ≡ (if e.beq k j then false else member j s)
  member-discard k j [] = ground arith
  member-discard k j (x ∷ s) =
      ground (arith, e.beq_iff x k, e.beq_iff x j, e.beq_iff k j, member-discard k j s)

-- the function that is `a` at `i` and `f` elsewhere
abbrev pub update {ℓ} : {A : Type ℓ} → (ℕ → A) → ℕ → A → ℕ → A
update f i a j = if i == j then a else f j
