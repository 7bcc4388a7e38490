-- ===== src/SignalGenerator/KeyPool/Rotation.antt =====
-- Which key the pool hands out, and how failures rotate the keys.
use matp.Base.{
  ℕ, Bool, true, ◌≡◌, refl, inl, inr, Option, none, some, is_some, List, [], ◌∷◌, any, keep,
  nonempty, ltb, All, Option-cases, arith, Bool-cases,
}
use mathlib.Core.Path.{subst}
use mathlib.Core.Option.{some-injective}
use matp.SignalGenerator.KeyPool.{
  Entry, usable, same_id, first_entry, least_cooled, alive, least_of, choose,
}

pub same_id_iff : (a b : Option ℕ) → same_id a b ≡ true → a ≡ b
same_id_iff none none h = refl
same_id_iff none (some b) h = cc
same_id_iff (some a) none h = cc
same_id_iff (some a) (some b) h = ground arith

pub same_id_self : (a : Option ℕ) → same_id a a ≡ true
same_id_self none = refl
same_id_self (some a) = ground arith

module _ (test : Entry → Bool) where
  pub first_entry-passes :
      (es : List Entry) (e : Entry) → first_entry test es ≡ some e → test e ≡ true
  unfolding first_entry
  first_entry-passes [] e h = cc
  first_entry-passes (x ∷ es) e h = ground (arith, first_entry-passes es e)

  pub is_some-first_entry : (es : List Entry) → is_some (first_entry test es) ≡ any test es
  unfolding first_entry
  is_some-first_entry [] = refl
  is_some-first_entry (x ∷ es) = ground (arith, is_some-first_entry es)

  keep-passes : (es : List Entry) → All (λ e. test e ≡ true) (keep test es)
  keep-passes [] = tt
  keep-passes (e ∷ es) = elim (Bool-cases (test e)) [
    | inl pass ↦ rw (pass, All, keep) (pass, keep-passes es)
    | inr fail ↦ rw (fail, All, keep) (keep-passes es)
  ]

  nonempty-keep : (es : List Entry) → nonempty (keep test es) ≡ any test es
  nonempty-keep [] = refl
  nonempty-keep (e ∷ es) = ground (arith, nonempty-keep es)

  module _ (P : Entry → Type 0) where
    pub first_entry-All :
        (es : List Entry) (e : Entry) → All P es → first_entry test es ≡ some e → P e
    unfolding first_entry
    first_entry-All [] e a h = absurd (ground arith)
    first_entry-All (x ∷ es) e a h = elim (Bool-cases (test x)) [
      | inl pass ↦ subst P (some-injective _ _ (rw (pass, first_entry) at h)) a.0
      | inr fail ↦ first_entry-All es e a.1 (rw (fail, first_entry) at h)
    ]

    keep-All : (es : List Entry) → All P es → All P (keep test es)
    keep-All [] a = tt
    keep-All (e ∷ es) a = elim (Bool-cases (test e)) [
      | inl pass ↦ rw (pass, All, keep) (a.0, keep-All es a.1)
      | inr fail ↦ rw (fail, All, keep) (keep-All es a.1)
    ]

module _ (P : Entry → Type 0) where
  least_cooled-All : (best : Entry) (es : List Entry) → P best → All P es → P (least_cooled best es)
  unfolding least_cooled
  least_cooled-All best [] p a = p
  least_cooled-All best (e ∷ es) p a =
      elim (Bool-cases (ltb e.cooldown_until best.cooldown_until)) [
        | inl lower ↦ rw lower (least_cooled-All e es a.0 a.1)
        | inr higher ↦ rw higher (least_cooled-All best es p a.1)
      ]

  least_of-All : (es : List Entry) (e : Entry) → All P es → least_of es ≡ some e → P e
  least_of-All [] e a h = absurd (ground arith)
  least_of-All (x ∷ es) e a h = subst P (some-injective _ _ h) (least_cooled-All x es a.0 a.1)

  -- What holds of all the entries of a provider holds of the chosen one.
  pub choose-All : (now : ℕ) (es : List Entry) (e : Entry) → All P es → choose now es ≡ some e → P e
  unfolding choose
  choose-All now es e a h = elim (Option-cases (first_entry (usable now) es)) [
    | inl all_cooling ↦
        least_of-All (keep alive es) e (keep-All alive P es a) (rw (all_cooling, choose) at h)
    | inr (x, found) ↦
        subst P (some-injective _ _ (rw (found, choose) at h))
          (first_entry-All (usable now) P es x a found)
  ]

usable-alive : (now : ℕ) (e : Entry) → usable now e ≡ true → alive e ≡ true
unfolding usable
usable-alive now e h = ground arith

-- A chosen key is not dead.
pub choose-alive : (now : ℕ) (es : List Entry) (e : Entry) → choose now es ≡ some e → alive e ≡ true
unfolding choose
choose-alive now es e h = elim (Option-cases (first_entry (usable now) es)) [
  | inl all_cooling ↦
      least_of-All (λ x. alive x ≡ true) (keep alive es) e (keep-passes alive es)
        (rw (all_cooling, choose) at h)
  | inr (x, found) ↦ ground (
    arith,
    usable-alive now x,
    first_entry-passes (usable now) es x found,
    rw (found, choose) at h,
  )
]

any-usable-alive : (now : ℕ) (es : List Entry) → any (usable now) es ≡ true → any alive es ≡ true
any-usable-alive now [] h = h
any-usable-alive now (e ∷ es) h = ground (arith, usable-alive now e, any-usable-alive now es)

is_some-least_of : (es : List Entry) → is_some (least_of es) ≡ nonempty es
is_some-least_of [] = refl
is_some-least_of (e ∷ es) = refl

-- Some key is chosen exactly where one is alive.
pub is_some-choose : (now : ℕ) (es : List Entry) → is_some (choose now es) ≡ any alive es
unfolding choose
is_some-choose now es = ground (
  arith,
  is_some-first_entry (usable now) es,
  any-usable-alive now es,
  is_some-least_of (keep alive es),
  nonempty-keep alive es,
)
