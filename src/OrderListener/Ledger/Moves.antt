-- ===== src/OrderListener/Ledger/Moves.antt =====
-- An abstract view of the ledger, the size of each open leg, and how the edit of a row shows in it.
use matp.Base.{
  Bool, true, false, ◌&&◌, ◌≡◌, ◌↔◌, refl, inl, inr, Option, none, some, List, [], ◌∷◌, ◌==◌,
  if◌then◌else◌, Bool-cases, ==_iff, arith,
}
use matp.Base.Text.{Text, text_eq, text_eq_iff}
use matp.OrderListener.GuaranteedStop.{PositionSide, long, short}
use matp.OrderListener.Ledger.{Position, Ledger, same_side, is_leg, find_leg, has_open, edit_open}
use matp.OrderListener.Ledger.Legs.{Keeps, all_apart, distinct}
use matp.OrderListener.Ledger.Closing.Writes.{edit_open-absent}

pub same_side_iff : (a b : PositionSide) → (same_side a b ≡ true) ↔ (a ≡ b)
same_side_iff long long = (λ h. refl, λ h. refl)
same_side_iff short short = (λ h. refl, λ h. refl)
same_side_iff long short = (λ h. cc, λ h. cc)
same_side_iff short long = (λ h. cc, λ h. cc)

abbrev pub same_leg : Text → PositionSide → Text → PositionSide → Bool
same_leg symbol side s d = text_eq symbol s && same_side side d

module _ {F : Type 0} where
  -- the leg that a row holds, if it is open
  abbrev pub held : Position F → Option (Position F)
  held p = if p.is_open then some p else none

  abbrev pub size_in : Option (Position F) → Option F
  size_in none = none
  size_in (some p) = some p.size

  -- the size of an open leg
  unfoldable pub leg_size : Ledger F → Text → PositionSide → Option F
  leg_size l symbol side = size_in (find_leg symbol side l.positions)

  pub find_leg-is_leg :
      (s : Text) (d : PositionSide) (ps : List (Position F)) (p : Position F)
      → find_leg s d ps ≡ some p
      → is_leg s d p ≡ true
  find_leg-is_leg s d [] p h = absurd (ground arith)
  find_leg-is_leg s d (q ∷ qs) p h = ground (arith, find_leg-is_leg s d qs p)

  pub found-has_open :
      (s : Text) (d : PositionSide) (ps : List (Position F)) (p : Position F)
      → find_leg s d ps ≡ some p
      → has_open p.id ps ≡ true
  found-has_open s d [] p h = absurd (ground arith)
  found-has_open s d (q ∷ qs) p h = ground (arith, found-has_open s d qs p, ==_iff q.id p.id)

  apart-found :
      (s : Text) (d : PositionSide) (q : Position F) (ps : List (Position F)) (p : Position F)
      → all_apart q ps ≡ true
      → find_leg s d ps ≡ some p
      → (q.id == p.id) ≡ false
  apart-found s d q [] p a h = absurd (ground arith)
  apart-found s d q (r ∷ rs) p a h = ground (arith, apart-found s d q rs p)

  apart-has_open :
      (p : Position F) (ps : List (Position F)) → all_apart p ps ≡ true → has_open p.id ps ≡ false
  apart-has_open p [] h = refl
  apart-has_open p (q ∷ qs) h = ground (arith, apart-has_open p qs)

  -- the leg of an open row is held by no row apart from it
  apart-alone :
      (s : Text) (d : PositionSide) (p : Position F) (ps : List (Position F))
      → all_apart p ps ≡ true
      → is_leg s d p ≡ true
      → find_leg s d ps ≡ none
  apart-alone s d p [] a h = refl
  apart-alone s d p (q ∷ qs) a h = ground (
    arith,
    apart-alone s d p qs,
    text_eq_iff p.symbol s,
    text_eq_iff q.symbol s,
    text_eq_iff p.symbol q.symbol,
    same_side_iff p.side d,
    same_side_iff q.side d,
    same_side_iff p.side q.side,
  )

  -- a row's leg decides which lookups find it
  is_leg-same :
      (s : Text) (d : PositionSide) (p : Position F) (t : Text) (e : PositionSide)
      → is_leg s d p ≡ true
      → is_leg t e p ≡ same_leg s d t e
  is_leg-same s d p t e h = ground (arith, text_eq_iff p.symbol s, same_side_iff p.side d)

  -- an edit of a leg's row changes what is found for that leg, and nothing else
  pub find_leg-edit :
      (s : Text) (d : PositionSide) (f : Position F → Position F) (ps : List (Position F))
      (p : Position F) (t : Text) (e : PositionSide)
      → Keeps f
      → distinct ps ≡ true
      → find_leg s d ps ≡ some p
      → find_leg t e (edit_open p.id f ps)
        ≡ (if same_leg s d t e then held (f p) else find_leg t e ps)
  find_leg-edit s d f [] p t e k dis h = absurd (ground arith)
  find_leg-edit s d f (q ∷ qs) p t e k dis h = elim (Bool-cases (is_leg s d q)) [
    | inl hit ↦ ground (
      arith,
      ==_iff q.id q.id,
      edit_open-absent q.id f qs,
      apart-has_open q qs,
      apart-alone t e q qs,
      is_leg-same s d q t e,
      k.symbol q,
      k.side q,
      k.opens q,
    )
    | inr miss ↦ ground (
      arith,
      apart-found s d q qs p,
      find_leg-edit s d f qs p t e k,
      text_eq_iff s t,
      same_side_iff d e,
    )
  ]
