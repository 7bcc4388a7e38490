-- ===== src/OrderListener/Process/Outcomes.antt =====
-- What the guards, the flat and the opening do.
use matp.Base.{
  not, inl, inr, Bool-cases, ℕ, Bool, true, false, ◌&&◌, ◌||◌, ◌≡◌, refl, Option, none, some, List,
  [], ◌∷◌, ◌++◌, is_some, any, if◌then◌else◌, Option-cases, arith,
}
use matp.Base.Text.{Text}
use matp.Base.Num.{Num, nought, one}
use matp.OrderListener.GuaranteedStop.{PositionSide, long, short}
use matp.OrderListener.Webhook.{Signal, Accepted, side_of, value_or}
use matp.OrderListener.Webhook.Sizing.{webhook_price}
use matp.OrderListener.Ledger.{Position, Ledger, same_side, opposite, find_leg}
use matp.OrderListener.Process.{
  OrderStatus, size_too_small, executed, opp_pos_conflict, same_symbol_conflict, Desk, no_figures,
  update_order_status,
}
use matp.OrderListener.Process.Flat.{flat_takes, taken_sides, flat_legs}
use matp.OrderListener.Process.Guards.{conflict_reason, size_rejected}
use matp.OrderListener.Process.Opening.{is_filled, settle_answer, answer_figures, process_open}

-- what the sides of the other strategies say, on a hedge account and on a net one
abbrev pub conflict_of : Bool → List PositionSide → PositionSide → Option OrderStatus
conflict_of hedge sides ours =
    if hedge
    then (if any (same_side ours) sides then some same_symbol_conflict else none)
    else if any (same_side (opposite ours)) sides
    then some opp_pos_conflict
    else if any (same_side ours) sides
    then some same_symbol_conflict
    else none

any-some_side :
    (s : PositionSide) (ss : List PositionSide) (d : PositionSide)
    → any (same_side d) (s ∷ ss) || any (same_side (opposite d)) (s ∷ ss) ≡ true
any-some_side long ss long = ground arith
any-some_side long ss short = ground arith
any-some_side short ss long = ground arith
any-some_side short ss short = ground arith

-- On a hedge account an entry conflicts exactly with another strategy's position on its own side of the
-- symbol; on a net account with one on either side, and the opposite side is the reason that is told first.
pub conflict_reason-sides :
    (hedge : Bool) (sides : List PositionSide) (ours : PositionSide)
    → conflict_reason hedge (some sides) ours ≡ conflict_of hedge sides ours
unfolding conflict_reason
conflict_reason-sides true [] ours = refl
conflict_reason-sides false [] ours = refl
conflict_reason-sides true (s ∷ ss) ours = refl
conflict_reason-sides false (s ∷ ss) ours = ground (arith, any-some_side s ss ours)

any-append :
    (q : PositionSide → Bool) (xs ys : List PositionSide) → any q (xs ++ ys) ≡ any q xs || any q ys
any-append q [] ys = refl
any-append q (x ∷ xs) ys = ground (arith, any-append q xs ys)

module _ {F : Type 0} where
  taken_sides-any :
      (signal : Signal) (symbol : Text) (d e : PositionSide) (ps : List (Position F))
      → any (same_side e) (taken_sides signal symbol d ps)
        ≡ same_side e d && (flat_takes signal d && is_some (find_leg symbol d ps))
  taken_sides-any signal symbol d e [] = ground arith
  taken_sides-any signal symbol d e (p ∷ ps) = ground (arith, taken_sides-any signal symbol d e ps)

  -- A side is in the list of a flat exactly where the symbol has an open leg on it and the signal is about it: an
  -- entry's flat is about both sides, and a closing signal's about its own alone.
  pub flat_legs-any :
      (signal : Signal) (symbol : Text) (side : PositionSide) (ps : List (Position F))
      → any (same_side side) (flat_legs signal symbol ps)
        ≡ flat_takes signal side && is_some (find_leg symbol side ps)
  unfolding flat_legs
  flat_legs-any signal symbol long ps = ground (
    arith,
    any-append (same_side long) (taken_sides signal symbol long ps)
        (taken_sides signal symbol short ps),
    taken_sides-any signal symbol long long ps,
    taken_sides-any signal symbol short long ps,
  )
  flat_legs-any signal symbol short ps = ground (
    arith,
    any-append (same_side short) (taken_sides signal symbol long ps)
        (taken_sides signal symbol short ps),
    taken_sides-any signal symbol long short ps,
    taken_sides-any signal symbol short short ps,
  )

module _ {F : Type 0} ⦃num : Num F⦄ where
  open num use {mul, lt}

  -- a position of another strategy that stands in the way, where those can be read
  abbrev pub conflict : Desk F → Accepted F → Option OrderStatus
  conflict desk a = elim desk.others [
    | none ↦ none
    | some sides ↦ conflict_of desk.hedge sides (side_of a.payload.signal)
  ]

  conflict-same :
      (desk : Desk F) (a : Accepted F)
      → conflict_reason desk.hedge desk.others (side_of a.payload.signal) ≡ conflict desk a
  unfolding conflict_reason
  conflict-same desk a = elim (Option-cases desk.others) [
    | inl none_read ↦ rw none_read refl
    | inr (sides, e) ↦ rw e (conflict_reason-sides desk.hedge sides (side_of a.payload.signal))
  ]

  -- the webhook's price: the indicator's, or else the payload's
  abbrev pub quoted : Accepted F → F
  quoted a = value_or a.payload.indicator_price (value_or a.payload.price nought)

  -- below the exchange's smallest order, or worth less than one
  abbrev pub too_small : Desk F → Accepted F → Bool
  too_small desk a =
      (lt nought desk.min_base_size && lt a.payload.size desk.min_base_size)
      || (lt nought (quoted a) && lt (mul a.payload.size (quoted a)) one)

  abbrev pub turned_away : Desk F → Accepted F → Bool
  turned_away desk a = is_some (conflict desk a) || too_small desk a

  -- An opening signal that conflicts with what the other strategies hold, that is below the smallest order or whose
  -- value is below one, ends with that reason, and so with nothing asked of the exchange; and an order that the
  -- exchange does not confirm as filled ends with the exchange's status. In all these cases no position
  -- moves and nothing is booked.
  pub process_open-unfilled :
      (desk : Desk F) (i : ℕ) (a : Accepted F) (l : Ledger F)
      → turned_away desk a || not (is_filled (desk.place_order l).status) ≡ true
      → (r : OrderStatus × Ledger F) × (process_open desk i a l ≡ some r)
        × (r.0 ≡ (elim (conflict desk a) [
          | some reason ↦ reason
          | none ↦ if too_small desk a then size_too_small else executed (desk.place_order l).status
        ]))
        × (r.1.positions ≡ l.positions)
        × (r.1.book ≡ l.book)
  unfolding process_open settle_answer update_order_status size_rejected webhook_price
  process_open-unfilled desk i a l h =
      let same = conflict-same desk a in
      elim (Option-cases (conflict desk a)) [
        | inr (reason, e) ↦ (
          (reason, update_order_status i no_figures l),
          ground (arith, same),
          ground (arith, same),
          refl,
          refl,
        )
        | inl free ↦ elim (Bool-cases (too_small desk a)) [
          | inl small ↦ (
            (size_too_small, update_order_status i no_figures l),
            ground (arith, same),
            ground (arith, same),
            refl,
            refl,
          )
          | inr big ↦ (
            (
              executed (desk.place_order l).status,
              update_order_status i (answer_figures (desk.place_order l)) l,
            ),
            ground (arith, same),
            ground (arith, same),
            refl,
            refl,
          )
        ]
      ]
