-- ===== src/OrderListener/Ledger/Refines.antt =====
-- The abstract view of the ledger, the sizes of the open legs, moves by fills and by closes, and each operation of the
-- ledger is one such step.
use matp.Base.{
  true, false, ◌≡◌, ◌⊎◌, refl, ◌∙◌, inl, inr, Option, none, some, if◌then◌else◌, Bool-cases,
  Option-cases, arith,
}
use matp.Base.Text.{Text}
use matp.Base.Num.{Num, IsOrdered, nought, min}
use matp.Base.Order.{le_refl, le_of_not_le, min-le_right}
use matp.Base.Result.{ok}
use matp.OrderListener.GuaranteedStop.{PositionSide}
use matp.OrderListener.Ledger.{Position, Ledger, find_leg, edit_open}
use matp.OrderListener.Ledger.Legs.{IsLedger, Keeps, close_row-Keeps, resized-Keeps}
use matp.OrderListener.Ledger.Moves.{
  same_leg, held, size_in, leg_size, find_leg-edit, find_leg-is_leg,
}
use matp.OrderListener.Ledger.Filling.{Fill, pos_side}
use matp.OrderListener.Ledger.Filling.Sizes.{filled_view}
use matp.OrderListener.Ledger.Closing.{
  CloseRequest, Exchange, Plan, closing_id, closes_all, requested_size, adopted_size, answer_for,
  made_plan, plan_for, plan_found, plan_close, close_row, reduce_row, commit_close,
}
use matp.OrderListener.Ledger.Closing.Writes.{commit_close-IsWritten}

-- what moves a leg
pub data Cause (F : Type 0) : Type 0 where
  by_fill : Fill F → Cause F
  by_close : CloseRequest F → Cause F

module _ {F : Type 0} ⦃num : Num F⦄ where
  open num use {sub, lt, le}

  -- the whole leg of the size `n` is asked for
  abbrev pub AsksAll : CloseRequest F → F → Type 0
  AsksAll req n =
      (req.close_size ≡ none) ⊎ ((asked : F) × (req.close_size ≡ some asked) × (le n asked ≡ true))

  -- The amount `m` that a close for less than the leg takes from it: the amount asked for, or else what the exchange
  -- filled of it, where that is above zero, and no more than the leg.
  abbrev pub Takes : Exchange F → CloseRequest F → Ledger F → F → F → F → Type 0
  Takes exchange req l n asked m =
      (m ≡ asked)
      ⊎ ((q : F) × (req.skip_exchange ≡ false)
          × ((exchange.close_position l req.symbol req.side (some asked)).actual_fill_size ≡ some q)
          × (lt nought q ≡ true)
          × (m ≡ min q n))

  -- A fill adds its size to the leg that was traded, or opens its own leg with it; a close takes the leg of its request
  -- away, or reduces it. No other leg changes.
  pub data Step (exchange : Exchange F) : Cause F → Ledger F → Ledger F → Type 0 where
    fills :
        (f : Fill F) (l l' : Ledger F)
        → ((s : Text) (d : PositionSide)
            → leg_size l' s d
              ≡ filled_view f (leg_size l f.pos_symbol (pos_side f.side)) (leg_size l s d) s d)
        → Step exchange (by_fill f) l l'
    closes :
        (req : CloseRequest F) (l l' : Ledger F) (n : F)
        → leg_size l req.symbol req.side ≡ some n
        → AsksAll req n
        → ((s : Text) (d : PositionSide)
            → leg_size l' s d ≡ (if same_leg req.symbol req.side s d then none else leg_size l s d))
        → Step exchange (by_close req) l l'
    reduces :
        (req : CloseRequest F) (l l' : Ledger F) (n asked m : F)
        → leg_size l req.symbol req.side ≡ some n
        → req.close_size ≡ some asked
        → le n asked ≡ false
        → Takes exchange req l n asked m
        → le m n ≡ true
        → ((s : Text) (d : PositionSide)
            → leg_size l' s d
              ≡ (if same_leg req.symbol req.side s d then some (sub n m) else leg_size l s d))
        → Step exchange (by_close req) l l'

  -- what a plan asks of the leg that it found
  pub record IsPart (exchange : Exchange F) (req : CloseRequest F) (l : Ledger F) (n m : F)
      : Type 0 where
    pub asked : F
    pub named : req.close_size ≡ some asked
    pub less : le n asked ≡ false
    pub taken : Takes exchange req l n asked m
    pub within : le m n ≡ true

  pub record IsPlan (exchange : Exchange F) (req : CloseRequest F) (l : Ledger F) (plan : Plan F)
      : Type 0 where
    pub found : find_leg req.symbol req.side l.positions ≡ some plan.pos
    pub shape :
        ((plan.is_full ≡ true) × AsksAll req plan.pos.size)
        ⊎ ((plan.is_full ≡ false) × IsPart exchange req l plan.pos.size plan.size)

  -- an edit of a found row, as the sizes show it
  edit-sizes :
      (s : Text) (d : PositionSide) (f : Position F → Position F) (p : Position F) (l l' : Ledger F)
      (t : Text) (e : PositionSide)
      → Keeps f
      → IsLedger l
      → find_leg s d l.positions ≡ some p
      → l'.positions ≡ edit_open p.id f l.positions
      → leg_size l' t e ≡ (if same_leg s d t e then size_in (held (f p)) else leg_size l t e)
  unfolding leg_size
  edit-sizes s d f p l l' t e k h found same =
      rw same (ground (arith, find_leg-edit s d f l.positions p t e k h.distinct_rows found))

  found-size :
      (s : Text) (d : PositionSide) (l : Ledger F) (p : Position F)
      → find_leg s d l.positions ≡ some p
      → leg_size l s d ≡ some p.size
  unfolding leg_size
  found-size s d l p h = rw h refl

  module _ (order : IsOrdered F) where
    min-asked : (asked n : F) → le n asked ≡ false → min asked n ≡ asked
    min-asked asked n h = ground (arith, order.lt-eq-not-le n asked, le_of_not_le order n asked)

    le-min : (asked n : F) → le n asked ≡ true → le n (min asked n) ≡ true
    le-min asked n h = ground (arith, le_refl order n)

    adopted_size-cases :
        (fill : Option F) (asked n : F)
        → (adopted_size fill asked n ≡ asked)
          ⊎ ((q : F) × (fill ≡ some q)
              × (lt nought q ≡ true)
              × (adopted_size fill asked n ≡ min q n))
    unfolding adopted_size
    adopted_size-cases none asked n = inl refl
    adopted_size-cases (some q) asked n = elim (Bool-cases (lt nought q)) [
      | inl some_filled ↦ inr (q, refl, some_filled, ground arith)
      | inr nothing ↦ inl (ground arith)
    ]

    adopted_size-le :
        (fill : Option F) (asked n : F)
        → le asked n ≡ true
        → le (adopted_size fill asked n) n ≡ true
    unfolding adopted_size
    adopted_size-le none asked n h = h
    adopted_size-le (some q) asked n h = ground (arith, min-le_right order q n)

    module _ (exchange : Exchange F) (req : CloseRequest F) (l : Ledger F) where
      answer_for-filled :
          (pos : Position F) (asked q : F)
          → req.close_size ≡ some asked
          → le pos.size asked ≡ false
          → (answer_for exchange req l pos).actual_fill_size ≡ some q
          → (req.skip_exchange ≡ false)
            × ((exchange.close_position l req.symbol req.side (some asked)).actual_fill_size
                ≡ some q)
      unfolding answer_for requested_size
      answer_for-filled pos asked q named less h =
          let amount = min-asked asked pos.size less in
          elim (Bool-cases req.skip_exchange) [
            | inl given ↦ absurd (ground arith)
            | inr sent ↦ (sent, ground (arith, amount))
          ]

      made_plan-shape :
          (pos : Position F)
          → let plan = made_plan exchange req l pos (answer_for exchange req l pos) in
            ((plan.is_full ≡ true) × AsksAll req pos.size)
            ⊎ ((plan.is_full ≡ false) × IsPart exchange req l pos.size plan.size)
      unfolding requested_size
      made_plan-shape pos =
          let answer = answer_for exchange req l pos in
          elim (Option-cases req.close_size) [
            | inl whole ↦ inl (ground (arith, le_refl order pos.size), inl whole)
            | inr (asked, named) ↦ elim (Bool-cases (le pos.size asked)) [
              | inl all ↦ inl (ground (arith, le-min asked pos.size all), inr (asked, named, all))
              | inr less ↦
                  (let amount = min-asked asked pos.size less in
                    let part : closes_all req pos ≡ false = ground (arith, amount) in
                    let size : (made_plan exchange req l pos answer).size
                        ≡ adopted_size answer.actual_fill_size asked pos.size =
                      ground (arith, amount, part) in
                    inr (
                      part,
                      record {
                        asked = asked;
                        named = named;
                        less = less;
                        taken = elim (adopted_size-cases answer.actual_fill_size asked pos.size) [
                          | inl same ↦ inl (size ∙ same)
                          | inr (q, filled, above, same) ↦
                              (let (sent, told) = answer_for-filled pos asked q named less filled in
                                inr (q, sent, told, above, size ∙ same))
                        ];
                        within = rw size (
                            adopted_size-le answer.actual_fill_size asked pos.size
                              (le_of_not_le order pos.size asked less));
                      },
                    ))
            ]
          ]

      plan_found-IsPlan :
          (found : Option (Position F)) (plan : Plan F)
          → find_leg req.symbol req.side l.positions ≡ found
          → plan_found exchange req l found ≡ ok plan
          → IsPlan exchange req l plan
      unfolding plan_for
      plan_found-IsPlan none plan here e = absurd (ground arith)
      plan_found-IsPlan (some pos) plan here e =
          let same : made_plan exchange req l pos (answer_for exchange req l pos) ≡ plan =
            ground arith in
          rw (← same) (record { found = here; shape = made_plan-shape pos })

      pub plan_close-IsPlan :
          (plan : Plan F) → plan_close exchange req l ≡ ok plan → IsPlan exchange req l plan
      unfolding plan_close
      plan_close-IsPlan plan e =
          plan_found-IsPlan (find_leg req.symbol req.side l.positions) plan refl e

      -- A commit of a plan that was made from the ledger is a close of its leg.
      pub commit_close-Step :
          (plan : Plan F)
          → IsLedger l
          → IsPlan exchange req l plan
          → Step exchange (by_close req) l (commit_close exchange req plan l).1
      commit_close-Step plan h is_plan =
          let w = commit_close-IsWritten exchange req plan l in
          let l' = (commit_close exchange req plan l).1 in
          let p = plan.pos in
          let before = found-size req.symbol req.side l p is_plan.found in
          elim is_plan.shape [
            | inl (full, all) ↦ closes req l l' p.size before all (λ s d.
                edit-sizes req.symbol req.side (close_row req plan (closing_id req l)) p l l' s d
                  (close_row-Keeps req plan (closing_id req l)) h is_plan.found
                  (ground (arith, w.positions)))
            | inr (part, is_part) ↦
                (let live = find_leg-is_leg req.symbol req.side l.positions p is_plan.found in
                  reduces req l l' p.size is_part.asked plan.size before is_part.named is_part.less
                    is_part.taken is_part.within
                    (λ s d.
                      edit-sizes req.symbol req.side (reduce_row plan) p l l' s d
                        (resized-Keeps (λ p. sub p.size plan.size) (λ p. p.entry_price)) h
                        is_plan.found (ground (arith, w.positions))
                      ∙ ground (arith, live)))
          ]
