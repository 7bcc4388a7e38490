-- ===== src/OrderListener/Ledger/Drawdown/Ends.antt =====
-- The calls that a booked loss starts end: each closes a leg before it goes deeper.
use matp.Base.{
  ℕ, zero, suc, true, false, ◌≡◌, refl, inl, inr, ◌≤◌, ◌<◌, Option, some, List, [], ◌∷◌, Bool-cases,
  Option-cases, arith,
}
use matp.Base.Num.{Num}
use matp.Base.Result.{Result, err, ok}
use matp.OrderListener.Ledger.{
  Position, Ledger, flatten_on_disable, has_open, edit_open, open_count,
}
use matp.OrderListener.Ledger.Booking.{book_pnl, drawdown_hit, disabled}
use matp.OrderListener.Ledger.Closing.Writes.{commit_close-IsWritten}
use matp.OrderListener.Ledger.Closing.{
  closing_id, CloseRequest, Exchange, CloseOutcome, filled, no_position_to_close,
  refused_by_exchange, race_condition, Plan, plan_close, close_row, reduce_row, write_row,
  commit_close,
}
use matp.OrderListener.Ledger.Drawdown.{
  carry_out, Leg, open_legs, close_request, finish_with, close_with, flatten_with, settle,
}

module _ {F : Type 0} where
  abbrev pub legs_left : Ledger F → ℕ
  legs_left l = open_count l.positions

  edit_open-le :
      (i : ℕ) (f : Position F → Position F) (ps : List (Position F))
      → open_count (edit_open i f ps) ≤ open_count ps
  edit_open-le i f [] = omega arith
  edit_open-le i f (p ∷ ps) = ground (arith, edit_open-le i f ps)

  edit_open-closes :
      (i : ℕ) (f : Position F → Position F) (ps : List (Position F))
      → ((p : Position F) → (f p).is_open ≡ false)
      → has_open i ps ≡ true
      → open_count (edit_open i f ps) < open_count ps
  edit_open-closes i f [] closes h = absurd (ground arith)
  edit_open-closes i f (p ∷ ps) closes h =
      ground (arith, closes p, edit_open-closes i f ps closes, edit_open-le i f ps)

module _ {F : Type 0} ⦃num : Num F⦄ where
  write_row-le :
      (req : CloseRequest F) (plan : Plan F) (order : ℕ) (ps : List (Position F))
      → open_count (write_row req plan order ps) ≤ open_count ps
  write_row-le req plan order ps = ground (
    arith,
    edit_open-le plan.pos.id (close_row req plan order) ps,
    edit_open-le plan.pos.id (reduce_row plan) ps,
  )

  commit_close-le :
      (exchange : Exchange F) (req : CloseRequest F) (plan : Plan F) (l : Ledger F)
      → legs_left (commit_close exchange req plan l).1 ≤ legs_left l
  commit_close-le exchange req plan l =
      let w = commit_close-IsWritten exchange req plan l in
      rw w.positions (write_row-le req plan (closing_id req l) l.positions)

  -- a full close that is recorded leaves one leg less
  commit_close-lt :
      (exchange : Exchange F) (req : CloseRequest F) (plan : Plan F) (l : Ledger F)
      → (commit_close exchange req plan l).0 ≡ filled true
      → legs_left (commit_close exchange req plan l).1 < legs_left l
  commit_close-lt exchange req plan l e =
      let w = commit_close-IsWritten exchange req plan l in
      let order = closing_id req l in
      rw w.positions (
        ground (
          arith,
          w.outcome,
          edit_open-closes plan.pos.id (close_row req plan order) l.positions (λ p. refl),
        ))

  -- The check ends for every ledger with fewer open legs than the bound, and leaves no more.
  abbrev pub Ends : (Ledger F → Option (Ledger F)) → ℕ → Type 0
  Ends check n =
      (l : Ledger F)
      → legs_left l < n
      → (l' : Ledger F) × (check l ≡ some l') × (legs_left l' ≤ legs_left l)

  finish_with-Ends :
      (check : Ledger F → Option (Ledger F)) (n m : ℕ) (plan : Plan F) (outcome : CloseOutcome)
      (l : Ledger F)
      → Ends check n
      → legs_left l ≤ m
      → (outcome ≡ filled true → legs_left l < m)
      → m ≤ n
      → (r : CloseOutcome × Ledger F) × (finish_with check plan (outcome, l) ≡ some r)
        × (legs_left r.1 ≤ m)
  finish_with-Ends check n m plan (filled true) l ends le lt h = elim (Option-cases plan.net_pnl) [
    | inl e ↦ ((filled true, l), ground arith, le)
    | inr (pnl, e) ↦
        (let (l', e', le') =
            ends (record l { book = book_pnl pnl l.book }) (omega (arith, lt refl)) in
          ((filled true, l'), ground arith, omega (arith, lt refl)))
  ]
  finish_with-Ends check n m plan (filled false) l ends le lt h = ((filled false, l), refl, le)
  finish_with-Ends check n m plan no_position_to_close l ends le lt h =
      ((no_position_to_close, l), refl, le)
  finish_with-Ends check n m plan refused_by_exchange l ends le lt h =
      ((refused_by_exchange, l), refl, le)
  finish_with-Ends check n m plan race_condition l ends le lt h = ((race_condition, l), refl, le)

  carry_out-Ends :
      (check : Ledger F → Option (Ledger F)) (n : ℕ) (exchange : Exchange F) (req : CloseRequest F)
      (l : Ledger F) (planned : Result CloseOutcome (Plan F))
      → Ends check n
      → legs_left l ≤ n
      → (r : CloseOutcome × Ledger F) × (carry_out check exchange req l planned ≡ some r)
        × (legs_left r.1 ≤ legs_left l)
  carry_out-Ends check n exchange req l (err outcome) ends h = ((outcome, l), refl, omega arith)
  carry_out-Ends check n exchange req l (ok plan) ends h =
      let r = commit_close exchange req plan l in
      finish_with-Ends check n (legs_left l) plan r.0 r.1 ends (commit_close-le exchange req plan l)
        (commit_close-lt exchange req plan l) h

  pub close_with-Ends :
      (check : Ledger F → Option (Ledger F)) (n : ℕ) (exchange : Exchange F) (req : CloseRequest F)
      (l : Ledger F)
      → Ends check n
      → legs_left l ≤ n
      → (r : CloseOutcome × Ledger F) × (close_with check exchange req l ≡ some r)
        × (legs_left r.1 ≤ legs_left l)
  unfolding close_with
  close_with-Ends check n exchange req l ends h =
      carry_out-Ends check n exchange req l (plan_close exchange req l) ends h

  pub flatten_with-Ends :
      (check : Ledger F → Option (Ledger F)) (n : ℕ) (exchange : Exchange F) (legs : List Leg)
      (l : Ledger F)
      → Ends check n
      → legs_left l ≤ n
      → (l' : Ledger F) × (flatten_with check exchange legs l ≡ some l')
        × (legs_left l' ≤ legs_left l)
  unfolding flatten_with
  flatten_with-Ends check n exchange [] l ends h = (l, refl, omega arith)
  flatten_with-Ends check n exchange (leg ∷ legs) l ends h =
      let (r, e, le) =
        close_with-Ends check n exchange (close_request leg flatten_on_disable) l ends h in
      let (l', e', le') = flatten_with-Ends check n exchange legs r.1 ends (omega arith) in
      (l', ground arith, omega arith)

  -- The drawdown check ends, with whatever it starts: fuel above the number of open legs is enough, and no
  -- leg is opened.
  pub settle-ends :
      (n : ℕ) (exchange : Exchange F) (l : Ledger F)
      → open_count l.positions < n
      → (l' : Ledger F) × (settle n exchange l ≡ some l')
        × (open_count l'.positions ≤ open_count l.positions)
  unfolding settle
  settle-ends zero exchange l h = absurd (omega arith)
  settle-ends (suc n) exchange l h =
      let (l', e, le) =
        flatten_with-Ends (λ l'. settle n exchange l') n exchange (open_legs l.positions) l
          (λ l h. settle-ends n exchange l h) (omega arith) in
      elim (Bool-cases (drawdown_hit l.book)) [
        | inl hit ↦ (record l' { book = disabled l'.book }, ground arith, le)
        | inr calm ↦ (l, ground arith, omega arith)
      ]
