-- ===== src/OrderListener/Ledger/Drawdown.antt =====
-- The end of `close_strategy_position`, `_book_realized_pnl`, `_disable_if_drawdown_breached` and
-- `_flatten_strategy_positions`, which call one another: a booked loss may flatten the strategy's other legs,
-- and each of these closes books in turn. `settle` counts the depth of the calls by fuel, and `none` is a
-- depth that the fuel does not reach.
pub mod Ends
pub mod Kept
pub mod Flattens
use matp.Base.{
  ℕ, zero, suc, Bool, true, false, ◌&&◌, Option, none, some, List, [], ◌∷◌, if◌then◌else◌,
}
use matp.Base.Text.{Text}
use matp.Base.Num.{Num}
use matp.Base.Result.{Result, err, ok}
use matp.OrderListener.GuaranteedStop.{PositionSide}
use matp.OrderListener.Ledger.{Position, Ledger, Reason, flatten_on_disable}
use matp.OrderListener.Ledger.Booking.{book_pnl, drawdown_hit, disabled}
use matp.OrderListener.Ledger.Closing.{
  CloseRequest, Exchange, CloseOutcome, filled, Plan, plan_close, commit_close,
}

-- the legs that `_flatten_strategy_positions` reads
pub record Leg : Type 0 where
  pub symbol : Text
  pub side : PositionSide

module _ {F : Type 0} where
  abbrev pub open_legs : List (Position F) → List Leg
  open_legs [] = []
  open_legs (p ∷ ps) =
      let rest = open_legs ps in
      if p.is_open then record { symbol = p.symbol; side = p.side } ∷ rest else rest

  abbrev pub close_request : Leg → Reason → CloseRequest F
  close_request leg reason = record {
    symbol = leg.symbol;
    side = leg.side;
    close_size = none;
    closing_order = none;
    reason = some reason;
    skip_exchange = false;
    fill_price = none;
    realized_pnl = none;
    close_fee = none;
  }

module _ {F : Type 0} ⦃num : Num F⦄ where
  -- `_book_realized_pnl`, with the drawdown check that it ends with
  abbrev pub book_with : (Ledger F → Option (Ledger F)) → Option F → Ledger F → Option (Ledger F)
  book_with check none l = some l
  book_with check (some pnl) l = check (record l { book = book_pnl pnl l.book })

  abbrev pub finish_with :
      (Ledger F → Option (Ledger F))
      → Plan F
      → CloseOutcome × Ledger F
      → Option (CloseOutcome × Ledger F)
  finish_with check plan (filled true, l) = elim (book_with check plan.net_pnl l) [
    | some l' ↦ some (filled true, l')
    | none ↦ none
  ]
  finish_with check plan (outcome, l) = some (outcome, l)

  -- the commit of a plan, or the outcome without one
  abbrev pub carry_out :
      (Ledger F → Option (Ledger F))
      → Exchange F
      → CloseRequest F
      → Ledger F
      → Result CloseOutcome (Plan F)
      → Option (CloseOutcome × Ledger F)
  carry_out check exchange req l (err outcome) = some (outcome, l)
  carry_out check exchange req l (ok plan) =
      finish_with check plan (commit_close exchange req plan l)

  -- `close_strategy_position`
  unfoldable pub close_with :
      (Ledger F → Option (Ledger F))
      → Exchange F
      → CloseRequest F
      → Ledger F
      → Option (CloseOutcome × Ledger F)
  close_with check exchange req l = carry_out check exchange req l (plan_close exchange req l)

  -- `_flatten_strategy_positions`, on the legs that it has read
  unfoldable pub flatten_with :
      (Ledger F → Option (Ledger F)) → Exchange F → List Leg → Ledger F → Option (Ledger F)
  unfolding close_with
  flatten_with check exchange [] l = some l
  flatten_with check exchange (leg ∷ legs) l =
      elim (close_with check exchange (close_request leg flatten_on_disable) l) [
        | none ↦ none
        | some (outcome, l') ↦ flatten_with check exchange legs l'
      ]

  -- `_disable_if_drawdown_breached`
  unfoldable pub settle : ℕ → Exchange F → Ledger F → Option (Ledger F)
  unfolding flatten_with
  settle zero exchange l = none
  settle (suc n) exchange l =
      elim (flatten_with (λ l'. settle n exchange l') exchange (open_legs l.positions) l) [
        | none ↦ if drawdown_hit l.book then none else some l
        | some l' ↦ some (if drawdown_hit l.book then record l' { book = disabled l'.book } else l)
      ]
