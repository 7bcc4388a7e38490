-- ===== src/OrderListener/Process/Flat.antt =====
-- `_process_order`: a flat, and the close signals.
use matp.Base.{ℕ, Bool, true, false, ◌||◌, Option, none, some, List, [], ◌∷◌, ◌++◌, if◌then◌else◌}
use matp.Base.Text.{Text}
use matp.Base.Num.{Num}
use matp.OrderListener.GuaranteedStop.{PositionSide, long, short}
use matp.OrderListener.Webhook.{Signal, Accepted, opens, side_of}
use matp.OrderListener.Ledger.{
  Position, Ledger, Reason, signal_flat, signal_close, same_side, is_leg,
}
use matp.OrderListener.Ledger.Closing.{CloseRequest, Exchange, CloseOutcome, filled}
use matp.OrderListener.Ledger.Drawdown.{close_with}
use matp.OrderListener.Process.{
  OrderStatus, no_position, closed_as, Desk, Figures, no_figures, update_order_status, check_at,
  close_figures,
}

-- what one leg's close reports
pub record LegResult (F : Type 0) : Type 0 where
  pub outcome : CloseOutcome
  pub figures : Figures F

abbrev pub succeeds : CloseOutcome → Bool
succeeds (filled full) = true
succeeds _ = false

-- a flat on a closing signal is about its own leg alone
abbrev pub flat_takes : Signal → PositionSide → Bool
flat_takes signal side = opens signal || same_side (side_of signal) side

module _ {F : Type 0} where
  -- the symbol's open legs of a side
  abbrev sides_open : Text → PositionSide → List (Position F) → List PositionSide
  sides_open symbol side [] = []
  sides_open symbol side (p ∷ ps) =
      let rest = sides_open symbol side ps in if is_leg symbol side p then side ∷ rest else rest

  abbrev pub taken_sides : Signal → Text → PositionSide → List (Position F) → List PositionSide
  taken_sides signal symbol side ps =
      if flat_takes signal side then sides_open symbol side ps else []

  -- the legs that a flat closes, `ORDER BY side`
  unfoldable pub flat_legs : Signal → Text → List (Position F) → List PositionSide
  flat_legs signal symbol ps =
      taken_sides signal symbol long ps ++ taken_sides signal symbol short ps

  abbrev pub signal_request : Text → PositionSide → Option F → ℕ → Reason → CloseRequest F
  signal_request symbol side size order reason = record {
    symbol = symbol;
    side = side;
    close_size = size;
    closing_order = some order;
    reason = some reason;
    skip_exchange = false;
    fill_price = none;
    realized_pnl = none;
    close_fee = none;
  }

  -- the first result that failed, or else the first
  unfoldable pub worst : LegResult F → List (LegResult F) → LegResult F
  worst first [] = first
  worst first (r ∷ rs) =
      let rest = worst first rs in
      if succeeds first.outcome then if succeeds r.outcome then rest else r else first

module _ {F : Type 0} ⦃num : Num F⦄ where
  abbrev pub close_leg :
      (Ledger F → Option (Ledger F))
      → Exchange F
      → CloseRequest F
      → Ledger F
      → Option (LegResult F × Ledger F)
  close_leg check exchange req l = elim (close_with check exchange req l) [
    | none ↦ none
    | some (outcome, l') ↦
        some (record { outcome = outcome; figures = close_figures exchange req l outcome }, l')
  ]

  abbrev push_result :
      LegResult F → Option (List (LegResult F) × Ledger F) → Option (List (LegResult F) × Ledger F)
  push_result r none = none
  push_result r (some (rs, l)) = some (r ∷ rs, l)

  -- the loop over the legs
  unfoldable pub close_legs :
      (Ledger F → Option (Ledger F))
      → Exchange F
      → Text
      → ℕ
      → List PositionSide
      → Ledger F
      → Option (List (LegResult F) × Ledger F)
  close_legs check exchange symbol order [] l = some ([], l)
  close_legs check exchange symbol order (side ∷ sides) l =
      elim (close_leg check exchange (signal_request symbol side none order signal_flat) l) [
        | none ↦ none
        | some (r, l') ↦ push_result r (close_legs check exchange symbol order sides l')
      ]

  abbrev pub report_flat : ℕ → List (LegResult F) → Ledger F → OrderStatus × Ledger F
  report_flat order [] l = (no_position, update_order_status order no_figures l)
  report_flat order (r ∷ rs) l =
      (closed_as (worst r rs).outcome, update_order_status order (worst r rs).figures l)

  -- `target_position == "flat"`
  unfoldable pub process_flat : Desk F → ℕ → Accepted F → Ledger F → Option (OrderStatus × Ledger F)
  unfolding flat_legs close_legs worst
  process_flat desk order a l =
      elim (close_legs (check_at desk l) desk.exchange a.execution_symbol order
        (flat_legs a.payload.signal a.execution_symbol l.positions) l) [
          | none ↦ none
          | some (rs, l') ↦ some (report_flat order rs l')
        ]

  -- the close signals
  unfoldable pub process_close :
      Desk F → ℕ → Accepted F → Ledger F → Option (OrderStatus × Ledger F)
  process_close desk order a l =
      elim (close_leg (check_at desk l) desk.exchange
        (signal_request a.execution_symbol (side_of a.payload.signal) (some a.payload.size) order
          signal_close)
        l) [
          | none ↦ none
          | some (r, l') ↦ some (closed_as r.outcome, update_order_status order r.figures l')
        ]
