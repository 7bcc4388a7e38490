-- ===== src/OrderListener/Manual.antt =====
-- The endpoints of order-listener/app/webhook_handler.py that a person or a sibling service calls:
-- `close_position_by_id` and `adjust_stops_for_strategy`. The ledger's rows stand newest first, as
-- `ORDER BY opened_at DESC` gives them. A bad id, and a strategy that is not found, are arguments that are `none`.
pub mod Picks
pub mod Reach
use matp.Base.{
  ℕ, suc, Bool, true, false, not, ◌&&◌, ◌||◌, ◌==◌, Option, none, some, nonempty, is_some, List, [],
  ◌∷◌, if◌then◌else◌,
}
use matp.Base.Text.{Text, text_eq}
use matp.Base.Num.{Num, nought}
use matp.Base.Result.{Result, err, ok, ◌>>=◌, ◌>>◌, reject_if, need}
use matp.OrderListener.GuaranteedStop.{PositionSide}
use matp.OrderListener.Webhook.{Strategy}
use matp.OrderListener.Webhook.Intake.{token_of}
use matp.OrderListener.Ledger.{
  Position, Order, Ledger, manual_close, same_side, edit_order, open_count,
}
use matp.OrderListener.Ledger.Resize.{TriggerKind, tp, sl, other, Trigger, Resting}
use matp.OrderListener.Ledger.Closing.{CloseRequest, Exchange, CloseOutcome, filled}
use matp.OrderListener.Ledger.Drawdown.{close_with, settle}

pub data Fault : Type 0 where
  bad_position_id position_not_found position_not_open strategy_not_found invalid_token : Fault
  no_price_given bad_side no_open_position modify_failed : Fault

-- the status of the response
unfoldable pub fault_status : Fault → ℕ
fault_status bad_position_id = 400
fault_status position_not_open = 400
fault_status no_price_given = 400
fault_status bad_side = 400
fault_status invalid_token = 403
fault_status modify_failed = 502
fault_status _ = 404

-- `side` of the body: absent, one of the two, or another text
pub data AskedSide : Type 0 where
  unnamed other_text : AskedSide
  named : PositionSide → AskedSide

pub record AdjustBody (F : Type 0) : Type 0 where
  pub token : Text
  pub tp_price : Option F
  pub sl_price : Option F
  pub side : AskedSide
  pub dry_run : Bool

-- the executor's answer, with the legs that it carried forward
pub record AdjustAnswer (F : Type 0) : Type 0 where
  pub success : Bool
  pub preserved : List (Trigger F)

pub data Adjusted : Type 0 where
  simulated adjusted : ℕ → Adjusted

abbrev pub is_other_text : AskedSide → Bool
is_other_text other_text = true
is_other_text _ = false

module _ {F : Type 0} where
  abbrev pub find_row : ℕ → List (Position F) → Option (Position F)
  find_row i [] = none
  find_row i (p ∷ ps) = let rest = find_row i ps in if p.id == i then some p else rest

  -- the newest open position, or the newest one of a side
  abbrev pub matches : AskedSide → Position F → Bool
  matches (named side) p = p.is_open && same_side p.side side
  matches _ p = p.is_open

  abbrev pub pick : AskedSide → List (Position F) → Option (Position F)
  pick side [] = none
  pick side (p ∷ ps) = let rest = pick side ps in if matches side p then some p else rest

  -- a leg that the caller left unpriced takes the level that was carried forward
  abbrev pub keep_first : Option F → Option F → Option F
  keep_first none px = px
  keep_first given px = given

  abbrev pub adopt : Trigger F → Resting F → Resting F
  adopt t r = elim t.kind [
    | tp ↦ record r { tp_price = keep_first r.tp_price t.trigger_px }
    | sl ↦ record r { sl_price = keep_first r.sl_price t.trigger_px }
    | other ↦ r
  ]

  unfoldable pub effective_levels : List (Trigger F) → Resting F → Resting F
  effective_levels [] r = r
  effective_levels (t ∷ ts) r = effective_levels ts (adopt t r)

  -- `COALESCE($1, tp_price)`
  abbrev pub write_levels : Resting F → Order F → Order F
  write_levels r o = record o {
    tp_price = keep_first r.tp_price o.tp_price;
    sl_price = keep_first r.sl_price o.sl_price;
  }

  abbrev pub asked_levels : AdjustBody F → Resting F
  asked_levels body = record { tp_price = body.tp_price; sl_price = body.sl_price }

  abbrev pub persist : Position F → Resting F → Ledger F → Ledger F
  persist p r l = record l { orders = edit_order p.opening_order (write_levels r) l.orders }

  -- the call of the exchange and what is written after it
  abbrev pub send_levels :
      (Position F → Resting F → AdjustAnswer F)
      → AdjustBody F
      → Position F
      → Ledger F
      → Result Fault (Adjusted × Ledger F)
  send_levels modify body p l =
      let answer = modify p (asked_levels body) in
      if answer.success
      then ok (adjusted p.id, persist p (effective_levels answer.preserved (asked_levels body)) l)
      else err modify_failed

  unfoldable pub adjust_stops :
      (Position F → Resting F → AdjustAnswer F)
      → Option Text
      → Option (Strategy F)
      → AdjustBody F
      → Ledger F
      → Result Fault (Adjusted × Ledger F)
  unfolding effective_levels
  adjust_stops modify header row body l = do
    strategy ← need row strategy_not_found
    reject_if
        (not (nonempty (token_of header body.token))
          || not (text_eq (token_of header body.token) strategy.webhook_secret))
        invalid_token
    reject_if (not (is_some body.tp_price) && not (is_some body.sl_price)) no_price_given
    reject_if (is_other_text body.side) bad_side
    p ← need (pick body.side l.positions) no_open_position
    if body.dry_run then ok (simulated p.id, l) else send_levels modify body p l

  abbrev pub manual_request : Position F → Option F → CloseRequest F
  manual_request p size = record {
    symbol = p.symbol;
    side = p.side;
    close_size = size;
    closing_order = none;
    reason = some manual_close;
    skip_exchange = false;
    fill_price = none;
    realized_pnl = none;
    close_fee = none;
  }

  -- the row that may be closed by hand
  unfoldable pub closable : Option ℕ → Bool → List (Position F) → Result Fault (Position F)
  closable id known ps = do
    i ← need id bad_position_id
    p ← need (find_row i ps) position_not_found
    reject_if (not p.is_open) position_not_open
    reject_if (not known) strategy_not_found
    ok p

module _ {F : Type 0} ⦃num : Num F⦄ where
  -- `Decimal(...) if close_size_raw else None`
  abbrev pub truthy : Option F → Option F
  truthy none = none
  truthy (some x) = if num.eq x nought then none else some x

  -- `close_position_by_id`, where `none` is the fuel of the drawdown checks run out
  unfoldable pub close_position_by_id :
      Exchange F
      → Option ℕ
      → Option F
      → Bool
      → Ledger F
      → Option (Result Fault CloseOutcome × Ledger F)
  unfolding closable
  close_position_by_id exchange id size known l = elim (closable id known l.positions) [
    | err fault ↦ some (err fault, l)
    | ok p ↦
        elim (close_with (λ m. settle (suc (open_count l.positions)) exchange m) exchange
          (manual_request p (truthy size)) l) [
            | none ↦ none
            | some (outcome, l') ↦ some (ok outcome, l')
          ]
  ]
