-- ===== src/OrderListener/Ledger/Closing.antt =====
-- `close_strategy_position`: what it plans from the ledger that it reads, and what it commits to the
-- ledger that it finds after the exchange has answered. An order row that cannot be inserted is left out.
pub mod Writes
pub mod Race
use matp.Base.{
  ℕ, suc, Bool, true, false, not, ◌&&◌, ◌||◌, Option, none, some, is_some, List, [], ◌∷◌, ◌==◌,
  if◌then◌else◌, or_default,
}
use matp.Base.Text.{Text}
use matp.Base.Num.{Num, nought, min}
use matp.Base.Result.{Result, err, ok, ◌>>=◌}
use matp.OrderListener.GuaranteedStop.{PositionSide}
use matp.OrderListener.Ledger.{
  Position, Order, Ledger, Reason, manual_close, closed_on_exchange, OrderSource, from_manual,
  from_reconciler, from_system, find_leg, has_open, edit_open, find_order, edit_order,
}
use matp.OrderListener.Ledger.Resize.{
  Resting, Trigger, ModifyAnswer, resize_stops, flag_sl_unconfirmed,
}

pub record CloseRequest (F : Type 0) : Type 0 where
  pub symbol : Text
  pub side : PositionSide
  pub close_size : Option F
  pub closing_order : Option ℕ
  pub reason : Option Reason
  pub skip_exchange : Bool
  pub fill_price : Option F
  pub realized_pnl : Option F
  pub close_fee : Option F

-- the answer to `call_executor_close_position`
pub record CloseAnswer (F : Type 0) : Type 0 where
  pub success : Bool
  pub actual_fill_price : Option F
  pub realized_pnl : Option F
  pub fee : Option F
  pub actual_fill_size : Option F

-- The exchange of the strategy's account: what it answers, which may depend on all that went before.
pub record Exchange (F : Type 0) : Type 0 where
  pub close_position : Ledger F → Text → PositionSide → Option F → CloseAnswer F
  -- `none` where the read failed
  pub trigger_orders : Ledger F → Text → PositionSide → Option (List (Trigger F))
  pub modify_stops : Ledger F → Text → PositionSide → Resting F → ModifyAnswer

pub data CloseOutcome : Type 0 where
  no_position_to_close refused_by_exchange race_condition : CloseOutcome
  filled : Bool → CloseOutcome

-- what the routine holds when it comes to write
pub record Plan (F : Type 0) : Type 0 where
  pub pos : Position F
  pub is_full : Bool
  pub size : F
  pub fill_price : Option F
  pub pnl : Option F
  pub fee : Option F
  pub net_pnl : Option F
  pub pre_stops : Option (List (Trigger F))

abbrev pub source_of : Option Reason → OrderSource
source_of (some manual_close) = from_manual
source_of (some closed_on_exchange) = from_reconciler
source_of _ = from_system

module _ {F : Type 0} ⦃num : Num F⦄ where
  open num use {sub, lt, le}

  -- `eff_close_size` as it is asked for
  unfoldable pub requested_size : Option F → F → F
  requested_size none current = current
  requested_size (some size) current = min size current

  -- as it is adopted from the fill of a partial reduce
  unfoldable pub adopted_size : Option F → F → F → F
  adopted_size none size current = size
  adopted_size (some fill) size current = if lt nought fill then min fill current else size

  -- the fees count as zero where they are missing
  abbrev pub fee_of : Option F → F
  fee_of fee = or_default fee nought

  abbrev pub open_fee : Position F → List (Order F) → F
  open_fee p os = elim (find_order p.opening_order os) [
    | some o ↦ fee_of o.exchange_fee
    | none ↦ nought
  ]

  unfoldable pub net_of : Option F → F → F → Option F
  net_of none opening closing = none
  net_of (some pnl) opening closing = some (sub (sub pnl opening) closing)

  -- what the caller passes on, where the exchange has already executed
  abbrev pub given : CloseRequest F → CloseAnswer F
  given req = record {
    success = true;
    actual_fill_price = req.fill_price;
    realized_pnl = req.realized_pnl;
    fee = req.close_fee;
    actual_fill_size = none;
  }

  -- the whole position is asked for
  abbrev pub closes_all : CloseRequest F → Position F → Bool
  closes_all req pos = le pos.size (requested_size req.close_size pos.size)

  unfoldable pub answer_for : Exchange F → CloseRequest F → Ledger F → Position F → CloseAnswer F
  unfolding requested_size
  answer_for exchange req l pos =
      if req.skip_exchange
      then given req
      else exchange.close_position l req.symbol req.side
          (if closes_all req pos then none else some (requested_size req.close_size pos.size))

  abbrev pub made_plan :
      Exchange F → CloseRequest F → Ledger F → Position F → CloseAnswer F → Plan F
  made_plan exchange req l pos answer =
      let asked = requested_size req.close_size pos.size in
      record {
        pos = pos;
        is_full = closes_all req pos;
        size =
            if closes_all req pos
            then asked
            else adopted_size answer.actual_fill_size asked pos.size;
        fill_price = answer.actual_fill_price;
        pnl = answer.realized_pnl;
        fee = answer.fee;
        net_pnl = net_of answer.realized_pnl (open_fee pos l.orders) (fee_of answer.fee);
        pre_stops =
            if closes_all req pos then none else exchange.trigger_orders l req.symbol req.side;
      }

  unfoldable pub plan_for :
      Exchange F → CloseRequest F → Ledger F → Position F → Result CloseOutcome (Plan F)
  unfolding answer_for
  plan_for exchange req l pos =
      if (answer_for exchange req l pos).success
      then ok (made_plan exchange req l pos (answer_for exchange req l pos))
      else err refused_by_exchange

  abbrev pub plan_found :
      Exchange F → CloseRequest F → Ledger F → Option (Position F) → Result CloseOutcome (Plan F)
  plan_found exchange req l none = err no_position_to_close
  plan_found exchange req l (some pos) = plan_for exchange req l pos

  unfoldable pub plan_close : Exchange F → CloseRequest F → Ledger F → Result CloseOutcome (Plan F)
  plan_close exchange req l = plan_found exchange req l (find_leg req.symbol req.side l.positions)

  -- the synthetic row of a close without an order
  abbrev pub synthetic_order : CloseRequest F → Plan F → ℕ → Order F
  synthetic_order req plan i = record {
    id = i;
    size = plan.size;
    actual_fill_price = plan.fill_price;
    pnl = plan.pnl;
    exchange_fee = plan.fee;
    closes_position = none;
    tp_price = none;
    sl_price = none;
    sl_unconfirmed = false;
    source = source_of req.reason;
  }

  abbrev pub insert_order : CloseRequest F → Plan F → Ledger F → Ledger F
  insert_order req plan l = elim req.closing_order [
    | some i ↦ l
    | none ↦ record l {
      orders = synthetic_order req plan l.next_order ∷ l.orders;
      next_order = suc l.next_order;
    }
  ]

  -- the closing order's id, from before the insertion
  abbrev pub closing_id : CloseRequest F → Ledger F → ℕ
  closing_id req l = or_default req.closing_order l.next_order

  abbrev pub close_row : CloseRequest F → Plan F → ℕ → Position F → Position F
  close_row req plan order p = record p {
    is_open = false;
    closing_price = plan.fill_price;
    pnl_realized = if is_some plan.net_pnl then plan.net_pnl else p.pnl_realized;
    closing_order = some order;
    close_reason = req.reason;
  }

  abbrev pub reduce_row : Plan F → Position F → Position F
  reduce_row plan p = record p { size = sub p.size plan.size }

  -- the conditional update
  abbrev pub write_row : CloseRequest F → Plan F → ℕ → List (Position F) → List (Position F)
  write_row req plan order ps =
      if plan.is_full
      then edit_open plan.pos.id (close_row req plan order) ps
      else edit_open plan.pos.id (reduce_row plan) ps

  -- the stops of a partial reduce are placed anew, and an unconfirmed stop is flagged
  unfoldable pub resize_after : Exchange F → CloseRequest F → Plan F → Ledger F → Ledger F
  resize_after exchange req plan l =
      let (call, flag) =
        resize_stops plan.pre_stops plan.pos.opening_order
          (exchange.modify_stops l req.symbol req.side) l.orders in
      if not plan.is_full && flag
      then record l { orders = flag_sl_unconfirmed plan.pos.opening_order l.orders }
      else l

  unfoldable pub commit_close :
      Exchange F → CloseRequest F → Plan F → Ledger F → CloseOutcome × Ledger F
  unfolding resize_after
  commit_close exchange req plan l =
      let order = closing_id req l in
      let inserted = insert_order req plan l in
      if has_open plan.pos.id l.positions
      then (
        filled plan.is_full,
        resize_after exchange req plan (record inserted {
          positions = write_row req plan order inserted.positions;
          orders =
              edit_order order (λ o. record o { closes_position = some plan.pos.id })
                inserted.orders;
        }),
      )
      else (race_condition, inserted)
