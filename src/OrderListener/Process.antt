-- ===== src/OrderListener/Process.antt =====
-- `_process_order` of order-listener/app/webhook_handler.py and what it asks around: what becomes of an accepted signal,
-- in the ledger and in its order's row. The parameters are the answers of the executor and of the database's
-- other tables.
pub mod Causes
pub mod Flat
pub mod Flattens
pub mod Guards
pub mod Opening
pub mod Outcomes
pub mod Whole
use matp.Base.{
  ℕ, suc, Bool, true, false, ◌&&◌, Option, none, some, List, [], ◌∷◌, or_default, if◌then◌else◌,
}
use matp.Base.Num.{Num, nought}
use matp.OrderListener.GuaranteedStop.{PositionSide}
use matp.OrderListener.Webhook.{Accepted}
use matp.OrderListener.Ledger.{Order, Ledger, edit_order, open_count}
use matp.OrderListener.Ledger.Closing.{
  CloseRequest, Exchange, CloseOutcome, filled, Plan, plan_close,
}
use matp.OrderListener.Ledger.Drawdown.{settle}
use matp.Base.Result.{Result, err, ok}

pub data ExecStatus : Type 0 where
  exec_filled exec_pending exec_rejected : ExecStatus

-- the status that the order's row ends with
pub data OrderStatus : Type 0 where
  no_position opp_pos_conflict same_symbol_conflict size_too_small route_failed : OrderStatus
  closed_as : CloseOutcome → OrderStatus
  executed : ExecStatus → OrderStatus

-- `OrderResult`, as far as it is read
pub record OrderAnswer (F : Type 0) : Type 0 where
  pub status : ExecStatus
  pub actual_fill_price : Option F
  pub actual_fill_size : Option F
  pub pnl : Option F
  pub realized_pnl : Option F
  pub fee : Option F

-- What the handler asks: the exchange, the account's position mode, the sides of the open positions
-- that other enabled strategies of the account hold in the symbol (`none` where the query
-- fails), the instrument's minimum size, and the placing of an order.
pub record Desk (F : Type 0) : Type 0 where
  pub exchange : Exchange F
  pub hedge : Bool
  pub others : Option (List PositionSide)
  pub min_base_size : F
  pub place_order : Ledger F → OrderAnswer F

-- what `_update_order_status` writes of a result
pub record Figures (F : Type 0) : Type 0 where
  pub fill_price : Option F
  pub pnl : Option F
  pub fee : Option F
  pub fill_size : Option F

module _ {F : Type 0} where
  abbrev pub no_figures : Figures F
  no_figures = record { fill_price = none; pnl = none; fee = none; fill_size = none }

  -- `_update_order_status`, where the size is given only for a fill
  unfoldable pub update_order_status : ℕ → Figures F → Ledger F → Ledger F
  update_order_status i r l = record l {
    orders =
        edit_order i
          (λ o. record o {
            actual_fill_price = r.fill_price;
            pnl = r.pnl;
            exchange_fee = r.fee;
            size = or_default r.fill_size o.size;
          })
          l.orders;
  }

module _ {F : Type 0} ⦃num : Num F⦄ where
  -- the drawdown check, with fuel for the legs that are open
  abbrev pub check_at : Desk F → Ledger F → Ledger F → Option (Ledger F)
  check_at desk l m = settle (suc (open_count l.positions)) desk.exchange m

  abbrev plan_figures : Result CloseOutcome (Plan F) → Figures F
  plan_figures (err outcome) = no_figures
  plan_figures (ok plan) = record {
    fill_price = plan.fill_price;
    pnl = plan.pnl;
    fee = plan.fee;
    fill_size = none;
  }

  -- what a close reports for its order: figures only where it is done
  unfoldable pub close_figures : Exchange F → CloseRequest F → Ledger F → CloseOutcome → Figures F
  close_figures exchange req l (filled full) = plan_figures (plan_close exchange req l)
  close_figures exchange req l _ = no_figures
