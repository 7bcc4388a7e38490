-- ===== src/OrderListener/Ledger.antt =====
-- order-listener/app/webhook_handler.py and the tables that it writes: the positions, orders and the row of one
-- strategy. A row's id is a number that counts up (`gen_random_uuid()` in the database, which never repeats).
-- Columns that nothing here reads are left out, and so are notifications, logs and publications. The
-- amounts are of a type `F` with the operations of `Base/Num.antt`.
pub mod Legs
pub mod Balance
pub mod Moves
pub mod Refines
pub mod Runs
pub mod Filling
pub mod Booking
pub mod Resize
pub mod Closing
pub mod Drawdown
pub mod Sync
use matp.Base.{
  ℕ, suc, Bool, true, false, ◌&&◌, ◌==◌, Option, none, some, List, [], ◌∷◌, if◌then◌else◌,
}
use matp.Base.Int.{ℤ}
use matp.Base.Text.{Text, text_eq}
use matp.OrderListener.GuaranteedStop.{PositionSide, long, short}
use matp.OrderListener.Webhook.{MarginMode}

-- `close_reason`
pub data Reason : Type 0 where
  manual_close flatten_on_disable flip_close signal_flat signal_close closed_on_exchange : Reason

-- `signal_source` of the orders that the program writes itself
pub data OrderSource : Type 0 where
  from_webhook from_manual from_reconciler from_system : OrderSource

pub record Position (F : Type 0) : Type 0 where
  pub id : ℕ
  pub symbol : Text
  pub side : PositionSide
  pub entry_price : F
  pub size : F
  pub leverage : ℤ
  pub margin_mode : MarginMode
  pub opening_order : ℕ
  -- whether `status` is 'open', or else 'closed'
  pub is_open : Bool
  pub closing_price : Option F
  pub pnl_realized : Option F
  pub closing_order : Option ℕ
  pub close_reason : Option Reason

pub record Order (F : Type 0) : Type 0 where
  pub id : ℕ
  pub size : F
  pub actual_fill_price : Option F
  pub pnl : Option F
  pub exchange_fee : Option F
  pub closes_position : Option ℕ
  pub tp_price : Option F
  pub sl_price : Option F
  pub sl_unconfirmed : Bool
  pub source : OrderSource

-- the columns of `strategies` that a close moves
pub record Book (F : Type 0) : Type 0 where
  pub enabled : Bool
  pub pnl_today : F
  pub pnl_total : F
  pub capital_allocation : F
  pub allocation_peak : Option F
  pub max_drawdown_pct : F
  pub stopped_by_drawdown : Bool

pub record Ledger (F : Type 0) : Type 0 where
  pub positions : List (Position F)
  pub orders : List (Order F)
  pub book : Book F
  pub next_position : ℕ
  pub next_order : ℕ

abbrev pub same_side : PositionSide → PositionSide → Bool
same_side long long = true
same_side short short = true
same_side long short = false
same_side short long = false

abbrev pub opposite : PositionSide → PositionSide
opposite long = short
opposite short = long

module _ {F : Type 0} where
  -- an open leg of the symbol and the side
  abbrev pub is_leg : Text → PositionSide → Position F → Bool
  is_leg symbol side p = p.is_open && (text_eq p.symbol symbol && same_side p.side side)

  -- `fetchrow` of the open leg
  abbrev pub find_leg : Text → PositionSide → List (Position F) → Option (Position F)
  find_leg symbol side [] = none
  find_leg symbol side (p ∷ ps) =
      let rest = find_leg symbol side ps in if is_leg symbol side p then some p else rest

  -- the open row of an id, if there is one
  abbrev pub has_open : ℕ → List (Position F) → Bool
  has_open i [] = false
  has_open i (p ∷ ps) = let rest = has_open i ps in if p.id == i && p.is_open then true else rest

  -- `UPDATE ... WHERE id = i AND status = 'open'`
  abbrev pub edit_open : ℕ → (Position F → Position F) → List (Position F) → List (Position F)
  edit_open i f [] = []
  edit_open i f (p ∷ ps) =
      let rest = edit_open i f ps in if p.id == i && p.is_open then f p ∷ rest else p ∷ rest

  abbrev pub find_order : ℕ → List (Order F) → Option (Order F)
  find_order i [] = none
  find_order i (o ∷ os) = let rest = find_order i os in if o.id == i then some o else rest

  -- `UPDATE orders ... WHERE id = i`
  abbrev pub edit_order : ℕ → (Order F → Order F) → List (Order F) → List (Order F)
  edit_order i f [] = []
  edit_order i f (o ∷ os) =
      let rest = edit_order i f os in if o.id == i then f o ∷ rest else o ∷ rest

  -- how many rows are open
  abbrev pub open_count : List (Position F) → ℕ
  open_count [] = 0
  open_count (p ∷ ps) = let rest = open_count ps in if p.is_open then suc rest else rest
