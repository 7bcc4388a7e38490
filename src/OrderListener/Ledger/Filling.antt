-- ===== src/OrderListener/Ledger/Filling.antt =====
-- `_apply_position_fill` and `_create_strategy_position`. An `err` is the exception that the caller meets: the
-- division by a size of zero, or the unique index on open legs (`uq_strat_pos_one_open`).
pub mod Sizes
use matp.Base.{
  ℕ, suc, Bool, true, false, Option, none, some, List, [], ◌∷◌, ◌==◌, is_some, if◌then◌else◌,
}
use matp.Base.Int.{ℤ}
use matp.Base.Text.{Text}
use matp.Base.Num.{Num, nought}
use matp.Base.Result.{Result, err, ok}
use matp.OrderListener.GuaranteedStop.{PositionSide, long, short}
use matp.OrderListener.Webhook.{OrderSide, buy, sell, MarginMode, value_or}
use matp.OrderListener.Ledger.{Position, Ledger, find_leg, edit_open}

pub data FillError : Type 0 where
  zero_size duplicate_leg : FillError

-- `payload_symbol` is made of the payload's assets, and `pos_symbol` is the symbol that was traded
pub record Fill (F : Type 0) : Type 0 where
  pub payload_symbol : Text
  pub pos_symbol : Text
  pub side : OrderSide
  pub size : F
  pub price : Option F
  pub indicator_price : Option F
  pub actual_fill_price : Option F
  pub actual_fill_size : Option F
  pub leverage : ℤ
  pub margin_mode : MarginMode
  pub opening_order : ℕ

-- positions use long and short, orders use buy and sell
abbrev pub pos_side : OrderSide → PositionSide
pos_side buy = long
pos_side sell = short

module _ {F : Type 0} ⦃num : Num F⦄ where
  open num use {add, mul, div, eq}

  -- `result.actual_fill_price or payload.price or payload.indicator_price or 0`
  abbrev pub fill_price : Fill F → F
  fill_price f = value_or f.actual_fill_price (value_or f.price (value_or f.indicator_price nought))

  abbrev pub fill_size : Fill F → F
  fill_size f = value_or f.actual_fill_size f.size

  abbrev pub created : Fill F → ℕ → Position F
  created f i = record {
    id = i;
    symbol = f.payload_symbol;
    side = pos_side f.side;
    entry_price = fill_price f;
    size = fill_size f;
    leverage = f.leverage;
    margin_mode = f.margin_mode;
    opening_order = f.opening_order;
    is_open = true;
    closing_price = none;
    pnl_realized = none;
    closing_order = none;
    close_reason = none;
  }

  -- `_create_strategy_position`, under the unique index
  unfoldable pub create_position : Fill F → Ledger F → Result FillError (Ledger F)
  create_position f l =
      if is_some (find_leg f.payload_symbol (pos_side f.side) l.positions)
      then err duplicate_leg
      else ok (record l {
        positions = created f l.next_position ∷ l.positions;
        next_position = suc l.next_position;
      })

  -- the averaged entry of a top-up
  abbrev pub blended : Position F → Fill F → F
  blended p f =
      div (add (mul p.entry_price p.size) (mul (fill_price f) (fill_size f)))
        (add p.size (fill_size f))

  abbrev pub grown : Position F → Fill F → Position F → Position F
  grown p f q = record q { size = add p.size (fill_size f); entry_price = blended p f }

  unfoldable pub top_up : Fill F → Position F → Ledger F → Result FillError (Ledger F)
  top_up f p l =
      if eq (add p.size (fill_size f)) nought
      then err zero_size
      else ok (record l { positions = edit_open p.id (grown p f) l.positions })

  -- onto the open leg, or as a new one
  abbrev pub fill_leg : Fill F → Ledger F → Option (Position F) → Result FillError (Ledger F)
  fill_leg f l none = create_position f l
  fill_leg f l (some p) = top_up f p l

  unfoldable pub apply_position_fill : Fill F → Ledger F → Result FillError (Ledger F)
  apply_position_fill f l = fill_leg f l (find_leg f.pos_symbol (pos_side f.side) l.positions)
