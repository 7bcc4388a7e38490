-- ===== src/OrderListener/LedgerExamples.antt =====
-- A strategy with one long of two bitcoins, and what closes, fills, syncs and signals do to its ledger.
use matp.Base.{ℕ, ◌*◌, ◌≤◌, true, false, ◌≡◌, refl, none, some, [], ◌∷◌, arith}
use matp.Base.Text.{codes}
use matp.Base.Int.{pos, negsuc, ◌-ℤ◌, ◌+ℤ◌}
use matp.Base.Fixed.{Fixed, fixed_num, Fixed-IsOrdered, mul, div, decimal}
use matp.Base.Result.{err}
use matp.OrderListener.GuaranteedStop.{long}
use matp.OrderListener.Webhook.{buy, isolated}
use matp.OrderListener.Ledger.{
  Position, Order, Book, Ledger, from_webhook, manual_close, open_count,
}
use matp.OrderListener.Ledger.Legs.{IsLedger}
use matp.OrderListener.Ledger.Filling.{Fill, apply_position_fill, create_position, top_up}
use matp.OrderListener.Ledger.Filling.Sizes.{
  filled_view, apply_position_fill-size, apply_position_fill-stray,
}
use matp.OrderListener.Ledger.Booking.{drawdown_hit, is_drawdown_breached}
use matp.OrderListener.Ledger.Drawdown.{settle}
use matp.OrderListener.Ledger.Drawdown.Ends.{settle-ends}
use matp.OrderListener.Ledger.Drawdown.Flattens.{settle-flattens}
use matp.OrderListener.Ledger.Moves.{leg_size}
use matp.OrderListener.Ledger.Runs.{Moves}
use matp.OrderListener.Ledger.Closing.{CloseRequest, Exchange, plan_close, no_position_to_close}

abbrev pub u : ℕ → Fixed
u n = pos (n * 1000000)

abbrev pub leg : Position Fixed
leg = record {
  id = 0;
  symbol = codes "BTC-USDT";
  side = long;
  entry_price = u 100;
  size = u 2;
  leverage = pos 10;
  margin_mode = isolated;
  opening_order = 0;
  is_open = true;
  closing_price = none;
  pnl_realized = none;
  closing_order = none;
  close_reason = none;
}

abbrev pub entry : Order Fixed
entry = record {
  id = 0;
  size = u 2;
  actual_fill_price = some (u 100);
  pnl = none;
  exchange_fee = some (u 1);
  closes_position = none;
  tp_price = none;
  sl_price = some (u 98);
  sl_unconfirmed = false;
  source = from_webhook;
}

abbrev pub calm : Book Fixed
calm = record {
  enabled = true;
  pnl_today = u 0;
  pnl_total = u 0;
  capital_allocation = u 100;
  allocation_peak = some (u 100);
  max_drawdown_pct = u 50;
  stopped_by_drawdown = false;
}

abbrev pub ledger : Ledger Fixed
ledger = record {
  positions = leg ∷ [];
  orders = entry ∷ [];
  book = calm;
  next_position = 1;
  next_order = 1;
}

-- an exchange that does what it is asked, at a loss
abbrev pub exchange : Exchange Fixed
exchange = record {
  close_position = λ l s d size. record {
    success = true;
    actual_fill_price = some (u 90);
    realized_pnl = some (negsuc 59999999);
    fee = none;
    actual_fill_size = none;
  };
  trigger_orders = λ l s d. some [];
  modify_stops = λ l s d r. record { sl_ok = some true; tp_ok = none };
}

abbrev down : Ledger Fixed
down = record ledger { book = record calm { capital_allocation = u 40 } }

pub ledger-IsLedger : IsLedger ledger
ledger-IsLedger = record { distinct_rows = refl; ids_given = refl }

down-IsLedger : IsLedger down
down-IsLedger = record { distinct_rows = refl; ids_given = refl }

settle-flattens_example :
    (l' : Ledger Fixed) × (settle 2 exchange down ≡ some l')
    × (open_count l'.positions ≡ 0)
    × (l'.book.enabled ≡ false)
    × (l'.book.stopped_by_drawdown ≡ true)
unfolding drawdown_hit is_drawdown_breached decimal mul div ◌-ℤ◌
settle-flattens_example =
    settle-flattens Fixed-IsOrdered exchange down (λ l s d. refl) down-IsLedger refl

settle-ends_example :
    (l' : Ledger Fixed) × (settle 2 exchange down ≡ some l') × (open_count l'.positions ≤ 1)
settle-ends_example = settle-ends 2 exchange down (omega arith)

abbrev pub close_all : CloseRequest Fixed
close_all = record {
  symbol = codes "BTC-USDT";
  side = long;
  close_size = none;
  closing_order = none;
  reason = some manual_close;
  skip_exchange = false;
  fill_price = none;
  realized_pnl = none;
  close_fee = none;
}

abbrev pub buy_one : Fill Fixed
buy_one = record {
  payload_symbol = codes "BTC-USDC";
  pos_symbol = codes "BTC-USDT";
  side = buy;
  size = u 1;
  price = some (u 100);
  indicator_price = none;
  actual_fill_price = none;
  actual_fill_size = none;
  leverage = pos 10;
  margin_mode = isolated;
  opening_order = 7;
}

-- a fill for the traded symbol itself
abbrev buy_same : Fill Fixed
buy_same = record buy_one { payload_symbol = codes "BTC-USDT" }

abbrev grown_ledger : Ledger Fixed
grown_ledger = record ledger { positions = record leg { size = u 3 } ∷ [] }

apply_position_fill-size_example :
    leg_size grown_ledger (codes "BTC-USDT") long
    ≡ filled_view buy_same
        (leg_size ledger (codes "BTC-USDT") long)
        (leg_size ledger (codes "BTC-USDT") long)
        (codes "BTC-USDT")
        long
unfolding apply_position_fill top_up mul div ◌+ℤ◌ decimal
apply_position_fill-size_example =
    apply_position_fill-size buy_same ledger grown_ledger (codes "BTC-USDT") long ledger-IsLedger
      refl

-- no leg is open, and one is opened under the payload's symbol
abbrev flat_ledger : Ledger Fixed
flat_ledger = record ledger { positions = [] }

abbrev stray_ledger : Ledger Fixed
stray_ledger = record flat_ledger {
  positions = record leg { id = 1; symbol = codes "BTC-USDC"; size = u 1; opening_order = 7 } ∷ [];
  next_position = 2;
}

apply_position_fill-stray_example :
    plan_close exchange close_all stray_ledger ≡ err no_position_to_close
unfolding apply_position_fill create_position leg_size decimal
apply_position_fill-stray_example =
    apply_position_fill-stray buy_one flat_ledger stray_ledger exchange close_all
      (record { distinct_rows = refl; ids_given = refl }) refl refl refl refl refl
