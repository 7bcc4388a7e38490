-- ===== src/OrderListener/ProcessExamples.antt =====
-- Signals that meet the ledger of one long.
use matp.Base.{suc, if◌then◌else◌, leb, true, false, ◌≡◌, refl, none, some, List, [], ◌∷◌, ◌&&◌}
use matp.Base.Text.{codes}
use matp.Base.Int.{◌+ℤ◌, pos, ◌-ℤ◌}
use matp.Base.Fixed.{abs, Fixed, fixed_num, Fixed-IsOrdered, mul, decimal}
use matp.OrderListener.GuaranteedStop.{long, short}
use matp.OrderListener.Webhook.{Accepted, open_long, open_short, close_long, buy, isolated}
use matp.OrderListener.Ledger.{Position, Ledger, find_leg}
use matp.OrderListener.Webhook.{Strategy}
use matp.OrderListener.Ledger.Resize.{tp, Resting}
use matp.OrderListener.Manual.{
  named, AdjustBody, AdjustAnswer, adjusted, adjust_stops, effective_levels,
}
use matp.OrderListener.Manual.Reach.{IsAdjustment, adjust_stops-IsAdjustment}
use matp.OrderListener.Reconciler.{Tracked, Seen, unknown, live, tolerance, reconcile_row}
use matp.OrderListener.Reconciler.Passes.{Pass, acts, is_short, count, after, reconcile_row-acts}
use matp.OrderListener.LedgerExamples.{u, leg, entry, ledger, exchange}
use matp.OrderListener.Process.{
  exec_filled, exec_pending, OrderStatus, size_too_small, executed, OrderAnswer, Desk,
}
use matp.OrderListener.Process.Flat.{flat_legs, process_flat}
use matp.OrderListener.Process.Opening.{process_open}
use matp.OrderListener.Process.Outcomes.{conflict, too_small, process_open-unfilled}
use matp.OrderListener.Process.Flattens.{process_flat-shuts}

abbrev more : Accepted Fixed
more = record {
  payload = record {
    base_asset = codes "BTC";
    quote_asset = codes "USDT";
    side = buy;
    size = u 1;
    price = some (u 100);
    leverage = none;
    margin_mode = none;
    tp_price = none;
    sl_price = some (u 98);
    tp_pct = none;
    sl_pct = none;
    signal = open_long;
    target_position = none;
    token = [];
    indicator_price = none;
  };
  execution_symbol = codes "BTC-USDT";
  price = some (u 100);
  tp_price = none;
  sl_price = some (u 98);
  effective_leverage = pos 10;
  effective_margin_mode = isolated;
  entry_ref = some (u 100);
  stops_from_pct = false;
  sl_source = none;
}

abbrev at_rest : OrderAnswer Fixed
at_rest = record {
  status = exec_pending;
  actual_fill_price = none;
  actual_fill_size = none;
  pnl = none;
  realized_pnl = none;
  fee = none;
}

abbrev desk : Desk Fixed
desk = record {
  exchange = exchange;
  hedge = false;
  others = some [];
  min_base_size = u 0;
  place_order = λ l. record at_rest { status = exec_filled; actual_fill_price = some (u 100) };
}

abbrev waiting : Desk Fixed
waiting = record desk { place_order = λ l. at_rest }

process_open-unfilled_example :
    (r : OrderStatus × Ledger Fixed) × (process_open waiting 7 more ledger ≡ some r)
    × (r.0 ≡ (elim (conflict waiting more) [
      | some reason ↦ reason
      | none ↦ if too_small waiting more then size_too_small else executed exec_pending
    ]))
    × (r.1.positions ≡ ledger.positions)
    × (r.1.book ≡ ledger.book)
unfolding decimal mul ◌-ℤ◌
process_open-unfilled_example = process_open-unfilled waiting 7 more ledger refl

-- a long and a short are open, and the flat rides on a close of the long
abbrev both : List (Position Fixed)
both = leg ∷ record leg { id = 1; side = short } ∷ []

process_flat-shuts_example :
    (r : OrderStatus × Ledger Fixed) × (process_flat desk 7 more ledger ≡ some r)
    × (find_leg (codes "BTC-USDT") long r.1.positions ≡ none)
process_flat-shuts_example =
    process_flat-shuts Fixed-IsOrdered desk 7 more ledger long (λ l s d. refl)
      (record { distinct_rows = refl; ids_given = refl }) refl

flat_legs-close_long : flat_legs close_long (codes "BTC-USDT") both ≡ long ∷ []
unfolding flat_legs
flat_legs-close_long = refl

flat_legs-open_short : flat_legs open_short (codes "BTC-USDT") both ≡ long ∷ short ∷ []
unfolding flat_legs
flat_legs-open_short = refl

-- a stop-loss moved to 99, where the executor carries a target of 104 forward
abbrev body : AdjustBody Fixed
body = record {
  token = codes "key";
  tp_price = none;
  sl_price = some (u 99);
  side = named long;
  dry_run = false;
}

abbrev modify : Position Fixed → Resting Fixed → AdjustAnswer Fixed
modify p r = record {
  success = true;
  preserved = record { kind = tp; trigger_px = some (u 104) } ∷ [];
}

abbrev moved : Ledger Fixed
moved = record ledger {
  orders = record entry { tp_price = some (u 104); sl_price = some (u 99) } ∷ [];
}

abbrev owner : Strategy Fixed
owner = record {
  webhook_secret = codes "key";
  enabled = true;
  symbol = codes "BTC-USDT";
  allow_quote_variants = false;
  allow_cross_charting = false;
  default_leverage = none;
  max_leverage = none;
  margin_mode = none;
  margin_per_trade = none;
}

adjust_stops-IsAdjustment_example : IsAdjustment modify body ledger (adjusted 0, moved)
unfolding adjust_stops effective_levels
adjust_stops-IsAdjustment_example =
    adjust_stops-IsAdjustment modify none owner body ledger (adjusted 0, moved) refl

-- Three short answers in a row, with one pass in between that is not answered, reduce the leg from 2 to 1; the next short
-- answer is the first of a new count.
abbrev tracked : Tracked Fixed
tracked = record { size = u 2; miss_count = 0; divergent = false; exchange_size = none }

abbrev pass : Seen Fixed → Pass Fixed
pass seen = record { seen = seen; left = some (u 1) }

abbrev passes : List (Pass Fixed)
passes =
    pass (live (some (u 1)))
    ∷ pass unknown
    ∷ pass (live none)
    ∷ pass (live (some (u 1)))
    ∷ pass (live (some (u 2)))
    ∷ []

reconcile_row-acts_example :
    acts (reconcile_row 3 (after 3 tracked passes) (live none) none).0
    ≡ is_short (count 3 (u 2) passes).size (live none) && leb 3 (suc (count 3 (u 2) passes).streak)
reconcile_row-acts_example =
    reconcile_row-acts 3 tracked passes (record { seen = live none; left = none }) refl

reconcile_row-anew : count 3 (u 2) passes ≡ record { size = u 1; streak = 0 }
unfolding tolerance decimal mul abs ◌-ℤ◌ ◌+ℤ◌
reconcile_row-anew = refl
