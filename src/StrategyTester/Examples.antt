-- ===== src/StrategyTester/Examples.antt =====
-- A replay of three candles: an answer to open, the fill, and a candle that touches the stop.
use matp.Base.{Option, false, Bool, ℕ, ◌*◌, true, ◌≡◌, refl, none, some, List, [], ◌∷◌}
use matp.Base.Int.{pos, ◌+ℤ◌, ◌-ℤ◌}
use matp.Base.Fixed.{Fixed, Fixed-IsOrdered, fixed_num, mul, div, abs, decimal, round}
use matp.StrategyTester.Positions.{
  Side, Candle, SimPosition, OpenIntent, sl_hit, Hit, EngineState, check_tp_sl, opened,
  execute_pending_open, execute_pending_close, execute_close,
}
use matp.StrategyTester.Engine.{
  SimAction, Answer, failed, finished, Settings, candle_step, answer_candle, fill_and_check,
  write_equity, record_intent, check_stops, candle_loop, start,
}
use matp.StrategyTester.Engine.Bookkeeping.{IsSettled, state_of, run-IsSettled}
use matp.StrategyTester.Guard
use matp.StrategyTester.Guard.{node_guard_sim}
use matp.StrategyTester.Guard.Passes.{IsPassedOpen, node_guard_sim-IsPassedOpen}
use matp.StrategyTester.Engine.Causality.{candle_step-opens_only, candle_step-fills_later}

abbrev whole : ℕ → Fixed
whole n = pos (n * 1000000)

abbrev cfg : Settings Fixed
cfg = record { failure_threshold = pos 200000; equity_insert_batch = 2 }

abbrev candle : ℕ → ℕ → ℕ → Candle Fixed
candle timestamp high low = record {
  timestamp = timestamp;
  open_price = whole 100;
  high = whole high;
  low = whole low;
  close_price = whole 100;
}

abbrev open_it : Answer Fixed
open_it = finished true SimAction.open_long (some (whole 1)) (some (whole 98)) (some (whole 103))

abbrev rows : List (Candle Fixed × Answer Fixed)
rows = (candle 60 101 99, open_it) ∷ (candle 120 105 90, failed) ∷ (candle 180 104 97, open_it) ∷ []

abbrev begin : EngineState Fixed
begin = start (whole 1000) (pos 0) (pos 0)

-- the candle at 120 touches both levels of the position that it opens, and only the next one closes it
candle_loop-trades : (state_of (candle_loop cfg begin 0 rows)).long_count ≡ 1
unfolding candle_loop candle_step answer_candle fill_and_check execute_pending_open write_equity
    record_intent check_stops execute_pending_close check_tp_sl decimal abs ◌-ℤ◌ mul ◌+ℤ◌ div
    execute_close
candle_loop-trades = refl

run-IsSettled_example : IsSettled (state_of (candle_loop cfg begin 0 rows))
run-IsSettled_example = run-IsSettled cfg (whole 1000) (pos 0) (pos 0) 0 rows

abbrev intent : OpenIntent Fixed
intent = record {
  side = Side.long;
  triggered_at = 60;
  size = whole 1;
  sl_price = some (whole 98);
  tp_price = some (whole 103);
}

abbrev waiting : EngineState Fixed
waiting = record begin { pending_open = some intent }

candle_step-opens_only_example :
    ((state_of (candle_step cfg waiting 1 (candle 120 105 90) failed)).open_position
      ≡ some (opened waiting intent (candle 120 105 90) 1))
    × ((state_of (candle_step cfg waiting 1 (candle 120 105 90) failed)).closed_positions ≡ [])
candle_step-opens_only_example =
    candle_step-opens_only cfg waiting intent 1 (candle 120 105 90) failed refl

candle_step-fills_later_example :
    ((state_of (candle_step cfg begin 0 (candle 60 101 99) open_it)).open_position ≡ none)
    × ((state_of (candle_step cfg begin 0 (candle 60 101 99) open_it)).closed_positions ≡ [])
candle_step-fills_later_example =
    candle_step-fills_later cfg begin 0 (candle 60 101 99) open_it refl refl

abbrev position : SimPosition Fixed
position = record {
  side = Side.long;
  entry_price = whole 100;
  size = whole 1;
  sl_price = some (whole 98);
  tp_price = some (whole 103);
  fee_open = pos 0;
  opened_at = 120;
  opened_at_candle_index = 1;
  leverage = 1;
}

abbrev stopped : Hit Fixed
stopped = record { price = whole 98; reason = sl_hit }

-- a signal to open at a confidence of 0.9, an hour after another one passed
abbrev signal : Guard.LlmSignal Fixed
signal = record {
  action = Guard.open_long;
  confidence = pos 900000;
  size_pct = whole 10;
  stop_loss_pct = whole 1;
  take_profit_pct = whole 2;
}

abbrev guarded : Guard.Action → Bool → Guard.GuardState Fixed
guarded action position_open = record {
  llm_signal = some (record signal { action = action });
  confidence_threshold = none;
  max_position_size_pct = none;
  cooldown_entry_minutes = some 30;
  position_open = position_open;
  position_size = some (whole 1);
  simulated_now = some 7200000000;
  in_run = true;
  sim_balance = some (whole 1000);
  current_price = some (whole 100);
}

abbrev log : Option (List Guard.LogRow)
log = some (
    record { proposed_action = Guard.open_long; gate_passed = true; triggered_at = 3600000000 }
    ∷ [])

node_guard_sim-IsPassedOpen_example :
    IsPassedOpen
      (guarded Guard.open_long false)
      log
      signal
      (pos 500000)
      (some (whole 99))
      (some (whole 102))
unfolding node_guard_sim decimal Guard.cooling Guard.recent Guard.in_range abs Guard.base_qty round
    div mul ◌-ℤ◌ ◌+ℤ◌
node_guard_sim-IsPassedOpen_example =
    node_guard_sim-IsPassedOpen (guarded Guard.open_long false) log Fixed-IsOrdered signal
      (pos 500000) (some (whole 99)) (some (whole 102)) refl refl refl
