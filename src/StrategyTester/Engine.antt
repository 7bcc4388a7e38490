-- ===== src/StrategyTester/Engine.antt =====
-- strategy-tester/app/engine/backtest_engine.py: the candle loop of `_execute_run`. What the graph answers
-- on each candle is an argument, beside the candle; progress updates are left out.
pub mod Bookkeeping
pub mod Causality
pub mod Ending
use matp.Base.{
  ℕ, zero, suc, ◌+◌, Bool, true, false, not, ◌&&◌, ◌||◌, Option, none, some, is_some, List, [], ◌∷◌,
  ◌++◌, ltb, leb, length, or_default, if◌then◌else◌,
}
use matp.Base.Num.{Num, nought, max}
use matp.StrategyTester.Positions.{
  Side, long, short, Candle, SimPosition, CloseReason, Hit, EquityRow, EngineState, gross_pnl,
  hundred, check_tp_sl, execute_pending_open, execute_close, execute_pending_close,
}

pub data SimAction : Type 0 where
  open_long open_short close_long close_short other : SimAction

-- `final_state`, or the exception of the graph
pub data Answer (F : Type 0) : Type 0 where
  failed : Answer F
  finished : Bool → SimAction → Option F → Option F → Option F → Answer F

pub record Settings (F : Type 0) : Type 0 where
  pub failure_threshold : F
  pub equity_insert_batch : ℕ

-- A run goes on, or ends with `BacktestAbortedHighFailureRate`.
pub data Progress (F : Type 0) : Type 0 where
  going : EngineState F → Progress F
  aborted : EngineState F → Progress F

abbrev is_opening : SimAction → Option Side
is_opening open_long = some long
is_opening open_short = some short
is_opening _ = none

abbrev is_closing : SimAction → Bool
is_closing close_long = true
is_closing close_short = true
is_closing _ = false

module _ {F : Type 0} ⦃num : Num F⦄ where
  open num use {add, sub, mul, div, lt, decimal, round}

  -- step 2, for a position that was not opened on this candle
  unfoldable pub check_stops :
      EngineState F → Option F → Bool → Candle F → ℕ → EngineState F × Option F
  check_stops eng trade just_opened candle idx = elim eng.open_position [
    | none ↦ (eng, trade)
    | some pos ↦
        if not just_opened && ltb pos.opened_at_candle_index idx
        then elim (check_tp_sl pos candle) [
          | none ↦ (eng, trade)
          | some hit ↦
              let (eng', net) = execute_close eng pos hit.price candle.timestamp hit.reason in
              (eng', elim trade [ none ↦ some net | some first ↦ some first ])
        ]
        else (eng, trade)
  ]

  -- steps 1 and 2, with the first trade that they closed
  unfoldable pub fill_and_check : EngineState F → Candle F → ℕ → EngineState F × Option F
  fill_and_check eng candle idx =
      let (opened, just_opened) = execute_pending_open eng candle idx in
      let (closed, trade) = execute_pending_close opened candle in
      if just_opened
      then check_stops opened none true candle idx
      else check_stops closed trade false candle idx

  abbrev set_close : EngineState F → SimAction → ℕ → EngineState F
  set_close eng action ts =
      if is_closing action && is_some eng.open_position
      then record eng { pending_close = some ts }
      else eng

  -- step 5
  unfoldable pub record_intent : EngineState F → Answer F → ℕ → EngineState F
  record_intent eng failed ts = eng
  record_intent eng (finished false action size sl tp) ts = eng
  record_intent eng (finished true action size sl tp) ts =
      let counted = record eng { gate_passed_count = eng.gate_passed_count + 1 } in
      elim (is_opening action) [
        | none ↦ set_close counted action ts
        | some side ↦
            if is_some eng.open_position then set_close counted action ts else record counted {
              pending_open = some (record {
                side = side;
                triggered_at = ts;
                size = or_default size nought;
                sl_price = sl;
                tp_price = tp;
              });
            }
      ]

  abbrev mark_of : EngineState F → Candle F → F
  mark_of eng candle = add eng.current_balance (elim eng.open_position as (λ _. F) [
    | none ↦ nought
    | some pos ↦ gross_pnl pos candle.close_price
  ])

  abbrev pub flush : Settings F → EngineState F → EngineState F
  flush cfg eng =
      if leb cfg.equity_insert_batch (length eng.equity_buffer)
      then record eng {
        equity_written = eng.equity_written ++ eng.equity_buffer;
        equity_buffer = [];
      }
      else eng

  -- step 6, with the count of the candle
  unfoldable pub write_equity : Settings F → EngineState F → Candle F → Option F → EngineState F
  write_equity cfg eng candle trade =
      let mark = mark_of eng candle in
      let peak = max eng.peak_mark_balance mark in
      let drawdown = if lt nought peak then mul (div (sub peak mark) peak) hundred else nought in
      let row : EquityRow F = record {
        candle_ts = candle.timestamp;
        realized_balance = eng.current_balance;
        mark_balance = mark;
        trade_pnl = trade;
        drawdown_pct = round drawdown 4;
      } in
      flush cfg (record eng {
        peak_mark_balance = peak;
        equity_buffer = eng.equity_buffer ++ row ∷ [];
        candles_processed = eng.candles_processed + 1;
      })

  -- the failure rate is over the threshold, after 100 candles
  abbrev pub too_many_failures : Settings F → EngineState F → Bool
  too_many_failures cfg eng =
      leb 100 eng.candles_processed
      && lt cfg.failure_threshold
          (div (decimal eng.llm_failures 0) (decimal eng.candles_processed 0))

  -- steps 4 to 6
  unfoldable pub answer_candle :
      Settings F → EngineState F → Option F → Candle F → Answer F → Progress F
  answer_candle cfg eng trade candle failed =
      let counted = record eng {
        total_signals = eng.total_signals + 1;
        llm_failures = eng.llm_failures + 1;
      } in
      if too_many_failures cfg counted
      then aborted counted
      else going (write_equity cfg counted candle none)
  answer_candle cfg eng trade candle (finished passed action size sl tp) =
      let counted = record eng { total_signals = eng.total_signals + 1 } in
      going (
        write_equity cfg
          (record_intent counted (finished passed action size sl tp) candle.timestamp) candle trade)

  -- the body of the loop
  unfoldable pub candle_step : Settings F → EngineState F → ℕ → Candle F → Answer F → Progress F
  candle_step cfg eng idx candle answer =
      let (filled, trade) = fill_and_check eng candle idx in
      answer_candle cfg filled trade candle answer

  -- the loop from the candle with index `idx` on
  unfoldable pub candle_loop :
      Settings F → EngineState F → ℕ → List (Candle F × Answer F) → Progress F
  candle_loop cfg eng idx [] = going eng
  candle_loop cfg eng idx ((candle, answer) ∷ rest) = elim (candle_step cfg eng idx candle answer) [
    | aborted eng' ↦ aborted eng'
    | going eng' ↦ candle_loop cfg eng' (suc idx) rest
  ]

  abbrev pub close_at_end :
      EngineState F → Option (SimPosition F) → Option (Candle F) → EngineState F
  close_at_end eng none last = eng
  close_at_end eng (some pos) none = eng
  close_at_end eng (some pos) (some last) =
      (execute_close eng pos last.close_price last.timestamp CloseReason.run_end).0

  -- after the loop: the open position is closed at the last candle, and the rows are flushed
  unfoldable pub end_of_run : EngineState F → Option (Candle F) → EngineState F
  end_of_run eng last =
      let closed = close_at_end eng eng.open_position last in
      record closed {
        equity_written = closed.equity_written ++ closed.equity_buffer;
        equity_buffer = [];
      }

  abbrev pub start : F → F → F → EngineState F
  start balance slippage fee = record {
    initial_balance = balance;
    current_balance = balance;
    slippage_pct = slippage;
    fee_pct = fee;
    open_position = none;
    pending_open = none;
    pending_close = none;
    llm_failures = 0;
    candles_processed = 0;
    total_signals = 0;
    gate_passed_count = 0;
    peak_mark_balance = balance;
    equity_buffer = [];
    equity_written = [];
    closed_trade_records = [];
    closed_positions = [];
    total_fees_paid = nought;
    long_count = 0;
    short_count = 0;
  }
