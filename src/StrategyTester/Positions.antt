-- ===== src/StrategyTester/Positions.antt =====
-- strategy-tester/app/engine/backtest_engine.py: the data of a run, and the opening and closing of its
-- position. Identifiers and database columns that only repeat the run are left out; the rows that
-- `_write_close_position` writes are the list `closed_positions`.
pub mod Hits
use matp.Base.{
  ℕ, ◌+◌, Bool, true, false, not, ◌&&◌, Option, none, some, List, [], ◌∷◌, ◌++◌, ltb, if◌then◌else◌,
}
use matp.Base.Num.{Num, nought, one, max}

pub data Side : Type 0 where
  long short : Side

pub record Candle (F : Type 0) : Type 0 where
  pub timestamp : ℕ
  pub open_price : F
  pub high : F
  pub low : F
  pub close_price : F

pub record SimPosition (F : Type 0) : Type 0 where
  pub side : Side
  pub entry_price : F
  pub size : F
  pub sl_price : Option F
  pub tp_price : Option F
  pub fee_open : F
  pub opened_at : ℕ
  pub opened_at_candle_index : ℕ
  pub leverage : ℕ

pub record OpenIntent (F : Type 0) : Type 0 where
  pub side : Side
  pub triggered_at : ℕ
  pub size : F
  pub sl_price : Option F
  pub tp_price : Option F

pub data CloseReason : Type 0 where
  tp_hit sl_hit llm_close run_end : CloseReason

-- `_TpSlHit`
pub record Hit (F : Type 0) : Type 0 where
  pub price : F
  pub reason : CloseReason

pub record Trade (F : Type 0) : Type 0 where
  pub net_pnl : F
  pub side : Side
  pub closed_at : ℕ

pub record ClosedPosition (F : Type 0) : Type 0 where
  pub position : SimPosition F
  pub closing_price : F
  pub close_reason : CloseReason
  pub closed_at : ℕ

pub record EquityRow (F : Type 0) : Type 0 where
  pub candle_ts : ℕ
  pub realized_balance : F
  pub mark_balance : F
  pub trade_pnl : Option F
  pub drawdown_pct : F

-- `_EngineState`; `equity_written` is what was flushed from the buffer
pub record EngineState (F : Type 0) : Type 0 where
  pub initial_balance : F
  pub current_balance : F
  pub slippage_pct : F
  pub fee_pct : F
  pub open_position : Option (SimPosition F)
  pub pending_open : Option (OpenIntent F)
  pub pending_close : Option ℕ
  pub llm_failures : ℕ
  pub candles_processed : ℕ
  pub total_signals : ℕ
  pub gate_passed_count : ℕ
  pub peak_mark_balance : F
  pub equity_buffer : List (EquityRow F)
  pub equity_written : List (EquityRow F)
  pub closed_trade_records : List (Trade F)
  pub closed_positions : List (ClosedPosition F)
  pub total_fees_paid : F
  pub long_count : ℕ
  pub short_count : ℕ

module _ {F : Type 0} ⦃num : Num F⦄ where
  open num use {add, sub, mul, div, abs, lt, le, eq, decimal}

  abbrev pub hundred : F
  hundred = decimal 100 0

  -- `_compute_mark_pnl` and `_gross_pnl`, which are the same
  unfoldable pub gross_pnl : SimPosition F → F → F
  gross_pnl pos price = elim pos.side [
    | long ↦ mul (mul (sub price pos.entry_price) pos.size) (decimal pos.leverage 0)
    | short ↦ mul (mul (sub pos.entry_price price) pos.size) (decimal pos.leverage 0)
  ]

  -- `level and test(level)`: the level is set, and not zero, and passes
  abbrev pub touched : Option F → (F → Bool) → Bool
  touched none test = false
  touched (some level) test = not (eq level nought) && test level

  abbrev pub tp_touched : SimPosition F → Candle F → Bool
  tp_touched pos candle = touched pos.tp_price (elim pos.side [
    | long ↦ λ level. le level candle.high
    | short ↦ λ level. le candle.low level
  ])

  abbrev pub sl_touched : SimPosition F → Candle F → Bool
  sl_touched pos candle = touched pos.sl_price (elim pos.side [
    | long ↦ λ level. le candle.low level
    | short ↦ λ level. le level candle.high
  ])

  abbrev at_level : CloseReason → Option F → Option (Hit F)
  at_level reason none = none
  at_level reason (some price) = some (record { price = price; reason = reason })

  -- both levels on one candle: the closer one to the entry, the stop on a tie
  abbrev closer : F → Option F → Option F → Option (Hit F)
  closer entry none tp = at_level CloseReason.tp_hit tp
  closer entry (some sl) none = at_level CloseReason.sl_hit (some sl)
  closer entry (some sl) (some tp) =
      if le (abs (sub entry sl)) (abs (sub entry tp))
      then some (record { price = sl; reason = CloseReason.sl_hit })
      else some (record { price = tp; reason = CloseReason.tp_hit })

  -- `_check_tp_sl`
  unfoldable pub check_tp_sl : SimPosition F → Candle F → Option (Hit F)
  check_tp_sl pos candle =
      let tp = tp_touched pos candle in
      let sl = sl_touched pos candle in
      if not tp && not sl
      then none
      else if tp && not sl
      then at_level CloseReason.tp_hit pos.tp_price
      else if sl && not tp
      then at_level CloseReason.sl_hit pos.sl_price
      else closer pos.entry_price pos.sl_price pos.tp_price

  -- `_apply_close_slippage`
  unfoldable pub apply_close_slippage : F → Side → F → F
  apply_close_slippage price long pct = mul price (sub one (div pct hundred))
  apply_close_slippage price short pct = mul price (add one (div pct hundred))

  abbrev open_fill : F → Side → F → F
  open_fill price long pct = mul price (add one (div pct hundred))
  open_fill price short pct = mul price (sub one (div pct hundred))

  -- the position that an intent opens
  unfoldable pub opened : EngineState F → OpenIntent F → Candle F → ℕ → SimPosition F
  opened eng intent candle idx =
      let fill = open_fill candle.open_price intent.side eng.slippage_pct in
      record {
        side = intent.side;
        entry_price = fill;
        size = intent.size;
        sl_price = intent.sl_price;
        tp_price = intent.tp_price;
        fee_open = div (mul (mul fill intent.size) eng.fee_pct) hundred;
        opened_at = candle.timestamp;
        opened_at_candle_index = idx;
        leverage = 1;
      }

  -- `_execute_pending_open`
  unfoldable pub execute_pending_open : EngineState F → Candle F → ℕ → EngineState F × Bool
  unfolding opened
  execute_pending_open eng candle idx = elim eng.pending_open [
    | none ↦ (eng, false)
    | some intent ↦
        let pos = opened eng intent candle idx in
        (
          record eng {
            pending_open = none;
            current_balance = sub eng.current_balance pos.fee_open;
            open_position = some pos;
          },
          true,
        )
  ]

  -- `_execute_close`, on the open position: the state and the net result of the trade
  unfoldable pub execute_close :
      EngineState F → SimPosition F → F → ℕ → CloseReason → EngineState F × F
  unfolding gross_pnl apply_close_slippage
  execute_close eng pos fill_price fill_ts reason =
      let slipped = apply_close_slippage fill_price pos.side eng.slippage_pct in
      let gross = gross_pnl pos slipped in
      let fee = div (mul (mul slipped pos.size) eng.fee_pct) hundred in
      let true_net = sub (sub gross pos.fee_open) fee in
      (
        record eng {
          current_balance = add eng.current_balance (sub gross fee);
          total_fees_paid = add eng.total_fees_paid (add pos.fee_open fee);
          closed_trade_records =
              eng.closed_trade_records
              ++ record { net_pnl = true_net; side = pos.side; closed_at = fill_ts } ∷ [];
          closed_positions =
              eng.closed_positions
              ++ record {
                position = pos;
                closing_price = slipped;
                close_reason = reason;
                closed_at = fill_ts;
              }
                ∷ [];
          long_count = elim pos.side [ long ↦ eng.long_count + 1 | short ↦ eng.long_count ];
          short_count = elim pos.side [ long ↦ eng.short_count | short ↦ eng.short_count + 1 ];
          open_position = none;
          pending_close = none;
        },
        true_net,
      )

  -- `_execute_pending_close`: the state, and the result of the trade, if one was closed
  unfoldable pub execute_pending_close : EngineState F → Candle F → EngineState F × Option F
  execute_pending_close eng candle = elim eng.pending_close [
    | none ↦ (record eng { pending_close = none }, none)
    | some triggered ↦ elim eng.open_position [
      | none ↦ (record eng { pending_close = none }, none)
      | some pos ↦
          let (eng', net) =
            execute_close eng pos candle.open_price candle.timestamp CloseReason.llm_close in
          (eng', some net)
    ]
  ]
