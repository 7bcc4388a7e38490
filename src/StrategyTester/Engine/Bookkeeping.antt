-- ===== src/StrategyTester/Engine/Bookkeeping.antt =====
-- The books of a replay: orders that wait, trades and equity rows.
use matp.Base.{
  ℕ, suc, ◌+◌, ◌≡◌, Bool, true, false, Option, none, is_some, List, [], ◌∷◌, ◌++◌, length,
  length-append, arith, not, ◌&&◌, Bool-cases, Option-cases, ltb, leb, ap, sym, ◌∙◌, inl, inr,
}
use matp.Base.Num.{Num}
use matp.StrategyTester.Positions.{
  Side, long, short, Candle, SimPosition, CloseReason, EngineState, execute_pending_open,
  execute_close, execute_pending_close, check_tp_sl,
}
use matp.StrategyTester.Engine.{
  Answer, failed, finished, Settings, Progress, going, aborted, check_stops, fill_and_check,
  record_intent, write_equity, answer_candle, candle_step, too_many_failures, flush, candle_loop,
  start,
}

module _ {F : Type 0} where
  -- What holds between two candles: an order waits only where it can be filled, an opening order
  -- without a position and a closing one with it; every closed trade is counted on one side.
  pub record IsSettled (eng : EngineState F) : Type 0 where
    pub opening : is_some eng.pending_open && is_some eng.open_position ≡ false
    pub closing : is_some eng.pending_close && not (is_some eng.open_position) ≡ false
    pub counted : eng.long_count + eng.short_count ≡ length eng.closed_trade_records
    pub recorded : length eng.closed_positions ≡ length eng.closed_trade_records
    pub plotted : length eng.equity_written + length eng.equity_buffer ≡ eng.candles_processed

  abbrev pub state_of : Progress F → EngineState F
  state_of (going eng) = eng
  state_of (aborted eng) = eng

length_snoc : {A : Type 0} → (xs : List A) (x : A) → length (xs ++ x ∷ []) ≡ length xs + 1
length_snoc xs x = length-append xs (x ∷ [])

count_one :
    (side : Side) (a b n : ℕ)
    → a + b ≡ n
    → elim side as (λ _. ℕ) [ long ↦ a + 1 | short ↦ a ]
        + elim side as (λ _. ℕ) [ long ↦ b | short ↦ b + 1 ]
      ≡ n + 1
count_one long a b n h = ground arith
count_one short a b n h = ground arith

module _ {F : Type 0} ⦃num : Num F⦄ (cfg : Settings F) where
  pub execute_close-IsSettled :
      (eng : EngineState F) (pos : SimPosition F) (price : F) (ts : ℕ) (r : CloseReason)
      → eng.pending_open ≡ none
      → IsSettled eng
      → IsSettled (execute_close eng pos price ts r).0
  unfolding execute_close
  execute_close-IsSettled eng pos price ts r p h =
      let count_rows : length eng.closed_positions + 1 ≡ length eng.closed_trade_records + 1 =
        ground arith in
      record {
        opening = ground arith;
        closing = ground arith;
        counted =
            count_one pos.side eng.long_count eng.short_count _ h.counted ∙ sym (length_snoc _ _);
        plotted = ground arith;
        recorded = length_snoc _ _ ∙ count_rows ∙ sym (length_snoc _ _);
      }

  -- what the first steps keep, when no opening order waits
  execute_pending_close-IsSettled :
      (eng : EngineState F) (candle : Candle F)
      → eng.pending_open ≡ none
      → IsSettled eng
      → IsSettled (execute_pending_close eng candle).0
        × ((execute_pending_close eng candle).0.pending_open ≡ none)
  unfolding execute_pending_close execute_close
  execute_pending_close-IsSettled eng candle p h = elim (Option-cases eng.pending_close) [
    | inl n ↦ rw (n, execute_pending_close) (ground arith)
    | inr (ts, e) ↦ elim (Option-cases eng.open_position) [
      | inl n ↦ rw (e, n, execute_pending_close) (ground arith)
      | inr (pos, f) ↦
          rw (e, f, execute_pending_close)
            (
              execute_close-IsSettled eng pos candle.open_price candle.timestamp
                  CloseReason.llm_close p h,
              p,
            )
    ]
  ]

  check_stops-IsSettled :
      (eng : EngineState F) (trade : Option F) (just_opened : Bool) (candle : Candle F) (idx : ℕ)
      → eng.pending_open ≡ none
      → IsSettled eng
      → IsSettled (check_stops eng trade just_opened candle idx).0
  unfolding check_stops
  check_stops-IsSettled eng trade just_opened candle idx p h =
      elim (Option-cases eng.open_position) [
        | inl n ↦ rw (n, check_stops) h
        | inr (pos, e) ↦ elim (Bool-cases (not just_opened && ltb pos.opened_at_candle_index idx)) [
          | inr off ↦ rw (e, check_stops, off) h
          | inl on ↦ elim (Option-cases (check_tp_sl pos candle)) [
            | inl n ↦ rw (e, check_stops, on, n) h
            | inr (hit, f) ↦
                rw (e, check_stops, on, f)
                  (execute_close-IsSettled eng pos hit.price candle.timestamp hit.reason p h)
          ]
        ]
      ]

  fill_and_check-IsSettled :
      (eng : EngineState F) (candle : Candle F) (idx : ℕ)
      → IsSettled eng
      → IsSettled (fill_and_check eng candle idx).0
  unfolding fill_and_check execute_pending_open check_stops
  fill_and_check-IsSettled eng candle idx h = elim (Option-cases eng.pending_open) [
    | inl n ↦
        let (kept, none_waits) = execute_pending_close-IsSettled eng candle n h in
        rw (n, fill_and_check, execute_pending_open)
          (check_stops-IsSettled _ (execute_pending_close eng candle).1 false candle idx none_waits
            kept)
    | inr (intent, e) ↦ rw (e, fill_and_check, execute_pending_open, check_stops) (ground arith)
  ]

  record_intent-IsSettled :
      (eng : EngineState F) (answer : Answer F) (ts : ℕ)
      → IsSettled eng
      → IsSettled (record_intent eng answer ts)
  unfolding record_intent
  record_intent-IsSettled eng failed ts h = h
  record_intent-IsSettled eng (finished false action size sl tp) ts h = h
  record_intent-IsSettled eng (finished true action size sl tp) ts h = ground arith

  flush-IsSettled : (eng : EngineState F) → IsSettled eng → IsSettled (flush cfg eng)
  flush-IsSettled eng h =
      let moved = length-append eng.equity_written eng.equity_buffer in
      elim (Bool-cases (leb cfg.equity_insert_batch (length eng.equity_buffer))) [
        | inl on ↦ rw (flush, on) (ground arith)
        | inr off ↦ rw (flush, off) h
      ]

  write_equity-IsSettled :
      (eng : EngineState F) (candle : Candle F) (trade : Option F)
      → IsSettled eng
      → IsSettled (write_equity cfg eng candle trade)
  unfolding write_equity
  write_equity-IsSettled eng candle trade h =
      let one_more : length eng.equity_written + (length eng.equity_buffer + 1)
          ≡ eng.candles_processed + 1 =
        ground arith in
      flush-IsSettled _ (record {
        opening = h.opening;
        closing = h.closing;
        counted = h.counted;
        recorded = h.recorded;
        plotted = ap (λ n. length eng.equity_written + n) (length_snoc _ _) ∙ one_more;
      })

  answer_candle-IsSettled :
      (eng : EngineState F) (trade : Option F) (candle : Candle F) (answer : Answer F)
      → IsSettled eng
      → IsSettled (state_of (answer_candle cfg eng trade candle answer))
  unfolding answer_candle
  answer_candle-IsSettled eng trade candle failed h =
      let counted = record eng {
        total_signals = eng.total_signals + 1;
        llm_failures = eng.llm_failures + 1;
      } in
      let kept : IsSettled counted = ground arith in
      elim (Bool-cases (too_many_failures cfg counted)) [
        | inl on ↦ rw (answer_candle, on) kept
        | inr off ↦ rw (answer_candle, off) (write_equity-IsSettled counted candle none kept)
      ]
  answer_candle-IsSettled eng trade candle (finished passed action size sl tp) h =
      let counted = record eng { total_signals = eng.total_signals + 1 } in
      let kept : IsSettled counted = ground arith in
      write_equity-IsSettled _ candle trade
        (record_intent-IsSettled counted (finished passed action size sl tp) candle.timestamp kept)

  candle_step-IsSettled :
      (eng : EngineState F) (idx : ℕ) (candle : Candle F) (answer : Answer F)
      → IsSettled eng
      → IsSettled (state_of (candle_step cfg eng idx candle answer))
  unfolding candle_step
  candle_step-IsSettled eng idx candle answer h =
      answer_candle-IsSettled _ (fill_and_check eng candle idx).1 candle answer
        (fill_and_check-IsSettled eng candle idx h)

  step_then_loop :
      (p : Progress F) (loop : EngineState F → Progress F)
      → ((eng : EngineState F) → IsSettled eng → IsSettled (state_of (loop eng)))
      → IsSettled (state_of p)
      → IsSettled (
          state_of
            (elim p as (λ _. Progress F) [ aborted eng ↦ aborted eng | going eng ↦ loop eng ]))
  step_then_loop (aborted eng) loop goes_on k = k
  step_then_loop (going eng) loop goes_on k = goes_on eng k

  -- from settled books, any run of the loop ends with settled books
  pub candle_loop-IsSettled :
      (eng : EngineState F) (idx : ℕ) (rows : List (Candle F × Answer F))
      → IsSettled eng
      → IsSettled (state_of (candle_loop cfg eng idx rows))
  unfolding candle_loop
  candle_loop-IsSettled eng idx [] h = h
  candle_loop-IsSettled eng idx ((candle, answer) ∷ rest) h =
      step_then_loop (candle_step cfg eng idx candle answer)
        (λ eng'. candle_loop cfg eng' (suc idx) rest)
        (λ eng' k. candle_loop-IsSettled eng' (suc idx) rest k)
        (candle_step-IsSettled eng idx candle answer h)

  -- The books of a run that starts with a balance are settled after any number of candles: an order
  -- to open waits only without a position and one to close only with it, each closed trade is one
  -- row and counted on one side, and each processed candle has one equity row.
  pub run-IsSettled :
      (balance slippage fee : F) (idx : ℕ) (rows : List (Candle F × Answer F))
      → IsSettled (state_of (candle_loop cfg (start balance slippage fee) idx rows))
  run-IsSettled balance slippage fee idx rows =
      candle_loop-IsSettled (start balance slippage fee) idx rows (ground arith)
