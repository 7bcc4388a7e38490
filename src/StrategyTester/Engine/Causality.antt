-- ===== src/StrategyTester/Engine/Causality.antt =====
-- No fill before the next candle, and no close on the candle that fills.
use matp.Base.{ℕ, true, false, ◌≡◌, Option, none, some, arith}
use matp.Base.Num.{Num}
use matp.StrategyTester.Positions.{
  Candle, OpenIntent, EngineState, opened, execute_pending_open, execute_pending_close,
}
use matp.StrategyTester.Engine.{
  Answer, failed, finished, Settings, check_stops, fill_and_check, record_intent, write_equity,
  answer_candle, candle_step,
}
use matp.StrategyTester.Engine.Bookkeeping.{state_of}

module _ {F : Type 0} ⦃num : Num F⦄ (cfg : Settings F) where
  answer_candle-open_position :
      (eng : EngineState F) (trade : Option F) (candle : Candle F) (answer : Answer F)
      → let after = state_of (answer_candle cfg eng trade candle answer) in
        (after.open_position ≡ eng.open_position) × (after.closed_positions ≡ eng.closed_positions)
  unfolding answer_candle record_intent write_equity
  answer_candle-open_position eng trade candle failed = ground arith
  answer_candle-open_position eng trade candle (finished false action size sl tp) = ground arith
  answer_candle-open_position eng trade candle (finished true action size sl tp) = ground arith

  -- On the candle that fills an opening order, the position that it opens stays open and nothing is
  -- closed, whatever the candle touches and whatever the strategy answers.
  pub candle_step-opens_only :
      (eng : EngineState F) (intent : OpenIntent F) (idx : ℕ) (candle : Candle F)
      (answer : Answer F)
      → eng.pending_open ≡ some intent
      → let after = state_of (candle_step cfg eng idx candle answer) in
        (after.open_position ≡ some (opened eng intent candle idx))
        × (after.closed_positions ≡ eng.closed_positions)
  unfolding candle_step fill_and_check execute_pending_open check_stops
  candle_step-opens_only eng intent idx candle answer e =
      let (filled, trade) = fill_and_check eng candle idx in
      let kept = answer_candle-open_position filled trade candle answer in ground arith

  -- Without a position and a waiting order, a candle opens and closes nothing: what the strategy
  -- answers on it can be filled on a later candle only.
  pub candle_step-fills_later :
      (eng : EngineState F) (idx : ℕ) (candle : Candle F) (answer : Answer F)
      → eng.pending_open ≡ none
      → eng.open_position ≡ none
      → let after = state_of (candle_step cfg eng idx candle answer) in
        (after.open_position ≡ none) × (after.closed_positions ≡ eng.closed_positions)
  unfolding candle_step fill_and_check execute_pending_open execute_pending_close check_stops
  candle_step-fills_later eng idx candle answer e n =
      let (filled, trade) = fill_and_check eng candle idx in
      let kept = answer_candle-open_position filled trade candle answer in ground arith
