-- ===== src/StrategyTester/Engine/Ending.antt =====
-- The books of a replay at its end.
use matp.Base.{
  ℕ, ◌+◌, ◌≡◌, refl, sym, ◌∙◌, none, some, List, [], ◌++◌, length, length-append, arith, Option,
}
use matp.Base.Num.{Num}
use matp.StrategyTester.Positions.{Candle, SimPosition, CloseReason, EngineState, execute_close}
use matp.StrategyTester.Engine.{
  Answer, Settings, going, candle_loop, close_at_end, end_of_run, start,
}
use matp.StrategyTester.Engine.Bookkeeping.{IsSettled, execute_close-IsSettled, run-IsSettled}

module _ {F : Type 0} where
  -- What a finished run has booked: nothing is open or unwritten, each processed candle has one
  -- written equity row, and each closed position is one trade, counted on one side.
  pub record IsBooked (eng : EngineState F) : Type 0 where
    pub shut : eng.open_position ≡ none
    pub flushed : eng.equity_buffer ≡ []
    pub plotted : length eng.equity_written ≡ eng.candles_processed
    pub counted : eng.long_count + eng.short_count ≡ length eng.closed_positions

  -- with no position, or after its close
  shut-IsBooked :
      (eng : EngineState F)
      → eng.open_position ≡ none
      → IsSettled eng
      → IsBooked (record eng {
        equity_written = eng.equity_written ++ eng.equity_buffer;
        equity_buffer = [];
      })
  shut-IsBooked eng n h = record {
    shut = n;
    flushed = refl;
    plotted = length-append eng.equity_written eng.equity_buffer ∙ h.plotted;
    counted = h.counted ∙ sym h.recorded;
  }

module _ {F : Type 0} ⦃num : Num F⦄ (cfg : Settings F) where
  close_at_end-IsSettled :
      (eng : EngineState F) (o : Option (SimPosition F)) (last : Candle F)
      → eng.open_position ≡ o
      → IsSettled eng
      → IsSettled (close_at_end eng o (some last))
        × ((close_at_end eng o (some last)).open_position ≡ none)
  close_at_end-IsSettled eng none last e h = (h, e)
  close_at_end-IsSettled eng (some pos) last e h = (
    execute_close-IsSettled cfg eng pos last.close_price last.timestamp CloseReason.run_end
        (ground (arith, h.opening)) h,
    unfold execute_close in refl,
  )

  -- A run that starts with a balance and gets through its candles without an abort has booked
  -- everything when the position that it still holds is closed at the last candle.
  pub end_of_run-IsBooked :
      (balance slippage fee : F) (idx : ℕ) (rows : List (Candle F × Answer F)) (eng : EngineState F)
      (last : Candle F)
      → candle_loop cfg (start balance slippage fee) idx rows ≡ going eng
      → IsBooked (end_of_run eng (some last))
  unfolding end_of_run
  end_of_run-IsBooked balance slippage fee idx rows eng last e =
      let h : IsSettled eng = rw e at (run-IsSettled cfg balance slippage fee idx rows) in
      let (settled, shut) = close_at_end-IsSettled eng eng.open_position last refl h in
      shut-IsBooked (close_at_end eng eng.open_position (some last)) shut settled
