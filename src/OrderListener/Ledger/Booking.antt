-- ===== src/OrderListener/Ledger/Booking.antt =====
-- `_book_realized_pnl` up to the drawdown check, and the check: `_is_drawdown_breached` with what
-- `_disable_if_drawdown_breached` reads.
use matp.Base.{Bool, true, false, ◌&&◌, none, some, if◌then◌else◌}
use matp.Base.Num.{Num, nought, one, max}
use matp.OrderListener.Webhook.{value_or}
use matp.OrderListener.Ledger.{Book}

module _ {F : Type 0} ⦃num : Num F⦄ where
  open num use {add, sub, mul, div, le, decimal}

  -- `COALESCE(allocation_peak, capital_allocation)`
  abbrev pub peak_of : Book F → F
  peak_of b = elim b.allocation_peak [ some peak ↦ peak | none ↦ b.capital_allocation ]

  unfoldable pub book_pnl : F → Book F → Book F
  book_pnl pnl b = record b {
    pnl_today = add b.pnl_today pnl;
    pnl_total = add b.pnl_total pnl;
    capital_allocation = add b.capital_allocation pnl;
    allocation_peak = some (max (peak_of b) (add b.capital_allocation pnl));
  }

  unfoldable pub is_drawdown_breached : F → F → F → Bool
  is_drawdown_breached cap_alloc peak max_dd_pct =
      if le peak nought
      then false
      else le cap_alloc (mul peak (sub one (div max_dd_pct (decimal 100 0))))

  -- the allocation, the peak and the percentage that are compared
  unfoldable pub drawdown_hit : Book F → Bool
  drawdown_hit b =
      b.enabled
      && is_drawdown_breached b.capital_allocation (value_or b.allocation_peak b.capital_allocation)
          (if num.eq b.max_drawdown_pct nought then decimal 50 0 else b.max_drawdown_pct)

  -- the strategy is disabled
  abbrev pub disabled : Book F → Book F
  disabled b = record b { enabled = false; stopped_by_drawdown = true }
