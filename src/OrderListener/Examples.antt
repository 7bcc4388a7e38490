-- ===== src/OrderListener/Examples.antt =====
-- Symbols and stops of a few orders.
use matp.Base.{ℕ, ◌*◌, true, false, ◌≡◌, refl, some}
use matp.Base.Text.{codes}
use matp.Base.Int.{pos, ◌-ℤ◌}
use matp.Base.Fixed.{Fixed, fixed_num, Fixed-IsOrdered, Fixed-IsMonotone, mul, div, abs, decimal}
use matp.OrderListener.StopRevalidation.{frac_dist, revalidate_leg, is_viable, revalidate_stops}
use matp.OrderListener.StopRevalidation.Viable.{Passes, revalidate_stops-is_viable}
use matp.OrderListener.SymbolValidator.{by_quote_variants, ResolvedSymbol}
use matp.OrderListener.SymbolFactory.{format, split_symbol}
use matp.OrderListener.SymbolFactory.RoundTrip.{usdt, split_symbol-format}

abbrev whole : ℕ → Fixed
whole n = pos (n * 1000000)

-- a long asked for at 100 with a stop at 98, and filled at 97
revalidate_stops-moved :
    (revalidate_stops true
      (some (whole 100))
      (some (whole 97))
      (some (whole 98))
      (some (whole 104))
      false).0
    ≡ some (pos 95060000)
unfolding revalidate_stops decimal revalidate_leg is_viable mul ◌-ℤ◌ frac_dist div abs
revalidate_stops-moved = refl

revalidate_stops-is_viable_example :
    let (sl', tp', _) =
      revalidate_stops true
        (some (whole 100))
        (some (whole 97))
        (some (whole 98))
        (some (whole 104))
        false in
    Passes (is_viable true (whole 97)) sl' × Passes (is_viable false (whole 97)) tp'
unfolding decimal
revalidate_stops-is_viable_example =
    revalidate_stops-is_viable Fixed-IsOrdered Fixed-IsMonotone true (some (whole 100)) (whole 97)
      (some (whole 98)) (some (whole 104)) false refl

abbrev stripped : ResolvedSymbol
stripped = record {
  execution_symbol = codes "BTC-USDT";
  price_stripped = true;
  coupling_used = some by_quote_variants;
}

split_symbol-format_example : split_symbol (codes "ETHUSDT") ≡ some (codes "ETH", codes "USDT")
unfolding format
split_symbol-format_example =
    split_symbol-format (codes "ETH") (codes "ETHUSDT") usdt refl refl refl
