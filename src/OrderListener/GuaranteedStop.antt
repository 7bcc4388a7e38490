-- ===== src/OrderListener/GuaranteedStop.antt =====
-- order-listener/app/webhook_handler.py: `compute_guaranteed_sl` and `_infer_price_decimals`, and
-- `fallback_mmr` of order-listener/app/config.py. A result `none` is the ZeroDivisionError of a leverage
-- of zero. Leverages are Python integers.
pub mod Tighter
use matp.Base.{ℕ, suc, Bool, true, false, not, ◌&&◌, Option, none, some, if◌then◌else◌}
use matp.Base.Int.{ℤ, pos, negsuc}
use matp.Base.Num.{Num, nought, one, max, min}

pub data PositionSide : Type 0 where
  long short : PositionSide

pub data SlSource : Type 0 where
  strategy liquidation_safe : SlSource

module _ {F : Type 0} ⦃num : Num F⦄ where
  open num use {add, sub, mul, div, neg, lt, le, eq, decimal, round}

  -- `float(n)` of an integer
  abbrev pub of_int : ℤ → F
  of_int (pos n) = decimal n 0
  of_int (negsuc n) = neg (decimal (suc n) 0)

  -- `_infer_price_decimals`
  unfoldable pub infer_price_decimals : F → ℕ
  infer_price_decimals price =
      if le (decimal 10000 0) price
      then 1
      else if le (decimal 1000 0) price
      then 2
      else if le (decimal 100 0) price
      then 3
      else if le (decimal 10 0) price
      then 4
      else if le (decimal 1 0) price
      then 5
      else 6

  -- `DEGENERATE_SL_DIST` and `MMR_CONSERVATISM_BUFFER`
  abbrev pub degenerate_sl_dist : F
  degenerate_sl_dist = decimal 5 4

  abbrev pub mmr_conservatism_buffer : F
  mmr_conservatism_buffer = decimal 15 4

  unfoldable pub fallback_mmr : ℤ → F
  fallback_mmr leverage =
      if le (of_int leverage) nought
      then one
      else add (div one (mul (decimal 2 0) (of_int leverage))) mmr_conservatism_buffer

  -- the distance of the liquidation-safe stop, as a fraction of the entry
  unfoldable pub sl_distance : ℤ → F → F
  sl_distance leverage mmr =
      let natural = sub (div one (of_int leverage)) mmr in
      if le natural nought then degenerate_sl_dist else natural

  -- `sl_liq`
  unfoldable pub liquidation_sl : F → PositionSide → F → F
  liquidation_sl entry long distance = mul entry (sub one distance)
  liquidation_sl entry short distance = mul entry (add one distance)

  -- the strategy's stop is on its side of the entry
  abbrev pub on_side : PositionSide → F → F → Bool
  on_side long entry sl = lt sl entry
  on_side short entry sl = lt entry sl

  -- the tighter of the strategy's stop and the liquidation-safe one, with its source
  unfoldable pub tighter_sl : PositionSide → F → F → F × SlSource
  tighter_sl long sl liq = (max sl liq, if le liq sl then strategy else liquidation_safe)
  tighter_sl short sl liq = (min sl liq, if le sl liq then strategy else liquidation_safe)

  -- before it is rounded
  unfoldable pub choose_sl : PositionSide → F → Option F → F → F × SlSource
  choose_sl side entry none liq = (liq, liquidation_safe)
  choose_sl side entry (some sl) liq =
      if on_side side entry sl then tighter_sl side sl liq else (liq, liquidation_safe)

  unfoldable pub compute_guaranteed_sl : F → ℤ → PositionSide → Option F → F → Option (F × SlSource)
  compute_guaranteed_sl entry leverage side strategy_sl mmr =
      let (sl, source) =
        choose_sl side entry strategy_sl (liquidation_sl entry side (sl_distance leverage mmr)) in
      if eq (of_int leverage) nought
      then none
      else some (round sl (infer_price_decimals entry), source)
