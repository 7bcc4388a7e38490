-- ===== src/OrderListener/StopRevalidation.antt =====
-- order-listener/app/stop_revalidation.py: stops that the fill has overtaken are moved to the distance
-- that they had from the reference. The numbers are `Decimal`s; a log line is left out.
pub mod Viable
use matp.Base.{Bool, true, false, not, ◌&&◌, Option, none, some, or_default, if◌then◌else◌}
use matp.Base.Num.{Num, nought, one, max}

-- The entries of `changes`: from and to, for each stop that was moved.
pub record Changes (F : Type 0) : Type 0 where
  pub sl_price : Option (F × F)
  pub tp_price : Option (F × F)

module _ {F : Type 0} ⦃num : Num F⦄ where
  open num use {add, sub, mul, div, abs, lt, le, decimal}

  -- `_MIN_STOP_DIST_FRAC`
  abbrev pub min_stop_dist : F
  min_stop_dist = decimal 1 3

  -- `_DISTANCE_TOLERANCE`
  abbrev distance_tolerance : F
  distance_tolerance = decimal 2 2

  -- `_frac_dist`
  unfoldable pub frac_dist : F → F → F
  frac_dist ref price =
      if le ref nought then min_stop_dist else max (div (abs (sub ref price)) ref) min_stop_dist

  -- `_distance_drifted`
  unfoldable pub distance_drifted : F → F → F → Bool
  unfolding frac_dist
  distance_drifted ref fill stop =
      let asked = frac_dist ref stop in
      let got = div (abs (sub fill stop)) fill in
      lt (mul asked distance_tolerance) (abs (sub got asked))

  -- A stop below the fill (the stop-loss of a long, the target of a short) or above it is far
  -- enough from the fill.
  unfoldable pub is_viable : Bool → F → F → Bool
  is_viable true fill stop = le stop (mul fill (sub one min_stop_dist))
  is_viable false fill stop = le (mul fill (add one min_stop_dist)) stop

  -- the level at a fractional distance below or above the fill
  abbrev pub anchored : Bool → F → F → F
  anchored true fill dist = mul fill (sub one dist)
  anchored false fill dist = mul fill (add one dist)

  -- one leg: the stop, and its change
  unfoldable pub revalidate_leg : Bool → F → F → Bool → F → F × Option (F × F)
  revalidate_leg below ref fill distance_based stop =
      if is_viable below fill stop && not (distance_based && distance_drifted ref fill stop)
      then (stop, none)
      else (let new = anchored below fill (frac_dist ref stop) in (new, some (stop, new)))

  abbrev leg_of : (F → F × Option (F × F)) → Option F → Option F × Option (F × F)
  leg_of check none = (none, none)
  leg_of check (some stop) = let (new, change) = check stop in (some new, change)

  -- `revalidate_stops_for_fill`; `long_side` is `side == "long"`
  unfoldable pub revalidate_stops :
      Bool → Option F → Option F → Option F → Option F → Bool → Option F × Option F × Changes F
  revalidate_stops long_side ref_price fill_price sl_price tp_price distance_based =
      let ref = or_default ref_price nought in
      let fill = or_default fill_price nought in
      let (sl, sl_change) = leg_of (revalidate_leg long_side ref fill distance_based) sl_price in
      let (tp, tp_change) =
        leg_of (revalidate_leg (not long_side) ref fill distance_based) tp_price in
      if le fill nought
      then (sl_price, tp_price, record { sl_price = none; tp_price = none })
      else (sl, tp, record { sl_price = sl_change; tp_price = tp_change })
