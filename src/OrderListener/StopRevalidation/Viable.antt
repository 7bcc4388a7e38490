-- ===== src/OrderListener/StopRevalidation/Viable.antt =====
-- After revalidation every stop is far enough from the fill.
use matp.Base.{Bool, true, false, not, ◌≡◌, Option, none, some, or_default, arith}
use matp.Base.Num.{Num, nought, one, IsOrdered, IsMonotone}
use matp.Base.Order.{le_refl, le_of_not_le, le-max_right}
use matp.OrderListener.StopRevalidation.{
  Changes, min_stop_dist, frac_dist, is_viable, anchored, revalidate_leg, revalidate_stops,
}

-- The test passes on the value, if there is one.
abbrev pub Passes : {F : Type 0} → (F → Bool) → Option F → Type 0
Passes test none = Unit
Passes test (some x) = test x ≡ true

abbrev pub unchanged : {F : Type 0} → Changes F
unchanged = record { sl_price = none; tp_price = none }

module _ {F : Type 0} ⦃num : Num F⦄ where
  open num use {le, sub, add, mul}

  revalidate_leg-kept :
      (below : Bool) (ref fill stop : F)
      → is_viable below fill stop ≡ true
      → revalidate_leg below ref fill false stop ≡ (stop, none)
  unfolding revalidate_leg
  revalidate_leg-kept below ref fill stop h = ground arith

  -- Stops that are far enough from the fill are respected, unless the bracket was asked for as
  -- distances: they come back as they were, with no change recorded.
  pub revalidate_stops-kept :
      (long_side : Bool) (ref : Option F) (fill : F) (sl tp : Option F)
      → Passes (is_viable long_side fill) sl
      → Passes (is_viable (not long_side) fill) tp
      → revalidate_stops long_side ref (some fill) sl tp false ≡ (sl, tp, unchanged)
  unfolding revalidate_stops
  revalidate_stops-kept long_side ref fill none none h k = ground arith
  revalidate_stops-kept long_side ref fill none (some b) h k =
      ground (arith, revalidate_leg-kept (not long_side) (or_default ref nought) fill b)
  revalidate_stops-kept long_side ref fill (some a) none h k =
      ground (arith, revalidate_leg-kept long_side (or_default ref nought) fill a)
  revalidate_stops-kept long_side ref fill (some a) (some b) h k = ground (
    arith,
    revalidate_leg-kept long_side (or_default ref nought) fill a,
    revalidate_leg-kept (not long_side) (or_default ref nought) fill b,
  )

  module _ (order : IsOrdered F) (mono : IsMonotone F) where
    le-frac_dist : (ref stop : F) → le min_stop_dist (frac_dist ref stop) ≡ true
    unfolding frac_dist
    le-frac_dist ref stop = ground (
      arith,
      le_refl order min_stop_dist,
      le-max_right order (num.div (num.abs (sub ref stop)) ref) min_stop_dist,
    )

    anchored-is_viable :
        (below : Bool) (fill dist : F)
        → le nought fill ≡ true
        → le min_stop_dist dist ≡ true
        → is_viable below fill (anchored below fill dist) ≡ true
    unfolding is_viable
    anchored-is_viable true fill dist p h = mono.mul_mono fill _ _ p (mono.sub_anti one _ _ h)
    anchored-is_viable false fill dist p h = mono.mul_mono fill _ _ p (mono.add_mono one _ _ h)

    revalidate_leg-is_viable :
        (below : Bool) (ref fill : F) (distance_based : Bool) (stop : F)
        → le nought fill ≡ true
        → is_viable below fill (revalidate_leg below ref fill distance_based stop).0 ≡ true
    unfolding revalidate_leg
    revalidate_leg-is_viable below ref fill distance_based stop p =
        ground (arith, anchored-is_viable below fill (frac_dist ref stop) p (le-frac_dist ref stop))

    -- For a fill above zero every stop that comes back is on its side of the fill and at least the
    -- minimal distance from it, in both kinds of bracket.
    pub revalidate_stops-is_viable :
        (long_side : Bool) (ref : Option F) (fill : F) (sl tp : Option F) (distance_based : Bool)
        → le fill nought ≡ false
        → let (sl', tp', _) = revalidate_stops long_side ref (some fill) sl tp distance_based in
          Passes (is_viable long_side fill) sl' × Passes (is_viable (not long_side) fill) tp'
    unfolding revalidate_stops
    revalidate_stops-is_viable long_side ref fill none none distance_based p = ground arith
    revalidate_stops-is_viable long_side ref fill none (some b) distance_based p = ground (
      arith,
      revalidate_leg-is_viable (not long_side) (or_default ref nought) fill distance_based b
          (le_of_not_le order fill nought p),
    )
    revalidate_stops-is_viable long_side ref fill (some a) none distance_based p = ground (
      arith,
      revalidate_leg-is_viable long_side (or_default ref nought) fill distance_based a
          (le_of_not_le order fill nought p),
    )
    revalidate_stops-is_viable long_side ref fill (some a) (some b) distance_based p = ground (
      arith,
      revalidate_leg-is_viable long_side (or_default ref nought) fill distance_based a
          (le_of_not_le order fill nought p),
      revalidate_leg-is_viable (not long_side) (or_default ref nought) fill distance_based b
          (le_of_not_le order fill nought p),
    )
