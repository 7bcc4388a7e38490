-- ===== src/OrderListener/GuaranteedStop/Tighter.antt =====
-- How tight the guaranteed stop is.
use matp.Base.{Bool, true, false, ◌&&◌, ◌≡◌, ◌⊎◌, refl, Option, none, some, arith}
use matp.Base.Int.{ℤ}
use matp.Base.Num.{Num, IsOrdered, IsRounding, max, min}
use matp.Base.Order.{le_refl, le-max_left, le-max_right, min-le_left, min-le_right}
use matp.OrderListener.GuaranteedStop.{
  PositionSide, long, short, SlSource, strategy, liquidation_safe, infer_price_decimals,
  sl_distance, liquidation_sl, on_side, tighter_sl, choose_sl, compute_guaranteed_sl,
}

abbrev pub is_strategy : SlSource → Bool
is_strategy strategy = true
is_strategy liquidation_safe = false

module _ {F : Type 0} ⦃num : Num F⦄ where
  open num use {le, eq, round}

  -- A stop at `a` is no farther from the entry than one at `b`, on that side.
  abbrev pub no_looser : PositionSide → F → F → Bool
  no_looser long a b = le b a
  no_looser short a b = le a b

  -- The stop is no looser than the strategy's own, where that stands on its side of the entry.
  abbrev pub Respects : PositionSide → F → Option F → (F → F) → F → Type 0
  Respects side entry none grid p = Unit
  Respects side entry (some sl) grid p =
      (on_side side entry sl ≡ false) ⊎ (no_looser side p (grid sl) ≡ true)

  -- Whether the source says that the strategy's stop was taken.
  abbrev pub taken : PositionSide → F → Option F → F → Bool
  taken side entry none liq = false
  taken side entry (some sl) liq = on_side side entry sl && no_looser side sl liq

  -- What the stop `p` of a position meets, on the grid of the entry's price.
  pub record IsGuaranteed (entry : F) (leverage : ℤ) (side : PositionSide) (own : Option F)
      (mmr : F) (p : F) (source : SlSource) : Type 0 where
    pub safe :
        no_looser side p (
          round (liquidation_sl entry side (sl_distance leverage mmr)) (infer_price_decimals entry))
        ≡ true
    pub respects : Respects side entry own (λ x. round x (infer_price_decimals entry)) p
    pub told :
        is_strategy source
        ≡ taken side entry own (liquidation_sl entry side (sl_distance leverage mmr))

  module _ (order : IsOrdered F) (rounding : IsRounding F) where
    choose_sl-safe :
        (side : PositionSide) (entry : F) (own : Option F) (liq : F)
        → no_looser side (choose_sl side entry own liq).0 liq ≡ true
    unfolding choose_sl tighter_sl
    choose_sl-safe long entry none liq = le_refl order liq
    choose_sl-safe short entry none liq = le_refl order liq
    choose_sl-safe long entry (some sl) liq =
        ground (arith, le_refl order liq, le-max_right order sl liq)
    choose_sl-safe short entry (some sl) liq =
        ground (arith, le_refl order liq, min-le_right order sl liq)

    choose_sl-Respects :
        (side : PositionSide) (entry : F) (own : Option F) (liq : F) (dp : Prim.Native.Nat.ℕ)
        → Respects side entry own (λ x. round x dp) (round (choose_sl side entry own liq).0 dp)
    unfolding choose_sl tighter_sl
    choose_sl-Respects side entry none liq dp = tt
    choose_sl-Respects long entry (some sl) liq dp =
        ground (arith, le-max_left order sl liq, rounding.round_mono sl (max sl liq) dp)
    choose_sl-Respects short entry (some sl) liq dp =
        ground (arith, min-le_left order sl liq, rounding.round_mono (min sl liq) sl dp)

    choose_sl-source :
        (side : PositionSide) (entry : F) (own : Option F) (liq : F)
        → is_strategy (choose_sl side entry own liq).1 ≡ taken side entry own liq
    unfolding choose_sl tighter_sl
    choose_sl-source side entry none liq = refl
    choose_sl-source long entry (some sl) liq = ground arith
    choose_sl-source short entry (some sl) liq = ground arith

    round-no_looser :
        (side : PositionSide) (a b : F) (dp : Prim.Native.Nat.ℕ)
        → no_looser side a b ≡ true
        → no_looser side (round a dp) (round b dp) ≡ true
    round-no_looser long a b dp h = rounding.round_mono b a dp h
    round-no_looser short a b dp h = rounding.round_mono a b dp h

    -- For a leverage that is not zero the guaranteed stop is, on the grid of the price, no looser than
    -- the liquidation-safe level, and no looser than the strategy's own stop where that stands on its
    -- side of the entry; the source is the strategy exactly where its stop was on its side and no
    -- looser than the liquidation-safe one.
    pub compute_guaranteed_sl-IsGuaranteed :
        (entry : F) (leverage : ℤ) (side : PositionSide) (own : Option F) (mmr p : F)
        (source : SlSource)
        → compute_guaranteed_sl entry leverage side own mmr ≡ some (p, source)
        → IsGuaranteed entry leverage side own mmr p source
    unfolding compute_guaranteed_sl
    compute_guaranteed_sl-IsGuaranteed entry leverage side own mmr p source e =
        let liq = liquidation_sl entry side (sl_distance leverage mmr) in
        let dp = infer_price_decimals entry in
        let chosen = choose_sl side entry own liq in
        let fixed : (round chosen.0 dp ≡ p) × (chosen.1 ≡ source) = ground arith in
        record {
          safe =
              rw fixed.0 at
                (round-no_looser side chosen.0 liq dp (choose_sl-safe side entry own liq));
          respects = rw fixed.0 at (choose_sl-Respects side entry own liq dp);
          told = rw fixed.1 at (choose_sl-source side entry own liq);
        }
