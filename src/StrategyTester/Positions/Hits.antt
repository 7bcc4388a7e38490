-- ===== src/StrategyTester/Positions/Hits.antt =====
-- Which level of a position a candle hits.
use matp.Base.{true, false, ◌||◌, ◌≡◌, ◌⊎◌, some, is_some, arith}
use matp.Base.Num.{Num}
use matp.StrategyTester.Positions.{
  Candle, SimPosition, tp_hit, sl_hit, Hit, tp_touched, sl_touched, check_tp_sl,
}

module _ {F : Type 0} ⦃num : Num F⦄ where
  open num use {sub, abs, le}

  -- The stop of the position is at `p`, the candle touches it, and it is no farther from the entry
  -- than a target that the candle touches too.
  pub record IsStopHit (pos : SimPosition F) (candle : Candle F) (p : F) : Type 0 where
    pub level : pos.sl_price ≡ some p
    pub reached : sl_touched pos candle ≡ true
    pub first :
        (tp_touched pos candle ≡ false)
        ⊎ ((tp : F) × (pos.tp_price ≡ some tp)
            × (le (abs (sub pos.entry_price p)) (abs (sub pos.entry_price tp)) ≡ true))

  -- The target is at `p`, the candle touches it, and a stop that it touches too is farther.
  pub record IsTargetHit (pos : SimPosition F) (candle : Candle F) (p : F) : Type 0 where
    pub level : pos.tp_price ≡ some p
    pub reached : tp_touched pos candle ≡ true
    pub first :
        (sl_touched pos candle ≡ false)
        ⊎ ((sl : F) × (pos.sl_price ≡ some sl)
            × (le (abs (sub pos.entry_price sl)) (abs (sub pos.entry_price p)) ≡ false))

  abbrev pub HitOf : SimPosition F → Candle F → Hit F → Type 0
  HitOf pos candle hit =
      ((hit.reason ≡ sl_hit) × IsStopHit pos candle hit.price)
      ⊎ ((hit.reason ≡ tp_hit) × IsTargetHit pos candle hit.price)

  -- A candle gives no hit exactly where it touches neither level.
  pub check_tp_sl-is_some :
      (pos : SimPosition F) (candle : Candle F)
      → is_some (check_tp_sl pos candle) ≡ tp_touched pos candle || sl_touched pos candle
  unfolding check_tp_sl
  check_tp_sl-is_some pos candle = ground arith

  -- A hit is at a level of the position that the candle touches, and where the candle touches both
  -- it is the one closer to the entry, the stop on a tie.
  pub check_tp_sl-HitOf :
      (pos : SimPosition F) (candle : Candle F) (hit : Hit F)
      → check_tp_sl pos candle ≡ some hit
      → HitOf pos candle hit
  unfolding check_tp_sl
  check_tp_sl-HitOf pos candle hit e = ground arith
