-- ===== src/OrderListener/Reconciler.antt =====
-- order-listener/app/reconciler.py: what `reconcile_once` decides for one open row in a pass, and
-- `classify_external_close`. The threshold is an argument, since it is read from the environment (3 unless it is
-- set). What the reconciler asks of the exchange is an argument, with a constructor for an account that
-- cannot be reached, and so is the size that the close of a partial reduction leaves, where it succeeds.
pub mod Passes
use matp.Base.{
  ℕ, suc, Bool, true, false, not, ◌&&◌, ◌||◌, ltb, ◌==◌, Option, none, some, is_some, or_default,
  List, [], ◌∷◌, if◌then◌else◌,
}
use matp.Base.Num.{Num, nought, max}

-- the columns of a row that a pass reads
pub record Tracked (F : Type 0) : Type 0 where
  pub size : F
  pub miss_count : ℕ
  pub divergent : Bool
  pub exchange_size : Option F

-- the account cannot be reached, or it holds a size of the leg or none
pub data Seen (F : Type 0) : Type 0 where
  unknown : Seen F
  live : Option F → Seen F

-- what the pass does about a row
pub data Verdict (F : Type 0) : Type 0 where
  untouched matched diverged missed external_close : Verdict F
  reduce_by : F → Verdict F

pub data TriggerHit : Type 0 where
  stop_loss_hit take_profit_hit : TriggerHit

module _ {F : Type 0} ⦃num : Num F⦄ where
  open num use {add, sub, mul, div, abs, lt, le, decimal}

  -- `_SIZE_EPSILON_ABS` and `_SIZE_EPSILON_REL`
  abbrev pub size_epsilon_abs : F
  size_epsilon_abs = decimal 1 6

  abbrev pub size_epsilon_rel : F
  size_epsilon_rel = decimal 5 3

  unfoldable pub tolerance : F → F
  tolerance size = max size_epsilon_abs (mul size size_epsilon_rel)

  -- the sizes agree, where the exchange holds one
  abbrev pub agrees : F → Option F → Bool
  agrees size none = false
  agrees size (some x) = le (abs (sub size x)) (tolerance size)

  -- the exchange holds more
  abbrev pub exceeds : F → Option F → Bool
  exceeds size none = false
  exceeds size (some x) = lt (add size (tolerance size)) x

  abbrev pub cleared : Tracked F → Tracked F
  cleared r = record r { miss_count = 0; divergent = false; exchange_size = none }

  abbrev pub flagged : Tracked F → Option F → Tracked F
  flagged r x = record r { miss_count = 0; divergent = true; exchange_size = x }

  -- at the threshold
  unfoldable pub act : F → Option F → Verdict F
  act size none = external_close
  act size (some x) = if le x size_epsilon_abs then external_close else reduce_by (sub size x)

  -- after a partial reduction that succeeds the count starts anew, at the size that the close leaves
  abbrev pub settled : Tracked F → Verdict F → Option F → Tracked F
  settled r (reduce_by x) (some left) = record r { size = left; miss_count = 0 }
  settled r verdict left = r

  -- a discrepancy is counted, and acted on from the threshold on
  unfoldable pub count_miss : ℕ → Tracked F → Option F → Option F → Verdict F × Tracked F
  unfolding act
  count_miss threshold r x left =
      let r' = record r { miss_count = suc r.miss_count } in
      if ltb (suc r.miss_count) threshold
      then (missed, r')
      else (act r.size x, settled r' (act r.size x) left)

  -- a row in a pass; `left` is the size that the close of a partial reduction leaves, where it succeeds
  unfoldable pub reconcile_row : ℕ → Tracked F → Seen F → Option F → Verdict F × Tracked F
  unfolding tolerance count_miss
  reconcile_row threshold r unknown left = (untouched, r)
  reconcile_row threshold r (live x) left =
      if agrees r.size x
      then (matched, if not (r.miss_count == 0) || r.divergent then cleared r else r)
      else if exceeds r.size x
      then (diverged, flagged r x)
      else count_miss threshold r x left

  -- how near a fill is to a level, where it is within the tolerance
  abbrev pub near : F → Option F → Option F
  near fill none = none
  near fill (some level) =
      if le (abs (sub fill level)) (div (mul fill (decimal 15 2)) (decimal 100 0))
      then some (abs (sub fill level))
      else none

  -- `min` of the candidates, by distance and then by label ("Stop-loss hit" comes first)
  abbrev pub nearest : Option F → Option F → Option TriggerHit
  nearest none none = none
  nearest (some d) none = some stop_loss_hit
  nearest none (some d) = some take_profit_hit
  nearest (some d) (some e) = if lt e d then some take_profit_hit else some stop_loss_hit

  unfoldable pub classify_external_close : Option F → Option F → Option F → Option TriggerHit
  classify_external_close none sl tp = none
  classify_external_close (some fill) sl tp =
      if le fill nought then none else nearest (near fill sl) (near fill tp)
