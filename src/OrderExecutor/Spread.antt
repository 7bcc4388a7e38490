-- ===== src/OrderExecutor/Spread.antt =====
-- order-executor/app/spread_trade.py: `_place_leg`, `execute_plan` and `close_spread`, and the decision of `_watch_once`
-- to abort. What the venues answer is an argument, with the attempt where there are several; an
-- exception of a close is an answer that is no success. The plan is the row of the id; no row raises before. `floor` is `math.floor`. Beside its result each operation gives
-- the legs that are held at the venues, and whether the alarm `spread.leg_failure` was raised.
pub mod Exposure
use matp.Base.{
  ℕ, zero, suc, Bool, true, false, not, ◌&&◌, ◌||◌, Option, none, some, is_some, List, [], ◌∷◌,
  if◌then◌else◌,
}
use matp.Base.Num.{Num, nought, max}

-- what stands at the venues
pub record Held : Type 0 where
  pub short_leg : Bool
  pub long_leg : Bool

abbrev pub no_legs : Held
no_legs = record { short_leg = false; long_leg = false }

pub data PlanStatus : Type 0 where
  armed executed failed other_status : PlanStatus

pub record SpreadPlan (F : Type 0) : Type 0 where
  pub status : PlanStatus
  pub notional_usd : F

-- the legs' fill prices
pub record Fill (F : Type 0) : Type 0 where
  pub actual_fill_price : Option F

-- What the program asks while it executes a plan: whether the coin has an open position, whether both venues have
-- an active account, the marks and smallest sizes of the short venue and the long one, and the answers to orders
-- and to the closes that roll the short leg back.
pub record Venues (F : Type 0) : Type 0 where
  pub has_open : Bool
  pub has_accounts : Bool
  pub short_mark : Option F
  pub long_mark : Option F
  pub short_step : Option F
  pub long_step : Option F
  pub submit_short : F → ℕ → Option (Fill F)
  pub submit_long : F → ℕ → Option (Fill F)
  pub close_short : ℕ → Bool

pub data Execution (F : Type 0) : Type 0 where
  not_armed already_open no_account no_mark below_min_size short_leg_failed : Execution F
  -- whether the short leg was rolled back
  long_leg_failed : Bool → Execution F
  opened : F → F → Fill F → Fill F → Execution F

-- the result, the plan's status, what is held, and the alarm
pub record Executed (F : Type 0) : Type 0 where
  pub result : Execution F
  pub status : PlanStatus
  pub held : Held
  pub alarm : Bool

-- `_place_leg`: a second attempt where the first fails
unfoldable pub place_leg {ℓ} : {A : Type ℓ} → (ℕ → Option A) → Option A
place_leg submit = elim (submit 0) [ some r ↦ some r | none ↦ submit 1 ]

-- attempts up to a number, from the first on, until one succeeds
unfoldable pub roll_back : ℕ → ℕ → (ℕ → Bool) → Bool
roll_back zero attempt close = false
roll_back (suc n) attempt close =
    let rest = roll_back n (suc attempt) close in if close attempt then true else rest

abbrev pub is_armed : PlanStatus → Bool
is_armed armed = true
is_armed _ = false

module _ {F : Type 0} ⦃num : Num F⦄ where
  open num use {add, mul, div, le, eq, decimal, round}

  -- `_quantize`
  unfoldable pub quantize : (F → F) → F → F → F
  quantize floor size step =
      if le step nought then round size 6 else mul (floor (add (div size step) (decimal 1 9))) step

  abbrev pub truthy : Option F → Option F
  truthy none = none
  truthy (some x) = if eq x nought then none else some x

  abbrev pub either : Option F → Option F → Option F
  either none y = y
  either (some x) y = if eq x nought then y else some x

  abbrev pub or_nought : Option F → F
  or_nought none = nought
  or_nought (some x) = x

  unfoldable pub plan_size : (F → F) → SpreadPlan F → Venues F → F → F
  unfolding quantize
  plan_size floor plan venues mark =
      quantize floor (div plan.notional_usd mark)
        (max (or_nought venues.short_step) (or_nought venues.long_step))

  abbrev pub refused : Execution F → SpreadPlan F → Executed F
  refused e plan = record { result = e; status = plan.status; held = no_legs; alarm = false }

  -- the long leg failed: the short leg is closed, in up to three attempts
  unfoldable pub unwind : Venues F → Executed F
  unfolding roll_back
  unwind venues =
      let rolled = roll_back 3 0 venues.close_short in
      record {
        result = long_leg_failed rolled;
        status = failed;
        held = record { short_leg = not rolled; long_leg = false };
        alarm = true;
      }

  -- after the long leg, which comes second
  abbrev pub after_long : Venues F → F → F → Fill F → Option (Fill F) → Executed F
  after_long venues mark size short_fill none = unwind venues
  after_long venues mark size short_fill (some long_fill) = record {
    result = opened size mark short_fill long_fill;
    status = executed;
    held = record { short_leg = true; long_leg = true };
    alarm = false;
  }

  -- after the short leg, which comes first
  abbrev pub after_short : Venues F → F → F → Option (Fill F) → Executed F
  after_short venues mark size none = record {
    result = short_leg_failed;
    status = failed;
    held = no_legs;
    alarm = false;
  }
  after_short venues mark size (some short_fill) =
      after_long venues mark size short_fill (place_leg (venues.submit_long size))

  abbrev pub execute_at : (F → F) → SpreadPlan F → Venues F → F → Executed F
  execute_at floor plan venues mark =
      let size = plan_size floor plan venues mark in
      if le size nought
      then refused below_min_size plan
      else after_short venues mark size (place_leg (venues.submit_short size))

  abbrev pub with_mark : (F → F) → SpreadPlan F → Venues F → Option F → Executed F
  with_mark floor plan venues none = refused no_mark plan
  with_mark floor plan venues (some mark) = execute_at floor plan venues mark

  unfoldable pub execute_plan : (F → F) → SpreadPlan F → Venues F → Executed F
  unfolding plan_size unwind place_leg
  execute_plan floor plan venues =
      if not (is_armed plan.status)
      then refused not_armed plan
      else if venues.has_open
      then refused already_open plan
      else if not venues.has_accounts
      then refused no_account plan
      else with_mark floor plan venues (either venues.short_mark (truthy venues.long_mark))

-- what a venue answers to the close of a leg
pub record LegClose (F : Type 0) : Type 0 where
  pub success : Bool
  pub actual_fill_price : Option F
  pub realized_pnl : Option F

pub data CloseReason : Type 0 where
  manual abort : CloseReason

pub data SpreadStatus : Type 0 where
  is_open closed aborted close_failed : SpreadStatus

pub record SpreadClose (F : Type 0) : Type 0 where
  pub status : SpreadStatus
  pub short_close_price : Option F
  pub long_close_price : Option F
  pub pnl_realized : Option F
  pub held : Held
  pub alarm : Bool

abbrev pub status_of : CloseReason → Bool → SpreadStatus
status_of manual true = closed
status_of abort true = aborted
status_of reason false = close_failed

module _ {F : Type 0} ⦃num : Num F⦄ where
  open num use {add, le}

  -- the sum of the parts that are there
  unfoldable pub sum_parts : Option F → Option F → Option F
  sum_parts none none = none
  sum_parts (some a) none = some a
  sum_parts none (some b) = some b
  sum_parts (some a) (some b) = some (add a b)

  -- `close_spread` of an open position: both legs are tried, whatever the first does
  unfoldable pub close_spread : CloseReason → LegClose F → LegClose F → SpreadClose F
  unfolding sum_parts
  close_spread reason short_r long_r =
      let ok = short_r.success && long_r.success in
      record {
        status = status_of reason ok;
        short_close_price = if short_r.success then short_r.actual_fill_price else none;
        long_close_price = if long_r.success then long_r.actual_fill_price else none;
        pnl_realized = if ok then sum_parts short_r.realized_pnl long_r.realized_pnl else none;
        held = record { short_leg = not short_r.success; long_leg = not long_r.success };
        alarm = not ok;
      }

  -- `_watch_once`: the abort band, where there is a mark
  unfoldable pub should_abort : F → F → F → Bool
  should_abort up down mark = le up mark || le mark down
