-- ===== src/OrderExecutor/Spread/Exposure.antt =====
-- No leg stands alone without an alarm.
use matp.Base.{
  ℕ, sym, Option-cases, Bool, true, false, not, ◌&&◌, ◌||◌, ◌≡◌, refl, Option, none, some, is_some,
  if◌then◌else◌, if_keeps, if_split, arith,
}
use matp.Base.Num.{Num, nought}
use matp.OrderExecutor.Spread.{
  PlanStatus, executed, SpreadPlan, Fill, Venues, Execution, opened, long_leg_failed, Executed,
  place_leg, plan_size, unwind, roll_back, after_long, after_short, with_mark, refused, no_mark,
  below_min_size, not_armed, already_open, no_account, is_armed, execute_plan, truthy, either,
  LegClose, CloseReason, close_spread, status_of, no_legs,
}

abbrev pub is_executed : PlanStatus → Bool
is_executed executed = true
is_executed _ = false

place_leg-some :
    {A : Type 0} (submit : ℕ → Option A)
    → is_some (place_leg submit) ≡ is_some (submit 0) || is_some (submit 1)
unfolding place_leg
place_leg-some submit = ground (arith, Option-cases (submit 0))

module _ {F : Type 0} ⦃num : Num F⦄ where
  -- the result says that the long leg failed, and that the short one is still held
  abbrev pub long_failed : Execution F → Bool
  long_failed (long_leg_failed rolled) = true
  long_failed _ = false

  abbrev pub says_naked : Execution F → Bool
  says_naked (long_leg_failed rolled) = not rolled
  says_naked _ = false

  -- the venue took one of the three closes of the short leg
  abbrev pub taken_back : Venues F → Bool
  taken_back venues = venues.close_short 0 || (venues.close_short 1 || venues.close_short 2)

  abbrev pub is_opened : Execution F → Bool
  is_opened (opened size mark short_fill long_fill) = true
  is_opened _ = false

  -- The legs that an execution leaves, by the answers of the venues.
  pub record IsHedged (plan : SpreadPlan F) (venues : Venues F) (r : Executed F) : Type 0 where
    pub short_held :
        r.held.short_leg ≡ is_opened r.result || (long_failed r.result && not (taken_back venues))
    pub long_held : r.held.long_leg ≡ is_opened r.result
    pub told : says_naked r.result ≡ long_failed r.result && not (taken_back venues)
    pub warned : r.alarm ≡ long_failed r.result
    -- the size of both legs, with two attempts at each
    pub size : F
    pub answers :
        (not (is_opened r.result || long_failed r.result)
          || (is_some (venues.submit_short size 0) || is_some (venues.submit_short size 1)))
        ≡ true
    pub second :
        (is_opened r.result
          ≡ (is_opened r.result || long_failed r.result)
            && (is_some (venues.submit_long size 0) || is_some (venues.submit_long size 1)))
    pub once : (not (is_opened r.result) || (is_armed plan.status && not venues.has_open)) ≡ true
    pub recorded :
        is_executed r.status
        ≡ (if is_armed plan.status then is_opened r.result else is_executed plan.status)

  after_long-IsHedged :
      (plan : SpreadPlan F) (venues : Venues F) (mark size : F) (fill : Fill F)
      (placed : Option (Fill F))
      → is_armed plan.status ≡ true
      → venues.has_open ≡ false
      → is_some (venues.submit_short size 0) || is_some (venues.submit_short size 1) ≡ true
      → is_some placed ≡ is_some (venues.submit_long size 0) || is_some (venues.submit_long size 1)
      → IsHedged plan venues (after_long venues mark size fill placed)
  unfolding unwind roll_back
  after_long-IsHedged plan venues mark size fill none a o first second = record {
    short_held = ground (arith, first, second);
    long_held = ground (arith, first, second);
    told = ground (arith, first, second);
    warned = ground (arith, first, second);
    size = size;
    answers = ground (arith, first, second);
    second = ground (arith, first, second);
    once = ground (arith, first, second);
    recorded = ground (arith, first, second);
  }
  after_long-IsHedged plan venues mark size fill (some r) a o first second = record {
    short_held = ground (arith, first, second);
    long_held = ground (arith, first, second);
    told = ground (arith, first, second);
    warned = ground (arith, first, second);
    size = size;
    answers = ground (arith, first, second);
    second = ground (arith, first, second);
    once = ground (arith, first, second);
    recorded = ground (arith, first, second);
  }

  after_short-IsHedged :
      (plan : SpreadPlan F) (venues : Venues F) (mark size : F) (placed : Option (Fill F))
      → is_armed plan.status ≡ true
      → venues.has_open ≡ false
      → is_some placed
        ≡ is_some (venues.submit_short size 0) || is_some (venues.submit_short size 1)
      → IsHedged plan venues (after_short venues mark size placed)
  after_short-IsHedged plan venues mark size none a o first = record {
    short_held = ground (arith, first);
    long_held = ground (arith, first);
    told = ground (arith, first);
    warned = ground (arith, first);
    size = size;
    answers = ground (arith, first);
    second = ground (arith, first);
    once = ground (arith, first);
    recorded = ground (arith, first);
  }
  after_short-IsHedged plan venues mark size (some r) a o first =
      after_long-IsHedged plan venues mark size r (place_leg (venues.submit_long size)) a o
        (sym first) (place_leg-some (venues.submit_long size))

  -- a plan that is refused leaves everything as it was
  refused-IsHedged :
      (plan : SpreadPlan F) (venues : Venues F) (r : Executed F)
      → r.held ≡ no_legs
      → long_failed r.result ≡ false
      → says_naked r.result ≡ false
      → is_opened r.result ≡ false
      → r.alarm ≡ false
      → r.status ≡ plan.status
      → IsHedged plan venues r
  refused-IsHedged plan venues r h n m o w s = record {
    short_held = ground (arith);
    long_held = ground (arith);
    told = ground (arith);
    warned = ground (arith);
    size = nought;
    answers = ground (arith);
    second = ground (arith);
    once = ground (arith);
    recorded = ground (arith);
  }

  with_mark-IsHedged :
      (floor : F → F) (plan : SpreadPlan F) (venues : Venues F) (mark : Option F)
      → is_armed plan.status ≡ true
      → venues.has_open ≡ false
      → IsHedged plan venues (with_mark floor plan venues mark)
  with_mark-IsHedged floor plan venues none a o =
      refused-IsHedged plan venues (refused no_mark plan) refl refl refl refl refl refl
  with_mark-IsHedged floor plan venues (some mark) a o =
      let size = plan_size floor plan venues mark in
      if_keeps (IsHedged plan venues) _ _ _
        (refused-IsHedged plan venues (refused below_min_size plan) refl refl refl refl refl refl)
        (after_short-IsHedged plan venues mark size (place_leg (venues.submit_short size)) a o
          (place_leg-some (venues.submit_short size)))

  -- The execution of a plan leaves both legs or neither, unless the short leg was taken, both attempts at the long one
  -- failed and the venue refused all three closes of the short one, and then the short leg stands alone and the result says so. The
  -- alarm is raised exactly where the long leg failed. It opens a position only for an armed plan
  -- and a coin without an open one, and only with both venues' answers to one size; and an armed plan counts as executed exactly where both legs
  -- stand.
  pub execute_plan-IsHedged :
      (floor : F → F) (plan : SpreadPlan F) (venues : Venues F)
      → IsHedged plan venues (execute_plan floor plan venues)
  unfolding execute_plan
  execute_plan-IsHedged floor plan venues =
      let P = IsHedged plan venues in
      if_split P (not (is_armed plan.status)) _ _
        (λ _. refused-IsHedged plan venues (refused not_armed plan) refl refl refl refl refl refl)
        (λ a.
          if_split P venues.has_open _ _
            (λ _.
              refused-IsHedged plan venues (refused already_open plan) refl refl refl refl refl
                refl)
            (λ o.
              if_keeps P (not venues.has_accounts) _ _
                (refused-IsHedged plan venues (refused no_account plan) refl refl refl refl refl
                  refl)
                (with_mark-IsHedged floor plan venues
                  (either venues.short_mark (truthy venues.long_mark)) (ground arith) o)))

  -- A close tries both legs: the spread counts as closed or aborted exactly where no leg is left, and otherwise the alarm
  -- is raised and no pnl is recorded.
  pub close_spread-closes :
      (reason : CloseReason) (short_r long_r : LegClose F)
      → let c = close_spread reason short_r long_r in
        let left = c.held.short_leg || c.held.long_leg in
        (c.status ≡ status_of reason (not left))
        × (c.alarm ≡ left)
        × ((left && is_some c.pnl_realized) ≡ false)
  unfolding close_spread
  close_spread-closes reason short_r long_r = ground arith
