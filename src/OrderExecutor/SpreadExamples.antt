-- ===== src/OrderExecutor/SpreadExamples.antt =====
-- A plan whose long leg fails, and whose short leg is rolled back at the third attempt.
use matp.Base.{true, false, ◌≡◌, refl, none, some, ◌==◌, if◌then◌else◌}
use matp.Base.Int.{pos, ◌+ℤ◌, ◌-ℤ◌}
use matp.Base.Fixed.{Fixed, fixed_num, mul, div, decimal, round}
use matp.OrderExecutor.Spread.{
  SpreadPlan, Venues, armed, no_legs, execute_plan, plan_size, quantize, place_leg, unwind,
  roll_back,
}
use matp.OrderExecutor.Spread.Exposure.{IsHedged, execute_plan-IsHedged}

abbrev plan : SpreadPlan Fixed
plan = record { status = armed; notional_usd = pos 500000000 }

abbrev venues : Venues Fixed
venues = record {
  has_open = false;
  has_accounts = true;
  short_mark = some (pos 100000000);
  long_mark = none;
  short_step = some (pos 1000000);
  long_step = none;
  submit_short =
      λ size attempt. if attempt == 1 then some (record { actual_fill_price = none }) else none;
  submit_long = λ size attempt. none;
  close_short = λ attempt. attempt == 2;
}

-- the sizes of the example are whole, so a floor is the number itself
abbrev floor : Fixed → Fixed
floor x = x

execute_plan-IsHedged_example : IsHedged plan venues (execute_plan floor plan venues)
execute_plan-IsHedged_example = execute_plan-IsHedged floor plan venues

execute_plan-rolled_back : (execute_plan floor plan venues).held ≡ no_legs
unfolding execute_plan plan_size quantize place_leg unwind roll_back mul div decimal round ◌+ℤ◌ ◌-ℤ◌
execute_plan-rolled_back = refl
