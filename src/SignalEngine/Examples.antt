-- ===== src/SignalEngine/Examples.antt =====
-- A long bracket from an entry at 100, over a few bars.
use matp.Base.{if◌then◌else◌, ℕ, ◌*◌, ◌≡◌, refl, none, List, [], ◌∷◌}
use matp.Base.Int.{pos, ◌+ℤ◌, ◌-ℤ◌}
use matp.Base.Fixed.{Fixed, fixed_num, mul, div, decimal}
use matp.SignalEngine.Bracket.{Direction, Spec, be_stop, tp1, Bar, open_bracket, run}
use matp.SignalEngine.Bracket.History.{IsHistory, run-IsHistory}
use matp.SignalEngine.Bracket.Stops.{was_extreme, run-IsProtected}

abbrev whole : ℕ → Fixed
whole n = pos (n * 1000000)

abbrev spec : Spec Fixed
spec = record {
  direction = Direction.up;
  tp1_offset_pct = whole 2;
  tp2_offset_pct = whole 4;
  be_offset_pct = pos 100000;
  trail_arm_pct = whole 3;
  stop_offset_pct = whole 1;
  tp1_size_pct = whole 50;
  trail_pct = whole 1;
  condition_modify_rsi_long = none;
  condition_modify_rsi_short = none;
}

abbrev bar : ℕ → ℕ → Bar Fixed
bar high low = record { high = whole high; low = whole low; rsi = none }

-- the first target, and then back to break-even
abbrev bars : List (Bar Fixed)
bars = bar 101 100 ∷ bar 102 101 ∷ bar 102 99 ∷ []

run-exits :
    (run (open_bracket spec (whole 100)) bars).1
    ≡ record { exit_reason = tp1; size_pct = whole 50 }
      ∷ record { exit_reason = be_stop; size_pct = whole 50 }
      ∷ []
unfolding run open_bracket mul ◌+ℤ◌ decimal div ◌-ℤ◌
run-exits = refl

run-IsHistory_example :
    IsHistory
      (whole 50)
      (run (open_bracket spec (whole 100)) bars).0
      (run (open_bracket spec (whole 100)) bars).1
run-IsHistory_example = run-IsHistory spec (whole 100) bars

run-IsProtected_example :
    let b = open_bracket spec (whole 100) in
    let after = (run b bars).0 in
    after.protective
    ≡ (if after.tp1_done then b.be else if was_extreme spec b bars then b.tighten else b.protective)
run-IsProtected_example = run-IsProtected spec (whole 100) bars
