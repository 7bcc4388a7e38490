-- ===== src/SignalEngine/Bracket.antt =====
-- signal-engine/app/exits.py: `_levels` and `BracketState`. The direction is 1 or -1, as the
-- specifications have it; the argument `price` of `update`, which the code never reads, is left out.
pub mod History
pub mod Stops
use matp.Base.{
  Bool, true, false, not, ◌&&◌, Option, none, some, List, [], ◌∷◌, ◌++◌, or_default, if◌then◌else◌,
}
use matp.Base.Num.{Num, one, max, min}

pub data Direction : Type 0 where
  up down : Direction

pub record Spec (F : Type 0) : Type 0 where
  pub direction : Direction
  pub tp1_offset_pct : F
  pub tp2_offset_pct : F
  pub be_offset_pct : F
  pub trail_arm_pct : F
  pub stop_offset_pct : F
  pub tp1_size_pct : F
  pub trail_pct : F
  pub condition_modify_rsi_long : Option F
  pub condition_modify_rsi_short : Option F

-- the fields of `BracketState`; the first ten are set once
pub record Bracket (F : Type 0) : Type 0 where
  pub d : Direction
  pub tp1 : F
  pub tp2 : F
  pub be : F
  pub trail_arm : F
  pub trail_pct : F
  pub tp1_size : F
  pub tighten : F
  pub rsi_long : F
  pub rsi_short : F
  pub protective : F
  pub peak : F
  pub remaining : F
  pub armed : Bool
  pub tp1_done : Bool
  pub tightened : Bool
  pub closed : Bool

pub data ExitReason : Type 0 where
  tp1 tp2 stop be_stop trail : ExitReason

pub record Exit (F : Type 0) : Type 0 where
  pub exit_reason : ExitReason
  pub size_pct : F

pub record Bar (F : Type 0) : Type 0 where
  pub high : F
  pub low : F
  pub rsi : Option F

module _ {F : Type 0} ⦃num : Num F⦄ where
  open num use {add, sub, mul, div, neg, lt, le, decimal}

  abbrev sign : Direction → F
  sign up = one
  sign down = neg one

  -- `entry * (1 + d * offset / per)` and `entry * (1 - d * offset / per)`
  abbrev ahead : F → Direction → F → F → F
  ahead entry d offset per = mul entry (add one (div (mul (sign d) offset) per))

  abbrev behind : F → Direction → F → F → F
  behind entry d offset per = mul entry (sub one (div (mul (sign d) offset) per))

  -- `_levels` and `__init__`
  unfoldable pub open_bracket : Spec F → F → Bracket F
  open_bracket spec entry = record {
    d = spec.direction;
    tp1 = ahead entry spec.direction spec.tp1_offset_pct (decimal 100 0);
    tp2 = ahead entry spec.direction spec.tp2_offset_pct (decimal 100 0);
    be = ahead entry spec.direction spec.be_offset_pct (decimal 100 0);
    trail_arm = ahead entry spec.direction spec.trail_arm_pct (decimal 100 0);
    trail_pct = div spec.trail_pct (decimal 100 0);
    tp1_size = spec.tp1_size_pct;
    tighten = behind entry spec.direction spec.stop_offset_pct (decimal 200 0);
    rsi_long = or_default spec.condition_modify_rsi_long (decimal 75 0);
    rsi_short = or_default spec.condition_modify_rsi_short (decimal 25 0);
    protective = behind entry spec.direction spec.stop_offset_pct (decimal 100 0);
    peak = entry;
    remaining = decimal 100 0;
    armed = false;
    tp1_done = false;
    tightened = false;
    closed = false;
  }

  -- step 2
  abbrev pub best : Direction → F → Bar F → F
  best up peak bar = max peak bar.high
  best down peak bar = min peak bar.low

  abbrev extreme : Bracket F → Direction → F → Bool
  extreme b up rsi = lt b.rsi_long rsi
  extreme b down rsi = lt rsi b.rsi_short

  -- step 3
  abbrev pub tighten_stop : Bracket F → Option F → Bracket F
  tighten_stop b none = b
  tighten_stop b (some rsi) =
      if not b.tp1_done && not b.tightened && extreme b b.d rsi
      then record b { protective = b.tighten; tightened = true }
      else b

  -- the bar reaches a level ahead, or strikes one behind
  abbrev pub reaches : Direction → Bar F → F → Bool
  reaches up bar level = le level bar.high
  reaches down bar level = le bar.low level

  abbrev pub strikes : Direction → Bar F → F → Bool
  strikes up bar level = le bar.low level
  strikes down bar level = le level bar.high

  -- steps 2 to 4
  unfoldable pub prepare : Bracket F → Bar F → Bracket F
  prepare b bar =
      let t = tighten_stop (record b { peak = best b.d b.peak bar }) bar.rsi in
      record t { armed = if reaches b.d bar b.trail_arm then true else t.armed }

  abbrev firmer : Direction → F → F → F
  firmer up protective level = max protective level
  firmer down protective level = min protective level

  abbrev pub trail_level : Bracket F → F
  trail_level b = mul b.peak (sub one (mul (sign b.d) b.trail_pct))

  -- step 5
  unfoldable pub effective : Bracket F → F
  effective b = if b.armed then firmer b.d b.protective (trail_level b) else b.protective

  -- the reason of a stop
  abbrev stop_reason : Bracket F → Bar F → ExitReason
  stop_reason b bar =
      if strikes b.d bar b.protective then if b.tp1_done then be_stop else stop else trail

  -- step 7
  abbrev pub take_first : Bracket F → Bar F → Bracket F × List (Exit F)
  take_first b bar =
      if not b.tp1_done && reaches b.d bar b.tp1
      then (
        record b { remaining = sub b.remaining b.tp1_size; tp1_done = true; protective = b.be },
        record { exit_reason = ExitReason.tp1; size_pct = b.tp1_size } ∷ [],
      )
      else (b, [])

  -- step 8
  abbrev take_second : Bar F → Bracket F × List (Exit F) → Bracket F × List (Exit F)
  take_second bar (b, legs) =
      if b.tp1_done && reaches b.d bar b.tp2
      then (
        record b { closed = true },
        legs ++ record { exit_reason = ExitReason.tp2; size_pct = b.remaining } ∷ [],
      )
      else (b, legs)

  -- steps 6 to 8
  unfoldable pub settle : Bracket F → Bar F → Bracket F × List (Exit F)
  unfolding effective
  settle b bar =
      if strikes b.d bar (effective b)
      then (
        record b { closed = true },
        record { exit_reason = stop_reason b bar; size_pct = b.remaining } ∷ [],
      )
      else take_second bar (take_first b bar)

  unfoldable pub update : Bracket F → Bar F → Bracket F × List (Exit F)
  unfolding prepare settle
  update b bar = if b.closed then (b, []) else settle (prepare b bar) bar

  -- the calls of `update`, bar by bar, with all the exits that they return
  unfoldable pub run : Bracket F → List (Bar F) → Bracket F × List (Exit F)
  unfolding update
  run b [] = (b, [])
  run b (bar ∷ bars) =
      let (b', legs) = update b bar in let (b'', more) = run b' bars in (b'', legs ++ more)
