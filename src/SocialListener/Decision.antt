-- ===== src/SocialListener/Decision.antt =====
-- The dict that `evaluate` of social-listener/app/statemachine.py returns, and its local functions
-- `base`, `skip` and `act` that build it.
use matp.Base.{Bool, true, false, Option, none, some, List, [], ◌∷◌, nonempty}
use matp.Base.Text.{Text}
use matp.SocialListener.Legs.{Side, Legs, with_side, label}

pub data Verdict : Type 0 where
  acted skipped pending : Verdict

pub data Reason : Type 0 where
  low_confidence not_whitelisted stop_only no_target no_state_change close_side_not_open : Reason
  no_position_to_add add_side_mismatch add_side_ambiguous add_size_zero backfill_no_add : Reason
  no_position_to_trim trim_side_mismatch trim_side_ambiguous backfill_no_trim : Reason
  signal_too_old stale_price stale_implied_ref no_mark priceless_no_entry : Reason
  add_at_market trim_at_market trim_level_reached trim_level_pending : Reason
  backfill_replay priceless_recent ok ok_implied_ref : Reason
  -- the prefix "add_as_open:"
  add_as_open : Reason → Reason

-- `intended_signal`; `no_signal` is "none"
pub data Signal : Type 0 where
  no_signal close_all : Signal
  open_signal close_signal flip_signal trim_signal add_signal : Side → Signal

-- `advance_legs`, a dict from sides to open or shut
abbrev pub Advance : Type 0
Advance = List (Side × Bool)

pub record Decision (F : Type 0) : Type 0 where
  pub decision : Verdict
  pub reason : Reason
  pub from_legs : Legs
  pub to_legs : Legs
  pub from_state : Text
  pub to_state : Text
  pub leg : Option Side
  pub advance_legs : Advance
  pub intended_signal : Signal
  pub mark_price : Option F
  pub advance : Bool
  pub emit : Bool
  pub is_trim : Bool
  pub is_add : Bool
  pub park : Bool
  pub size_fraction : Option F
  pub trigger_price : Option F
  pub add_multiple : Option F

-- `**extra`, over the defaults of `out`
pub record Extra (F : Type 0) : Type 0 where
  pub leg : Option Side
  pub is_trim : Bool
  pub is_add : Bool
  pub park : Bool
  pub size_fraction : Option F
  pub trigger_price : Option F
  pub add_multiple : Option F

-- the variables of `evaluate` that `base` reads
pub record Scope (F : Type 0) : Type 0 where
  pub legs : Legs
  pub mark : Option F
  pub as_open : Bool

unfoldable pub move_legs : Legs → Advance → Legs
unfolding with_side
move_legs legs [] = legs
move_legs legs ((s, is_open) ∷ rest) = move_legs (with_side legs s is_open) rest

abbrev tagged : Bool → Reason → Reason
tagged true reason = add_as_open reason
tagged false reason = reason

abbrev target_legs : Legs → Option Legs → Advance → Legs
target_legs legs none moves = move_legs legs moves
target_legs legs (some to) moves = to

module _ {F : Type 0} where
  abbrev pub no_extra : Extra F
  no_extra = record {
    leg = none;
    is_trim = false;
    is_add = false;
    park = false;
    size_fraction = none;
    trigger_price = none;
    add_multiple = none;
  }

  abbrev pub on_leg : Option Side → Extra F
  on_leg s = record no_extra { leg = s }

  unfoldable pub base :
      Scope F → Verdict → Reason → Option Legs → Signal → Advance → Bool → Extra F → Decision F
  unfolding move_legs
  base c verdict reason to signal moves emit extra =
      let to_legs = target_legs c.legs to moves in
      record {
        decision = verdict;
        reason = tagged c.as_open reason;
        from_legs = c.legs;
        to_legs = to_legs;
        from_state = label c.legs;
        to_state = label to_legs;
        leg = extra.leg;
        advance_legs = moves;
        intended_signal = signal;
        mark_price = c.mark;
        advance = nonempty moves;
        emit = emit;
        is_trim = extra.is_trim;
        is_add = extra.is_add;
        park = extra.park;
        size_fraction = extra.size_fraction;
        trigger_price = extra.trigger_price;
        add_multiple = extra.add_multiple;
      }

  unfoldable pub skip : Scope F → Reason → Signal → Extra F → Decision F
  unfolding base
  skip c reason signal extra = base c skipped reason (some c.legs) signal [] false extra

  unfoldable pub act : Scope F → Reason → Signal → Advance → Extra F → Decision F
  unfolding base
  act c reason signal moves extra = base c acted reason none signal moves true extra
