-- ===== src/SocialListener/Examples.antt =====
-- Posts on an account with five per cent of staleness, and what the gate, the guards and the emitter
-- do with them.
use matp.Base.{
  ap, is_some, map, All, ◌⊎◌, ℕ, ◌*◌, ◌+◌, Bool, true, false, ◌≡◌, refl, Option, none, some, List,
  [], ◌∷◌,
}
use matp.Base.Text.{codes}
use matp.Base.Int.{◌-ℤ◌, ltb_ℤ, ℤ, pos}
use matp.Base.Fixed.{Fixed, fixed_num, Fixed-IsOrdered, div, decimal}
use matp.SocialListener.Legs.{Side, Legs, is_open, label}
use matp.SocialListener.Post.{
  Raw, Action, Phase, Post, Settings, direction, too_old, whitelisted, trim_fraction, confidence_of,
}
use matp.SocialListener.Manage.{evaluate_trim}
use matp.SocialListener.Plan.{plan_entry}
use matp.SocialListener.Decision.{Verdict, Reason, Signal, Decision}
use matp.SocialListener.Gate.{Held, as_legs, evaluate}
use matp.SocialListener.Gate.Moves.{IsFaithful, evaluate-IsFaithful}
use matp.SocialListener.Gate.Entries.{IsEntry, evaluate-opens}
use matp.SocialListener.Gate.Modes.{both_open, evaluate-net, evaluate-total}
use matp.SocialListener.Gate.Sizes.{Within, evaluate-Within}
use matp.SocialListener.Gate.Phases.{IsAllowed, evaluate-emits}
use matp.SocialListener.Levels.{evaluate_stop, evaluate_take_profit, ok, resolve_leg}
use matp.SocialListener.Levels.Guards.{IsSafeStop, evaluate_stop-IsSafeStop}

abbrev whole : ℕ → Fixed
whole n = pos (n * 1000000)

abbrev cfg : Settings Fixed
cfg = record {
  asset_whitelist = codes "btc, eth";
  confidence_floor = pos 600000;
  staleness_pct = pos 50000;
  entry_on_missing_price = codes "market";
  max_signal_age_seconds = 900;
  default_add_multiple = whole 1;
  max_add_multiple = whole 2;
  default_trim_fraction = pos 250000;
  min_trim_fraction = pos 100000;
  max_trim_fraction = pos 500000;
}

-- a post that goes long at 100, or flips to it
abbrev post : Action → Post Fixed
post action = record {
  asset = some (codes "BTC");
  action_type = action;
  direction = some (codes "long");
  confidence = some (pos 900000);
  reference_price = some (whole 100);
  is_reloaded = false;
  size_fraction = none;
  add_multiple = none;
  trigger_price = none;
  stop_price = some (Raw.number (whole 101));
  stop_to_breakeven = false;
  take_profit_price = some (Raw.number (whole 120));
  posted_at = some 1000000000;
}

-- ten seconds later
abbrev now : ℕ
now = 1010000000

abbrev only_short : Legs
only_short = record { long = false; short = true }

abbrev only_long : Legs
only_long = record { long = true; short = false }

-- the flip from short to long
abbrev flipped : Decision Fixed
flipped = record {
  decision = Verdict.acted;
  reason = Reason.ok;
  from_legs = only_short;
  to_legs = only_long;
  from_state = codes "SHORT";
  to_state = codes "LONG";
  leg = some Side.long;
  advance_legs = (Side.short, false) ∷ (Side.long, true) ∷ [];
  intended_signal = Signal.flip_signal Side.long;
  mark_price = some (whole 102);
  advance = true;
  emit = true;
  is_trim = false;
  is_add = false;
  park = false;
  size_fraction = none;
  trigger_price = none;
  add_multiple = none;
}

evaluate-flip :
    evaluate cfg
      (post Action.flip)
      Phase.live
      (Held.legs only_short)
      (some (whole 102))
      none
      now
      false
    ≡ some flipped
unfolding evaluate direction too_old whitelisted div plan_entry as_legs decimal matp.Base.Int.◌-ℤ◌
    label
evaluate-flip = refl

evaluate-IsFaithful_example : IsFaithful only_short flipped
unfolding as_legs
evaluate-IsFaithful_example =
    evaluate-IsFaithful cfg (post Action.flip) Phase.live (Held.legs only_short) (some (whole 102))
      none now false flipped evaluate-flip

evaluate-opens_example :
    (ltb_ℤ (confidence_of (post Action.flip)) cfg.confidence_floor ≡ false)
    × (whitelisted cfg (post Action.flip) ≡ true)
    × IsEntry cfg (post Action.flip) none (some (whole 102)) now Side.long
unfolding as_legs is_open
evaluate-opens_example =
    evaluate-opens cfg (post Action.flip) (Held.legs only_short) (some (whole 102)) none now false
      Side.long flipped evaluate-flip refl refl

evaluate-net_example : both_open only_long ≡ false
unfolding as_legs
evaluate-net_example =
    evaluate-net cfg (post Action.flip) Phase.live (Held.legs only_short) (some (whole 102)) none
      now flipped refl evaluate-flip

evaluate-emits_example :
    (ltb_ℤ (confidence_of (post Action.flip)) cfg.confidence_floor ≡ false)
    × (whitelisted cfg (post Action.flip) ≡ true)
    × IsAllowed cfg (post Action.flip) now Phase.live flipped
evaluate-emits_example =
    evaluate-emits cfg (post Action.flip) Phase.live (Held.legs only_short) (some (whole 102)) none
      now false flipped evaluate-flip refl

evaluate-total_example :
    is_some (
      evaluate cfg
        (post Action.add)
        Phase.live
        (Held.stance (some (codes "LONG")))
        none
        none
        now
        true)
    ≡ true
unfolding decimal
evaluate-total_example =
    evaluate-total cfg (post Action.add) Phase.live (Held.stance (some (codes "LONG"))) none none
      now true refl tt

-- a stop at 101 for a long that was entered at 100, with the mark at 105 and the last stop at 99
evaluate_stop-sent :
    evaluate_stop cfg
      (post Action.stop)
      (some Side.long)
      (some (whole 100))
      (some (whole 105))
      (some (whole 99))
      now
    ≡ (some (whole 101), ok)
unfolding evaluate_stop too_old
evaluate_stop-sent = refl

evaluate_stop-IsSafeStop_example :
    (s : Side) × (entry : Fixed) × (some Side.long ≡ some s)
    × (some (whole 100) ≡ some entry)
    × IsSafeStop cfg (post Action.stop) s entry (some (whole 105)) (some (whole 99)) now (whole 101)
evaluate_stop-IsSafeStop_example =
    evaluate_stop-IsSafeStop cfg (post Action.stop) (some Side.long) (some (whole 100))
      (some (whole 105)) (some (whole 99)) now (whole 101) (ap (λ r. r.0) evaluate_stop-sent)

evaluate_take_profit-sent :
    (evaluate_take_profit cfg
      (post Action.stop)
      (some Side.long)
      (some (whole 100))
      (some (whole 105))
      none
      now).0
    ≡ some (whole 120)
unfolding evaluate_take_profit too_old
evaluate_take_profit-sent = refl

-- a trim at market of a post that asks for all of the position
abbrev all_out : Post Fixed
all_out = record (post Action.trim) { size_fraction = some (Raw.number (whole 1)) }

abbrev half_off : Decision Fixed
half_off = record flipped {
  reason = Reason.trim_at_market;
  from_legs = only_long;
  from_state = codes "LONG";
  advance_legs = [];
  intended_signal = Signal.trim_signal Side.long;
  advance = false;
  is_trim = true;
  size_fraction = some (pos 500000);
}

evaluate-trim :
    evaluate cfg all_out Phase.live (Held.legs only_long) (some (whole 102)) none now false
    ≡ some half_off
unfolding evaluate whitelisted evaluate_trim resolve_leg direction as_legs too_old label
    trim_fraction
evaluate-trim = refl

evaluate-Within_example :
    Within cfg.min_trim_fraction cfg.max_trim_fraction half_off.size_fraction
    × Within (decimal 0 0) cfg.max_add_multiple half_off.add_multiple
unfolding decimal
evaluate-Within_example =
    evaluate-Within Fixed-IsOrdered cfg all_out Phase.live (Held.legs only_long) (some (whole 102))
      none now false half_off refl refl evaluate-trim

-- an OPEN at a cited price that was loaded from the database raises a TypeError
evaluate-reloaded :
    evaluate cfg
      (record (post Action.open_leg) { is_reloaded = true })
      Phase.live
      (Held.stance none)
      (some (whole 100))
      none
      now
      true
    ≡ none
unfolding evaluate direction too_old whitelisted div plan_entry as_legs decimal matp.Base.Int.◌-ℤ◌
evaluate-reloaded = refl
