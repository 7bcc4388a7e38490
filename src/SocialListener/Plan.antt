-- ===== src/SocialListener/Plan.antt =====
-- social-listener/app/statemachine.py: which legs a CLOSE (`_plan_close`), an OPEN or a FLIP post moves.
use matp.Base.{Bool, true, false, not, ◌&&◌, ◌||◌, Option, none, some, [], ◌∷◌, if◌then◌else◌}
use matp.SocialListener.Legs.{Side, long, short, Legs, is_open, flat, sole_open, opposite}
use matp.SocialListener.Decision.{
  Reason, Signal, close_all, open_signal, close_signal, flip_signal, Advance,
}

abbrev pub is_long : Side → Bool
is_long long = true
is_long short = false

-- What a CLOSE, an OPEN or a FLIP wants: a refusal, or a signal with the legs that it moves and
-- the side whose chase test applies.
pub data Plan : Type 0 where
  refused : Reason → Option Side → Plan
  moving : Signal → Option Side → Advance → Bool → Plan

-- `_plan_close`, on the side that the post names
unfoldable pub plan_close : Option Side → Legs → Plan
unfolding flat is_open sole_open
plan_close named legs = if flat legs then refused Reason.no_state_change none else elim named [
  | some n ↦
      if not (is_open legs n)
      then refused Reason.close_side_not_open (some n)
      else moving (close_signal n) (some n) ((n, false) ∷ []) false
  | none ↦ elim (sole_open legs) [
    | some sole ↦ moving (close_signal sole) (some sole) ((sole, false) ∷ []) false
    | none ↦ moving close_all none ((long, false) ∷ (short, false) ∷ []) false
  ]
]

-- the branch of `evaluate` for OPEN and FLIP
unfoldable pub plan_entry : Bool → Option Side → Legs → Bool → Plan
unfolding is_open opposite
plan_entry is_flip none legs multi = refused Reason.no_target none
plan_entry is_flip (some want) legs multi =
    let other = opposite want in
    let other_open = is_open legs other in
    if is_open legs want
    then (if is_flip && other_open
        then moving (close_signal other) (some want) ((other, false) ∷ []) (is_long other)
        else refused Reason.no_state_change none)
    else if other_open && (is_flip || not multi)
    then moving (flip_signal want) (some want) ((other, false) ∷ (want, true) ∷ []) (is_long want)
    else moving (open_signal want) (some want) ((want, true) ∷ []) (is_long want)
