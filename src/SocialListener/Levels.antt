-- ===== src/SocialListener/Levels.antt =====
-- social-listener/app/statemachine.py: which leg a management post is about (`resolve_leg`), and where
-- its stop and its take-profit go (`evaluate_stop`, `evaluate_take_profit`).
pub mod Guards
use matp.Base.{ℕ, Bool, false, not, ◌&&◌, Option, none, some, is_some, if◌then◌else◌}
use matp.Base.Num.{Num, max}
use matp.SocialListener.Legs.{Side, long, short, Legs, is_open, flat, sole_open}
use matp.SocialListener.Post.{Raw, number, junk, Post, Settings, direction, too_old}

pub data Refusal : Type 0 where
  side_not_open no_position side_ambiguous : Refusal

unfoldable pub resolve_unnamed : Legs → Option Side × Option Refusal
unfolding flat sole_open
resolve_unnamed legs = if flat legs then (none, some no_position) else elim (sole_open legs) [
  | some sole ↦ (some sole, none)
  | none ↦ (none, some side_ambiguous)
]

unfoldable pub resolve_leg : {F : Type 0} → Post F → Legs → Option Side × Option Refusal
unfolding resolve_unnamed is_open
resolve_leg rec legs = elim (direction rec) [
  | some named ↦ if is_open legs named then (some named, none) else (none, some side_not_open)
  | none ↦ resolve_unnamed legs
]

pub data LevelReason : Type 0 where
  no_stop_instruction no_position_for_stop signal_too_old no_entry_price : LevelReason
  stop_would_widen_risk stop_already_crossed stop_not_tighter : LevelReason
  no_tp_instruction no_position_for_tp tp_wrong_side tp_already_crossed tp_unchanged : LevelReason
  ok : LevelReason

-- `float(x)`, where `none` is the exception
abbrev pub float : {F : Type 0} → Raw F → Option F
float (number x) = some x
float junk = none

module _ {F : Type 0} ⦃num : Num F⦄ where
  open num use {lt, le, sub, div, abs, decimal}

  -- `a` protects less than `b`: above it on a short, below it on a long
  abbrev pub looser : Side → F → F → Bool
  looser short a b = lt b a
  looser long a b = lt a b

  -- a stop at `a` is on the wrong side of the mark
  abbrev pub stop_crossed : Side → F → F → Bool
  stop_crossed short a mark = le a mark
  stop_crossed long a mark = le mark a

  -- the three guards, on the level that is wanted
  unfoldable pub stop_guards : Side → F → F → Option F → Option F → Option F × LevelReason
  stop_guards side entry want mark last_stop =
      if looser side want entry
      then (none, stop_would_widen_risk)
      else if elim mark [ none ↦ false | some m ↦ stop_crossed side want m ]
      then (none, stop_already_crossed)
      else if elim last_stop [ none ↦ false | some prev ↦ looser side want prev ]
      then (none, stop_not_tighter)
      else (some want, ok)

  -- the level that the post asks for: the named one, or the entry
  abbrev pub wanted_stop : Option (Raw F) → F → Option F
  wanted_stop none entry = some entry
  wanted_stop (some raw) entry = float raw

  stop_at_entry : Post F → Side → Option F → Option F → Option F → Option F × LevelReason
  unfolding stop_guards
  stop_at_entry rec side entry_price mark last_stop = elim entry_price [
    | none ↦ (none, no_entry_price)
    | some entry ↦ elim (wanted_stop rec.stop_price entry) [
      | none ↦ (none, no_stop_instruction)
      | some want ↦ stop_guards side entry want mark last_stop
    ]
  ]

  unfoldable pub evaluate_stop :
      Settings F
      → Post F
      → Option Side
      → Option F
      → Option F
      → Option F
      → ℕ
      → Option F × LevelReason
  unfolding stop_at_entry
  evaluate_stop cfg rec side entry_price mark last_stop now =
      if not (is_some rec.stop_price) && not rec.stop_to_breakeven
      then (none, no_stop_instruction)
      else elim side [
        | none ↦ (none, no_position_for_stop)
        | some s ↦
            if too_old cfg rec now
            then (none, signal_too_old)
            else stop_at_entry rec s entry_price mark last_stop
      ]

  -- a target at `a` is no further into profit than `b`
  abbrev pub not_in_profit : Side → F → F → Bool
  not_in_profit short a b = le b a
  not_in_profit long a b = le a b

  abbrev pub same_target : F → F → Bool
  same_target last want = lt (div (abs (sub last want)) (max want (decimal 1 9))) (decimal 1 6)

  unfoldable pub target_guards : Side → F → Option F → Option F → Option F → Option F × LevelReason
  target_guards side want entry_price mark last_tp =
      if elim entry_price [ none ↦ false | some e ↦ not_in_profit side want e ]
      then (none, tp_wrong_side)
      else if elim mark [ none ↦ false | some m ↦ not_in_profit side want m ]
      then (none, tp_already_crossed)
      else if elim last_tp [ none ↦ false | some l ↦ same_target l want ]
      then (none, tp_unchanged)
      else (some want, ok)

  unfoldable pub evaluate_take_profit :
      Settings F
      → Post F
      → Option Side
      → Option F
      → Option F
      → Option F
      → ℕ
      → Option F × LevelReason
  unfolding target_guards
  evaluate_take_profit cfg rec side entry_price mark last_tp now = elim rec.take_profit_price [
    | none ↦ (none, no_tp_instruction)
    | some raw ↦ elim side [
      | none ↦ (none, no_position_for_tp)
      | some s ↦ if too_old cfg rec now then (none, signal_too_old) else elim (float raw) [
        | none ↦ (none, no_tp_instruction)
        | some want ↦ target_guards s want entry_price mark last_tp
      ]
    ]
  ]
