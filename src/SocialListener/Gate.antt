-- ===== src/SocialListener/Gate.antt =====
-- social-listener/app/statemachine.py: `evaluate`, the gate that turns a post into a decision. A result
-- `none` is a Python exception: a division by a reference price of zero, or the difference of a mark, which is a
-- float, and a `Decimal`.
pub mod Entries
pub mod Modes
pub mod Phases
pub mod Moves
pub mod Sizes
use matp.Base.{ℕ, Bool, true, false, ◌&&◌, Option, none, some, is_some, if◌then◌else◌}
use matp.Base.Text.{Text, codes, text_eq}
use matp.Base.Num.{Num}
use matp.SocialListener.Legs.{Legs, from_stance, flat}
use matp.SocialListener.Post.{
  Action, Phase, Post, Settings, direction, too_old, confidence_of, whitelisted,
}
use matp.SocialListener.Plan.{Plan, refused, moving, plan_close, plan_entry}
use matp.SocialListener.Manage.{is_backfill, moved_from, chased, evaluate_add, evaluate_trim}
use matp.SocialListener.Decision.{Reason, no_signal, Decision, Scope, no_extra, on_leg, skip, act}

-- the argument `legs`: a `Legs`, or a stance string
pub data Held : Type 0 where
  legs : Legs → Held
  stance : Option Text → Held

unfoldable pub as_legs : Held → Legs
unfolding from_stance
as_legs (legs l) = l
as_legs (stance s) = from_stance s

module _ {F : Type 0} ⦃num : Num F⦄ where
  open num use {lt}

  -- `(mark - ref) / ref` of a full move, with no `float()` around a reference that may be a `Decimal`
  unfoldable pub raw_moved_from : Bool → F → F → Option F
  unfolding moved_from
  raw_moved_from is_decimal ref mark = if is_decimal then none else moved_from ref mark

  -- the chase test of a full move against the reference `ref`
  unfoldable pub price_gate :
      Settings F → Scope F → Plan → Bool → F → Reason → Reason → Option (Decision F)
  unfolding raw_moved_from skip act
  price_gate cfg c (refused r leg) is_decimal ref reason_ok reason_stale = none
  price_gate cfg c (moving sig leg moves going_long) is_decimal ref reason_ok reason_stale =
      elim c.mark [
        | none ↦ some (skip c Reason.no_mark sig (on_leg leg))
        | some mark ↦ elim (raw_moved_from is_decimal ref mark) [
          | none ↦ none
          | some moved ↦ some (
              if chased cfg going_long moved
              then skip c reason_stale sig (on_leg leg)
              else act c reason_ok sig moves (on_leg leg))
        ]
      ]

  -- what follows the plan in `evaluate`: refusal, backfill, and the gates of the live path
  unfoldable pub settle :
      Settings F → Post F → Phase → Scope F → Option F → ℕ → Plan → Option (Decision F)
  unfolding price_gate
  settle cfg rec phase c implied_ref now (refused r leg) = some (skip c r no_signal (on_leg leg))
  settle cfg rec phase c implied_ref now (moving sig leg moves going_long) =
      if is_backfill phase
      then some (act c Reason.backfill_replay sig moves (on_leg leg))
      else if too_old cfg rec now
      then some (skip c Reason.signal_too_old sig (on_leg leg))
      else elim rec.reference_price [
        | some ref ↦
            price_gate cfg c (moving sig leg moves going_long) rec.is_reloaded ref Reason.ok
              Reason.stale_price
        | none ↦
            if text_eq cfg.entry_on_missing_price (codes "market")
            then elim implied_ref [
              | none ↦ some (act c Reason.priceless_recent sig moves (on_leg leg))
              | some ref ↦
                  price_gate cfg c (moving sig leg moves going_long) false ref Reason.ok_implied_ref
                    Reason.stale_implied_ref
            ]
            else some (skip c Reason.priceless_no_entry sig (on_leg leg))
      ]

  -- the dispatch on `action_type`
  unfoldable pub evaluate_action :
      Settings F → Post F → Phase → Scope F → Option F → ℕ → Bool → Action → Option (Decision F)
  unfolding settle
  evaluate_action cfg rec phase c implied_ref now multi Action.trim =
      evaluate_trim cfg rec phase now c
  evaluate_action cfg rec phase c implied_ref now multi Action.add =
      if flat c.legs && is_some (direction rec)
      then settle cfg rec phase (record c { as_open = true }) implied_ref now
          (plan_entry false (direction rec) c.legs multi)
      else evaluate_add cfg rec phase now c
  evaluate_action cfg rec phase c implied_ref now multi Action.stop =
      some (skip c Reason.stop_only no_signal no_extra)
  evaluate_action cfg rec phase c implied_ref now multi Action.close =
      settle cfg rec phase c implied_ref now (plan_close (direction rec) c.legs)
  evaluate_action cfg rec phase c implied_ref now multi Action.open_leg =
      settle cfg rec phase c implied_ref now (plan_entry false (direction rec) c.legs multi)
  evaluate_action cfg rec phase c implied_ref now multi Action.flip =
      settle cfg rec phase c implied_ref now (plan_entry true (direction rec) c.legs multi)
  evaluate_action cfg rec phase c implied_ref now multi Action.other =
      some (skip c Reason.no_target no_signal no_extra)

  unfoldable pub evaluate :
      Settings F → Post F → Phase → Held → Option F → Option F → ℕ → Bool → Option (Decision F)
  unfolding evaluate_action
  evaluate cfg rec phase held mark implied_ref now multi =
      let c : Scope F = record { legs = as_legs held; mark = mark; as_open = false } in
      if lt (confidence_of rec) cfg.confidence_floor
      then some (skip c Reason.low_confidence no_signal no_extra)
      else if whitelisted cfg rec
      then evaluate_action cfg rec phase c implied_ref now multi rec.action_type
      else some (skip c Reason.not_whitelisted no_signal no_extra)
