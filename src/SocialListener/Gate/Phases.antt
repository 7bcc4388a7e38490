-- ===== src/SocialListener/Gate/Phases.antt =====
-- What `evaluate` emits on the backfill path and on the live path.
use matp.Base.{ℕ, Bool, true, false, ◌≡◌, Option, some, arith}
use matp.Base.Num.{Num}
use matp.SocialListener.Post.{
  Action, Phase, Post, Settings, direction, too_old, confidence_of, whitelisted,
}
use matp.SocialListener.Plan.{Plan, refused, moving, plan_entry}
use matp.SocialListener.Manage.{evaluate_add, evaluate_trim}
use matp.SocialListener.Decision.{Decision, Scope}
use matp.SocialListener.Gate.{Held, as_legs, settle, evaluate_action, evaluate}

-- A decision that emits, on each path.
abbrev pub IsAllowed : {F : Type 0} → Settings F → Post F → ℕ → Phase → Decision F → Type 0
IsAllowed cfg rec now Phase.backfill d = (d.is_trim ≡ false) × (d.is_add ≡ false) × (d.park ≡ false)
IsAllowed cfg rec now Phase.live d = too_old cfg rec now ≡ false

module _ {F : Type 0} ⦃num : Num F⦄ (cfg : Settings F) (rec : Post F) where
  settle-IsAllowed :
      (phase : Phase) (c : Scope F) (implied : Option F) (now : ℕ) (plan : Plan) (d : Decision F)
      → settle cfg rec phase c implied now plan ≡ some d
      → d.emit ≡ true
      → IsAllowed cfg rec now phase d
  unfolding settle
  settle-IsAllowed phase c implied now (refused q leg) d e m = absurd (ground arith)
  settle-IsAllowed Phase.backfill c implied now (moving sig leg moves g) d e m = ground arith
  settle-IsAllowed Phase.live c implied now (moving sig leg moves g) d e m = ground arith

  evaluate_trim-IsAllowed :
      (phase : Phase) (now : ℕ) (c : Scope F) (d : Decision F)
      → evaluate_trim cfg rec phase now c ≡ some d
      → d.emit ≡ true
      → IsAllowed cfg rec now phase d
  unfolding evaluate_trim
  evaluate_trim-IsAllowed Phase.backfill now c d e m = ground arith
  evaluate_trim-IsAllowed Phase.live now c d e m = ground arith

  evaluate_add-IsAllowed :
      (phase : Phase) (now : ℕ) (c : Scope F) (d : Decision F)
      → evaluate_add cfg rec phase now c ≡ some d
      → d.emit ≡ true
      → IsAllowed cfg rec now phase d
  unfolding evaluate_add
  evaluate_add-IsAllowed Phase.backfill now c d e m = ground arith
  evaluate_add-IsAllowed Phase.live now c d e m = ground arith

  evaluate_action-IsAllowed :
      (phase : Phase) (c : Scope F) (implied : Option F) (now : ℕ) (multi : Bool) (a : Action)
      (d : Decision F)
      → evaluate_action cfg rec phase c implied now multi a ≡ some d
      → d.emit ≡ true
      → IsAllowed cfg rec now phase d
  unfolding evaluate_action
  evaluate_action-IsAllowed phase c implied now multi Action.trim d e m =
      evaluate_trim-IsAllowed phase now c d e m
  evaluate_action-IsAllowed phase c implied now multi Action.add d e m = ground (
    arith,
    evaluate_add-IsAllowed phase now c d,
    settle-IsAllowed phase (record c { as_open = true }) implied now
        (plan_entry false (direction rec) c.legs multi) d,
  )
  evaluate_action-IsAllowed phase c implied now multi Action.stop d e m = absurd (ground arith)
  evaluate_action-IsAllowed phase c implied now multi Action.close d e m =
      settle-IsAllowed phase c implied now _ d e m
  evaluate_action-IsAllowed phase c implied now multi Action.open_leg d e m =
      settle-IsAllowed phase c implied now _ d e m
  evaluate_action-IsAllowed phase c implied now multi Action.flip d e m =
      settle-IsAllowed phase c implied now _ d e m
  evaluate_action-IsAllowed phase c implied now multi Action.other d e m = absurd (ground arith)

  -- A decision that sends orders comes from a confident post on a whitelisted asset; on the live
  -- path the post is not too old, and on the backfill path the decision is no trim and no add.
  pub evaluate-emits :
      (phase : Phase) (held : Held) (mark implied : Option F) (now : ℕ) (multi : Bool)
      (d : Decision F)
      → evaluate cfg rec phase held mark implied now multi ≡ some d
      → d.emit ≡ true
      → (num.lt (confidence_of rec) cfg.confidence_floor ≡ false)
        × (whitelisted cfg rec ≡ true)
        × IsAllowed cfg rec now phase d
  unfolding evaluate
  evaluate-emits Phase.backfill held mark implied now multi d e m = ground (
    arith,
    evaluate_action-IsAllowed Phase.backfill
        (record { legs = as_legs held; mark = mark; as_open = false }) implied now multi
        rec.action_type d,
  )
  evaluate-emits Phase.live held mark implied now multi d e m = ground (
    arith,
    evaluate_action-IsAllowed Phase.live
        (record { legs = as_legs held; mark = mark; as_open = false }) implied now multi
        rec.action_type d,
  )
