-- ===== src/SocialListener/Gate/Modes.antt =====
-- `evaluate` on a net account, on the backfill path, and on every input where it is to return.
use matp.Base.{
  ◌||◌, ℕ, Bool, true, false, ◌&&◌, ◌≡◌, Option, some, none, is_some, arith, Bool-cases, inl, inr,
}
use matp.Base.Num.{Num, nought}
use matp.SocialListener.Legs.{Side, long, short, Legs, flat}
use matp.SocialListener.Post.{Action, Phase, Post, Settings, direction}
use matp.SocialListener.Levels.Guards.{Spares, resolve_leg-refusal}
use matp.SocialListener.Plan.{Plan, refused, moving, plan_close, plan_entry}
use matp.SocialListener.Manage.{evaluate_add, evaluate_trim}
use matp.SocialListener.Decision.{Decision, Scope, move_legs}
use matp.SocialListener.Gate.{Held, as_legs, settle, evaluate_action, evaluate}
use matp.SocialListener.Gate.Entries.{evaluate_trim-to_legs, evaluate_add-to_legs}

abbrev pub both_open : Legs → Bool
both_open l = l.long && l.short

abbrev IsNet : Legs → Plan → Type 0
IsNet legs (refused r leg) = Unit
IsNet legs (moving sig leg moves g) = both_open (move_legs legs moves) ≡ false

plan_close-IsNet :
    (named : Option Side) (legs : Legs)
    → both_open legs ≡ false
    → IsNet legs (plan_close named legs)
unfolding plan_close move_legs
plan_close-IsNet none legs h = ground arith
plan_close-IsNet (some long) legs h = ground arith
plan_close-IsNet (some short) legs h = ground arith

plan_entry-IsNet :
    (is_flip : Bool) (named : Option Side) (legs : Legs)
    → both_open legs ≡ false
    → IsNet legs (plan_entry is_flip named legs false)
unfolding plan_entry move_legs
plan_entry-IsNet is_flip none legs h = tt
plan_entry-IsNet is_flip (some long) legs h = ground arith
plan_entry-IsNet is_flip (some short) legs h = ground arith

module _ {F : Type 0} ⦃num : Num F⦄ (cfg : Settings F) (rec : Post F) (phase : Phase) where
  settle-IsNet :
      (c : Scope F) (implied : Option F) (now : ℕ) (plan : Plan) (d : Decision F)
      → both_open c.legs ≡ false
      → IsNet c.legs plan
      → settle cfg rec phase c implied now plan ≡ some d
      → both_open d.to_legs ≡ false
  unfolding settle
  settle-IsNet c implied now (refused q leg) d h n e = ground arith
  settle-IsNet c implied now (moving sig leg moves g) d h n e = ground arith

  evaluate_action-IsNet :
      (c : Scope F) (implied : Option F) (now : ℕ) (a : Action) (d : Decision F)
      → both_open c.legs ≡ false
      → evaluate_action cfg rec phase c implied now false a ≡ some d
      → both_open d.to_legs ≡ false
  unfolding evaluate_action
  evaluate_action-IsNet c implied now Action.trim d h e =
      ground (arith, evaluate_trim-to_legs cfg rec phase now c d e)
  evaluate_action-IsNet c implied now Action.add d h e =
      elim (Bool-cases (flat c.legs && is_some (direction rec))) [
        | inl open_it ↦
            settle-IsNet (record c { as_open = true }) implied now _ d h
              (plan_entry-IsNet false (direction rec) c.legs h) (rw open_it at e)
        | inr grow ↦ ground (arith, evaluate_add-to_legs cfg rec phase now c d (rw grow at e))
      ]
  evaluate_action-IsNet c implied now Action.stop d h e = ground arith
  evaluate_action-IsNet c implied now Action.close d h e =
      settle-IsNet c implied now _ d h (plan_close-IsNet (direction rec) c.legs h) e
  evaluate_action-IsNet c implied now Action.open_leg d h e =
      settle-IsNet c implied now _ d h (plan_entry-IsNet false (direction rec) c.legs h) e
  evaluate_action-IsNet c implied now Action.flip d h e =
      settle-IsNet c implied now _ d h (plan_entry-IsNet true (direction rec) c.legs h) e
  evaluate_action-IsNet c implied now Action.other d h e = ground arith

  -- On a net account, where `multi` is false, a channel that does not hold both legs never comes to
  -- hold both.
  pub evaluate-net :
      (held : Held) (mark implied : Option F) (now : ℕ) (d : Decision F)
      → both_open (as_legs held) ≡ false
      → evaluate cfg rec phase held mark implied now false ≡ some d
      → both_open d.to_legs ≡ false
  unfolding evaluate
  evaluate-net held mark implied now d h e = ground (
    arith,
    evaluate_action-IsNet (record { legs = as_legs held; mark = mark; as_open = false }) implied now
        rec.action_type d,
  )

  settle-total :
      (c : Scope F) (implied : Option F) (now : ℕ) (plan : Plan)
      → Spares (λ p. rec.is_reloaded || num.eq p nought) rec.reference_price
      → Spares (λ p. num.eq p nought) implied
      → is_some (settle cfg rec phase c implied now plan) ≡ true
  unfolding settle
  settle-total c implied now (refused q leg) h k = ground arith
  settle-total c implied now (moving sig leg moves g) h k = ground arith

  evaluate_trim-total : (c : Scope F) (now : ℕ) → is_some (evaluate_trim cfg rec phase now c) ≡ true
  unfolding evaluate_trim
  evaluate_trim-total c now = ground (arith, resolve_leg-refusal rec c.legs)

  evaluate_add-total :
      (c : Scope F) (now : ℕ)
      → Spares (λ p. num.eq p nought) rec.reference_price
      → is_some (evaluate_add cfg rec phase now c) ≡ true
  unfolding evaluate_add
  evaluate_add-total c now h = ground (arith, resolve_leg-refusal rec c.legs)

  evaluate_action-total :
      (c : Scope F) (implied : Option F) (now : ℕ) (multi : Bool) (a : Action)
      → Spares (λ p. rec.is_reloaded || num.eq p nought) rec.reference_price
      → Spares (λ p. num.eq p nought) implied
      → is_some (evaluate_action cfg rec phase c implied now multi a) ≡ true
  unfolding evaluate_action
  evaluate_action-total c implied now multi Action.trim h k = evaluate_trim-total c now
  evaluate_action-total c implied now multi Action.add h k = ground (
    arith,
    evaluate_add-total c now,
    settle-total (record c { as_open = true }) implied now
        (plan_entry false (direction rec) c.legs multi) h k,
  )
  evaluate_action-total c implied now multi Action.stop h k = ground arith
  evaluate_action-total c implied now multi Action.close h k = settle-total c implied now _ h k
  evaluate_action-total c implied now multi Action.open_leg h k = settle-total c implied now _ h k
  evaluate_action-total c implied now multi Action.flip h k = settle-total c implied now _ h k
  evaluate_action-total c implied now multi Action.other h k = ground arith

  -- `evaluate` returns a decision, and raises nothing, where the cited reference price, if there is one, is neither zero nor
  -- the `Decimal` of a reloaded post, and the implied one is not zero.
  pub evaluate-total :
      (held : Held) (mark implied : Option F) (now : ℕ) (multi : Bool)
      → Spares (λ p. rec.is_reloaded || num.eq p nought) rec.reference_price
      → Spares (λ p. num.eq p nought) implied
      → is_some (evaluate cfg rec phase held mark implied now multi) ≡ true
  unfolding evaluate
  evaluate-total held mark implied now multi h k = ground (
    arith,
    evaluate_action-total (record { legs = as_legs held; mark = mark; as_open = false }) implied now
        multi rec.action_type h k,
  )
