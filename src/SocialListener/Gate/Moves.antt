-- ===== src/SocialListener/Gate/Moves.antt =====
-- The legs that `evaluate` records are those that the orders of its signal lead to.
use matp.Base.{
  ℕ, Bool, true, false, ◌≡◌, Option, none, some, List, [], ◌∷◌, arith, nonempty, if◌then◌else◌,
}
use matp.Base.Num.{Num}
use matp.SocialListener.Legs.{Side, long, short, Legs, with_side}
use matp.SocialListener.Post.{Action, Phase, Post, Settings, direction}
use matp.SocialListener.Plan.{Plan, refused, moving, plan_close, plan_entry}
use matp.SocialListener.Manage.{evaluate_add, evaluate_trim}
use matp.SocialListener.Decision.{Verdict, acted, Reason, Decision, Scope, move_legs}
use matp.SocialListener.Emitter.{Step, open_step, close_step, partial_step, add_step, steps}
use matp.SocialListener.Gate.{Held, as_legs, price_gate, settle, evaluate_action, evaluate}

-- What an order of a step does to the legs, when it is filled.
abbrev pub fill : Legs → Step → Legs
fill legs (open_step s) = with_side legs s true
fill legs (close_step s) = with_side legs s false
fill legs (partial_step s) = legs
fill legs (add_step s) = legs

abbrev pub fill_all : Legs → List Step → Legs
fill_all legs [] = legs
fill_all legs (s ∷ rest) = fill_all (fill legs s) rest

-- A plan's orders lead to the legs that it records.
abbrev IsSound : Legs → Plan → Type 0
IsSound legs (refused r leg) = Unit
IsSound legs (moving sig leg moves g) = fill_all legs (steps sig) ≡ move_legs legs moves

plan_close-IsSound : (named : Option Side) (legs : Legs) → IsSound legs (plan_close named legs)
unfolding plan_close steps move_legs
plan_close-IsSound none legs = ground arith
plan_close-IsSound (some long) legs = ground arith
plan_close-IsSound (some short) legs = ground arith

plan_entry-IsSound :
    (is_flip : Bool) (named : Option Side) (legs : Legs) (multi : Bool)
    → IsSound legs (plan_entry is_flip named legs multi)
unfolding plan_entry steps move_legs
plan_entry-IsSound is_flip none legs multi = ground arith
plan_entry-IsSound is_flip (some long) legs multi = ground arith
plan_entry-IsSound is_flip (some short) legs multi = ground arith

abbrev is_acted : Verdict → Bool
is_acted acted = true
is_acted _ = false

-- A decision is consistent with the legs that it starts from: its orders, if it sends any, lead to
-- the legs that it records, and so does its own list of moves.
pub record IsFaithful {F : Type 0} (legs : Legs) (d : Decision F) : Type 0 where
  pub from : d.from_legs ≡ legs
  pub orders : fill_all legs (if d.emit then steps d.intended_signal else []) ≡ d.to_legs
  pub moves : move_legs legs d.advance_legs ≡ d.to_legs
  pub advances : d.advance ≡ nonempty d.advance_legs
  pub emits : d.emit ≡ is_acted d.decision

module _ {F : Type 0} ⦃num : Num F⦄ (cfg : Settings F) (rec : Post F) (phase : Phase) where
  price_gate-IsFaithful :
      (c : Scope F) (plan : Plan) (is_decimal : Bool) (ref : F) (r s : Reason) (d : Decision F)
      → IsSound c.legs plan
      → price_gate cfg c plan is_decimal ref r s ≡ some d
      → IsFaithful c.legs d
  unfolding price_gate
  price_gate-IsFaithful c (refused q leg) is_decimal ref r s d h e = cc
  price_gate-IsFaithful c (moving sig leg moves g) is_decimal ref r s d h e = ground arith

  settle-IsFaithful :
      (c : Scope F) (implied : Option F) (now : ℕ) (plan : Plan) (d : Decision F)
      → IsSound c.legs plan
      → settle cfg rec phase c implied now plan ≡ some d
      → IsFaithful c.legs d
  unfolding settle
  settle-IsFaithful c implied now (refused q leg) d h e = ground arith
  settle-IsFaithful c implied now (moving sig leg moves g) d h e = ground arith

  evaluate_trim-IsFaithful :
      (now : ℕ) (c : Scope F) (d : Decision F)
      → evaluate_trim cfg rec phase now c ≡ some d
      → IsFaithful c.legs d
  unfolding evaluate_trim steps
  evaluate_trim-IsFaithful now c d e = ground arith

  evaluate_add-IsFaithful :
      (now : ℕ) (c : Scope F) (d : Decision F)
      → evaluate_add cfg rec phase now c ≡ some d
      → IsFaithful c.legs d
  unfolding evaluate_add steps
  evaluate_add-IsFaithful now c d e = ground arith

  evaluate_action-IsFaithful :
      (c : Scope F) (implied : Option F) (now : ℕ) (multi : Bool) (a : Action) (d : Decision F)
      → evaluate_action cfg rec phase c implied now multi a ≡ some d
      → IsFaithful c.legs d
  unfolding evaluate_action
  evaluate_action-IsFaithful c implied now multi Action.trim d e =
      evaluate_trim-IsFaithful now c d e
  evaluate_action-IsFaithful c implied now multi Action.add d e = ground (
    arith,
    evaluate_add-IsFaithful now c d,
    settle-IsFaithful (record c { as_open = true }) implied now
        (plan_entry false (direction rec) c.legs multi) d
        (plan_entry-IsSound false (direction rec) c.legs multi),
  )
  evaluate_action-IsFaithful c implied now multi Action.stop d e = ground arith
  evaluate_action-IsFaithful c implied now multi Action.close d e =
      settle-IsFaithful c implied now _ d (plan_close-IsSound (direction rec) c.legs) e
  evaluate_action-IsFaithful c implied now multi Action.open_leg d e =
      settle-IsFaithful c implied now _ d (plan_entry-IsSound false (direction rec) c.legs multi) e
  evaluate_action-IsFaithful c implied now multi Action.flip d e =
      settle-IsFaithful c implied now _ d (plan_entry-IsSound true (direction rec) c.legs multi) e
  evaluate_action-IsFaithful c implied now multi Action.other d e = ground arith

  -- Every decision of `evaluate` starts from the legs it was given; the orders that the emitter
  -- sends for it, none where it does not emit, lead from those legs to the legs that it records,
  -- and so does its own list of moves; and it emits exactly where its verdict is `acted`.
  pub evaluate-IsFaithful :
      (held : Held) (mark implied : Option F) (now : ℕ) (multi : Bool) (d : Decision F)
      → evaluate cfg rec phase held mark implied now multi ≡ some d
      → IsFaithful (as_legs held) d
  unfolding evaluate
  evaluate-IsFaithful held mark implied now multi d e = ground (
    arith,
    evaluate_action-IsFaithful (record { legs = as_legs held; mark = mark; as_open = false })
        implied now multi rec.action_type d,
  )
