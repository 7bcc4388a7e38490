-- ===== src/SocialListener/Gate/Entries.antt =====
-- When `evaluate` may send orders, and when it may open a leg.
use matp.Base.{
  ℕ, Bool, true, false, not, ◌&&◌, ◌≡◌, Option, some, none, is_some, arith, Bool-cases, inl, inr,
}
use matp.Base.Num.{Num}
use matp.SocialListener.Legs.{Side, long, short, Legs, is_open, flat}
use matp.SocialListener.Post.{
  Action, Phase, Post, Settings, direction, too_old, confidence_of, whitelisted,
}
use matp.SocialListener.Plan.{is_long, Plan, refused, moving, plan_close, plan_entry}
use matp.SocialListener.Manage.{moved_from, chased, evaluate_add, evaluate_trim}
use matp.SocialListener.Decision.{Decision, Scope, move_legs}
use matp.SocialListener.Gate.{Held, as_legs, settle, evaluate_action, evaluate}

module _ {F : Type 0} ⦃num : Num F⦄ (cfg : Settings F) where
  abbrev calm_at : F → Option F → Side → Bool
  calm_at ref none s = false
  calm_at ref (some mark) s = elim (moved_from ref mark) [
    | none ↦ false
    | some moved ↦ not (chased cfg (is_long s) moved)
  ]

  -- There is a mark, and it has not run more than `staleness_pct` the way of the side `s` from the
  -- reference: the cited price, or else the implied one. With neither, nothing is asked.
  abbrev pub calm : Option F → Option F → Option F → Side → Bool
  calm (some ref) implied mark s = calm_at ref mark s
  calm none (some ref) mark s = calm_at ref mark s
  calm none none mark s = true

-- Where a plan opens the leg `s`, the post named that leg, and the chase test is that of its side.
record Opens (named : Option Side) (s : Side) (going_long : Bool) : Type 0 where
  by_name : named ≡ some s
  tested : going_long ≡ is_long s

abbrev IsOpening : Option Side → Legs → Side → Plan → Type 0
IsOpening named legs s (refused r leg) = Unit
IsOpening named legs s (moving sig leg moves g) =
    is_open legs s ≡ false → is_open (move_legs legs moves) s ≡ true → Opens named s g

plan_close-IsOpening :
    (named : Option Side) (legs : Legs) (s : Side) → IsOpening named legs s (plan_close named legs)
unfolding plan_close move_legs
plan_close-IsOpening none legs long = ground arith
plan_close-IsOpening none legs short = ground arith
plan_close-IsOpening (some long) legs long = ground arith
plan_close-IsOpening (some long) legs short = ground arith
plan_close-IsOpening (some short) legs long = ground arith
plan_close-IsOpening (some short) legs short = ground arith

plan_entry-IsOpening :
    (is_flip : Bool) (named : Option Side) (legs : Legs) (multi : Bool) (s : Side)
    → IsOpening named legs s (plan_entry is_flip named legs multi)
unfolding plan_entry move_legs
plan_entry-IsOpening is_flip none legs multi s = tt
plan_entry-IsOpening is_flip (some long) legs multi long = ground arith
plan_entry-IsOpening is_flip (some long) legs multi short = ground arith
plan_entry-IsOpening is_flip (some short) legs multi long = ground arith
plan_entry-IsOpening is_flip (some short) legs multi short = ground arith

module _ {F : Type 0} ⦃num : Num F⦄ (cfg : Settings F) (rec : Post F) where
  -- What an opening decision of the live path meets.
  pub record IsEntry (implied mark : Option F) (now : ℕ) (s : Side) : Type 0 where
    pub named : direction rec ≡ some s
    pub fresh : too_old cfg rec now ≡ false
    pub unchased : calm cfg rec.reference_price implied mark s ≡ true

  settle-IsEntry :
      (c : Scope F) (implied : Option F) (now : ℕ) (plan : Plan) (s : Side) (d : Decision F)
      → IsOpening (direction rec) c.legs s plan
      → settle cfg rec Phase.live c implied now plan ≡ some d
      → is_open c.legs s ≡ false
      → is_open d.to_legs s ≡ true
      → IsEntry implied c.mark now s
  unfolding settle
  settle-IsEntry c implied now (refused q leg) s d h e p o = absurd (ground arith)
  settle-IsEntry c implied now (moving sig leg moves g) s d h e p o = ground (arith, h)

  pub evaluate_trim-to_legs :
      (phase : Phase) (now : ℕ) (c : Scope F) (d : Decision F)
      → evaluate_trim cfg rec phase now c ≡ some d
      → d.to_legs ≡ c.legs
  unfolding evaluate_trim
  evaluate_trim-to_legs phase now c d e = ground arith

  pub evaluate_add-to_legs :
      (phase : Phase) (now : ℕ) (c : Scope F) (d : Decision F)
      → evaluate_add cfg rec phase now c ≡ some d
      → d.to_legs ≡ c.legs
  unfolding evaluate_add
  evaluate_add-to_legs phase now c d e = ground arith

  evaluate_action-IsEntry :
      (c : Scope F) (implied : Option F) (now : ℕ) (multi : Bool) (a : Action) (s : Side)
      (d : Decision F)
      → evaluate_action cfg rec Phase.live c implied now multi a ≡ some d
      → is_open c.legs s ≡ false
      → is_open d.to_legs s ≡ true
      → IsEntry implied c.mark now s
  unfolding evaluate_action
  evaluate_action-IsEntry c implied now multi Action.trim s d e p o =
      absurd (ground (arith, evaluate_trim-to_legs Phase.live now c d e))
  evaluate_action-IsEntry c implied now multi Action.add s d e p o =
      elim (Bool-cases (flat c.legs && is_some (direction rec))) [
        | inl open_it ↦
            settle-IsEntry (record c { as_open = true }) implied now _ s d
              (plan_entry-IsOpening false (direction rec) c.legs multi s) (rw open_it at e) p o
        | inr grow ↦ absurd (ground (arith, evaluate_add-to_legs Phase.live now c d (rw grow at e)))
      ]
  evaluate_action-IsEntry c implied now multi Action.stop s d e p o = absurd (ground arith)
  evaluate_action-IsEntry c implied now multi Action.close s d e p o =
      settle-IsEntry c implied now _ s d (plan_close-IsOpening (direction rec) c.legs s) e p o
  evaluate_action-IsEntry c implied now multi Action.open_leg s d e p o =
      settle-IsEntry c implied now _ s d (plan_entry-IsOpening false (direction rec) c.legs multi s)
        e p o
  evaluate_action-IsEntry c implied now multi Action.flip s d e p o =
      settle-IsEntry c implied now _ s d (plan_entry-IsOpening true (direction rec) c.legs multi s)
        e p o
  evaluate_action-IsEntry c implied now multi Action.other s d e p o = absurd (ground arith)

  -- On the live path a decision opens a leg only for a confident post on a whitelisted asset that
  -- names that side and is not too old, and only where the mark has not run away from the cited
  -- price, or, where none is cited, from the implied one.
  pub evaluate-opens :
      (held : Held) (mark implied : Option F) (now : ℕ) (multi : Bool) (s : Side) (d : Decision F)
      → evaluate cfg rec Phase.live held mark implied now multi ≡ some d
      → is_open (as_legs held) s ≡ false
      → is_open d.to_legs s ≡ true
      → (num.lt (confidence_of rec) cfg.confidence_floor ≡ false)
        × (whitelisted cfg rec ≡ true)
        × IsEntry implied mark now s
  unfolding evaluate
  evaluate-opens held mark implied now multi s d e p o = ground (
    arith,
    evaluate_action-IsEntry (record { legs = as_legs held; mark = mark; as_open = false }) implied
        now multi rec.action_type s d,
  )
