-- ===== src/SocialListener/Gate/Sizes.antt =====
-- The sizes that a decision carries stay within the settings' limits.
use matp.Base.{ℕ, Bool, true, false, ◌≡◌, Option, some, none, arith}
use matp.Base.Num.{Num, nought, IsOrdered}
use matp.Base.Order.{clamp-le, le-max_left}
use matp.SocialListener.Post.{Action, Phase, Post, Settings, direction, trim_fraction, add_size}
use matp.SocialListener.Plan.{Plan, refused, moving, plan_entry}
use matp.SocialListener.Manage.{evaluate_add, evaluate_trim}
use matp.SocialListener.Decision.{Decision, Scope}
use matp.SocialListener.Gate.{Held, as_legs, settle, evaluate_action, evaluate}

-- The value, if there is one, is `y`.
abbrev OnlyAt : {F : Type 0} → F → Option F → Type 0
OnlyAt y none = Unit
OnlyAt y (some x) = x ≡ y

module _ {F : Type 0} ⦃num : Num F⦄ (cfg : Settings F) (rec : Post F) (phase : Phase) where
  open num use {le}

  abbrev IsSized : Decision F → Type 0
  IsSized d =
      OnlyAt (trim_fraction cfg rec) d.size_fraction × OnlyAt (add_size cfg rec) d.add_multiple

  settle-IsSized :
      (c : Scope F) (implied : Option F) (now : ℕ) (plan : Plan) (d : Decision F)
      → settle cfg rec phase c implied now plan ≡ some d
      → IsSized d
  unfolding settle
  settle-IsSized c implied now (refused r leg) d e = ground arith
  settle-IsSized c implied now (moving sig leg moves g) d e = ground arith

  evaluate_trim-IsSized :
      (now : ℕ) (c : Scope F) (d : Decision F)
      → evaluate_trim cfg rec phase now c ≡ some d
      → IsSized d
  unfolding evaluate_trim
  evaluate_trim-IsSized now c d e = ground arith

  evaluate_add-IsSized :
      (now : ℕ) (c : Scope F) (d : Decision F)
      → evaluate_add cfg rec phase now c ≡ some d
      → IsSized d
  unfolding evaluate_add
  evaluate_add-IsSized now c d e = ground arith

  evaluate_action-IsSized :
      (c : Scope F) (implied : Option F) (now : ℕ) (multi : Bool) (a : Action) (d : Decision F)
      → evaluate_action cfg rec phase c implied now multi a ≡ some d
      → IsSized d
  unfolding evaluate_action
  evaluate_action-IsSized c implied now multi Action.trim d e = evaluate_trim-IsSized now c d e
  evaluate_action-IsSized c implied now multi Action.add d e = ground (
    arith,
    evaluate_add-IsSized now c d,
    settle-IsSized (record c { as_open = true }) implied now
        (plan_entry false (direction rec) c.legs multi) d,
  )
  evaluate_action-IsSized c implied now multi Action.stop d e = ground arith
  evaluate_action-IsSized c implied now multi Action.close d e = settle-IsSized c implied now _ d e
  evaluate_action-IsSized c implied now multi Action.open_leg d e =
      settle-IsSized c implied now _ d e
  evaluate_action-IsSized c implied now multi Action.flip d e = settle-IsSized c implied now _ d e
  evaluate_action-IsSized c implied now multi Action.other d e = ground arith

  evaluate-IsSized :
      (held : Held) (mark implied : Option F) (now : ℕ) (multi : Bool) (d : Decision F)
      → evaluate cfg rec phase held mark implied now multi ≡ some d
      → IsSized d
  unfolding evaluate
  evaluate-IsSized held mark implied now multi d e = ground (
    arith,
    evaluate_action-IsSized (record { legs = as_legs held; mark = mark; as_open = false }) implied
        now multi rec.action_type d,
  )

module _ {F : Type 0} ⦃num : Num F⦄ where
  open num use {le}

  -- The value, if there is one, lies between the bounds.
  abbrev pub Within : F → F → Option F → Type 0
  Within low high none = Unit
  Within low high (some x) = (le low x ≡ true) × (le x high ≡ true)

  OnlyAt-Within :
      (low high y : F) (o : Option F) → OnlyAt y o → Within low high (some y) → Within low high o
  OnlyAt-Within low high y none e w = tt
  OnlyAt-Within low high y (some x) e w = ground arith

  module _ (order : IsOrdered F) (cfg : Settings F) (rec : Post F) (phase : Phase) where
    trim_fraction-Within :
        le cfg.min_trim_fraction cfg.max_trim_fraction ≡ true
        → Within cfg.min_trim_fraction cfg.max_trim_fraction (some (trim_fraction cfg rec))
    unfolding trim_fraction
    trim_fraction-Within h = (le-max_left order _ _, clamp-le order _ _ _ h)

    add_size-Within :
        le nought cfg.max_add_multiple ≡ true
        → Within nought cfg.max_add_multiple (some (add_size cfg rec))
    unfolding add_size
    add_size-Within h = (le-max_left order _ _, clamp-le order _ _ _ h)

    -- Where the settings' bounds are in order, the fraction and the multiple of every decision, if
    -- it has them, lie within the bounds, whatever the post asks for.
    pub evaluate-Within :
        (held : Held) (mark implied : Option F) (now : ℕ) (multi : Bool) (d : Decision F)
        → le cfg.min_trim_fraction cfg.max_trim_fraction ≡ true
        → le nought cfg.max_add_multiple ≡ true
        → evaluate cfg rec phase held mark implied now multi ≡ some d
        → Within cfg.min_trim_fraction cfg.max_trim_fraction d.size_fraction
          × Within nought cfg.max_add_multiple d.add_multiple
    evaluate-Within held mark implied now multi d h k e =
        let (trimmed, added) = evaluate-IsSized cfg rec phase held mark implied now multi d e in
        (
          OnlyAt-Within _ _ _ d.size_fraction trimmed (trim_fraction-Within h),
          OnlyAt-Within _ _ _ d.add_multiple added (add_size-Within k),
        )
