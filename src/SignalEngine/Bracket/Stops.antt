-- ===== src/SignalEngine/Bracket/Stops.antt =====
-- The protective stop of a bracket: which level it is, and that it goes before the targets.
use matp.Base.{
  Bool, or_default, ◌||◌, ◌∙◌, inl, inr, Option-cases, not, ◌&&◌, if_keeps, none, some, Option,
  true, false, ◌≡◌, refl, List, [], ◌∷◌, arith, if◌then◌else◌,
}
use matp.Base.Num.{Num, IsOrdered, max, min}
use matp.Base.Order.{le-max_left, min-le_left}
use matp.SignalEngine.Bracket.History.{prepare-kept}
use matp.SignalEngine.Bracket.{
  trail_level, Spec, up, down, Bracket, stop, be_stop, Exit, Bar, open_bracket, prepare, best,
  tighten_stop, take_first, reaches, settle, effective, strikes, update, run,
}

module _ {F : Type 0} ⦃num : Num F⦄ where
  open num use {lt, le, decimal}

  -- The protective stop is the initial one, the tightened one from the first RSI extreme on, and
  -- break-even from the first target on.
  pub record IsProtected (first tight be : F) (b : Bracket F) : Type 0 where
    pub tighten : b.tighten ≡ tight
    pub be_level : b.be ≡ be
    pub level : b.protective ≡ (if b.tp1_done then be else if b.tightened then tight else first)

  tighten_stop-IsProtected :
      (first tight be : F) (b : Bracket F) (rsi : Option F)
      → IsProtected first tight be b
      → IsProtected first tight be (tighten_stop b rsi)
  tighten_stop-IsProtected first tight be b none h = h
  tighten_stop-IsProtected first tight be b (some rsi) h = ground arith

  prepare-IsProtected :
      (first tight be : F) (b : Bracket F) (bar : Bar F)
      → IsProtected first tight be b
      → IsProtected first tight be (prepare b bar)
  unfolding prepare
  prepare-IsProtected first tight be b bar h =
      let k =
        tighten_stop-IsProtected first tight be (record b { peak = best b.d b.peak bar }) bar.rsi
          (record { tighten = h.tighten; be_level = h.be_level; level = h.level }) in
      record { tighten = k.tighten; be_level = k.be_level; level = k.level }

  -- a bracket that is closed keeps its levels
  closed-IsProtected :
      (first tight be : F) (b : Bracket F)
      → IsProtected first tight be b
      → IsProtected first tight be (record b { closed = true })
  closed-IsProtected first tight be b h = record {
    tighten = h.tighten;
    be_level = h.be_level;
    level = h.level;
  }

  take_first-IsProtected :
      (first tight be : F) (b : Bracket F) (bar : Bar F)
      → IsProtected first tight be b
      → IsProtected first tight be (take_first b bar).0
  take_first-IsProtected first tight be b bar h =
      if_keeps (λ (r : Bracket F × List (Exit F)). IsProtected first tight be r.0)
        (not b.tp1_done && reaches b.d bar b.tp1) _ _
        (record { tighten = h.tighten; be_level = h.be_level; level = h.be_level }) h

  settle-IsProtected :
      (first tight be : F) (b : Bracket F) (bar : Bar F)
      → IsProtected first tight be b
      → IsProtected first tight be (settle b bar).0
  unfolding settle
  settle-IsProtected first tight be b bar h =
      let (c, legs) = take_first b bar in
      let k = take_first-IsProtected first tight be b bar h in
      if_keeps (λ (r : Bracket F × List (Exit F)). IsProtected first tight be r.0)
        (strikes b.d bar (effective b)) _ _ (closed-IsProtected first tight be b h)
        (if_keeps (λ (r : Bracket F × List (Exit F)). IsProtected first tight be r.0)
          (c.tp1_done && reaches c.d bar c.tp2) _ _ (closed-IsProtected first tight be c k) k)

  update-IsProtected :
      (first tight be : F) (b : Bracket F) (bar : Bar F)
      → IsProtected first tight be b
      → IsProtected first tight be (update b bar).0
  unfolding update
  update-IsProtected first tight be b bar h =
      if_keeps (λ (r : Bracket F × List (Exit F)). IsProtected first tight be r.0) b.closed _ _ h
        (settle-IsProtected first tight be (prepare b bar) bar
          (prepare-IsProtected first tight be b bar h))

  run_from-IsProtected :
      (first tight be : F) (b : Bracket F) (bars : List (Bar F))
      → IsProtected first tight be b
      → IsProtected first tight be (run b bars).0
  unfolding run
  run_from-IsProtected first tight be b [] h = h
  run_from-IsProtected first tight be b (bar ∷ bars) h =
      run_from-IsProtected first tight be (update b bar).0 bars
        (update-IsProtected first tight be b bar h)

  -- the bar's RSI is beyond the limit of the specification, which is 75 up and 25 down where none is given
  abbrev pub is_extreme : Spec F → Bar F → Bool
  is_extreme spec bar = elim bar.rsi [
    | none ↦ false
    | some rsi ↦ elim spec.direction [
      | up ↦ lt (or_default spec.condition_modify_rsi_long (decimal 75 0)) rsi
      | down ↦ lt rsi (or_default spec.condition_modify_rsi_short (decimal 25 0))
    ]
  ]

  -- whether a bar with an extreme RSI comes while the bracket is not closed and before its first target
  abbrev pub was_extreme : Spec F → Bracket F → List (Bar F) → Bool
  was_extreme spec b [] = false
  was_extreme spec b (bar ∷ bars) =
      let rest = was_extreme spec (update b bar).0 bars in
      (not b.closed && (not b.tp1_done && is_extreme spec bar)) || rest

  -- the bracket watches the specification's limits
  record Watches (spec : Spec F) (b : Bracket F) : Type 0 where
    direction : b.d ≡ spec.direction
    long_limit : b.rsi_long ≡ or_default spec.condition_modify_rsi_long (decimal 75 0)
    short_limit : b.rsi_short ≡ or_default spec.condition_modify_rsi_short (decimal 25 0)

  take_first-kept :
      (b : Bracket F) (bar : Bar F)
      → ((take_first b bar).0.d ≡ b.d)
        × ((take_first b bar).0.rsi_long ≡ b.rsi_long)
        × ((take_first b bar).0.rsi_short ≡ b.rsi_short)
        × ((take_first b bar).0.tightened ≡ b.tightened)
  take_first-kept b bar = ground arith

  settle-kept :
      (b : Bracket F) (bar : Bar F)
      → ((settle b bar).0.d ≡ b.d)
        × ((settle b bar).0.rsi_long ≡ b.rsi_long)
        × ((settle b bar).0.rsi_short ≡ b.rsi_short)
        × ((settle b bar).0.tightened ≡ b.tightened)
  unfolding settle
  settle-kept b bar = ground (arith, take_first-kept b bar)

  prepare-watched :
      (spec : Spec F) (b : Bracket F) (bar : Bar F)
      → Watches spec b
      → ((prepare b bar).d ≡ b.d)
        × ((prepare b bar).rsi_long ≡ b.rsi_long)
        × ((prepare b bar).rsi_short ≡ b.rsi_short)
        × ((prepare b bar).tightened ≡ b.tightened || (not b.tp1_done && is_extreme spec bar))
  unfolding prepare
  prepare-watched spec b bar w = elim (Option-cases bar.rsi) [
    | inl unread ↦ ground (arith, w.direction, w.long_limit, w.short_limit)
    | inr (rsi, e) ↦ ground (arith, w.direction, w.long_limit, w.short_limit)
  ]

  update-watched :
      (spec : Spec F) (b : Bracket F) (bar : Bar F)
      → Watches spec b
      → ((update b bar).0.d ≡ b.d)
        × ((update b bar).0.rsi_long ≡ b.rsi_long)
        × ((update b bar).0.rsi_short ≡ b.rsi_short)
        × ((update b bar).0.tightened
            ≡ b.tightened || (not b.closed && (not b.tp1_done && is_extreme spec bar)))
  unfolding update
  update-watched spec b bar w =
      ground (arith, settle-kept (prepare b bar) bar, prepare-watched spec b bar w)

  run-tightened :
      (spec : Spec F) (b : Bracket F) (bars : List (Bar F))
      → Watches spec b
      → (run b bars).0.tightened ≡ b.tightened || was_extreme spec b bars
  unfolding run
  run-tightened spec b [] w = ground arith
  run-tightened spec b (bar ∷ bars) w =
      let (d, long_rsi, short_rsi, tight) = update-watched spec b bar w in
      let rest = run-tightened spec (update b bar).0 bars (record {
        direction = d ∙ w.direction;
        long_limit = long_rsi ∙ w.long_limit;
        short_limit = short_rsi ∙ w.short_limit;
      }) in
      ground (arith, rest, tight)

  -- Over any bars, the protective stop of a new bracket is the break-even level once the first target was
  -- taken; before that it is the tightened level once a bar's RSI was beyond the limit of the bracket's direction, and else its
  -- initial level.
  pub run-IsProtected :
      (spec : Spec F) (entry : F) (bars : List (Bar F))
      → let b = open_bracket spec entry in
        let after = (run b bars).0 in
        after.protective ≡ (
          if after.tp1_done
          then b.be
          else if was_extreme spec b bars
          then b.tighten
          else b.protective)
  unfolding open_bracket
  run-IsProtected spec entry bars =
      let b = open_bracket spec entry in
      let h =
        run_from-IsProtected b.protective b.tighten b.be b bars
          (record { tighten = refl; be_level = refl; level = refl }) in
      let t =
        run-tightened spec b bars
          (record { direction = refl; long_limit = refl; short_limit = refl }) in
      ground (arith, h.level, t)

  prepare-d : (b : Bracket F) (bar : Bar F) → (prepare b bar).d ≡ b.d
  unfolding prepare
  prepare-d b bar = ground arith

  module _ (order : IsOrdered F) where
    strikes-effective :
        (b : Bracket F) (bar : Bar F)
        → strikes b.d bar b.protective ≡ true
        → strikes b.d bar (effective b) ≡ true
    unfolding effective
    strikes-effective b bar h = ground (
      arith,
      le-max_left order b.protective (trail_level b),
      min-le_left order b.protective (trail_level b),
      order.le_trans bar.low b.protective (max b.protective (trail_level b)),
      order.le_trans (min b.protective (trail_level b)) b.protective bar.high,
    )

    -- A bar that strikes the protective stop of an open bracket closes all that is left of it as a
    -- stop, or as a break-even stop after the first target, whatever targets the bar reaches too.
    pub update-stop_first :
        (b : Bracket F) (bar : Bar F)
        → b.closed ≡ false
        → strikes b.d bar (prepare b bar).protective ≡ true
        → (update b bar).1
          ≡ record { exit_reason = if b.tp1_done then be_stop else stop; size_pct = b.remaining }
            ∷ []
    unfolding update
    update-stop_first b bar open_still h =
        ground (arith, strikes-effective (prepare b bar) bar, prepare-kept b bar, prepare-d b bar)
