-- ===== src/SignalEngine/Bracket/History.antt =====
-- The exits that a bracket fires over its life.
use matp.Base.{Bool, true, false, ◌≡◌, ◌⊎◌, refl, ◌∙◌, List, [], ◌∷◌, ◌++◌, arith}
use mathlib.Core.List.{append-nil, append_assoc}
use matp.Base.Num.{Num}
use matp.SignalEngine.Bracket.{
  Spec, Bracket, ExitReason, tp1, tp2, stop, be_stop, trail, Exit, Bar, open_bracket, prepare,
  update, run,
}

-- the reasons that close a bracket before its first target, and after it
abbrev pub before_target : ExitReason → Bool
before_target stop = true
before_target trail = true
before_target _ = false

abbrev pub after_target : ExitReason → Bool
after_target tp2 = true
after_target be_stop = true
after_target trail = true
after_target _ = false

module _ {F : Type 0} ⦃num : Num F⦄ where
  open num use {sub, decimal}

  -- What the exits so far say of a bracket whose first target takes off `size` of 100 per cent:
  -- none, the first target, a full stop, or the first target and then the rest.
  abbrev pub IsHistory : F → Bracket F → List (Exit F) → Type 0
  IsHistory size b [] = (b.tp1_done ≡ false) × (b.closed ≡ false) × (b.remaining ≡ decimal 100 0)
  IsHistory size b (x ∷ []) =
      ((x.exit_reason ≡ tp1)
        × (x.size_pct ≡ size)
        × (b.tp1_done ≡ true)
        × (b.closed ≡ false)
        × (b.remaining ≡ sub (decimal 100 0) size))
      ⊎ ((before_target x.exit_reason ≡ true) × (x.size_pct ≡ decimal 100 0) × (b.closed ≡ true))
  IsHistory size b (x ∷ y ∷ []) =
      (x.exit_reason ≡ tp1)
      × (x.size_pct ≡ size)
      × (after_target y.exit_reason ≡ true)
      × (y.size_pct ≡ sub (decimal 100 0) size)
      × (b.closed ≡ true)
  IsHistory size b (x ∷ y ∷ z ∷ rest) = ⊥

  update-tp1_size : (b : Bracket F) (bar : Bar F) → (update b bar).0.tp1_size ≡ b.tp1_size
  unfolding update
  update-tp1_size b bar = ground arith

  pub prepare-kept :
      (b : Bracket F) (bar : Bar F)
      → ((prepare b bar).tp1_done ≡ b.tp1_done)
        × ((prepare b bar).remaining ≡ b.remaining)
        × ((prepare b bar).closed ≡ b.closed)
        × ((prepare b bar).tp1_size ≡ b.tp1_size)
  unfolding prepare
  prepare-kept b bar = ground arith

  update-IsHistory :
      (size : F) (b : Bracket F) (bar : Bar F) (legs : List (Exit F))
      → b.tp1_size ≡ size
      → IsHistory size b legs
      → IsHistory size (update b bar).0 (legs ++ (update b bar).1)
  unfolding update
  update-IsHistory size b bar [] s h = ground (arith, prepare-kept b bar)
  update-IsHistory size b bar (x ∷ []) s h = ground (arith, prepare-kept b bar)
  update-IsHistory size b bar (x ∷ y ∷ []) s h = ground arith
  update-IsHistory size b bar (x ∷ y ∷ z ∷ rest) s h = h

  run_from-IsHistory :
      (size : F) (b : Bracket F) (bars : List (Bar F)) (legs : List (Exit F))
      → b.tp1_size ≡ size
      → IsHistory size b legs
      → IsHistory size (run b bars).0 (legs ++ (run b bars).1)
  unfolding run
  run_from-IsHistory size b [] legs s h = rw append-nil h
  run_from-IsHistory size b (bar ∷ bars) legs s h = rw (← append_assoc) (
      run_from-IsHistory size (update b bar).0 bars (legs ++ (update b bar).1)
        (update-tp1_size b bar ∙ s) (update-IsHistory size b bar legs s h))

  -- Over any bars, a new bracket fires nothing, the first target alone, one exit of all 100 per
  -- cent that is a stop, or the first target and then one exit of the rest; it is closed in the last
  -- two cases, and then fires nothing more.
  pub run-IsHistory :
      (spec : Spec F) (entry : F) (bars : List (Bar F))
      → let (b, legs) = run (open_bracket spec entry) bars in IsHistory spec.tp1_size_pct b legs
  unfolding open_bracket
  run-IsHistory spec entry bars =
      run_from-IsHistory spec.tp1_size_pct (open_bracket spec entry) bars [] refl (refl, refl, refl)
