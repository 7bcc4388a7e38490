-- ===== src/StrategyTester/Guard/Passes.antt =====
-- What passes the gate of the simulation.
use matp.Base.{
  ℕ, ◌+◌, ◌*◌, ◌≤◌, ◌<◌, true, false, ◌≡◌, ◌⊎◌, inl, inr, Option, none, some, List, [], ◌∷◌, All,
  any, ltb, or_default, if◌then◌else◌, Bool-cases, Option-cases, arith,
}
use matp.Base.Num.{Num, nought, one, min, IsOrdered}
use matp.Base.Order.{min-le_left, min-le_right}
use matp.StrategyTester.Guard.{
  Action, LlmSignal, LogRow, GuardState, passed, opens, closes, same_action, recent, cooling,
  in_range, base_qty, node_guard_sim, open_long, open_short,
}

-- A row is no such action, did not pass, is not before `now`, or is older than the minutes.
abbrev pub IsClear : Action → ℕ → ℕ → LogRow → Type 0
IsClear action minutes now row =
    (same_action row.proposed_action action ≡ false)
    ⊎ (row.gate_passed ≡ false)
    ⊎ (now ≤ row.triggered_at)
    ⊎ (row.triggered_at + 60000000 * minutes < now)

recent-IsClear :
    (action : Action) (minutes now : ℕ) (row : LogRow)
    → recent action minutes now row ≡ false
    → IsClear action minutes now row
unfolding recent
recent-IsClear action minutes now row h =
    elim (Bool-cases (same_action row.proposed_action action)) [
      | inr unlike ↦ inl unlike
      | inl same ↦ elim (Bool-cases row.gate_passed) [
        | inr turned ↦ inr (inl turned)
        | inl kept ↦ elim (Bool-cases (ltb row.triggered_at now)) [
          | inr later ↦ inr (inr (inl (ground arith)))
          | inl before ↦ inr (inr (inr (ground arith)))
        ]
      ]
    ]

any-IsClear :
    (action : Action) (minutes now : ℕ) (rows : List LogRow)
    → any (recent action minutes now) rows ≡ false
    → All (IsClear action minutes now) rows
any-IsClear action minutes now [] h = tt
any-IsClear action minutes now (row ∷ rows) h = (
  recent-IsClear action minutes now row (ground arith),
  any-IsClear action minutes now rows (ground arith),
)

module _ {F : Type 0} ⦃num : Num F⦄ (state : GuardState F) (log : Option (List LogRow)) where
  open num use {add, sub, mul, div, lt, le, abs, decimal, round}

  -- no row of the log stands within the cooldown, which is 240 minutes where none is given; outside a run, without
  -- a clock or without the log nothing is asked
  abbrev pub Cooled : Action → Type 0
  Cooled action =
      (state.in_run ≡ false)
      ⊎ (state.simulated_now ≡ none)
      ⊎ (log ≡ none)
      ⊎ ((now : ℕ) × (rows : List LogRow) × (state.simulated_now ≡ some now)
          × (log ≡ some rows)
          × All (IsClear action (or_default state.cooldown_entry_minutes 240) now) rows)

  cooling-Cooled :
      (action : Action) → opens action ≡ true → cooling state log action ≡ false → Cooled action
  unfolding cooling
  cooling-Cooled action o h = elim (Bool-cases state.in_run) [
    | inr outside ↦ inl outside
    | inl inside ↦ elim (Option-cases state.simulated_now) [
      | inl timeless ↦ inr (inl timeless)
      | inr (now, e) ↦ elim (Option-cases log) [
        | inl unread ↦ inr (inr (inl unread))
        | inr (rows, e') ↦
            (let minutes = or_default state.cooldown_entry_minutes 240 in
              let quiet : any (recent action minutes now) rows ≡ false =
                ground (arith, Option-cases state.cooldown_entry_minutes) in
              inr (inr (inr (now, rows, e, e', any-IsClear action minutes now rows quiet))))
      ]
    ]
  ]

  -- a number that is missing or zero stands for its default
  abbrev or_falsy : Option F → F → F
  or_falsy x default = elim x [ none ↦ default | some y ↦ if num.eq y nought then default else y ]

  abbrev pub price : F
  price = or_falsy state.current_price nought

  -- 5 hundredths to 50 per cent
  abbrev pub Bounded : F → Type 0
  Bounded pct = (le (decimal 5 2) (abs pct) ≡ true) × (le (abs pct) (decimal 50 0) ≡ true)

  -- the price moved by a distance in per cent
  abbrev pub raised : F → F
  raised pct = round (mul price (add one (div (abs pct) (decimal 100 0)))) 4

  abbrev pub lowered : F → F
  lowered pct = round (mul price (sub one (div (abs pct) (decimal 100 0)))) 4

  -- What an opening action that passes meets.
  pub record IsPassedOpen (signal : LlmSignal F) (size : F) (sl tp : Option F) : Type 0 where
    pub confident :
        lt signal.confidence (or_falsy state.confidence_threshold (decimal 72 2)) ≡ false
    pub alone : state.position_open ≡ false
    pub cooled : Cooled signal.action
    pub priced : le price nought ≡ false
    pub stop_range : Bounded signal.stop_loss_pct
    pub target_range : Bounded signal.take_profit_pct
    pub bracket :
        ((signal.action ≡ open_long)
          × (sl ≡ some (lowered signal.stop_loss_pct))
          × (tp ≡ some (raised signal.take_profit_pct)))
        ⊎ ((signal.action ≡ open_short)
            × (sl ≡ some (raised signal.stop_loss_pct))
            × (tp ≡ some (lowered signal.take_profit_pct)))
    pub share : F
    pub asked : le share signal.size_pct ≡ true
    pub capped : le share (or_falsy state.max_position_size_pct (decimal 5 0)) ≡ true
    pub sized :
        size
        ≡ round (div (div (mul (or_falsy state.sim_balance nought) share) (decimal 100 0)) price) 8

  -- An opening action passes the gate only with confidence, without a position, with no such action that passed
  -- within the cooldown, at a price above zero, with both distances between 5 hundredths and 50 per cent and the stop and the target
  -- at those distances from the price, each on its side, and with the size that a share of the balance
  -- buys which is neither above the share asked for nor above the limit.
  pub node_guard_sim-IsPassedOpen :
      (order : IsOrdered F) (signal : LlmSignal F) (size : F) (sl tp : Option F)
      → state.llm_signal ≡ some signal
      → opens signal.action ≡ true
      → node_guard_sim state log ≡ passed size sl tp
      → IsPassedOpen signal size sl tp
  unfolding node_guard_sim in_range base_qty
  node_guard_sim-IsPassedOpen order signal size sl tp s o e =
      let calm : cooling state log signal.action ≡ false = ground arith in
      let limit = or_falsy state.max_position_size_pct (decimal 5 0) in
      record {
        confident = ground arith;
        alone = ground arith;
        cooled = cooling-Cooled signal.action o calm;
        priced = ground arith;
        stop_range = ground arith;
        target_range = ground arith;
        bracket = ground arith;
        share = min signal.size_pct limit;
        asked = min-le_left order signal.size_pct limit;
        capped = min-le_right order signal.size_pct limit;
        sized = ground arith;
      }

  -- A closing action passes only with a position, and without prices for a stop or a target.
  pub node_guard_sim-closes :
      (signal : LlmSignal F) (size : F) (sl tp : Option F)
      → state.llm_signal ≡ some signal
      → closes signal.action ≡ true
      → node_guard_sim state log ≡ passed size sl tp
      → (state.position_open ≡ true) × (sl ≡ none) × (tp ≡ none)
  unfolding node_guard_sim
  node_guard_sim-closes signal size sl tp s o e = ground arith
