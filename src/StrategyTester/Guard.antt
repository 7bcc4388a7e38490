-- ===== src/StrategyTester/Guard.antt =====
-- strategy-tester/app/engine/node_guard_sim.py: the gate of the simulation. The rows of the signal log of
-- this run and strategy are an argument, with `none` for a query that raises; log lines are left out.
pub mod Passes
use matp.Base.{
  ℕ, ◌+◌, ◌*◌, Bool, true, false, not, ◌&&◌, ◌||◌, Option, none, some, List, any, ltb, leb,
  if◌then◌else◌,
}
use matp.Base.Num.{Num, nought, one, min}

-- `action`; `other` is any text that the gate does not name
pub data Action : Type 0 where
  open_long open_short close_long close_short partial_close adjust_stops hold other : Action

pub data Rejection : Type 0 where
  llm_failed partial_close_not_supported hold_or_adjust confidence_below_threshold : Rejection
  position_already_open no_position_to_close cooldown_active : Rejection
  size_resolution_failed sl_tp_pct_out_of_range : Rejection

pub record LlmSignal (F : Type 0) : Type 0 where
  pub action : Action
  pub confidence : F
  pub size_pct : F
  pub stop_loss_pct : F
  pub take_profit_pct : F

-- a row of `tester.ai_signal_log`; times are microseconds
pub record LogRow : Type 0 where
  pub proposed_action : Action
  pub gate_passed : Bool
  pub triggered_at : ℕ

-- what the gate reads of the state and of its two configurations; `in_run` says that the state has a
-- `backtest_run_id`
pub record GuardState (F : Type 0) : Type 0 where
  pub llm_signal : Option (LlmSignal F)
  pub confidence_threshold : Option F
  pub max_position_size_pct : Option F
  pub cooldown_entry_minutes : Option ℕ
  pub position_open : Bool
  pub position_size : Option F
  pub simulated_now : Option ℕ
  pub in_run : Bool
  pub sim_balance : Option F
  pub current_price : Option F

-- the fields that the gate sets; it leaves the sizes and prices of a rejected state as they are
pub data Guarded (F : Type 0) : Type 0 where
  rejected : Rejection → Guarded F
  passed : F → Option F → Option F → Guarded F

abbrev pub same_action : Action → Action → Bool
same_action open_long open_long = true
same_action open_short open_short = true
same_action close_long close_long = true
same_action close_short close_short = true
same_action partial_close partial_close = true
same_action adjust_stops adjust_stops = true
same_action hold hold = true
same_action other other = true
same_action _ _ = false

abbrev pub opens : Action → Bool
opens open_long = true
opens open_short = true
opens _ = false

abbrev pub closes : Action → Bool
closes close_long = true
closes close_short = true
closes _ = false

abbrev idle : Action → Bool
idle hold = true
idle adjust_stops = true
idle _ = false

abbrev is_partial : Action → Bool
is_partial partial_close = true
is_partial _ = false

-- The row passed the gate with this action, from `minutes` before `now` on and before `now`.
unfoldable pub recent : Action → ℕ → ℕ → LogRow → Bool
recent action minutes now row =
    same_action row.proposed_action action
    && (row.gate_passed
        && (leb now (row.triggered_at + 60000000 * minutes) && ltb row.triggered_at now))

abbrev pub minutes_or : Option ℕ → ℕ
minutes_or none = 240
minutes_or (some n) = n

-- the query, and a query that raises
abbrev found : Option (List LogRow) → Action → ℕ → ℕ → Bool
found none action minutes now = false
found (some rows) action minutes now = any (recent action minutes now) rows

-- step 6: opening actions alone have a cooldown, among those that come so far
unfoldable pub cooling : {F : Type 0} → GuardState F → Option (List LogRow) → Action → Bool
cooling state log action =
    if opens action && state.in_run
    then elim state.simulated_now as (λ _. Bool) [
      | none ↦ false
      | some now ↦ found log action (minutes_or state.cooldown_entry_minutes) now
    ]
    else false

module _ {F : Type 0} ⦃num : Num F⦄ where
  open num use {add, sub, mul, div, abs, lt, le, eq, decimal, round}

  -- `float(x or default)`
  abbrev pub value_or : Option F → F → F
  value_or none default = default
  value_or (some x) default = if eq x nought then default else x

  -- `_MIN_SL_TP_PCT <= pct <= _MAX_SL_TP_PCT`
  unfoldable pub in_range : F → Bool
  in_range pct = le (decimal 5 2) pct && le pct (decimal 50 0)

  -- the price that lies `pct` per cent below or above
  abbrev pub below : F → F → F
  below price pct = round (mul price (sub one (div pct (decimal 100 0)))) 4

  abbrev pub above : F → F → F
  above price pct = round (mul price (add one (div pct (decimal 100 0)))) 4

  -- the size of an opening order
  unfoldable pub base_qty : GuardState F → LlmSignal F → F → F
  base_qty state signal price =
      let size_pct = min signal.size_pct (value_or state.max_position_size_pct (decimal 5 0)) in
      round (div (div (mul (value_or state.sim_balance nought) size_pct) (decimal 100 0)) price) 8

  -- step 7
  unfoldable pub resolve_open : GuardState F → LlmSignal F → Bool → Guarded F
  resolve_open state signal long =
      let price = value_or state.current_price nought in
      let sl = abs signal.stop_loss_pct in
      let tp = abs signal.take_profit_pct in
      if le price nought
      then rejected size_resolution_failed
      else if not (in_range sl) || not (in_range tp)
      then rejected sl_tp_pct_out_of_range
      else if long
      then passed (base_qty state signal price) (some (below price sl)) (some (above price tp))
      else passed (base_qty state signal price) (some (above price sl)) (some (below price tp))

  -- step 7 for an opening action, and step 9 for the rest
  abbrev resolve : GuardState F → LlmSignal F → Action → Guarded F
  resolve state signal open_long = resolve_open state signal true
  resolve state signal open_short = resolve_open state signal false
  resolve state signal _ = passed (value_or state.position_size (decimal 1 2)) none none

  -- steps 4 to 9
  unfoldable pub guard_action : GuardState F → Option (List LogRow) → LlmSignal F → Guarded F
  unfolding resolve_open
  guard_action state log signal =
      if lt signal.confidence (value_or state.confidence_threshold (decimal 72 2))
      then rejected confidence_below_threshold
      else if opens signal.action && state.position_open
      then rejected position_already_open
      else if closes signal.action && not state.position_open
      then rejected no_position_to_close
      else if cooling state log signal.action
      then rejected cooldown_active
      else resolve state signal signal.action

  -- `node_guard_sim`
  unfoldable pub node_guard_sim : GuardState F → Option (List LogRow) → Guarded F
  unfolding guard_action
  node_guard_sim state log = elim state.llm_signal [
    | none ↦ rejected llm_failed
    | some signal ↦
        if is_partial signal.action
        then rejected partial_close_not_supported
        else if idle signal.action
        then rejected hold_or_adjust
        else guard_action state log signal
  ]
