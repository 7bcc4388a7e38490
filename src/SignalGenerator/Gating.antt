-- ===== src/SignalGenerator/Gating.antt =====
-- ai-signal-generator/app/graph/gating.py: `should_skip_llm_no_range`. The fields of the state that may
-- be missing or empty are read by Python's truth value.
use matp.Base.{Bool, true, false, not, ◌||◌, ◌≡◌, ◌↔◌, Option, none, some, arith, if◌then◌else◌}
use matp.Base.Text.{Text, codes, text_eq}

-- `position_open` and `open_orders` stand for their truth values
pub record AgentState : Type 0 where
  pub template_id : Option Text
  pub position_open : Bool
  pub open_orders : Bool
  pub fit_quality : Option Text

abbrev pub named : Text → Option Text → Bool
named name none = false
named name (some t) = text_eq t name

unfoldable pub should_skip_llm_no_range : AgentState → Bool
should_skip_llm_no_range state =
    if not (named (codes "geometric_range") state.template_id)
    then false
    else if state.position_open
    then false
    else if state.open_orders
    then false
    else not
        (named (codes "strong") state.fit_quality || named (codes "moderate") state.fit_quality)

-- The model is skipped exactly for the range template with no position, no resting order and a fit
-- that is neither strong nor moderate: exits and resting orders always reach it.
pub should_skip_llm_no_range-true :
    (state : AgentState)
    → (should_skip_llm_no_range state ≡ true) ↔ (
        (named (codes "geometric_range") state.template_id ≡ true)
        × (state.position_open ≡ false)
        × (state.open_orders ≡ false)
        × (named (codes "strong") state.fit_quality ≡ false)
        × (named (codes "moderate") state.fit_quality ≡ false))
unfolding should_skip_llm_no_range
should_skip_llm_no_range-true state = (λ h. ground arith, λ h. ground arith)
