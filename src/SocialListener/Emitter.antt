-- ===== src/SocialListener/Emitter.antt =====
-- social-listener/app/emitter.py: the webhook steps of a decided signal, their payloads, and `emit`.
-- What order-listener answers to a payload is an argument.
pub mod Sends
use matp.Base.{
  ℕ, Bool, true, false, Option, none, some, List, [], ◌∷◌, ◌++◌, ◌==◌, ltb, if◌then◌else◌,
}
use matp.Base.Text.{Text}
use matp.Base.Num.{Num, nought}
use matp.SocialListener.Legs.{Side, long, short, opposite}
use matp.SocialListener.Decision.{
  Signal, no_signal, close_all, open_signal, close_signal, flip_signal, trim_signal, add_signal,
}

-- the names of webhook steps: open_long, close_short, partial_close_long, add_short and so on
pub data Step : Type 0 where
  open_step close_step partial_step add_step : Side → Step

-- `_STEPS`; no step is no mapping
unfoldable pub steps : Signal → List Step
unfolding opposite
steps no_signal = []
steps (open_signal s) = open_step s ∷ []
steps (close_signal s) = close_step s ∷ []
steps (flip_signal s) = close_step (opposite s) ∷ open_step s ∷ []
steps close_all = close_step long ∷ close_step short ∷ []
steps (trim_signal s) = partial_step s ∷ []
steps (add_signal s) = add_step s ∷ []

pub data OrderSide : Type 0 where
  buy sell : OrderSide

-- `_SIDE`
unfoldable pub order_side : Step → OrderSide
order_side (open_step long) = buy
order_side (open_step short) = sell
order_side (close_step long) = sell
order_side (close_step short) = buy
order_side (partial_step long) = sell
order_side (partial_step short) = buy
order_side (add_step long) = buy
order_side (add_step short) = sell

-- `_WEBHOOK_SIGNAL`
unfoldable pub webhook_signal : Step → Step
webhook_signal (partial_step s) = close_step s
webhook_signal (add_step s) = open_step s
webhook_signal step = step

-- `step in _PARTIAL or step in _ADD`
abbrev is_sized : Step → Bool
is_sized (partial_step s) = true
is_sized (add_step s) = true
is_sized step = false

abbrev is_close : Step → Bool
is_close (close_step s) = true
is_close step = false

-- the body that is posted; `intent` stands in the metadata, and `to_flat` for
-- `target_position = "flat"`
pub record Payload (F : Type 0) : Type 0 where
  pub base_asset : Text
  pub quote_asset : Text
  pub side : OrderSide
  pub size : F
  pub signal : Step
  pub timestamp : ℕ
  pub token : Text
  pub source : Text
  pub intent : Option Step
  pub to_flat : Bool

-- the settings and the row of the strategy that the emitter reads
pub record Account (F : Type 0) : Type 0 where
  pub execution_quote_asset : Text
  pub source_tag : Text
  pub webhook_secret : Text
  pub margin_per_trade : Option F
  pub default_leverage : Option ℕ

-- an exception of the client, or a status; `garbled` has a body that is no JSON object
pub data Response : Type 0 where
  exception : Response
  status garbled : ℕ → Response

-- `(ok, detail)`, the detail as data, or the exception of `resp.json()` that `emit` lets through
pub data Outcome : Type 0 where
  done : List Step → Outcome
  no_mapping no_close_size no_add_size no_mark_price not_tradeable : Outcome
  send_failed : Step → List Step → Outcome
  rejected : Step → ℕ → List Step → Outcome
  raised : Step → List Step → Outcome

-- `int(strategy.get("default_leverage") or 1)`
abbrev leverage_of : Option ℕ → ℕ
leverage_of none = 1
leverage_of (some l) = if l == 0 then 1 else l

module _ {F : Type 0} where
  unfoldable pub payload : Account F → Step → Text → F → ℕ → Payload F
  unfolding order_side webhook_signal
  payload acc step asset size now = record {
    base_asset = asset;
    quote_asset = acc.execution_quote_asset;
    side = order_side step;
    size = size;
    signal = webhook_signal step;
    timestamp = now;
    token = acc.webhook_secret;
    source = acc.source_tag;
    intent = if is_sized step then some step else none;
    to_flat = is_close step;
  }

  -- the loop of `emit` over the steps: the outcome and the payloads that were posted
  unfoldable pub send :
      (Payload F → Response)
      → (Step → Payload F)
      → List Step
      → List Step
      → Outcome × List (Payload F)
  send answer body [] sent = (done sent, [])
  send answer body (step ∷ rest) sent =
      let p = body step in
      let (outcome, posted) = send answer body rest (sent ++ step ∷ []) in
      elim (answer p) [
        | exception ↦ (send_failed step sent, p ∷ [])
        | status n ↦ if ltb n 300 then (outcome, p ∷ posted) else (rejected step n sent, p ∷ [])
        | garbled n ↦ (if ltb n 300 then raised step sent else rejected step n sent, p ∷ [])
      ]

module _ {F : Type 0} ⦃num : Num F⦄ where
  open num use {le, mul, div, decimal, round}

  -- `_size_for`, for a mark above zero
  unfoldable pub size_for : Account F → F → F
  size_for acc mark =
      let margin : F = elim acc.margin_per_trade [ none ↦ nought | some m ↦ m ] in
      round (div (mul margin (decimal (leverage_of acc.default_leverage) 0)) mark) 8

  abbrev given_size : Outcome → Option F → Outcome × Option F
  given_size refusal none = (refusal, none)
  given_size refusal (some x) = if le x nought then (refusal, none) else (refusal, some (round x 8))

  -- the size of the orders, or the refusal beside `none`
  unfoldable pub size_of : Account F → Signal → Option F → Option F → Option F → Outcome × Option F
  unfolding size_for
  size_of acc (trim_signal s) mark close_size open_size = given_size no_close_size close_size
  size_of acc (add_signal s) mark close_size open_size = given_size no_add_size open_size
  size_of acc _ mark close_size open_size = elim mark [
    | none ↦ (no_mark_price, none)
    | some m ↦ if le m nought then (no_mark_price, none) else (no_mark_price, some (size_for acc m))
  ]

  abbrev emit_steps :
      (Payload F → Response)
      → Account F
      → Text
      → ℕ
      → List Step
      → Outcome × Option F
      → Outcome × List (Payload F)
  emit_steps answer acc asset now todo (refusal, none) = (refusal, [])
  emit_steps answer acc asset now todo (refusal, some size) =
      if le size nought
      then (not_tradeable, [])
      else send answer (λ step. payload acc step asset size now) todo []

  abbrev emit_some :
      (Payload F → Response)
      → Account F
      → Text
      → ℕ
      → List Step
      → Outcome × Option F
      → Outcome × List (Payload F)
  emit_some answer acc asset now [] sized = (no_mapping, [])
  emit_some answer acc asset now (s ∷ rest) sized = emit_steps answer acc asset now (s ∷ rest) sized

  unfoldable pub emit :
      (Payload F → Response)
      → Account F
      → ℕ
      → Signal
      → Text
      → Option F
      → Option F
      → Option F
      → Outcome × List (Payload F)
  unfolding steps size_of send payload
  emit answer acc now signal asset mark close_size open_size =
      emit_some answer acc asset now (steps signal) (size_of acc signal mark close_size open_size)
