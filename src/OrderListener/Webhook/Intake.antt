-- ===== src/OrderListener/Webhook/Intake.antt =====
-- order-listener/app/webhook_handler.py: `receive_webhook`, up to the task that it starts. The strategy is
-- the row of the path's id, with `none` for no such row. What the intake writes (the logs, the order's row,
-- the publication) and the mark that is read for telemetry alone are left out.
pub mod Admits
pub mod Checks
use matp.Base.{
  ℕ, Bool, true, false, not, ◌&&◌, ◌||◌, Option, none, some, nonempty, [], if◌then◌else◌,
}
use matp.Base.Int.{ℤ, pos, ltb_ℤ, eqb_ℤ}
use matp.Base.Text.{Text, text_eq}
use matp.Base.Num.{Num, nought}
use matp.Base.Result.{Result, err, ok, ◌>>=◌, ◌>>◌, reject_if, need}
use matp.OrderListener.GuaranteedStop.{SlSource}
use matp.OrderListener.SymbolValidator.{
  ResolvedSymbol, Resolution, resolved, bad_format, mismatch, resolve_symbol,
}
use matp.OrderListener.Webhook.{
  MarginMode, isolated, WebhookPayload, Strategy, Executor, Refusal, validation_failed,
  unknown_strategy, invalid_token, stopped, symbol_rejected, leverage_exceeded, crashed, Accepted,
  opens, value_or,
}
use matp.OrderListener.Webhook.Sizing.{
  Stops, webhook_price, reference_price, clamp_size, from_pct, price_bracket, guarantee_sl,
  check_reward,
}

-- `x_webhook_token or payload.token`
abbrev pub token_of : Option Text → Text → Text
token_of none token = token
token_of (some []) token = token
token_of (some header) token = header

-- `int(x or default)`
abbrev int_or : Option ℤ → ℤ → ℤ
int_or none default = default
int_or (some n) default = if eqb_ℤ n (pos 0) then default else n

abbrev pub resolution : Resolution → Result Refusal ResolvedSymbol
resolution (resolved r) = ok r
resolution bad_format = err crashed
resolution (mismatch incoming) = err symbol_rejected

module _ {F : Type 0} ⦃num : Num F⦄ where
  -- `strategy.get("default_leverage") or 1`, unless the payload names a leverage
  unfoldable pub leverage_of : WebhookPayload F → Strategy F → ℤ
  leverage_of payload strategy = elim payload.leverage [
    | none ↦ int_or strategy.default_leverage (pos 1)
    | some n ↦ n
  ]

  unfoldable pub max_leverage_of : Strategy F → ℤ
  max_leverage_of strategy = int_or strategy.max_leverage (pos 10)

  abbrev pub margin_mode_of : WebhookPayload F → Strategy F → MarginMode
  margin_mode_of payload strategy = elim payload.margin_mode [
    | some mode ↦ mode
    | none ↦ elim strategy.margin_mode [ some mode ↦ mode | none ↦ isolated ]
  ]

  -- authentication and the switch of the strategy
  unfoldable pub authenticate :
      Option Text → WebhookPayload F → Strategy F → Result Refusal (Unit {0})
  authenticate header payload strategy = do
    reject_if
        (not (nonempty (token_of header payload.token))
          || not (text_eq (token_of header payload.token) strategy.webhook_secret))
        invalid_token
    reject_if (not strategy.enabled) stopped

  abbrev pub stripped_stops : ResolvedSymbol → WebhookPayload F → Stops F
  stripped_stops r payload =
      if r.price_stripped
      then record { sl = none; tp = none }
      else record { sl = payload.sl_price; tp = payload.tp_price }

  -- the bracket of an opening signal whose prices are its own
  unfoldable pub bracket :
      WebhookPayload F
      → Executor F
      → ℤ
      → MarginMode
      → F
      → F
      → Stops F
      → Result Refusal (Stops F × Option SlSource)
  bracket payload exchange leverage mode ref size stops = do
    priced ← price_bracket payload ref stops
    guarantee_sl payload exchange leverage mode ref size priced

  unfoldable pub open_stops :
      WebhookPayload F
      → Executor F
      → ResolvedSymbol
      → ℤ
      → MarginMode
      → F
      → F
      → Result Refusal (Stops F × Option SlSource)
  open_stops payload exchange r leverage mode ref size =
      if r.price_stripped
      then ok (stripped_stops r payload, none)
      else bracket payload exchange leverage mode ref size (stripped_stops r payload)

  -- an opening signal as it is handed on
  abbrev pub accept_open :
      WebhookPayload F
      → ResolvedSymbol
      → ℤ
      → MarginMode
      → F
      → F
      → Stops F × Option SlSource
      → Accepted F
  accept_open payload r leverage mode ref size priced = record {
    payload = record payload {
      size = size;
      sl_price = if r.price_stripped then payload.sl_price else priced.0.sl;
      tp_price = if r.price_stripped then payload.tp_price else priced.0.tp;
    };
    execution_symbol = r.execution_symbol;
    price = if r.price_stripped then none else payload.price;
    tp_price = priced.0.tp;
    sl_price = priced.0.sl;
    effective_leverage = leverage;
    effective_margin_mode = mode;
    entry_ref = if r.price_stripped then none else some ref;
    stops_from_pct = not r.price_stripped && from_pct payload;
    sl_source = priced.1;
  }

  -- the guards of an opening signal
  unfoldable pub admit_open :
      WebhookPayload F
      → Strategy F
      → Executor F
      → ResolvedSymbol
      → ℤ
      → MarginMode
      → Result Refusal (Accepted F)
  admit_open payload strategy exchange r leverage mode = do
    ref ← reference_price payload exchange
    let size = clamp_size strategy leverage ref payload.size
    priced ← open_stops payload exchange r leverage mode ref size
    check_reward payload ref priced.0
    ok (accept_open payload r leverage mode ref size priced)

  -- a closing signal keeps what it brings
  abbrev admit_close : WebhookPayload F → ResolvedSymbol → ℤ → MarginMode → Accepted F
  admit_close payload r leverage mode = record {
    payload = payload;
    execution_symbol = r.execution_symbol;
    price = if r.price_stripped then none else payload.price;
    tp_price = (stripped_stops r payload).tp;
    sl_price = (stripped_stops r payload).sl;
    effective_leverage = leverage;
    effective_margin_mode = mode;
    entry_ref = none;
    stops_from_pct = false;
    sl_source = none;
  }

  unfoldable pub admit :
      WebhookPayload F
      → Strategy F
      → Executor F
      → ResolvedSymbol
      → ℤ
      → MarginMode
      → Result Refusal (Accepted F)
  unfolding admit_open
  admit payload strategy exchange r leverage mode =
      if opens payload.signal
      then admit_open payload strategy exchange r leverage mode
      else ok (admit_close payload r leverage mode)

  abbrev pub resolve : WebhookPayload F → Strategy F → Result Refusal ResolvedSymbol
  resolve payload strategy = resolution (
      resolve_symbol payload.base_asset payload.quote_asset strategy.symbol
        strategy.allow_quote_variants strategy.allow_cross_charting)

  unfoldable pub receive_webhook :
      Option Text
      → Option (WebhookPayload F)
      → Option (Strategy F)
      → Executor F
      → Result Refusal (Accepted F)
  receive_webhook header body row exchange = do
    payload ← need body validation_failed
    strategy ← need row unknown_strategy
    authenticate header payload strategy
    r ← resolve payload strategy
    let leverage = leverage_of payload strategy
    let mode = margin_mode_of payload strategy
    reject_if (ltb_ℤ (max_leverage_of strategy) leverage) leverage_exceeded
    admit payload strategy exchange r leverage mode
