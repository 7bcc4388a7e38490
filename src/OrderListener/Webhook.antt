-- ===== src/OrderListener/Webhook.antt =====
-- order-listener/app/models.py and webhook_handler.py: what a webhook brings, and the answers that
-- `receive_webhook` gives. Validation by pydantic is done before: a body that fails it is no payload.
pub mod Sizing
pub mod Intake
use matp.Base.{ℕ, Bool, true, false, ◌&&◌, Option, none, some, if◌then◌else◌}
use matp.Base.Int.{ℤ}
use matp.Base.Text.{Text}
use matp.Base.Num.{Num, nought}
use matp.OrderListener.GuaranteedStop.{PositionSide, long, short, SlSource}

pub data Signal : Type 0 where
  open_long close_long open_short close_short : Signal

pub data MarginMode : Type 0 where
  cross isolated : MarginMode

pub data OrderSide : Type 0 where
  buy sell : OrderSide

-- `target_position`, where only "flat" is ever read
pub data Target : Type 0 where
  to_long to_short flat : Target

-- `WebhookPayload`, without the order type, the timestamp, the source and the metadata
pub record WebhookPayload (F : Type 0) : Type 0 where
  pub base_asset : Text
  pub quote_asset : Text
  pub side : OrderSide
  pub size : F
  pub price : Option F
  pub leverage : Option ℤ
  pub margin_mode : Option MarginMode
  pub tp_price : Option F
  pub sl_price : Option F
  pub tp_pct : Option F
  pub sl_pct : Option F
  pub signal : Signal
  pub target_position : Option Target
  pub token : Text
  pub indicator_price : Option F

-- the columns of `strategies` that the intake reads
pub record Strategy (F : Type 0) : Type 0 where
  pub webhook_secret : Text
  pub enabled : Bool
  pub symbol : Text
  pub allow_quote_variants : Bool
  pub allow_cross_charting : Bool
  pub default_leverage : Option ℤ
  pub max_leverage : Option ℤ
  pub margin_mode : Option MarginMode
  pub margin_per_trade : Option F

-- What the executor answers: the mark price, and the maintenance-margin rate at a notional and in a
-- margin mode.
pub record Executor (F : Type 0) : Type 0 where
  pub mark_price : Option F
  pub maintenance_margin : F → MarginMode → Option F

-- the outcome that the signal log records with a status of 4xx; `crashed` is an exception that is
-- not an HTTPException
pub data Refusal : Type 0 where
  validation_failed unknown_strategy invalid_token stopped symbol_rejected : Refusal
  leverage_exceeded no_reference_price wrong_side_bracket poor_reward crashed : Refusal

-- the status of the response
unfoldable pub http_status : Refusal → ℕ
http_status unknown_strategy = 404
http_status invalid_token = 403
http_status stopped = 403
http_status crashed = 500
http_status _ = 422

-- What is handed to `_process_order`, with the fields of the metadata that it reads.
pub record Accepted (F : Type 0) : Type 0 where
  pub payload : WebhookPayload F
  pub execution_symbol : Text
  pub price : Option F
  pub tp_price : Option F
  pub sl_price : Option F
  pub effective_leverage : ℤ
  pub effective_margin_mode : MarginMode
  pub entry_ref : Option F
  pub stops_from_pct : Bool
  pub sl_source : Option SlSource

abbrev pub opens : Signal → Bool
opens open_long = true
opens open_short = true
opens _ = false

-- the side of the position that a signal is about
abbrev pub side_of : Signal → PositionSide
side_of open_long = long
side_of close_long = long
side_of open_short = short
side_of close_short = short

-- `x or default`, where zero counts as missing
abbrev pub value_or : {F : Type 0} ⦃num : Num F⦄ → Option F → F → F
value_or none default = default
value_or ⦃num⦄ (some x) default = if num.eq x nought then default else x
