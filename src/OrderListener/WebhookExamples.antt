-- ===== src/OrderListener/WebhookExamples.antt =====
-- A long of one bitcoin asked for at 100, with a margin of 5 at a leverage of 10.
use matp.Base.{true, false, ◌≡◌, refl, none, some, Option}
use matp.Base.Text.{codes}
use matp.Base.Int.{pos, negsuc, ◌-ℤ◌, ◌+ℤ◌}
use matp.Base.Fixed.{
  Fixed, fixed_num, Fixed-IsOrdered, Fixed-IsRounding, mul, div, decimal, round, neg,
}
use matp.Base.Result.{Result, ok, err}
use matp.OrderListener.GuaranteedStop.{
  long, strategy, compute_guaranteed_sl, infer_price_decimals, sl_distance, liquidation_sl,
  choose_sl, tighter_sl,
}
use matp.OrderListener.GuaranteedStop.Tighter.{IsGuaranteed, compute_guaranteed_sl-IsGuaranteed}
use matp.OrderListener.Webhook.{
  WebhookPayload, Strategy, Executor, Accepted, Refusal, crashed, open_long, buy, isolated,
}
use matp.OrderListener.SymbolValidator.{resolve_symbol, split_dash, resolve_modes}
use matp.OrderListener.Webhook.Sizing.{
  webhook_price, reference_price, margin_qty, clamp_size, price_bracket, guarantee_sl, check_reward,
  judge,
}
use matp.OrderListener.Webhook.Intake.{
  authenticate, max_leverage_of, leverage_of, admit, admit_open, open_stops, bracket,
  receive_webhook,
}
use matp.OrderListener.Webhook.Intake.Admits.{
  receive_webhook-IsGuarded, receive_webhook-IsProtected,
}
use matp.OrderListener.Webhook.Intake.Checks.{IsGuarded, IsProtected}

abbrev payload : WebhookPayload Fixed
payload = record {
  base_asset = codes "BTC";
  quote_asset = codes "USDT";
  side = buy;
  size = pos 1000000;
  price = some (pos 100000000);
  leverage = none;
  margin_mode = none;
  tp_price = some (pos 104000000);
  sl_price = some (pos 98000000);
  tp_pct = none;
  sl_pct = none;
  signal = open_long;
  target_position = none;
  token = codes "key";
  indicator_price = none;
}

abbrev astro : Strategy Fixed
astro = record {
  webhook_secret = codes "key";
  enabled = true;
  symbol = codes "BTC-USDT";
  allow_quote_variants = true;
  allow_cross_charting = false;
  default_leverage = some (pos 10);
  max_leverage = some (pos 20);
  margin_mode = none;
  margin_per_trade = none;
}

abbrev venue : Executor Fixed
venue = record { mark_price = none; maintenance_margin = λ notional mode. some (pos 5000) }

-- half the size is what the margin buys
abbrev accepted : Accepted Fixed
accepted = record {
  payload = record payload { size = pos 500000 };
  execution_symbol = codes "BTC-USDT";
  price = some (pos 100000000);
  tp_price = some (pos 104000000);
  sl_price = some (pos 98000000);
  effective_leverage = pos 10;
  effective_margin_mode = isolated;
  entry_ref = some (pos 100000000);
  stops_from_pct = false;
  sl_source = some strategy;
}

accepted-answer : receive_webhook none (some payload) (some astro) venue ≡ ok accepted
unfolding receive_webhook authenticate resolve_symbol split_dash resolve_modes max_leverage_of
    leverage_of admit admit_open reference_price webhook_price decimal clamp_size margin_qty round
    div mul open_stops bracket price_bracket guarantee_sl compute_guaranteed_sl choose_sl tighter_sl
    liquidation_sl sl_distance infer_price_decimals check_reward judge ◌-ℤ◌ ◌+ℤ◌ neg
accepted-answer = refl

receive_webhook-IsGuarded_example : IsGuarded none payload astro accepted
receive_webhook-IsGuarded_example =
    receive_webhook-IsGuarded none payload astro venue accepted accepted-answer

receive_webhook-IsProtected_example : (ref : Fixed) × IsProtected payload astro venue accepted ref
receive_webhook-IsProtected_example =
    receive_webhook-IsProtected Fixed-IsOrdered Fixed-IsRounding none payload astro venue accepted
      refl accepted-answer

compute_guaranteed_sl-IsGuaranteed_example :
    IsGuaranteed
      (pos 100000000)
      (pos 10)
      long
      (some (pos 98000000))
      (pos 5000)
      (pos 98000000)
      strategy
unfolding compute_guaranteed_sl decimal round choose_sl tighter_sl liquidation_sl mul ◌-ℤ◌
    sl_distance div infer_price_decimals
compute_guaranteed_sl-IsGuaranteed_example =
    compute_guaranteed_sl-IsGuaranteed Fixed-IsOrdered Fixed-IsRounding (pos 100000000) (pos 10)
      long (some (pos 98000000)) (pos 5000) (pos 98000000) strategy refl

-- a leverage of zero is no refusal but a ZeroDivisionError
receive_webhook-zero_leverage :
    receive_webhook none (some (record payload { leverage = some (pos 0) })) (some astro) venue
    ≡ err crashed
unfolding receive_webhook authenticate resolve_symbol split_dash resolve_modes max_leverage_of
    leverage_of admit admit_open reference_price webhook_price decimal clamp_size margin_qty round
    div mul open_stops bracket price_bracket guarantee_sl compute_guaranteed_sl choose_sl tighter_sl
    liquidation_sl sl_distance infer_price_decimals check_reward judge ◌-ℤ◌ ◌+ℤ◌ neg
receive_webhook-zero_leverage = refl

-- and a negative one passes every guard, with a size below zero
abbrev size_of : Result Refusal (Accepted Fixed) → Option Fixed
size_of (ok a) = some a.payload.size
size_of (err e) = none

receive_webhook-negative_leverage :
    size_of (
      receive_webhook none
        (some (record payload { leverage = some (negsuc 1); sl_price = none; tp_price = none }))
        (some astro)
        venue)
    ≡ some (negsuc 99999)
unfolding receive_webhook authenticate resolve_symbol split_dash resolve_modes max_leverage_of
    leverage_of admit admit_open reference_price webhook_price decimal clamp_size margin_qty round
    div mul open_stops bracket price_bracket guarantee_sl compute_guaranteed_sl choose_sl tighter_sl
    liquidation_sl sl_distance infer_price_decimals check_reward judge ◌-ℤ◌ ◌+ℤ◌ neg
receive_webhook-negative_leverage = refl
