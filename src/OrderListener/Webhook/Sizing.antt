-- ===== src/OrderListener/Webhook/Sizing.antt =====
-- order-listener/app/webhook_handler.py, `receive_webhook`: the reference price, the margin clamp, the
-- distance-form bracket, the guaranteed stop and the reward/risk floor of an opening signal.
use matp.Base.{Bool, ◌&&◌, ◌||◌, Option, none, some, is_some, if◌then◌else◌}
use matp.Base.Int.{ℤ}
use matp.Base.Num.{Num, nought, one}
use matp.Base.Result.{Result, err, ok, ◌>>=◌, ◌>>◌, reject_if, need}
use matp.OrderListener.GuaranteedStop.{
  PositionSide, long, short, SlSource, of_int, infer_price_decimals, fallback_mmr,
  compute_guaranteed_sl,
}
use matp.OrderListener.Webhook.{
  MarginMode, WebhookPayload, Strategy, Executor, Refusal, no_reference_price, wrong_side_bracket,
  poor_reward, crashed, side_of, value_or,
}

-- the stop and the target
pub record Stops (F : Type 0) : Type 0 where
  pub sl : Option F
  pub tp : Option F

module _ {F : Type 0} ⦃num : Num F⦄ where
  open num use {add, sub, mul, div, abs, lt, le, eq, decimal, round}

  -- `payload.indicator_price or payload.price or 0`
  unfoldable pub webhook_price : WebhookPayload F → F
  webhook_price payload = value_or payload.indicator_price (value_or payload.price nought)

  -- `_ref_price` of an opening signal: the webhook's price, or else the exchange's mark
  unfoldable pub reference_price : WebhookPayload F → Executor F → Result Refusal F
  unfolding webhook_price
  reference_price payload exchange =
      if le (webhook_price payload) nought
      then (let mark = value_or exchange.mark_price nought in
          if lt nought mark then ok mark else err no_reference_price)
      else ok (webhook_price payload)

  -- `_margin_qty`
  unfoldable pub margin_qty : Strategy F → ℤ → F → F
  margin_qty strategy leverage ref =
      round (div (mul (value_or strategy.margin_per_trade (decimal 5 0)) (of_int leverage)) ref) 8

  -- the margin-per-trade clamp
  unfoldable pub clamp_size : Strategy F → ℤ → F → F → F
  clamp_size strategy leverage ref size =
      let qty = margin_qty strategy leverage ref in
      if lt nought ref then if lt qty size then qty else size else size

  -- the price at a distance in per cent, ahead on the position's side or behind
  abbrev pub ahead : PositionSide → F → F → F
  ahead long ref pct =
      round (mul ref (add one (div (abs pct) (decimal 100 0)))) (infer_price_decimals ref)
  ahead short ref pct =
      round (mul ref (sub one (div (abs pct) (decimal 100 0)))) (infer_price_decimals ref)

  abbrev pub behind : PositionSide → F → F → F
  behind long ref pct = ahead short ref pct
  behind short ref pct = ahead long ref pct

  abbrev at_pct : (F → F) → Option F → Option F → Option F
  at_pct level none price = price
  at_pct level (some pct) price = some (level pct)

  abbrev pub from_pct : WebhookPayload F → Bool
  from_pct payload = is_some payload.tp_pct || is_some payload.sl_pct

  -- a distance wins over a level
  unfoldable pub price_bracket : WebhookPayload F → F → Stops F → Result Refusal (Stops F)
  price_bracket payload ref stops =
      let side = side_of payload.signal in
      if from_pct payload && le ref nought
      then err no_reference_price
      else ok (record {
        sl = at_pct (behind side ref) payload.sl_pct stops.sl;
        tp = at_pct (ahead side ref) payload.tp_pct stops.tp;
      })

  abbrev pub mmr_of : Option F → ℤ → F
  mmr_of none leverage = fallback_mmr leverage
  mmr_of (some mmr) leverage = mmr

  -- the guaranteed stop, with its source
  unfoldable pub guarantee_sl :
      WebhookPayload F
      → Executor F
      → ℤ
      → MarginMode
      → F
      → F
      → Stops F
      → Result Refusal (Stops F × Option SlSource)
  guarantee_sl payload exchange leverage mode ref size stops =
      let mmr = mmr_of (exchange.maintenance_margin (mul size ref) mode) leverage in
      if le ref nought
      then ok (stops, none)
      else need (compute_guaranteed_sl ref leverage (side_of payload.signal) stops.sl mmr) crashed
        >>= λ r. ok (record stops { sl = some r.0 }, some r.1)

  -- the signed distances of a bracket from the reference
  abbrev pub reward_of : PositionSide → F → F → F
  reward_of long ref tp = sub tp ref
  reward_of short ref tp = sub ref tp

  abbrev pub risk_of : PositionSide → F → F → F
  risk_of long ref sl = sub ref sl
  risk_of short ref sl = sub sl ref

  -- `_MIN_RISK_REWARD` is 1.0
  unfoldable pub judge : PositionSide → F → F → F → Result Refusal (Unit {0})
  judge side ref tp sl = do
    reject_if (le (reward_of side ref tp) nought || le (risk_of side ref sl) nought)
        wrong_side_bracket
    reject_if (lt (div (reward_of side ref tp) (risk_of side ref sl)) one) poor_reward

  -- the reward/risk floor, for a full bracket and a reference above zero
  unfoldable pub check_reward : WebhookPayload F → F → Stops F → Result Refusal (Unit {0})
  check_reward payload ref stops = elim stops.tp [
    | none ↦ ok tt
    | some tp ↦ elim stops.sl [
      | none ↦ ok tt
      | some sl ↦ if lt nought ref then judge (side_of payload.signal) ref tp sl else ok tt
    ]
  ]
