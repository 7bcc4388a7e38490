-- ===== src/OrderListener/Webhook/Intake/Admits.antt =====
-- What an accepted signal of `receive_webhook` meets.
use matp.Base.{true, ◌≡◌, refl, sym, ◌∙◌, Option, some, arith}
use matp.Base.Int.{ℤ, ltb_ℤ}
use matp.Base.Text.{Text}
use matp.Base.Num.{Num, IsOrdered, IsRounding}
use matp.Base.Result.{ok, reject_if, bind-ok, reject_if-ok}
use matp.OrderListener.SymbolValidator.{ResolvedSymbol}
use matp.OrderListener.Webhook.{
  MarginMode, WebhookPayload, Strategy, Executor, leverage_exceeded, Accepted, opens,
}
use matp.OrderListener.Webhook.Sizing.{reference_price, clamp_size, check_reward}
use matp.OrderListener.Webhook.Intake.{
  resolve, margin_mode_of, max_leverage_of, leverage_of, authenticate, open_stops, accept_open,
  admit_open, admit, receive_webhook,
}
use matp.OrderListener.Webhook.Intake.Checks.{
  resolve_symbol-own, IsGuarded, IsProtected, authenticate-ok, reference_price-positive,
  clamp_size-le, check_reward-rewarding, open_stops-Stopped,
}

module _ {F : Type 0} ⦃num : Num F⦄ where
  open num use {div, lt, le}

  admit-same :
      (payload : WebhookPayload F) (strategy : Strategy F) (exchange : Executor F)
      (r : ResolvedSymbol) (leverage : ℤ) (mode : MarginMode) (a : Accepted F)
      → admit payload strategy exchange r leverage mode ≡ ok a
      → (a.effective_leverage ≡ leverage) × (a.execution_symbol ≡ r.execution_symbol)
  unfolding admit admit_open
  admit-same payload strategy exchange r leverage mode a e = ground arith

  -- An accepted signal named the strategy's secret, its strategy is enabled, the order is for the
  -- strategy's own symbol, and its leverage is no more than the strategy's limit.
  pub receive_webhook-IsGuarded :
      (header : Option Text) (payload : WebhookPayload F) (strategy : Strategy F)
      (exchange : Executor F) (a : Accepted F)
      → receive_webhook header (some payload) (some strategy) exchange ≡ ok a
      → IsGuarded header payload strategy a
  unfolding receive_webhook
  receive_webhook-IsGuarded header payload strategy exchange a e =
      let (u, e₁, rest) = bind-ok (authenticate header payload strategy) _ a e in
      let (r, e₂, rest) = bind-ok (resolve payload strategy) _ a rest in
      let (v, e₃, rest) =
        bind-ok
          (reject_if (ltb_ℤ (max_leverage_of strategy) (leverage_of payload strategy))
            leverage_exceeded)
          _ a rest in
      let (named, authentic, enabled) = authenticate-ok header payload strategy u e₁ in
      let (leverage, symbol) = admit-same payload strategy exchange r _ _ a rest in
      record {
        named = named;
        authentic = authentic;
        enabled = enabled;
        own_symbol =
            symbol
            ∙ resolve_symbol-own payload.base_asset payload.quote_asset strategy.symbol
                strategy.allow_quote_variants strategy.allow_cross_charting r e₂;
        leverage_le = rw leverage (reject_if-ok _ _ v e₃);
      }

  admit_open-IsProtected :
      (order : IsOrdered F) (rounding : IsRounding F) (payload : WebhookPayload F)
      (strategy : Strategy F) (exchange : Executor F) (r : ResolvedSymbol) (leverage : ℤ)
      (mode : MarginMode) (a : Accepted F)
      → resolve payload strategy ≡ ok r
      → admit_open payload strategy exchange r leverage mode ≡ ok a
      → (ref : F) × IsProtected payload strategy exchange a ref
  unfolding admit_open
  admit_open-IsProtected order rounding payload strategy exchange r leverage mode a e₀ e =
      let (ref, e₁, rest) = bind-ok (reference_price payload exchange) _ a e in
      let size = clamp_size strategy leverage ref payload.size in
      let (s, e₂, rest) = bind-ok (open_stops payload exchange r leverage mode ref size) _ a rest in
      let (u, e₃, rest) = bind-ok (check_reward payload ref s.0) _ a rest in
      let h = reference_price-positive order payload exchange ref e₁ in
      let same : accept_open payload r leverage mode ref size s ≡ a = ground arith in
      let base : IsProtected payload strategy exchange
          (accept_open payload r leverage mode ref size s) ref =
        record {
          reference = e₁;
          positive = h;
          sized = clamp_size-le order strategy leverage ref payload.size h;
          stopped =
              open_stops-Stopped order rounding payload strategy exchange r leverage mode ref size s
                e₀ e₂ h;
          rewarded =
              check_reward-rewarding payload ref (accept_open payload r leverage mode ref size s) u
                e₃ refl h;
        } in
      (ref, rw same at base)

  admit-opens :
      (payload : WebhookPayload F) (strategy : Strategy F) (exchange : Executor F)
      (r : ResolvedSymbol) (leverage : ℤ) (mode : MarginMode)
      → opens payload.signal ≡ true
      → admit payload strategy exchange r leverage mode
        ≡ admit_open payload strategy exchange r leverage mode
  unfolding admit
  admit-opens payload strategy exchange r leverage mode o = rw o refl

  -- An accepted opening signal is sized, stopped and judged from one reference price above zero. Its size
  -- is at most what the strategy's margin buys at its leverage. It has the guaranteed stop of the strategy's own stop and of the
  -- maintenance margin of its notional, that of the executor or else that of the leverage, unless its symbol is not the
  -- strategy's and it has no prices at all. A bracket with both legs stands on the right sides and gains at
  -- least what it risks.
  pub receive_webhook-IsProtected :
      (order : IsOrdered F) (rounding : IsRounding F) (header : Option Text)
      (payload : WebhookPayload F) (strategy : Strategy F) (exchange : Executor F) (a : Accepted F)
      → opens payload.signal ≡ true
      → receive_webhook header (some payload) (some strategy) exchange ≡ ok a
      → (ref : F) × IsProtected payload strategy exchange a ref
  unfolding receive_webhook
  receive_webhook-IsProtected order rounding header payload strategy exchange a o e =
      let (u, e₁, rest) = bind-ok (authenticate header payload strategy) _ a e in
      let (r, e₂, rest) = bind-ok (resolve payload strategy) _ a rest in
      let (v, e₃, rest) =
        bind-ok
          (reject_if (ltb_ℤ (max_leverage_of strategy) (leverage_of payload strategy))
            leverage_exceeded)
          _ a rest in
      let leverage = leverage_of payload strategy in
      let mode = margin_mode_of payload strategy in
      admit_open-IsProtected order rounding payload strategy exchange r leverage mode a e₂
        (sym (admit-opens payload strategy exchange r leverage mode o) ∙ rest)
