-- ===== src/OrderListener/Webhook/Intake/Checks.antt =====
-- What each check of `receive_webhook` leaves true of the signal that passes it.
use matp.Base.{
  Bool, true, false, not, ◌&&◌, ◌≡◌, ◌⊎◌, inl, inr, Option, none, some, nonempty, Bool-cases,
  Option-cases, arith,
}
use matp.Base.Int.{ℤ, ltb_ℤ}
use matp.Base.Text.{upper, strip, Text, text_eq}
use matp.Base.Num.{Num, nought, one, IsOrdered, IsRounding}
use matp.Base.Order.{le_refl}
use matp.Base.Result.{ok, need, bind-ok, need-ok}
use matp.OrderListener.GuaranteedStop.{fallback_mmr, SlSource, compute_guaranteed_sl}
use matp.OrderListener.GuaranteedStop.Tighter.{IsGuaranteed, compute_guaranteed_sl-IsGuaranteed}
use matp.OrderListener.SymbolValidator.{constructed, ResolvedSymbol, resolve_symbol, resolve_modes}
use matp.OrderListener.Webhook.{
  MarginMode, WebhookPayload, Strategy, Executor, crashed, Accepted, side_of,
}
use matp.OrderListener.Webhook.Sizing.{
  behind, Stops, webhook_price, reference_price, margin_qty, clamp_size, price_bracket,
  guarantee_sl, mmr_of, reward_of, risk_of, judge, check_reward,
}
use matp.OrderListener.Webhook.Intake.{
  resolve, token_of, max_leverage_of, authenticate, resolution, bracket, open_stops, accept_open,
}

pub resolve_symbol-own :
    (b q symbol : Text) (v c : Bool) (r : ResolvedSymbol)
    → resolution (resolve_symbol b q symbol v c) ≡ ok r
    → r.execution_symbol ≡ symbol
unfolding resolve_symbol resolve_modes
resolve_symbol-own b q symbol v c r e = ground arith

stripped-other :
    (b q symbol : Text) (v c : Bool) (r : ResolvedSymbol)
    → resolution (resolve_symbol b q symbol v c) ≡ ok r
    → r.price_stripped ≡ true
    → text_eq (constructed (upper (strip b)) (upper (strip q))) (upper symbol) ≡ false
unfolding resolve_symbol resolve_modes
stripped-other b q symbol v c r e t = ground arith

module _ {F : Type 0} ⦃num : Num F⦄ where
  open num use {div, lt, le}

  -- The guards that every accepted signal has passed.
  pub record IsGuarded (header : Option Text) (payload : WebhookPayload F) (strategy : Strategy F)
      (a : Accepted F) : Type 0 where
    pub named : nonempty (token_of header payload.token) ≡ true
    pub authentic : text_eq (token_of header payload.token) strategy.webhook_secret ≡ true
    pub enabled : strategy.enabled ≡ true
    pub own_symbol : a.execution_symbol ≡ strategy.symbol
    pub leverage_le : ltb_ℤ (max_leverage_of strategy) a.effective_leverage ≡ false

  -- A bracket with both legs stands on the right sides, and gains at least what it risks.
  abbrev pub rewarding : Accepted F → F → Bool
  rewarding a ref = elim a.tp_price [
    | none ↦ true
    | some tp ↦ elim a.sl_price [
      | none ↦ true
      | some sl ↦
          not (le (reward_of (side_of a.payload.signal) ref tp) nought)
          && (not (le (risk_of (side_of a.payload.signal) ref sl) nought)
              && not (
                  lt
                    (div (reward_of (side_of a.payload.signal) ref tp)
                      (risk_of (side_of a.payload.signal) ref sl))
                    one))
    ]
  ]

  -- the strategy's own stop: at the payload's distance behind the reference, or else at its price
  abbrev pub own_stop : WebhookPayload F → F → Option F
  own_stop payload ref = elim payload.sl_pct [
    | some pct ↦ some (behind (side_of payload.signal) ref pct)
    | none ↦ payload.sl_price
  ]

  -- the maintenance margin of the notional: the executor's, or else the one of the leverage
  abbrev pub margin_rate : Executor F → F → ℤ → MarginMode → F
  margin_rate exchange notional leverage mode = elim (exchange.maintenance_margin notional mode) [
    | some mmr ↦ mmr
    | none ↦ fallback_mmr leverage
  ]

  -- What the prices of an accepted opening signal meet: for a symbol that is not the strategy's they may be empty, and
  -- else there is the guaranteed stop, of its own stop and the margin rate of its notional.
  abbrev pub Stopped : WebhookPayload F → Strategy F → Executor F → Accepted F → F → Type 0
  Stopped payload strategy exchange a ref =
      ((text_eq (constructed (upper (strip payload.base_asset)) (upper (strip payload.quote_asset)))
            (upper strategy.symbol)
          ≡ false)
        × (a.price ≡ none)
        × (a.tp_price ≡ none)
        × (a.sl_price ≡ none))
      ⊎ ((p : F) × (source : SlSource) × (a.sl_price ≡ some p)
          × (a.sl_source ≡ some source)
          × IsGuaranteed ref a.effective_leverage (side_of payload.signal) (own_stop payload ref)
              (margin_rate exchange (num.mul a.payload.size ref) a.effective_leverage
                a.effective_margin_mode)
              p source)

  -- the sizing, the stop and the bracket, from one reference above zero
  pub record IsProtected (payload : WebhookPayload F) (strategy : Strategy F)
      (exchange : Executor F) (a : Accepted F) (ref : F) : Type 0 where
    pub reference : reference_price payload exchange ≡ ok ref
    pub positive : lt nought ref ≡ true
    pub sized : le a.payload.size (margin_qty strategy a.effective_leverage ref) ≡ true
    pub stopped : Stopped payload strategy exchange a ref
    pub rewarded : rewarding a ref ≡ true

  pub authenticate-ok :
      (header : Option Text) (payload : WebhookPayload F) (strategy : Strategy F) (u : Unit {0})
      → authenticate header payload strategy ≡ ok u
      → (nonempty (token_of header payload.token) ≡ true)
        × (text_eq (token_of header payload.token) strategy.webhook_secret ≡ true)
        × (strategy.enabled ≡ true)
  unfolding authenticate
  authenticate-ok header payload strategy u e = ground arith

  pub reference_price-positive :
      (order : IsOrdered F) (payload : WebhookPayload F) (exchange : Executor F) (ref : F)
      → reference_price payload exchange ≡ ok ref
      → lt nought ref ≡ true
  unfolding reference_price
  reference_price-positive order payload exchange ref e =
      ground (arith, order.lt-eq-not-le nought (webhook_price payload))

  pub clamp_size-le :
      (order : IsOrdered F) (strategy : Strategy F) (leverage : ℤ) (ref size : F)
      → lt nought ref ≡ true
      → le (clamp_size strategy leverage ref size) (margin_qty strategy leverage ref) ≡ true
  unfolding clamp_size
  clamp_size-le order strategy leverage ref size h =
      let qty = margin_qty strategy leverage ref in
      ground (arith, order.lt-eq-not-le qty size, le_refl order qty)

  pub check_reward-rewarding :
      (payload : WebhookPayload F) (ref : F) (a : Accepted F) (u : Unit {0})
      → check_reward payload ref (record { sl = a.sl_price; tp = a.tp_price }) ≡ ok u
      → a.payload.signal ≡ payload.signal
      → lt nought ref ≡ true
      → rewarding a ref ≡ true
  unfolding check_reward judge
  check_reward-rewarding payload ref a u e same h = elim (Option-cases a.tp_price) [
    | inl n ↦ ground arith
    | inr (tp, n) ↦ elim (Option-cases a.sl_price) [
      | inl n' ↦ ground arith
      | inr (sl, n') ↦ ground arith
    ]
  ]

  price_bracket-own :
      (payload : WebhookPayload F) (ref : F) (stops priced : Stops F)
      → stops.sl ≡ payload.sl_price
      → price_bracket payload ref stops ≡ ok priced
      → priced.sl ≡ own_stop payload ref
  unfolding price_bracket
  price_bracket-own payload ref stops priced same e = elim (Option-cases payload.sl_pct) [
    | inl level ↦ ground arith
    | inr (pct, distance) ↦ ground arith
  ]

  mmr_of-rate :
      (exchange : Executor F) (notional : F) (leverage : ℤ) (mode : MarginMode)
      → mmr_of (exchange.maintenance_margin notional mode) leverage
        ≡ margin_rate exchange notional leverage mode
  mmr_of-rate exchange notional leverage mode =
      ground (arith, Option-cases (exchange.maintenance_margin notional mode))

  bracket-IsGuaranteed :
      (order : IsOrdered F) (rounding : IsRounding F) (payload : WebhookPayload F)
      (exchange : Executor F) (leverage : ℤ) (mode : MarginMode) (ref size : F) (stops : Stops F)
      (r : Stops F × Option SlSource)
      → stops.sl ≡ payload.sl_price
      → bracket payload exchange leverage mode ref size stops ≡ ok r
      → lt nought ref ≡ true
      → (p : F) × (source : SlSource) × (r.0.sl ≡ some p)
        × (r.1 ≡ some source)
        × IsGuaranteed ref leverage
            (side_of payload.signal)
            (own_stop payload ref)
            (margin_rate exchange (num.mul size ref) leverage mode)
            p
            source
  unfolding bracket guarantee_sl
  bracket-IsGuaranteed order rounding payload exchange leverage mode ref size stops r same e h =
      let (priced, e₀, e₁) = bind-ok (price_bracket payload ref stops) _ r e in
      let mmr = mmr_of (exchange.maintenance_margin (num.mul size ref) mode) leverage in
      let side = side_of payload.signal in
      let above : le ref nought ≡ false = ground (arith, order.lt-eq-not-le nought ref) in
      let e₂ = rw above at e₁ in
      let (q, e₃, e₄) =
        bind-ok (need (compute_guaranteed_sl ref leverage side priced.sl mmr) crashed) _ r e₂ in
      let safe =
        compute_guaranteed_sl-IsGuaranteed order rounding ref leverage side priced.sl mmr q.0 q.1
          (need-ok _ crashed q e₃) in
      let own = price_bracket-own payload ref stops priced same e₀ in
      let rate = mmr_of-rate exchange (num.mul size ref) leverage mode in
      (q.0, q.1, ground arith, ground arith, rw (← own, ← rate) safe)

  pub open_stops-Stopped :
      (order : IsOrdered F) (rounding : IsRounding F) (payload : WebhookPayload F)
      (strategy : Strategy F) (exchange : Executor F) (r : ResolvedSymbol) (leverage : ℤ)
      (mode : MarginMode) (ref size : F) (s : Stops F × Option SlSource)
      → resolve payload strategy ≡ ok r
      → open_stops payload exchange r leverage mode ref size ≡ ok s
      → lt nought ref ≡ true
      → Stopped payload strategy exchange (accept_open payload r leverage mode ref size s) ref
  unfolding open_stops
  open_stops-Stopped order rounding payload strategy exchange r leverage mode ref size s e₀ e h =
      elim (Bool-cases r.price_stripped) [
        | inl t ↦ inl (
          stripped-other payload.base_asset payload.quote_asset strategy.symbol
              strategy.allow_quote_variants strategy.allow_cross_charting r e₀ t,
          ground arith,
          ground arith,
          ground arith,
        )
        | inr f ↦ inr (
            bracket-IsGuaranteed order rounding payload exchange leverage mode ref size _ s
              (ground (arith, f)) (rw f at e) h)
      ]
