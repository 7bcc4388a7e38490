-- ===== src/OrderListener/SymbolValidator/Stripping.antt =====
-- Prices are stripped exactly from the orders whose symbol is not the strategy's own.
use matp.Base.{Bool, not, ◌≡◌, some, [], ◌∷◌, arith, Option-cases, inl, inr}
use matp.Base.Text.{Text, upper, strip, text_eq, text_eq_iff}
use matp.OrderListener.SymbolValidator.{
  ResolvedSymbol, resolved, split_dash, constructed, resolve_modes, resolve_symbol,
}

-- The parts of a split symbol give the symbol back.
constructed-split_dash : (s a b : Text) → split_dash s ≡ some (a, b) → constructed a b ≡ s
unfolding split_dash
constructed-split_dash [] a b e = cc
constructed-split_dash (c ∷ s) a b e = elim (Option-cases (split_dash s)) [
  | inl no_dash ↦ ground arith
  | inr (p, q) ↦ ground (arith, constructed-split_dash s p.0 p.1 q)
]

resolve_modes-stripped :
    (base quote execution_symbol b q : Text) (allow_variants allow_cross : Bool)
    (r : ResolvedSymbol)
    → constructed b q ≡ upper execution_symbol
    → resolve_modes base quote execution_symbol b q allow_variants allow_cross ≡ resolved r
    → (r.execution_symbol ≡ execution_symbol)
      × (r.price_stripped ≡ not (text_eq (constructed base quote) (upper execution_symbol)))
unfolding resolve_modes
resolve_modes-stripped base quote execution_symbol b q allow_variants allow_cross r h e = ground (
  arith,
  text_eq_iff base b,
  text_eq_iff quote q,
  text_eq_iff (constructed base quote) (upper execution_symbol),
)

-- A symbol that resolves is always the strategy's own, and prices are stripped from the order
-- exactly where the assets that came in do not spell it.
pub resolve_symbol-stripped :
    (base quote execution_symbol : Text) (allow_variants allow_cross : Bool) (r : ResolvedSymbol)
    → resolve_symbol base quote execution_symbol allow_variants allow_cross ≡ resolved r
    → (r.execution_symbol ≡ execution_symbol)
      × (r.price_stripped
          ≡ not (
              text_eq
                (constructed (upper (strip base)) (upper (strip quote)))
                (upper execution_symbol)))
unfolding resolve_symbol
resolve_symbol-stripped base quote execution_symbol allow_variants allow_cross r e =
    elim (Option-cases (split_dash (upper execution_symbol))) [
      | inl no_dash ↦ absurd (ground arith)
      | inr (p, parts) ↦
          resolve_modes-stripped (upper (strip base)) (upper (strip quote)) execution_symbol p.0 p.1
            allow_variants allow_cross r
            (constructed-split_dash (upper execution_symbol) p.0 p.1 parts) (rw parts at e)
    ]
