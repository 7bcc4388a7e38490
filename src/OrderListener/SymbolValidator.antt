-- ===== src/OrderListener/SymbolValidator.antt =====
-- order-listener/app/symbol_validator.py: `resolve_symbol`. Error texts are left out.
pub mod Stripping
use matp.Base.{
  Bool, true, false, not, ◌&&◌, Option, none, some, List, [], ◌∷◌, ◌++◌, ◌==◌, any, if◌then◌else◌,
}
use matp.Base.Text.{Text, codes, upper, strip, text_eq}

-- `QUOTE_VARIANTS`
abbrev quote_variants : List Text
quote_variants = codes "USD" ∷ codes "USDC" ∷ codes "USDT" ∷ codes "PERP" ∷ []

pub data Coupling : Type 0 where
  by_quote_variants by_cross_charting : Coupling

pub record ResolvedSymbol : Type 0 where
  pub execution_symbol : Text
  pub price_stripped : Bool
  pub coupling_used : Option Coupling

-- `bad_format` is the ValueError, and `mismatch` the SymbolMismatchError with its `incoming`
pub data Resolution : Type 0 where
  resolved : ResolvedSymbol → Resolution
  bad_format : Resolution
  mismatch : Text → Resolution

abbrev grow : Prim.Native.Nat.ℕ → Option (Text × Text) → Option (Text × Text)
grow c none = none
grow c (some (a, b)) = some (c ∷ a, b)

-- `s.split("-", 1)`, where `s` has a dash
unfoldable pub split_dash : Text → Option (Text × Text)
split_dash [] = none
split_dash (c ∷ s) = let rest = split_dash s in if c == b'-' then some ([], s) else grow c rest

-- `f"{base}-{quote}"`
abbrev pub constructed : Text → Text → Text
constructed base quote = base ++ b'-' ∷ quote

abbrev is_variant : Text → Bool
is_variant quote = any (text_eq quote) quote_variants

-- the three modes, on the parts of the execution symbol
unfoldable pub resolve_modes : Text → Text → Text → Text → Text → Bool → Bool → Resolution
resolve_modes base quote execution_symbol exec_base exec_quote allow_variants allow_cross =
    if text_eq (constructed base quote) (upper execution_symbol)
    then resolved (record {
      execution_symbol = execution_symbol;
      price_stripped = false;
      coupling_used = none;
    })
    else if allow_variants
        && (text_eq base exec_base && (is_variant quote && is_variant exec_quote))
    then resolved (record {
      execution_symbol = execution_symbol;
      price_stripped = not (text_eq quote exec_quote);
      coupling_used = if not (text_eq quote exec_quote) then some by_quote_variants else none;
    })
    else if allow_cross && text_eq base exec_base
    then resolved (record {
      execution_symbol = execution_symbol;
      price_stripped = true;
      coupling_used = some by_cross_charting;
    })
    else mismatch (constructed base quote)

abbrev pub resolve_parts : Text → Text → Text → Option (Text × Text) → Bool → Bool → Resolution
resolve_parts base quote execution_symbol none allow_variants allow_cross = bad_format
resolve_parts base quote execution_symbol (some (b, q)) allow_variants allow_cross =
    resolve_modes base quote execution_symbol b q allow_variants allow_cross

unfoldable pub resolve_symbol : Text → Text → Text → Bool → Bool → Resolution
resolve_symbol base_asset quote_asset execution_symbol allow_variants allow_cross =
    resolve_parts (upper (strip base_asset)) (upper (strip quote_asset)) execution_symbol
      (split_dash (upper execution_symbol)) allow_variants allow_cross
