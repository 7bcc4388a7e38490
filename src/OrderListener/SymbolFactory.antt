-- ===== src/OrderListener/SymbolFactory.antt =====
-- order-listener/app/symbol_factory.py: `SymbolFactory`. A result `none` is a ValueError. The name of
-- the exchange is lowered before it is looked up; here it is one of the three, or another.
pub mod RoundTrip
use matp.Base.{Bool, true, false, Option, none, some, List, [], ◌∷◌, ◌++◌, ◌==◌, any, if◌then◌else◌}
use matp.Base.Text.{Text, codes, split}
use mathlib.Core.List.{reverse}

pub data Exchange : Type 0 where
  blofin hyperliquid binance unknown : Exchange

-- `EXCHANGE_FORMATTERS` and `format`
unfoldable pub format : Text → Text → Exchange → Option Text
format base quote blofin = some (base ++ b'-' ∷ quote)
format base quote hyperliquid = some base
format base quote binance = some (base ++ quote)
format base quote unknown = none

-- the two parts of a split, when there are exactly two
abbrev pub two_parts : List Text → Option (Text × Text)
two_parts (a ∷ b ∷ []) = some (a, b)
two_parts _ = none

unfoldable pub parse_blofin : Text → Option (Text × Text)
parse_blofin symbol = two_parts (split b'-' symbol)

abbrev pub strip_prefix : Text → Text → Option Text
strip_prefix [] s = some s
strip_prefix (c ∷ p) [] = none
strip_prefix (c ∷ p) (d ∷ s) = let rest = strip_prefix p s in if c == d then rest else none

abbrev reversed : Option Text → Option Text
reversed none = none
reversed (some s) = some (reverse s)

-- `symbol[:-len(quote)]`, where `symbol.endswith(quote)`
unfoldable pub strip_suffix : Text → Text → Option Text
strip_suffix quote symbol = reversed (strip_prefix (reverse quote) (reverse symbol))

-- the loop over the stablecoin quotes
unfoldable pub split_quote : List Text → Text → Option (Text × Text)
split_quote [] symbol = none
split_quote (quote ∷ rest) symbol =
    let later = split_quote rest symbol in
    elim (strip_suffix quote symbol) [ some base ↦ some (base, quote) | none ↦ later ]

abbrev pub stable_quotes : List Text
stable_quotes = codes "USDT" ∷ codes "USDC" ∷ codes "USD" ∷ codes "DAI" ∷ []

abbrev pub has_char : Prim.Native.Nat.ℕ → Text → Bool
has_char c s = any (λ d. d == c) s

-- `SymbolFactory.split`
unfoldable pub split_symbol : Text → Option (Text × Text)
split_symbol symbol =
    if has_char b'/' symbol
    then two_parts (split b'/' symbol)
    else if has_char b'-' symbol
    then two_parts (split b'-' symbol)
    else split_quote stable_quotes symbol
