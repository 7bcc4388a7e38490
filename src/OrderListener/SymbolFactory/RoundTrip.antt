-- ===== src/OrderListener/SymbolFactory/RoundTrip.antt =====
-- A formatted symbol reads back as the assets that it was made of.
use matp.Base.{false, ◌||◌, ◌<◌, ◌≡◌, refl, ap, ◌∙◌, Option, some, [], ◌∷◌, ◌++◌, arith}
use mathlib.Core.Option.{some-injective}
use mathlib.Core.Path.{subst}
use matp.Base.Text.{Text, codes, split}
use mathlib.Core.List.{reverse, reverse-append, reverse-reverse}
use matp.OrderListener.SymbolFactory.{
  blofin, binance, format, two_parts, parse_blofin, strip_prefix, strip_suffix, reversed,
  split_quote, stable_quotes, has_char, split_symbol,
}

split-none : (sep : Prim.Native.Nat.ℕ) (s : Text) → has_char sep s ≡ false → split sep s ≡ s ∷ []
split-none sep [] h = refl
split-none sep (c ∷ s) h = ground (arith, split-none sep s)

split-append :
    (sep : Prim.Native.Nat.ℕ) (a b : Text)
    → has_char sep a ≡ false
    → has_char sep b ≡ false
    → split sep (a ++ sep ∷ b) ≡ a ∷ b ∷ []
split-append sep [] b h k = ground (arith, split-none sep b k)
split-append sep (c ∷ a) b h k = ground (arith, split-append sep a b)

strip_prefix-append : (p s : Text) → strip_prefix p (p ++ s) ≡ some s
strip_prefix-append [] s = refl
strip_prefix-append (c ∷ p) s = ground (arith, strip_prefix-append p s)

has_char-append :
    (c : Prim.Native.Nat.ℕ) (a b : Text) → has_char c (a ++ b) ≡ has_char c a || has_char c b
has_char-append c [] b = refl
has_char-append c (x ∷ a) b = ground (arith, has_char-append c a b)

-- A suffix test sees the end of the text alone.
strip_suffix-end :
    (quote base end : Text)
    → strip_suffix quote (base ++ end)
      ≡ reversed (strip_prefix (reverse quote) (reverse end ++ reverse base))
unfolding strip_suffix
strip_suffix-end quote base end =
    ap (λ s. reversed (strip_prefix (reverse quote) s)) (reverse-append base end)

strip_suffix-append : (quote base : Text) → strip_suffix quote (base ++ quote) ≡ some base
strip_suffix-append quote base =
    strip_suffix-end quote base quote
    ∙ ap reversed (strip_prefix-append (reverse quote) (reverse base))
    ∙ ap {B = Option Text} some (reverse-reverse base)

-- Assets with no dash, formatted for Blofin, are parsed back.
pub parse_blofin-format :
    (base quote s : Text)
    → has_char b'-' base ≡ false
    → has_char b'-' quote ≡ false
    → format base quote blofin ≡ some s
    → parse_blofin s ≡ some (base, quote)
unfolding format parse_blofin
parse_blofin-format base quote s h k e =
    subst (λ t. two_parts (split b'-' t) ≡ some (base, quote)) (some-injective _ _ e)
      (ap two_parts (split-append b'-' base quote h k))

pub data StableQuote : Type 0 where
  usdt usdc usd dai : StableQuote

abbrev pub quote_text : StableQuote → Text
quote_text usdt = codes "USDT"
quote_text usdc = codes "USDC"
quote_text usd = codes "USD"
quote_text dai = codes "DAI"

split_quote-format :
    (base : Text) (q : StableQuote)
    → split_quote stable_quotes (base ++ quote_text q) ≡ some (base, quote_text q)
unfolding split_quote
split_quote-format base usdt = ground (arith, strip_suffix-append (quote_text usdt) base)
split_quote-format base usdc = ground (
  arith,
  strip_suffix-end (codes "USDT") base (quote_text usdc),
  strip_suffix-append (quote_text usdc) base,
)
split_quote-format base usd = ground (
  arith,
  strip_suffix-end (codes "USDT") base (quote_text usd),
  strip_suffix-end (codes "USDC") base (quote_text usd),
  strip_suffix-append (quote_text usd) base,
)
split_quote-format base dai = ground (
  arith,
  strip_suffix-end (codes "USDT") base (quote_text dai),
  strip_suffix-end (codes "USDC") base (quote_text dai),
  strip_suffix-end (codes "USD") base (quote_text dai),
  strip_suffix-append (quote_text dai) base,
)

has_char-quote :
    (c : Prim.Native.Nat.ℕ) (q : StableQuote) → c < b'A' → has_char c (quote_text q) ≡ false
has_char-quote c usdt h = ground arith
has_char-quote c usdc h = ground arith
has_char-quote c usd h = ground arith
has_char-quote c dai h = ground arith

-- An asset with no dash and no slash, written in Binance's form with one of the stablecoin quotes,
-- is split back into the two.
pub split_symbol-format :
    (base s : Text) (q : StableQuote)
    → has_char b'/' base ≡ false
    → has_char b'-' base ≡ false
    → format base (quote_text q) binance ≡ some s
    → split_symbol s ≡ some (base, quote_text q)
unfolding format split_symbol
split_symbol-format base s q h k e =
    subst (λ t. split_symbol t ≡ some (base, quote_text q)) (some-injective _ _ e)
      (ground (
        arith,
        has_char-append b'/' base (quote_text q),
        has_char-append b'-' base (quote_text q),
        has_char-quote b'/' q (omega arith),
        has_char-quote b'-' q (omega arith),
        split_quote-format base q,
      ))
