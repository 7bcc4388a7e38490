-- ===== src/SocialListener/OrderExamples.antt =====
-- What the emitter posts for a flip, and the names of legs read back.
use matp.Base.{
  ap, is_some, map, All, ◌⊎◌, ℕ, ◌*◌, ◌+◌, Bool, true, false, ◌≡◌, refl, Option, none, some, List,
  [], ◌∷◌,
}
use matp.Base.Text.{codes}
use matp.Base.Int.{pos}
use matp.Base.Fixed.{Fixed, fixed_num, mul, div, decimal, round}
use matp.SocialListener.Legs.{Side, Legs}
use matp.SocialListener.Decision.{Signal}
use matp.SocialListener.Emitter.Sends.{IsOrdered, emit-IsOrdered, emit-done, Accepts}
use matp.SocialListener.Emitter.{
  Account, Payload, Response, open_step, close_step, steps, size_of, payload, emit,
}

abbrev whole : ℕ → Fixed
whole n = pos (n * 1000000)

abbrev now : ℕ
now = 1010000000

abbrev only_short : Legs
only_short = record { long = false; short = true }

-- the account of a strategy that trades 50 at 2 times leverage, and an exchange that accepts all
abbrev account : Account Fixed
account = record {
  execution_quote_asset = codes "USDT";
  source_tag = codes "social";
  webhook_secret = codes "secret";
  margin_per_trade = some (whole 50);
  default_leverage = some 2;
}

abbrev accept : Payload Fixed → Response
accept p = Response.status 200

abbrev close_then_open : List (Payload Fixed)
close_then_open =
    payload account (close_step Side.short) (codes "BTC") (whole 1) now
    ∷ payload account (open_step Side.long) (codes "BTC") (whole 1) now
    ∷ []

emit-flip :
    (emit accept account now
      (Signal.flip_signal Side.long)
      (codes "BTC")
      (some (whole 100))
      none
      none).1
    ≡ close_then_open
unfolding emit mul div decimal round
emit-flip = refl

emit-IsOrdered_example :
    (size : Fixed) × IsOrdered accept account now
      (Signal.flip_signal Side.long)
      (codes "BTC")
      (some (whole 100))
      none
      none
      size
      close_then_open
emit-IsOrdered_example =
    emit-IsOrdered accept account now (Signal.flip_signal Side.long) (codes "BTC")
      (some (whole 100)) none none
      (payload account (close_step Side.short) (codes "BTC") (whole 1) now)
      (payload account (open_step Side.long) (codes "BTC") (whole 1) now ∷ []) emit-flip

emit-done_example :
    (size : Fixed) × ((size_of account
        (Signal.flip_signal Side.long)
        (some (whole 100))
        none
        none).1
      ≡ some size)
    × ((emit accept account now
          (Signal.flip_signal Side.long)
          (codes "BTC")
          (some (whole 100))
          none
          none).1
        ≡ map
            (λ step. payload account step (codes "BTC") size now)
            (steps (Signal.flip_signal Side.long)))
    × matp.Base.All
        (λ p. Accepts (accept p))
        (map
          (λ step. payload account step (codes "BTC") size now)
          (steps (Signal.flip_signal Side.long)))
unfolding emit mul div decimal round
emit-done_example =
    emit-done accept account now (Signal.flip_signal Side.long) (codes "BTC") (some (whole 100))
      none none refl
