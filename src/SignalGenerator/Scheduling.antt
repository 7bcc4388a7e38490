-- ===== src/SignalGenerator/Scheduling.antt =====
-- ai-signal-generator/app/scheduling.py. Times are microseconds since the epoch, as `datetime` counts
-- them; the buffer and the least sleep are taken in microseconds too.
pub mod Wake
use matp.Base.{
  ℕ, ◌+◌, ◌-◌, ◌*◌, ◌/◌, Bool, ◌&&◌, Option, none, some, List, [], ◌∷◌, ◌==◌, ltb, leb,
  if◌then◌else◌,
}
use matp.Base.Text.{Text}

-- `_UNIT_SECONDS.get(unit)`
unfoldable pub unit_seconds : ℕ → Option ℕ
unit_seconds c =
    if c == b'm'
    then some 60
    else if c == b'h'
    then some 3600
    else if c == b'd'
    then some 86400
    else none

-- `int(...)` of ASCII digits; `none` is a ValueError. (Signs and blanks, which `int` takes too, do not
-- stand in interval strings.)
unfoldable pub number_from : ℕ → Text → Option ℕ
number_from n [] = some n
number_from n (c ∷ s) =
    let rest = number_from (n * 10 + (c - 48)) s in if leb b'0' c && leb c b'9' then rest else none

abbrev number_of : Text → Option ℕ
number_of [] = none
number_of (c ∷ s) = number_from 0 (c ∷ s)

-- `(s[:-1], s[-1])`
unfoldable pub split_last : Text → Option (Text × ℕ)
split_last [] = none
split_last (c ∷ []) = some ([], c)
split_last (c ∷ d ∷ s) = elim (split_last (d ∷ s)) [
  | none ↦ none
  | some (init, last) ↦ some (c ∷ init, last)
]

abbrev times : Option ℕ → Option ℕ → Option ℕ
times none u = none
times (some n) none = none
times (some n) (some u) = some (n * u)

abbrev interval_of : Option (Text × ℕ) → Option ℕ
interval_of none = none
interval_of (some (digits, unit)) = times (number_of digits) (unit_seconds unit)

-- `parse_interval_seconds`; `none` is an exception
unfoldable pub parse_interval_seconds : Text → Option ℕ
unfolding unit_seconds number_from split_last
parse_interval_seconds s = interval_of (split_last s)

-- the point to wake at, for a period of `tf`
unfoldable pub wake_at : ℕ → ℕ → ℕ → ℕ
wake_at tf now buffer = let at = now / tf * tf + buffer in if ltb at now then at + tf else at

-- `seconds_until_aligned_wake`, after the timeframe is parsed: `max(min_sleep, wake_at - now)`
unfoldable pub until_aligned_wake : ℕ → ℕ → ℕ → ℕ → ℕ
unfolding wake_at
until_aligned_wake tf now buffer min_sleep =
    let wait = wake_at tf now buffer - now in if ltb min_sleep wait then wait else min_sleep
