-- ===== src/SocialListener/Post.antt =====
-- The record that the extractor hands to social-listener/app/statemachine.py, the settings of
-- app/config.py that the gates read, and the readings of one record that every gate shares.
use matp.Base.{
  ℕ, ◌+◌, ◌*◌, Bool, false, ◌&&◌, Option, none, some, List, map, ltb, any, keep, nonempty,
  if◌then◌else◌,
}
use matp.Base.Text.{Text, codes, upper, strip, split, text_eq}
use matp.Base.Num.{Num, nought, max, min}
use matp.SocialListener.Legs.{Side, long, short}

-- A value that is passed to `float()`: a number, or what `float` refuses.
pub data Raw (F : Type 0) : Type 0 where
  number : F → Raw F
  junk : Raw F

-- `action_type`; `other` is any text that no gate names
pub data Action : Type 0 where
  trim add stop close open_leg flip other : Action

pub data Phase : Type 0 where
  backfill live : Phase

-- times are microseconds since the epoch
pub record Post (F : Type 0) : Type 0 where
  pub asset : Option Text
  pub action_type : Action
  pub direction : Option Text
  pub confidence : Option F
  pub reference_price : Option F
  -- the reference price is a `Decimal`: the post was loaded from the database, and not extracted just now
  pub is_reloaded : Bool
  pub size_fraction : Option (Raw F)
  pub add_multiple : Option (Raw F)
  pub trigger_price : Option F
  pub stop_price : Option (Raw F)
  pub stop_to_breakeven : Bool
  pub take_profit_price : Option (Raw F)
  pub posted_at : Option ℕ

pub record Settings (F : Type 0) : Type 0 where
  pub asset_whitelist : Text
  pub confidence_floor : F
  pub staleness_pct : F
  pub entry_on_missing_price : Text
  pub max_signal_age_seconds : ℕ
  pub default_add_multiple : F
  pub max_add_multiple : F
  pub default_trim_fraction : F
  pub min_trim_fraction : F
  pub max_trim_fraction : F

-- WHITELIST
unfoldable pub whitelist : Text → List Text
whitelist names = map upper (map strip (keep (λ s. nonempty (strip s)) (split b',' names)))

abbrev side_named : Text → Option Side
side_named name =
    if text_eq name (codes "LONG")
    then some long
    else if text_eq name (codes "SHORT")
    then some short
    else none

module _ {F : Type 0} where
  -- `_direction`
  unfoldable pub direction : Post F → Option Side
  direction rec = elim rec.direction [ none ↦ none | some d ↦ side_named (upper d) ]

  -- `_too_old`
  unfoldable pub too_old : Settings F → Post F → ℕ → Bool
  too_old cfg rec now = elim rec.posted_at [
    | none ↦ false
    | some posted ↦ ltb (posted + 1000000 * cfg.max_signal_age_seconds) now
  ]

  -- `float(raw) if raw is not None else default`, with the default on a refusal too
  abbrev float_or : Option (Raw F) → F → F
  float_or none default = default
  float_or (some (number x)) default = x
  float_or (some junk) default = default

module _ {F : Type 0} ⦃num : Num F⦄ where
  -- `_trim_fraction`
  unfoldable pub trim_fraction : Settings F → Post F → F
  trim_fraction cfg rec =
      max cfg.min_trim_fraction
        (min cfg.max_trim_fraction (float_or rec.size_fraction cfg.default_trim_fraction))

  -- `_add_multiple`
  unfoldable pub add_size : Settings F → Post F → F
  add_size cfg rec =
      max nought (min cfg.max_add_multiple (float_or rec.add_multiple cfg.default_add_multiple))

  -- `rec.get("confidence") or 0.0`
  abbrev pub confidence_of : Post F → F
  confidence_of rec = elim rec.confidence [ none ↦ nought | some c ↦ c ]

  -- `asset` is set and in WHITELIST
  unfoldable pub whitelisted : Settings F → Post F → Bool
  unfolding whitelist
  whitelisted cfg rec = elim rec.asset [
    | none ↦ false
    | some a ↦ nonempty a && any (text_eq (upper a)) (whitelist cfg.asset_whitelist)
  ]
