-- ===== src/OrderListener/Ledger/Resize.antt =====
-- `_resize_stops_after_partial_close`, `_flag_sl_unconfirmed`, and the reading of the triggers before
-- the reduce.
pub mod Flagged
use matp.Base.{
  ℕ, Bool, true, false, not, ◌&&◌, ◌||◌, Option, none, some, is_some, List, [], ◌∷◌, ◌==◌,
  if◌then◌else◌,
}
use matp.OrderListener.Ledger.{Order, find_order, edit_order}

pub data TriggerKind : Type 0 where
  tp sl other : TriggerKind

-- a resting trigger with its price, which may be missing
pub record Trigger (F : Type 0) : Type 0 where
  pub kind : TriggerKind
  pub trigger_px : Option F

-- what is known of the stops: a target and a stop
pub record Resting (F : Type 0) : Type 0 where
  pub tp_price : Option F
  pub sl_price : Option F

-- the answer to `modify-stops`, where `none` is a key that is missing or null
pub record ModifyAnswer : Type 0 where
  pub sl_ok : Option Bool
  pub tp_ok : Option Bool

abbrev pub confirmed : Option Bool → Bool
confirmed none = false
confirmed (some b) = b

module _ {F : Type 0} where
  abbrev pub note_price : TriggerKind → F → Resting F → Resting F
  note_price tp px r = record r { tp_price = some px }
  note_price sl px r = record r { sl_price = some px }
  note_price other px r = r

  abbrev pub note_trigger : Trigger F → Resting F → Resting F
  note_trigger t r = elim t.trigger_px [ none ↦ r | some px ↦ note_price t.kind px r ]

  -- the loop over the triggers: the last price of each kind
  unfoldable pub read_triggers : List (Trigger F) → Resting F → Resting F
  read_triggers [] r = r
  read_triggers (t ∷ ts) r = read_triggers ts (note_trigger t r)

  abbrev pub empty_resting : Resting F
  empty_resting = record { tp_price = none; sl_price = none }

  -- the stops that the opening order recorded
  abbrev pub recorded : ℕ → List (Order F) → Resting F
  recorded i os = elim (find_order i os) [
    | some o ↦ record { tp_price = o.tp_price; sl_price = o.sl_price }
    | none ↦ empty_resting
  ]

  -- `pre_tp` and `pre_sl`, where `none` is a read that failed
  unfoldable pub stops_to_place : Option (List (Trigger F)) → ℕ → List (Order F) → Resting F
  unfolding read_triggers
  stops_to_place none i os = recorded i os
  stops_to_place (some ts) i os = read_triggers ts empty_resting

  -- `_flag_sl_unconfirmed`
  unfoldable pub flag_sl_unconfirmed : ℕ → List (Order F) → List (Order F)
  flag_sl_unconfirmed i os = edit_order i (λ o. record o { sl_unconfirmed = true }) os

  -- what is asked of the exchange, and whether the opening order is flagged
  unfoldable pub resize_stops :
      Option (List (Trigger F))
      → ℕ
      → (Resting F → ModifyAnswer)
      → List (Order F)
      → Option (Resting F) × Bool
  unfolding stops_to_place
  resize_stops pre i modify os =
      let r = stops_to_place pre i os in
      if not (is_some r.tp_price) && not (is_some r.sl_price)
      then (none, not (is_some pre))
      else (some r, is_some r.sl_price && not (confirmed (modify r).sl_ok))
