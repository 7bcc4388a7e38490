-- ===== src/OrderListener/Ledger/Resize/Flagged.antt =====
-- After a partial close: which stops are placed, and when the opening order is flagged.
use matp.Base.{
  ℕ, not, ◌&&◌, ◌||◌, ◌≡◌, refl, Option, none, some, is_some, List, [], ◌∷◌, if◌then◌else◌,
  Option-cases, arith,
}
use matp.OrderListener.Ledger.{Order, find_order}
use matp.OrderListener.Ledger.Resize.{
  tp, sl, other, Trigger, Resting, ModifyAnswer, confirmed, read_triggers, empty_resting,
  note_trigger, stops_to_place, resize_stops,
}

module _ {F : Type 0} where
  -- the last price among the triggers of a stop, and among those of a target
  abbrev pub last_sl : List (Trigger F) → Option F
  last_sl [] = none
  last_sl (t ∷ ts) =
      let rest = last_sl ts in
      elim rest [
        | some px ↦ some px
        | none ↦ elim t.kind [ sl ↦ t.trigger_px | tp ↦ none | other ↦ none ]
      ]

  abbrev pub last_tp : List (Trigger F) → Option F
  last_tp [] = none
  last_tp (t ∷ ts) =
      let rest = last_tp ts in
      elim rest [
        | some px ↦ some px
        | none ↦ elim t.kind [ tp ↦ t.trigger_px | sl ↦ none | other ↦ none ]
      ]

  abbrev or_else : Option F → Option F → Option F
  or_else none y = y
  or_else (some x) y = some x

  read_triggers-sl :
      (ts : List (Trigger F)) (r : Resting F)
      → (read_triggers ts r).sl_price ≡ or_else (last_sl ts) r.sl_price
  unfolding read_triggers
  read_triggers-sl [] r = refl
  read_triggers-sl (t ∷ ts) r = ground (
    arith,
    read_triggers-sl ts (note_trigger t r),
    Option-cases t.trigger_px,
    Option-cases (last_sl ts),
  )

  read_triggers-tp :
      (ts : List (Trigger F)) (r : Resting F)
      → (read_triggers ts r).tp_price ≡ or_else (last_tp ts) r.tp_price
  unfolding read_triggers
  read_triggers-tp [] r = refl
  read_triggers-tp (t ∷ ts) r = ground (
    arith,
    read_triggers-tp ts (note_trigger t r),
    Option-cases t.trigger_px,
    Option-cases (last_tp ts),
  )

  -- the stop and the target that are known of: they rest, or, where that cannot be read, the opening order
  -- recorded them
  abbrev pub known_sl : Option (List (Trigger F)) → ℕ → List (Order F) → Option F
  known_sl none i os = elim (find_order i os) [ some o ↦ o.sl_price | none ↦ none ]
  known_sl (some ts) i os = last_sl ts

  abbrev pub known_tp : Option (List (Trigger F)) → ℕ → List (Order F) → Option F
  known_tp none i os = elim (find_order i os) [ some o ↦ o.tp_price | none ↦ none ]
  known_tp (some ts) i os = last_tp ts

  abbrev pub known : Option (List (Trigger F)) → ℕ → List (Order F) → Resting F
  known pre i os = record { tp_price = known_tp pre i os; sl_price = known_sl pre i os }

  stops_to_place-known :
      (pre : Option (List (Trigger F))) (i : ℕ) (os : List (Order F))
      → stops_to_place pre i os ≡ known pre i os
  unfolding stops_to_place
  stops_to_place-known none i os = ground (arith, Option-cases (find_order i os))
  stops_to_place-known (some ts) i os = ground (
    arith,
    read_triggers-sl ts empty_resting,
    read_triggers-tp ts empty_resting,
    Option-cases (last_sl ts),
    Option-cases (last_tp ts),
  )

  -- After a partial close the exchange is asked for exactly the known stop and target again, where there is one: the last
  -- ones that rested before it, or the recorded ones where those could not be read. The opening order is flagged where a known stop
  -- is not confirmed, and where the triggers could not be read and neither a stop nor a
  -- target is on record; and nowhere else.
  pub resize_stops-flags :
      (pre : Option (List (Trigger F))) (i : ℕ) (modify : Resting F → ModifyAnswer)
      (os : List (Order F))
      → let sl = known_sl pre i os in
        let tp = known_tp pre i os in
        resize_stops pre i modify os ≡ (
          if is_some sl || is_some tp
          then (
            some (known pre i os),
            is_some sl && not (confirmed (modify (known pre i os)).sl_ok),
          )
          else (none, not (is_some pre)))
  unfolding resize_stops
  resize_stops-flags pre i modify os = rw (stops_to_place-known pre i os) (ground arith)
