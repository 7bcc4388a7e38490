-- ===== src/OrderListener/Process/Opening.antt =====
-- `_process_order`: an opening signal that passed the guards, and the whole handler. What the
-- exchange answers to a moved stop is only logged and noted in metadata, and is left out.
use matp.Base.{
  ℕ, Bool, true, false, not, ◌&&◌, ◌||◌, Option, none, some, nonempty, is_some, if◌then◌else◌,
}
use matp.Base.Num.{Num, nought}
use matp.Base.Result.{Result, err, ok}
use matp.OrderListener.GuaranteedStop.{long}
use matp.OrderListener.StopRevalidation.{Changes, revalidate_stops}
use matp.OrderListener.SymbolValidator.{constructed}
use matp.OrderListener.Webhook.{Accepted, Target, flat, opens, side_of, value_or}
use matp.OrderListener.Ledger.{Ledger, find_leg, edit_order, opposite, same_side, flip_close}
use matp.OrderListener.Ledger.Filling.{Fill, FillError, apply_position_fill}
use matp.OrderListener.Ledger.Closing.{CloseRequest}
use matp.OrderListener.Ledger.Drawdown.{book_with, close_with}
use matp.OrderListener.Process.{
  ExecStatus, exec_filled, OrderStatus, size_too_small, route_failed, executed, OrderAnswer, Desk,
  Figures, no_figures, update_order_status, check_at,
}
use matp.OrderListener.Process.Flat.{process_flat, process_close}
use matp.OrderListener.Process.Guards.{conflict_reason, size_rejected}

-- `x or y` of two that may be missing
abbrev pub either_or : {F : Type 0} ⦃num : Num F⦄ → Option F → Option F → Option F
either_or none y = y
either_or ⦃num⦄ (some x) y = if num.eq x nought then y else some x

abbrev pub is_filled : ExecStatus → Bool
is_filled exec_filled = true
is_filled _ = false

abbrev pub is_flat : Option Target → Bool
is_flat (some flat) = true
is_flat _ = false

module _ {F : Type 0} ⦃num : Num F⦄ where
  open num use {eq}

  -- what `_apply_position_fill` is called with
  abbrev pub fill_of : ℕ → Accepted F → OrderAnswer F → Fill F
  fill_of order a answer = record {
    payload_symbol = constructed a.payload.base_asset a.payload.quote_asset;
    pos_symbol = a.execution_symbol;
    side = a.payload.side;
    size = a.payload.size;
    price = a.payload.price;
    indicator_price = a.payload.indicator_price;
    actual_fill_price = answer.actual_fill_price;
    actual_fill_size = answer.actual_fill_size;
    leverage = a.effective_leverage;
    margin_mode = a.effective_margin_mode;
    opening_order = order;
  }

  abbrev changed : Changes F → Bool
  changed c = is_some c.sl_price || is_some c.tp_price

  -- the stops after the fill, where they were moved
  unfoldable pub reanchored : Accepted F → F → Option (Option F × Option F)
  unfolding revalidate_stops
  reanchored a fill =
      let ref = value_or a.entry_ref (value_or a.payload.indicator_price (value_or a.price fill)) in
      let (sl, tp, changes) =
        revalidate_stops (same_side (side_of a.payload.signal) long) (some ref) (some fill)
          a.sl_price a.tp_price a.stops_from_pct in
      if changed changes then some (sl, tp) else none

  -- the row keeps a stop that is not given (`COALESCE`)
  abbrev or_keep : Option F → Option F → Option F
  or_keep none old = old
  or_keep new old = new

  abbrev write_stops : ℕ → Option (Option F × Option F) → Ledger F → Ledger F
  write_stops order none l = l
  write_stops order (some (sl, tp)) l = record l {
    orders =
        edit_order order
          (λ o. record o { sl_price = or_keep sl o.sl_price; tp_price = or_keep tp o.tp_price })
          l.orders;
  }

  -- fill-price stop revalidation
  unfoldable pub reanchor : ℕ → Accepted F → Option F → Ledger F → Ledger F
  unfolding reanchored
  reanchor order a none l = l
  reanchor order a (some fill) l =
      if not (eq fill nought) && (is_some a.tp_price || is_some a.sl_price)
      then write_stops order (reanchored a fill) l
      else l

  abbrev pub flip_request : Accepted F → OrderAnswer F → F → CloseRequest F
  flip_request a answer pnl = record {
    symbol = a.execution_symbol;
    side = opposite (side_of a.payload.signal);
    close_size = none;
    closing_order = none;
    reason = some flip_close;
    skip_exchange = true;
    fill_price = answer.actual_fill_price;
    realized_pnl = some pnl;
    close_fee = none;
  }

  abbrev pub book_flip : Desk F → Accepted F → OrderAnswer F → F → Ledger F → Option (Ledger F)
  book_flip desk a answer pnl l =
      if is_some (find_leg a.execution_symbol (opposite (side_of a.payload.signal)) l.positions)
      then (elim (close_with (check_at desk l) desk.exchange (flip_request a answer pnl) l) [
        | none ↦ none
        | some (outcome, l') ↦ some l'
      ])
      else book_with (check_at desk l) (some pnl) l

  -- an entry that realized a pnl has eaten the opposite leg, on a net account
  unfoldable pub flip : Desk F → Accepted F → OrderAnswer F → Ledger F → Option (Ledger F)
  flip desk a answer l = elim (either_or answer.pnl answer.realized_pnl) [
    | none ↦ some l
    | some pnl ↦ if desk.hedge || eq pnl nought then some l else book_flip desk a answer pnl l
  ]

  abbrev pub after_fill :
      Desk F
      → ℕ
      → Accepted F
      → OrderAnswer F
      → Ledger F
      → Result FillError (Ledger F)
      → Option (OrderStatus × Ledger F)
  after_fill desk order a answer l (err e) =
      some (route_failed, update_order_status order no_figures l)
  after_fill desk order a answer l (ok l') =
      elim (flip desk a answer (reanchor order a answer.actual_fill_price l')) [
        | none ↦ none
        | some l'' ↦ some (executed answer.status, l'')
      ]

  abbrev pub answer_figures : OrderAnswer F → Figures F
  answer_figures answer = record {
    fill_price = answer.actual_fill_price;
    pnl = answer.realized_pnl;
    fee = answer.fee;
    fill_size = if is_filled answer.status then either_or answer.actual_fill_size none else none;
  }

  -- after the executor's answer: only a confirmed fill makes or grows a position
  unfoldable pub settle_answer :
      Desk F → ℕ → Accepted F → OrderAnswer F → Ledger F → Option (OrderStatus × Ledger F)
  unfolding flip reanchor
  settle_answer desk order a answer l =
      let l' = update_order_status order (answer_figures answer) l in
      if is_filled answer.status
        && (nonempty a.payload.base_asset
            && (nonempty a.payload.quote_asset && not (eq a.payload.size nought)))
      then after_fill desk order a answer l' (apply_position_fill (fill_of order a answer) l')
      else some (executed answer.status, l')

  -- the guards come first
  unfoldable pub process_open : Desk F → ℕ → Accepted F → Ledger F → Option (OrderStatus × Ledger F)
  unfolding settle_answer
  process_open desk order a l =
      elim (conflict_reason desk.hedge desk.others (side_of a.payload.signal)) [
        | some reason ↦ some (reason, update_order_status order no_figures l)
        | none ↦
            if size_rejected desk a
            then some (size_too_small, update_order_status order no_figures l)
            else settle_answer desk order a (desk.place_order l) l
      ]

  unfoldable pub process_order :
      Desk F → ℕ → Accepted F → Ledger F → Option (OrderStatus × Ledger F)
  unfolding process_open
  process_order desk order a l =
      if is_flat a.payload.target_position
      then process_flat desk order a l
      else if opens a.payload.signal
      then process_open desk order a l
      else process_close desk order a l
