-- ===== src/OrderListener/Process/Causes.antt =====
-- What a signal is to move in the ledger, and that a flat and a closing signal move that alone.
use matp.Base.{if◌then◌else◌, ℕ, suc, ◌≡◌, refl, ◌≤◌, Option, none, some, List, [], ◌∷◌, arith}
use matp.Base.Text.{Text}
use matp.Base.Num.{Num, IsOrdered}
use matp.OrderListener.GuaranteedStop.{PositionSide}
use matp.OrderListener.Webhook.{Accepted, opens, side_of}
use matp.OrderListener.Ledger.{Ledger, open_count, signal_flat, signal_close}
use matp.OrderListener.Ledger.Closing.{CloseRequest, Exchange}
use matp.OrderListener.Ledger.Drawdown.{settle}
use matp.OrderListener.Ledger.Drawdown.Ends.{close_with-Ends, settle-ends}
use matp.OrderListener.Ledger.Refines.{Cause, by_fill, by_close}
use matp.OrderListener.Ledger.Runs.{
  Follows, Follows-trans, Follows-then, Follows-same, close_with-Follows, settle-follows,
}
use matp.OrderListener.Process.{
  OrderStatus, closed_as, close_figures, Desk, Figures, OrderAnswer, no_figures,
  update_order_status,
}
use matp.OrderListener.Process.Flat.{
  LegResult, signal_request, flat_legs, close_leg, close_legs, report_flat, process_flat,
  process_close,
}
use matp.OrderListener.Process.Opening.{is_flat, fill_of, flip_request, either_or}

module _ {F : Type 0} ⦃num : Num F⦄ where
  -- a result is reached, and the ledger follows
  abbrev pub Reaches :
      Exchange F → List (Cause F) → Ledger F → Option (OrderStatus × Ledger F) → Type 0
  Reaches exchange own l o =
      (r : OrderStatus × Ledger F) × (o ≡ some r) × Follows exchange own l r.1

  abbrev pub Arrives : Exchange F → List (Cause F) → Ledger F → Option (Ledger F) → Type 0
  Arrives exchange own l o = (l' : Ledger F) × (o ≡ some l') × Follows exchange own l l'

  -- what each kind of signal is to move
  abbrev pub flat_causes : Text → ℕ → List PositionSide → List (Cause F)
  flat_causes symbol i [] = []
  flat_causes symbol i (side ∷ sides) =
      by_close (signal_request symbol side none i signal_flat) ∷ flat_causes symbol i sides

  abbrev pub flip_causes : Accepted F → OrderAnswer F → List (Cause F)
  flip_causes a answer = elim (either_or answer.pnl answer.realized_pnl) [
    | none ↦ []
    | some pnl ↦ by_close (flip_request a answer pnl) ∷ []
  ]

  abbrev pub open_causes : ℕ → Accepted F → OrderAnswer F → List (Cause F)
  open_causes i a answer = by_fill (fill_of i a answer) ∷ flip_causes a answer

  abbrev pub close_causes : ℕ → Accepted F → List (Cause F)
  close_causes i a =
      by_close (
        signal_request a.execution_symbol (side_of a.payload.signal) (some a.payload.size) i
          signal_close)
      ∷ []

  abbrev pub order_causes : Desk F → ℕ → Accepted F → Ledger F → List (Cause F)
  order_causes desk i a l =
      if is_flat a.payload.target_position
      then flat_causes a.execution_symbol i
          (flat_legs a.payload.signal a.execution_symbol l.positions)
      else if opens a.payload.signal
      then open_causes i a (desk.place_order l)
      else close_causes i a

  pub update-Follows :
      {exchange : Exchange F}
      → (i : ℕ) (r : Figures F) (l : Ledger F) → Follows exchange [] l (update_order_status i r l)
  unfolding update_order_status
  update-Follows {exchange} i r l = Follows-same exchange l (update_order_status i r l) refl refl

  report_flat-Follows :
      {exchange : Exchange F}
      → (i : ℕ) (rs : List (LegResult F)) (l : Ledger F)
      → Follows exchange [] l (report_flat i rs l).1
  report_flat-Follows i [] l = update-Follows i no_figures l
  report_flat-Follows i (r ∷ rs) l = update-Follows i _ l

module _ {F : Type 0} ⦃num : Num F⦄ (order : IsOrdered F) where
  close_leg-arrives :
      (n : ℕ) (exchange : Exchange F) (req : CloseRequest F) (l : Ledger F)
      → open_count l.positions ≤ n
      → (r : LegResult F × Ledger F) × (close_leg (λ m. settle (suc n) exchange m) exchange req l
          ≡ some r)
        × (open_count r.1.positions ≤ open_count l.positions)
        × Follows exchange (by_close req ∷ []) l r.1
  close_leg-arrives n exchange req l h =
      let check : Ledger F → Option (Ledger F) = λ m. settle (suc n) exchange m in
      let (r, e, le) =
        close_with-Ends check (suc n) exchange req l (settle-ends (suc n) exchange) (omega arith) in
      (
        (record { outcome = r.0; figures = close_figures exchange req l r.0 }, r.1),
        ground arith,
        le,
        close_with-Follows order exchange check req l r.0 r.1
            (settle-follows order exchange (suc n)) e,
      )

  close_legs-arrives :
      (n : ℕ) (exchange : Exchange F) (symbol : Text) (i : ℕ) (sides : List PositionSide)
      (l : Ledger F)
      → open_count l.positions ≤ n
      → (r : List (LegResult F) × Ledger F) × (close_legs
            (λ m. settle (suc n) exchange m)
            exchange
            symbol
            i
            sides
            l
          ≡ some r)
        × Follows exchange (flat_causes symbol i sides) l r.1
  unfolding close_legs
  close_legs-arrives n exchange symbol i [] l h =
      (([], l), refl, Follows-same exchange l l refl refl)
  close_legs-arrives n exchange symbol i (side ∷ sides) l h =
      let (r, e, le, f) =
        close_leg-arrives n exchange (signal_request symbol side none i signal_flat) l h in
      let (rs, e', f') = close_legs-arrives n exchange symbol i sides r.1 (omega arith) in
      ((r.0 ∷ rs.0, rs.1), ground arith, Follows-trans f f')

  pub process_flat-Reaches :
      (desk : Desk F) (i : ℕ) (a : Accepted F) (l : Ledger F)
      → Reaches desk.exchange
          (flat_causes a.execution_symbol i
            (flat_legs a.payload.signal a.execution_symbol l.positions))
          l
          (process_flat desk i a l)
  unfolding process_flat
  process_flat-Reaches desk i a l =
      let (r, e, f) =
        close_legs-arrives (open_count l.positions) desk.exchange a.execution_symbol i
          (flat_legs a.payload.signal a.execution_symbol l.positions) l (omega arith) in
      (report_flat i r.0 r.1, ground arith, Follows-then _ f (report_flat-Follows i r.0 r.1))

  pub process_close-Reaches :
      (desk : Desk F) (i : ℕ) (a : Accepted F) (l : Ledger F)
      → Reaches desk.exchange (close_causes i a) l (process_close desk i a l)
  unfolding process_close
  process_close-Reaches desk i a l =
      let req =
        signal_request a.execution_symbol (side_of a.payload.signal) (some a.payload.size) i
          signal_close in
      let (r, e, le, f) =
        close_leg-arrives (open_count l.positions) desk.exchange req l (omega arith) in
      (
        (closed_as r.0.outcome, update_order_status i r.0.figures r.1),
        ground arith,
        Follows-then (close_causes i a) f (update-Follows i r.0.figures r.1),
      )
