-- ===== src/OrderListener/Ledger/Sync.antt =====
-- `sync_position_pnl`: a position's realized pnl rolled up from its closing orders, and what is booked for
-- it. Every row of the table is considered, open ones too.
pub mod Balanced
use matp.Base.{
  ℕ, Bool, true, false, not, ◌&&◌, Option, none, some, is_some, List, [], ◌∷◌, ◌++◌, ◌==◌,
  if◌then◌else◌,
}
use matp.Base.Num.{Num, nought}
use matp.OrderListener.Ledger.{Position, Order, Ledger}
use matp.OrderListener.Ledger.Closing.{fee_of, open_fee}
use matp.OrderListener.Ledger.Drawdown.{book_with}

module _ {F : Type 0} ⦃num : Num F⦄ where
  open num use {add, sub, eq}

  abbrev closes : ℕ → Order F → Bool
  closes i o = elim o.closes_position [ some j ↦ j == i && is_some o.pnl | none ↦ false ]

  -- the orders that the subquery groups under a position
  abbrev pub closing_orders : ℕ → List (Order F) → List (Order F)
  closing_orders i [] = []
  closing_orders i (o ∷ os) =
      let rest = closing_orders i os in if closes i o then o ∷ rest else rest

  -- `SUM`, with zero for nothing
  abbrev pub sum_of : (Order F → Option F) → List (Order F) → F
  sum_of column [] = nought
  sum_of column (o ∷ os) = add (fee_of (column o)) (sum_of column os)

  -- `sub.total`, where the position has a group
  unfoldable pub rolled_up : List (Order F) → Position F → Option F
  rolled_up os p = elim (closing_orders p.id os) [
    | [] ↦ none
    | _ ↦ some (
        sub
          (sub (sum_of (λ o. o.pnl) (closing_orders p.id os))
            (sum_of (λ o. o.exchange_fee) (closing_orders p.id os)))
          (open_fee p os))
  ]

  -- the row's new value, from its own and the total: set where it is NULL, or where it is distinct
  abbrev pub set_pnl : Option F → Option F → Position F → Position F
  set_pnl prev none p = p
  set_pnl none (some total) p = record p { pnl_realized = some total }
  set_pnl (some prev) (some total) p =
      if eq prev total then p else record p { pnl_realized = some total }

  unfoldable pub refresh : List (Order F) → List (Position F) → List (Position F)
  unfolding rolled_up
  refresh os [] = []
  refresh os (p ∷ ps) = set_pnl p.pnl_realized (rolled_up os p) p ∷ refresh os ps

  -- what the first attributions book
  abbrev pub new_amount : Option F → Option F → List F
  new_amount none (some total) = total ∷ []
  new_amount _ _ = []

  -- and what the corrections do
  abbrev pub correction : Option F → Option F → List F
  correction (some prev) (some total) = if eq prev total then [] else sub total prev ∷ []
  correction _ _ = []

  unfoldable pub newly : List (Order F) → List (Position F) → List F
  newly os [] = []
  newly os (p ∷ ps) = new_amount p.pnl_realized (rolled_up os p) ++ newly os ps

  unfoldable pub corrected : List (Order F) → List (Position F) → List F
  corrected os [] = []
  corrected os (p ∷ ps) = correction p.pnl_realized (rolled_up os p) ++ corrected os ps

  abbrev pub book_all : (Ledger F → Option (Ledger F)) → List F → Ledger F → Option (Ledger F)
  book_all check [] l = some l
  book_all check (pnl ∷ rest) l = elim (book_with check (some pnl) l) [
    | none ↦ none
    | some l' ↦ book_all check rest l'
  ]

  unfoldable pub sync_position_pnl : (Ledger F → Option (Ledger F)) → Ledger F → Option (Ledger F)
  unfolding refresh newly corrected
  sync_position_pnl check l =
      book_all check (newly l.orders l.positions ++ corrected l.orders l.positions)
        (record l { positions = refresh l.orders l.positions })
