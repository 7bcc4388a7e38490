-- ===== src/OrderListener/Ledger/Runs/Whole.antt =====
-- Whole runs: each handler with fuel for the drawdown checks that it starts.
use matp.Base.{suc, Option, none, some, List, [], ◌∷◌, ◌++◌}
use matp.Base.Text.{Text}
use matp.Base.Num.{Num}
use matp.Base.Result.{Result, err, ok}
use matp.OrderListener.Ledger.{Ledger, open_count}
use matp.OrderListener.Ledger.Refines.{Cause, by_fill, by_close}
use matp.OrderListener.Ledger.Filling.{Fill, FillError, apply_position_fill}
use matp.OrderListener.Ledger.Closing.{CloseRequest, Exchange, CloseOutcome}
use matp.OrderListener.Ledger.Drawdown.{close_with, settle}
use matp.OrderListener.Ledger.Drawdown.Ends.{Ends}
use matp.OrderListener.Ledger.Sync.{sync_position_pnl}
use matp.OrderListener.Ledger.Runs.{Moves}

-- what a handler does to the ledger
pub data Op (F : Type 0) : Type 0 where
  fill : Fill F → Op F
  close : CloseRequest F → Op F
  sync : Op F

module _ {F : Type 0} ⦃num : Num F⦄ where
  abbrev kept_or : Ledger F → Result FillError (Ledger F) → Ledger F
  kept_or l (ok l') = l'
  kept_or l (err e) = l

  abbrev ledger_of : Option (CloseOutcome × Ledger F) → Option (Ledger F)
  ledger_of none = none
  ledger_of (some (outcome, l)) = some l

  -- A fill that raises leaves the ledger as it is.
  unfoldable pub perform : Exchange F → Op F → Ledger F → Option (Ledger F)
  perform exchange (fill f) l = some (kept_or l (apply_position_fill f l))
  perform exchange (close req) l =
      ledger_of (close_with (λ m. settle (open_count l.positions) exchange m) exchange req l)
  perform exchange sync l =
      sync_position_pnl (λ m. settle (suc (open_count l.positions)) exchange m) l

  unfoldable pub run : Exchange F → List (Op F) → Ledger F → Option (Ledger F)
  unfolding perform
  run exchange [] l = some l
  run exchange (op ∷ ops) l = elim (perform exchange op l) [
    | none ↦ none
    | some l' ↦ run exchange ops l'
  ]

  -- what is to move the legs
  abbrev pub op_causes : Op F → List (Cause F)
  op_causes (fill f) = by_fill f ∷ []
  op_causes (close req) = by_close req ∷ []
  op_causes sync = []

  abbrev pub all_causes : List (Op F) → List (Cause F)
  all_causes [] = []
  all_causes (op ∷ ops) = op_causes op ++ all_causes ops
