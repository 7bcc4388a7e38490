-- ===== src/OrderListener/Ledger/Closing/Race.antt =====
-- Closes whose commits interleave.
use matp.Base.{ℕ, true, false, ◌≡◌, refl, ◌∙◌, List, [], ◌∷◌, arith}
use matp.Base.Num.{Num}
use matp.OrderListener.Ledger.{Position, Ledger, has_open, edit_open}
use matp.OrderListener.Ledger.Closing.{
  CloseRequest, Exchange, race_condition, Plan, closing_id, close_row, commit_close,
}
use matp.OrderListener.Ledger.Closing.Writes.{commit_close-IsWritten, write_row-absent}

module _ {F : Type 0} where
  closed-absent :
      (i : ℕ) (f : Position F → Position F) (ps : List (Position F))
      → ((p : Position F) → (f p).is_open ≡ false)
      → has_open i (edit_open i f ps) ≡ false
  closed-absent i f [] k = refl
  closed-absent i f (p ∷ ps) k = ground (arith, k p, closed-absent i f ps k)

module _ {F : Type 0} ⦃num : Num F⦄ where
  -- Of two closes that have planned for one row, whatever they planned and from whatever ledgers, a full one
  -- that commits first leaves the other a race: it changes no position and no total.
  pub commit_close-race :
      (exchange : Exchange F) (req req' : CloseRequest F) (plan plan' : Plan F) (l : Ledger F)
      → plan.is_full ≡ true
      → plan'.pos.id ≡ plan.pos.id
      → let l' = (commit_close exchange req plan l).1 in
        let r = commit_close exchange req' plan' l' in
        (r.0 ≡ race_condition) × (r.1.positions ≡ l'.positions) × (r.1.book ≡ l'.book)
  commit_close-race exchange req req' plan plan' l full same =
      let l' = (commit_close exchange req plan l).1 in
      let w = commit_close-IsWritten exchange req plan l in
      let w' = commit_close-IsWritten exchange req' plan' l' in
      let gone : has_open plan'.pos.id l'.positions ≡ false = ground (
        arith,
        w.positions,
        closed-absent plan.pos.id (close_row req plan (closing_id req l)) l.positions (λ p. refl),
      ) in
      (
        ground (arith, w'.outcome, gone),
        w'.positions ∙ write_row-absent req' plan' (closing_id req' l') l'.positions gone,
        w'.book,
      )
