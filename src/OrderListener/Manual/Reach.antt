-- ===== src/OrderListener/Manual/Reach.antt =====
-- Which row a manual call reaches, and what it leaves alone.
use matp.Base.{
  [], ℕ, Bool, true, false, ◌||◌, ◌≡◌, inl, inr, Option, some, List, [], ◌∷◌, if◌then◌else◌,
  Option-cases, ==_iff, arith,
}
use matp.Base.Text.{Text, text_eq_iff}
use matp.Base.Result.{ok}
use matp.OrderListener.Webhook.{Strategy}
use matp.OrderListener.Ledger.{Position, Ledger, is_leg, find_leg, edit_order}
use matp.OrderListener.Ledger.Legs.{IsLedger, all_apart, distinct}
use matp.OrderListener.Ledger.Moves.{same_side_iff}
use matp.OrderListener.Ledger.Resize.{Resting}
use matp.OrderListener.Manual.{
  AdjustBody, AdjustAnswer, Adjusted, simulated, adjusted, find_row, pick, asked_levels,
  effective_levels, write_levels, adjust_stops, closable,
}
use matp.OrderListener.Manual.Picks.{
  IsNewest, pick-IsNewest, adjusted_order, write-adjusted, edit_order-ap,
}

module _ {F : Type 0} where
  apart-row :
      (i : ℕ) (q : Position F) (ps : List (Position F)) (p : Position F)
      → all_apart q ps ≡ true
      → find_row i ps ≡ some p
      → p.is_open ≡ true
      → is_leg p.symbol p.side q ≡ false
  apart-row i q [] p a h o = absurd (ground arith)
  apart-row i q (r ∷ rs) p a h o = ground (arith, apart-row i q rs p)

  find_row-id :
      (i : ℕ) (ps : List (Position F)) (p : Position F) → find_row i ps ≡ some p → p.id ≡ i
  find_row-id i [] p h = absurd (ground arith)
  find_row-id i (q ∷ qs) p h = ground (arith, ==_iff q.id i, find_row-id i qs p)

  row-leg :
      (i : ℕ) (ps : List (Position F)) (p : Position F)
      → distinct ps ≡ true
      → find_row i ps ≡ some p
      → p.is_open ≡ true
      → find_leg p.symbol p.side ps ≡ some p
  row-leg i [] p d h o = absurd (ground arith)
  row-leg i (q ∷ qs) p d h o = ground (
    arith,
    row-leg i qs p,
    apart-row i q qs p,
    text_eq_iff p.symbol p.symbol,
    same_side_iff p.side p.side,
  )

  -- In a ledger of distinct rows, the row that may be closed by its id is open and has that id, and it is the
  -- one that a close finds by its symbol and side.
  pub closable-leg :
      (i : ℕ) (known : Bool) (l : Ledger F) (p : Position F)
      → IsLedger l
      → closable (some i) known l.positions ≡ ok p
      → (p.id ≡ i) × (p.is_open ≡ true) × (find_leg p.symbol p.side l.positions ≡ some p)
  unfolding closable
  closable-leg i known l p h e = elim (Option-cases (find_row i l.positions)) [
    | inl gone ↦ absurd (ground arith)
    | inr (q, found) ↦
        (let same : (q ≡ p) × (q.is_open ≡ true) = ground arith in
          let o = rw same.0 at same.1 in
          let here = rw same.0 at found in
          (find_row-id i l.positions p here, o, row-leg i l.positions p h.distinct_rows here o))
  ]

  -- what an adjustment leaves
  pub record IsAdjustment (modify : Position F → Resting F → AdjustAnswer F) (body : AdjustBody F)
      (l : Ledger F) (r : Adjusted × Ledger F) : Type 0 where
    pub row : Position F
    pub newest : IsNewest body.side l.positions row
    pub positions : r.1.positions ≡ l.positions
    pub book : r.1.book ≡ l.book
    pub answer : r.0 ≡ (if body.dry_run then simulated row.id else adjusted row.id)
    pub taken :
        body.dry_run
          || (modify row (record { tp_price = body.tp_price; sl_price = body.sl_price })).success
        ≡ true
    pub orders : r.1.orders ≡ (
        if body.dry_run
        then l.orders
        else edit_order row.opening_order
            (adjusted_order body
              (modify row
                (record { tp_price = body.tp_price; sl_price = body.sl_price })).preserved)
            l.orders)

  -- An adjustment that succeeds is about the newest open position, or the newest one of the side that was named
  -- if one was. It changes neither a position nor the strategy's totals, and a dry run changes nothing. Otherwise the exchange
  -- has taken the levels that were asked for, and of the orders the position's opening order alone
  -- takes each level that was asked for, or else the first such one that was carried forward, or else keeps its own.
  pub adjust_stops-IsAdjustment :
      (modify : Position F → Resting F → AdjustAnswer F) (header : Option Text)
      (strategy : Strategy F) (body : AdjustBody F) (l : Ledger F) (r : Adjusted × Ledger F)
      → adjust_stops modify header (some strategy) body l ≡ ok r
      → IsAdjustment modify body l r
  unfolding adjust_stops
  adjust_stops-IsAdjustment modify header strategy body l r e =
      elim (Option-cases (pick body.side l.positions)) [
        | inl gone ↦ absurd (ground arith)
        | inr (p, found) ↦
            (let preserved = (modify p (asked_levels body)).preserved in
              let written =
                edit_order-ap p.opening_order
                  (write_levels (effective_levels preserved (asked_levels body)))
                  (adjusted_order body preserved) l.orders (write-adjusted body preserved) in
              record {
                row = p;
                newest = pick-IsNewest body.side l.positions p (ground arith) found;
                positions = ground arith;
                book = ground arith;
                answer = ground arith;
                taken = ground arith;
                orders = ground (arith, written);
              })
      ]
