-- ===== src/OrderListener/Ledger/Sync/Balanced.antt =====
-- A sync moves the strategy's total by what it moves the rows by, and a second one moves nothing.
use matp.Base.{
  true, ◌≡◌, refl, sym, ap, ◌∙◌, inl, inr, Option, none, some, List, [], ◌∷◌, ◌++◌, Bool-cases,
  Option-cases, arith,
}
use matp.Base.Num.{Num, nought, IsExact}
use matp.OrderListener.Ledger.{Position, Order, Ledger}
use matp.OrderListener.Ledger.Booking.{book_pnl}
use matp.OrderListener.Ledger.Closing.{fee_of}
use matp.OrderListener.Ledger.Balance.{realized, add_right_comm}
use matp.OrderListener.Ledger.Sync.{
  rolled_up, set_pnl, refresh, new_amount, correction, newly, corrected, book_all,
  sync_position_pnl,
}

module _ {F : Type 0} ⦃num : Num F⦄ where
  open num use {add, sub, eq}

  abbrev sum : List F → F
  sum [] = nought
  sum (x ∷ xs) = add x (sum xs)

  module _ (exact : IsExact F) where
    open exact use {add_assoc, add_comm, add_nought}

    add_nought_right : (a : F) → add a nought ≡ a
    add_nought_right a = add_comm a nought ∙ add_nought a

    sum-append : (xs ys : List F) → sum (xs ++ ys) ≡ add (sum xs) (sum ys)
    sum-append [] ys = sym (add_nought (sum ys))
    sum-append (x ∷ xs) ys = ap (add x) (sum-append xs ys) ∙ sym (add_assoc x (sum xs) (sum ys))

    interchange : (a b c d : F) → add (add a b) (add c d) ≡ add (add a c) (add b d)
    interchange a b c d =
        sym (add_assoc (add a b) c d)
        ∙ ap (λ x. add x d) (add_right_comm exact a b c)
        ∙ add_assoc (add a c) b d

    -- what one row moves by is what is booked for it
    set_pnl-moves :
        (total : Option F) (p : Position F)
        → fee_of (set_pnl p.pnl_realized total p).pnl_realized
          ≡ add
              (fee_of p.pnl_realized)
              (add (sum (new_amount p.pnl_realized total)) (sum (correction p.pnl_realized total)))
    set_pnl-moves none p = ground (
      arith,
      add_nought_right nought,
      add_nought_right (fee_of p.pnl_realized),
      Option-cases p.pnl_realized,
    )
    set_pnl-moves (some total) p = elim (Option-cases p.pnl_realized) [
      | inl n ↦ ground (arith, add_nought_right nought, add_nought_right total, add_nought total)
      | inr (prev, n) ↦ ground (
        arith,
        add_nought_right nought,
        add_nought (sub total prev),
        add_nought_right (sub total prev),
        add_nought_right prev,
        exact.add-sub prev total,
      )
    ]

    refresh-moves :
        (os : List (Order F)) (ps : List (Position F))
        → realized (refresh os ps)
          ≡ add (realized ps) (add (sum (newly os ps)) (sum (corrected os ps)))
    unfolding refresh newly corrected
    refresh-moves os [] = ground (arith, add_nought nought)
    refresh-moves os (p ∷ ps) =
        let total = rolled_up os p in
        let a = fee_of p.pnl_realized in
        let new = new_amount p.pnl_realized total in
        let fix = correction p.pnl_realized total in
        rw
          (
            set_pnl-moves total p,
            refresh-moves os ps,
            sum-append new (newly os ps),
            sum-append fix (corrected os ps),
            interchange (sum new) (sum (newly os ps)) (sum fix) (sum (corrected os ps)),
          )
          (interchange a (add (sum new) (sum fix)) (realized ps)
            (add (sum (newly os ps)) (sum (corrected os ps))))

    book_all-adds :
        (amounts : List F) (l l' : Ledger F)
        → book_all (λ l. some l) amounts l ≡ some l'
        → (l'.book.pnl_total ≡ add l.book.pnl_total (sum amounts)) × (l'.positions ≡ l.positions)
    unfolding book_pnl
    book_all-adds [] l l' e = ground (arith, add_nought_right l.book.pnl_total)
    book_all-adds (x ∷ xs) l l' e = ground (
      arith,
      book_all-adds xs (record l { book = book_pnl x l.book }) l' e,
      add_assoc l.book.pnl_total x (sum xs),
    )

    -- Apart from the drawdown checks that it starts, a sync moves the strategy's total by what it moves the sum of
    -- its rows by: a first attribution is booked whole, and a correction by its difference.
    pub sync_position_pnl-balanced :
        (l l' : Ledger F)
        → sync_position_pnl (λ l. some l) l ≡ some l'
        → add l'.book.pnl_total (realized l.positions)
          ≡ add l.book.pnl_total (realized l'.positions)
    unfolding sync_position_pnl
    sync_position_pnl-balanced l l' e =
        let amounts = newly l.orders l.positions ++ corrected l.orders l.positions in
        let (total, rows) =
          book_all-adds amounts (record l { positions = refresh l.orders l.positions }) l' e in
        let s = sum amounts in
        rw
          (
            total,
            rows,
            refresh-moves l.orders l.positions,
            sym (sum-append (newly l.orders l.positions) (corrected l.orders l.positions)),
          )
          (add_assoc l.book.pnl_total s (realized l.positions)
            ∙ ap (add l.book.pnl_total) (add_comm s (realized l.positions)))

  set_pnl-settled :
      (total : Option F) (p : Position F)
      → ((a : F) → eq a a ≡ true)
      → (new_amount (set_pnl p.pnl_realized total p).pnl_realized total ≡ [])
        × (correction (set_pnl p.pnl_realized total p).pnl_realized total ≡ [])
  set_pnl-settled none p eq_refl = ground (arith, Option-cases p.pnl_realized)
  set_pnl-settled (some total) p eq_refl =
      ground (arith, eq_refl total, Option-cases p.pnl_realized)

  rolled_up-same :
      (os : List (Order F)) (v : Option F) (p : Position F)
      → rolled_up os (set_pnl p.pnl_realized v p) ≡ rolled_up os p
  unfolding rolled_up
  rolled_up-same os none p = refl
  rolled_up-same os (some total) p = elim (Option-cases p.pnl_realized) [
    | inl n ↦ ground (arith, n)
    | inr (prev, n) ↦ elim (Bool-cases (eq prev total)) [
      | inl same ↦ ground (arith, n, same)
      | inr other ↦ ground (arith, n, other)
    ]
  ]

  set_pnl-twice :
      (total : Option F) (p : Position F)
      → ((a : F) → eq a a ≡ true)
      → set_pnl (set_pnl p.pnl_realized total p).pnl_realized total (set_pnl p.pnl_realized total p)
        ≡ set_pnl p.pnl_realized total p
  set_pnl-twice none p eq_refl = ground (arith, Option-cases p.pnl_realized)
  set_pnl-twice (some total) p eq_refl = ground (arith, eq_refl total, Option-cases p.pnl_realized)

  -- after a refresh there is nothing to book and nothing to set
  refresh-settled :
      (os : List (Order F)) (ps : List (Position F))
      → ((a : F) → eq a a ≡ true)
      → (newly os (refresh os ps) ≡ [])
        × (corrected os (refresh os ps) ≡ [])
        × (refresh os (refresh os ps) ≡ refresh os ps)
  unfolding refresh newly corrected
  refresh-settled os [] eq_refl = (refl, refl, refl)
  refresh-settled os (p ∷ ps) eq_refl =
      let total = rolled_up os p in
      let (new, fix) = set_pnl-settled total p eq_refl in
      let (n, c, r) = refresh-settled os ps eq_refl in
      let same = rolled_up-same os total p in
      (
        ground (arith, same, new, n),
        ground (arith, same, fix, c),
        ground (arith, same, set_pnl-twice total p eq_refl, r),
      )

  book_all-rows :
      (amounts : List F) (l l' : Ledger F)
      → book_all (λ l. some l) amounts l ≡ some l'
      → (l'.positions ≡ l.positions) × (l'.orders ≡ l.orders)
  book_all-rows [] l l' e = ground arith
  book_all-rows (x ∷ xs) l l' e =
      ground (arith, book_all-rows xs (record l { book = book_pnl x l.book }) l' e)

  -- A sync is idempotent, apart from the drawdown checks: a second one books nothing and sets nothing.
  pub sync_position_pnl-idempotent :
      (l l' : Ledger F)
      → ((a : F) → eq a a ≡ true)
      → sync_position_pnl (λ l. some l) l ≡ some l'
      → sync_position_pnl (λ l. some l) l' ≡ some l'
  unfolding sync_position_pnl
  sync_position_pnl-idempotent l l' eq_refl e =
      let amounts = newly l.orders l.positions ++ corrected l.orders l.positions in
      let (rows, orders) =
        book_all-rows amounts (record l { positions = refresh l.orders l.positions }) l' e in
      let (n, c, r) = refresh-settled l.orders l.positions eq_refl in
      ground (arith, rows, orders, n, c, r)
