-- ===== src/OrderListener/Ledger/Balance.antt =====
-- The strategy's booked total against the realized pnl of its positions.
use matp.Base.{
  ℕ, true, false, ◌&&◌, ◌≡◌, refl, sym, ap, ◌∙◌, inl, inr, none, some, List, [], ◌∷◌, ◌==◌, is_some,
  if◌then◌else◌, Bool-cases, Option-cases, ==_iff, arith,
}
use matp.Base.Num.{Num, nought, IsExact}
use matp.OrderListener.Ledger.{Position, Ledger, has_open, edit_open}
use matp.OrderListener.Ledger.Legs.{IsLedger, all_apart, distinct}
use matp.OrderListener.Ledger.Booking.{book_pnl}
use matp.OrderListener.Ledger.Drawdown.{finish_with}
use matp.OrderListener.Ledger.Closing.{
  CloseRequest, Exchange, CloseOutcome, filled, no_position_to_close, refused_by_exchange,
  race_condition, Plan, fee_of, closing_id, close_row, reduce_row, commit_close,
}
use matp.OrderListener.Ledger.Closing.Writes.{
  IsWritten, commit_close-IsWritten, edit_open-absent, write_row-absent,
}

module _ {F : Type 0} ⦃num : Num F⦄ where
  open num use {add, sub}

  -- the sum of `pnl_realized`
  abbrev pub realized : List (Position F) → F
  realized [] = nought
  realized (p ∷ ps) = add (fee_of p.pnl_realized) (realized ps)

  -- what the open row of an id has already realized
  abbrev pub prior : ℕ → List (Position F) → F
  prior i [] = nought
  prior i (p ∷ ps) =
      let rest = prior i ps in if p.id == i && p.is_open then fee_of p.pnl_realized else rest

  -- the strategy's row after a close
  abbrev pub booked : Plan F → CloseOutcome × Ledger F → Ledger F
  booked plan (filled true, l) = elim plan.net_pnl [
    | none ↦ l
    | some pnl ↦ record l { book = book_pnl pnl l.book }
  ]
  booked plan (outcome, l) = l

  -- what a commit adds to the total of the rows twice over
  abbrev pub overwritten : Plan F → Ledger F → F
  overwritten plan l =
      if plan.is_full && is_some plan.net_pnl then prior plan.pos.id l.positions else nought

  module _ (exact : IsExact F) where
    open exact use {add_assoc, add_comm}

    pub add_right_comm : (a b c : F) → add (add a b) c ≡ add (add a c) b
    add_right_comm a b c = add_assoc a b c ∙ ap (add a) (add_comm b c) ∙ sym (add_assoc a c b)

    swap_ends : (x t a : F) → add (add x t) a ≡ add (add a t) x
    swap_ends x t a = add_right_comm x t a ∙ ap (λ y. add y t) (add_comm x a) ∙ add_right_comm a x t

    carry : (a s r t x : F) → add s r ≡ add t x → add (add a s) r ≡ add (add a t) x
    carry a s r t x h = add_assoc a s r ∙ ap (add a) h ∙ sym (add_assoc a t x)

    all_apart-has_open :
        (p : Position F) (ps : List (Position F)) → all_apart p ps ≡ true → has_open p.id ps ≡ false
    all_apart-has_open p [] h = refl
    all_apart-has_open p (q ∷ qs) h = ground (arith, all_apart-has_open p qs)

    realized-keep :
        (i : ℕ) (f : Position F → Position F) (ps : List (Position F))
        → ((p : Position F) → (f p).pnl_realized ≡ p.pnl_realized)
        → realized (edit_open i f ps) ≡ realized ps
    realized-keep i f [] k = refl
    realized-keep i f (p ∷ ps) k = ground (arith, k p, realized-keep i f ps k)

    realized-set :
        (i : ℕ) (x : F) (f : Position F → Position F) (ps : List (Position F))
        → ((p : Position F) → (f p).pnl_realized ≡ some x)
        → distinct ps ≡ true
        → has_open i ps ≡ true
        → add (realized (edit_open i f ps)) (prior i ps) ≡ add (realized ps) x
    realized-set i x f [] k d h = absurd (ground arith)
    realized-set i x f (p ∷ ps) k d h =
        let a = fee_of p.pnl_realized in
        let rest = edit_open i f ps in
        ground (
          arith,
          k p,
          ==_iff p.id i,
          all_apart-has_open p ps,
          edit_open-absent i f ps,
          swap_ends x (realized ps) a,
          realized-set i x f ps k,
          carry a (realized rest) (prior i ps) (realized ps) x,
        )

    prior-absent : (i : ℕ) (ps : List (Position F)) → has_open i ps ≡ false → prior i ps ≡ nought
    prior-absent i [] h = refl
    prior-absent i (p ∷ ps) h = ground (arith, prior-absent i ps)

    booked-total : (t r r' x a : F) → add r' a ≡ add r x → add (add t x) r ≡ add (add t r') a
    booked-total t r r' x a h =
        add_assoc t x r ∙ ap (add t) (add_comm x r) ∙ ap (add t) (sym h) ∙ sym (add_assoc t r' a)

    unmoved : (t r : F) → add t r ≡ add (add t r) nought
    unmoved t r = sym (add_comm (add t r) nought ∙ exact.add_nought (add t r))

    abbrev Drifts : Plan F → Ledger F → CloseOutcome → Ledger F → Type 0
    Drifts plan l outcome l' =
        add (booked plan (outcome, l')).book.pnl_total (realized l.positions)
        ≡ add (add l.book.pnl_total (realized (booked plan (outcome, l')).positions))
            (overwritten plan l)

    -- nothing is booked, and no row's pnl moves
    quiet-Drifts :
        (plan : Plan F) (l : Ledger F) (outcome : CloseOutcome) (l' : Ledger F)
        → booked plan (outcome, l') ≡ l'
        → l'.book ≡ l.book
        → realized l'.positions ≡ realized l.positions
        → overwritten plan l ≡ nought
        → Drifts plan l outcome l'
    quiet-Drifts plan l outcome l' same book rows none_lost =
        rw (same, book, rows, none_lost) (unmoved l.book.pnl_total (realized l.positions))

    written-Drifts :
        (req : CloseRequest F) (plan : Plan F) (l : Ledger F) (outcome : CloseOutcome)
        (l' : Ledger F)
        → IsLedger l
        → IsWritten req plan l (outcome, l')
        → Drifts plan l outcome l'
    unfolding book_pnl
    written-Drifts req plan l outcome l' h w =
        let i = plan.pos.id in
        let order = closing_id req l in
        elim (Bool-cases (has_open i l.positions)) [
          | inr gone ↦
              quiet-Drifts plan l outcome l' (ground (arith, w.outcome)) w.book
                (ground (arith, w.positions, write_row-absent req plan order l.positions gone))
                (ground (arith, prior-absent i l.positions gone))
          | inl live ↦ elim (Bool-cases plan.is_full) [
            | inr part ↦
                quiet-Drifts plan l outcome l' (ground (arith, w.outcome)) w.book
                  (ground
                    (arith, w.positions, realized-keep i (reduce_row plan) l.positions (λ p. refl)))
                  (ground arith)
            | inl full ↦ elim (Option-cases plan.net_pnl) [
              | inl unknown ↦
                  quiet-Drifts plan l outcome l' (ground (arith, w.outcome)) w.book
                    (ground (
                      arith,
                      w.positions,
                      realized-keep i (close_row req plan order) l.positions (λ p. ground arith),
                    ))
                    (ground arith)
              | inr (x, known) ↦
                  (let f = close_row req plan order in
                    let set =
                      realized-set i x f l.positions (λ p. ground arith) h.distinct_rows live in
                    ground (
                      arith,
                      w.outcome,
                      w.positions,
                      w.book,
                      booked-total l.book.pnl_total (realized l.positions)
                          (realized (edit_open i f l.positions)) x (prior i l.positions) set,
                    ))
            ]
          ]
        ]

    finished :
        (plan : Plan F) (outcome o : CloseOutcome) (l l' : Ledger F)
        → finish_with (λ m. some m) plan (outcome, l) ≡ some (o, l')
        → l' ≡ booked plan (outcome, l)
    finished plan (filled true) o l l' e = elim (Option-cases plan.net_pnl) [
      | inl unknown ↦ ground arith
      | inr (x, known) ↦ ground arith
    ]
    finished plan (filled false) o l l' e = ground arith
    finished plan no_position_to_close o l l' e = ground arith
    finished plan refused_by_exchange o l l' e = ground arith
    finished plan race_condition o l l' e = ground arith

    -- A close that commits and books, where the drawdown check that follows a booking changes nothing, moves the strategy's
    -- total and the rows' sum alike, but for what its row had realized before: a full close with a
    -- pnl overwrites that, and the strategy's total keeps it. The commit may come after any other
    -- changes to the ledger.
    pub commit_close-drift :
        (exchange : Exchange F) (req : CloseRequest F) (plan : Plan F) (l : Ledger F)
        (o : CloseOutcome) (l' : Ledger F)
        → IsLedger l
        → finish_with (λ m. some m) plan (commit_close exchange req plan l) ≡ some (o, l')
        → add l'.book.pnl_total (realized l.positions)
          ≡ add (add l.book.pnl_total (realized l'.positions)) (overwritten plan l)
    commit_close-drift exchange req plan l o l' h e =
        let r = commit_close exchange req plan l in
        let drift =
          written-Drifts req plan l r.0 r.1 h (commit_close-IsWritten exchange req plan l) in
        rw (finished plan r.0 o r.1 l' e) drift
