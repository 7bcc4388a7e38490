-- ===== src/OrderListener/Ledger/Closing/Writes.antt =====
-- What a commit of `close_strategy_position` writes: the row of its position, and nothing else of the positions
-- or of the strategy's row.
use matp.Base.{
  ℕ, false, ◌≡◌, refl, ◌∙◌, ap, sym, inl, inr, some, List, [], ◌∷◌, if◌then◌else◌, Bool-cases,
  arith,
}
use matp.Base.Num.{Num}
use matp.OrderListener.Ledger.{Position, Ledger, has_open, edit_open, edit_order}
use matp.OrderListener.Ledger.Closing.{
  CloseRequest, Exchange, CloseOutcome, filled, race_condition, Plan, closing_id, insert_order,
  write_row, close_row, reduce_row, resize_after, commit_close,
}

module _ {F : Type 0} where
  pub edit_open-absent :
      (i : ℕ) (f : Position F → Position F) (ps : List (Position F))
      → has_open i ps ≡ false
      → edit_open i f ps ≡ ps
  edit_open-absent i f [] h = refl
  edit_open-absent i f (p ∷ ps) h = ground (arith, edit_open-absent i f ps)

module _ {F : Type 0} ⦃num : Num F⦄ where
  resize_after-positions :
      (exchange : Exchange F) (req : CloseRequest F) (plan : Plan F) (l : Ledger F)
      → ((resize_after exchange req plan l).positions ≡ l.positions)
        × ((resize_after exchange req plan l).book ≡ l.book)
        × ((resize_after exchange req plan l).next_position ≡ l.next_position)
  unfolding resize_after
  resize_after-positions exchange req plan l = ground arith

  pub insert_order-positions :
      (req : CloseRequest F) (plan : Plan F) (l : Ledger F)
      → ((insert_order req plan l).positions ≡ l.positions)
        × ((insert_order req plan l).book ≡ l.book)
        × ((insert_order req plan l).next_position ≡ l.next_position)
  insert_order-positions req plan l = ground arith

  pub write_row-absent :
      (req : CloseRequest F) (plan : Plan F) (order : ℕ) (ps : List (Position F))
      → has_open plan.pos.id ps ≡ false
      → write_row req plan order ps ≡ ps
  write_row-absent req plan order ps h = ground (
    arith,
    edit_open-absent plan.pos.id (close_row req plan order) ps h,
    edit_open-absent plan.pos.id (reduce_row plan) ps h,
  )

  -- A commit writes the position's row where it is still open, and no other; it moves neither the strategy's row nor
  -- the ids; and it reports a race exactly where the row is no longer open.
  pub record IsWritten (req : CloseRequest F) (plan : Plan F) (l : Ledger F)
      (r : CloseOutcome × Ledger F) : Type 0 where
    pub positions : r.1.positions ≡ write_row req plan (closing_id req l) l.positions
    pub book : r.1.book ≡ l.book
    pub next_position : r.1.next_position ≡ l.next_position
    pub outcome :
        r.0 ≡ (if has_open plan.pos.id l.positions then filled plan.is_full else race_condition)

  pub commit_close-IsWritten :
      (exchange : Exchange F) (req : CloseRequest F) (plan : Plan F) (l : Ledger F)
      → IsWritten req plan l (commit_close exchange req plan l)
  unfolding commit_close
  commit_close-IsWritten exchange req plan l =
      elim (Bool-cases (has_open plan.pos.id l.positions)) [
        | inl h ↦
            (let order = closing_id req l in
              let (same, book, next) = insert_order-positions req plan l in
              let (same', book', next') =
                resize_after-positions exchange req plan (record (insert_order req plan l) {
                  positions = write_row req plan order (insert_order req plan l).positions;
                  orders =
                      edit_order order (λ o. record o { closes_position = some plan.pos.id })
                        (insert_order req plan l).orders;
                }) in
              record {
                positions = rw h (same' ∙ ap (write_row req plan order) same);
                book = rw h (book' ∙ book);
                next_position = rw h (next' ∙ next);
                outcome = rw h refl;
              })
        | inr h ↦
            (let (same, book, next) = insert_order-positions req plan l in
              record {
                positions =
                    rw h (same ∙ sym (write_row-absent req plan (closing_id req l) l.positions h));
                book = rw h book;
                next_position = rw h next;
                outcome = rw h refl;
              })
      ]
