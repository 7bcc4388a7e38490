-- ===== src/OrderListener/Ledger/Legs.antt =====
-- The invariant of the ledger's positions: no two rows have one id, and no two open rows are one leg.
use matp.Base.{
  ℕ, suc, Bool, true, false, not, ◌&&◌, ◌≡◌, refl, inl, inr, Option, none, some, List, [], ◌∷◌,
  ◌==◌, ltb, is_some, Bool-cases, arith,
}
use matp.Base.Text.{text_eq_iff}
use matp.Base.Num.{Num}
use matp.Base.Result.{ok}
use matp.OrderListener.GuaranteedStop.{PositionSide, long, short}
use matp.OrderListener.Ledger.{Position, Ledger, same_side, is_leg, find_leg, edit_open}
use matp.OrderListener.Ledger.Filling.{
  Fill, pos_side, fill_size, created, grown, blended, fill_leg, create_position, top_up,
  apply_position_fill,
}
use matp.OrderListener.Ledger.Closing.{
  CloseRequest, Exchange, Plan, closing_id, close_row, reduce_row, commit_close,
}
use matp.OrderListener.Ledger.Closing.Writes.{commit_close-IsWritten}

pub same_side-sym : (a b : PositionSide) → same_side a b ≡ same_side b a
same_side-sym long long = refl
same_side-sym long short = refl
same_side-sym short long = refl
same_side-sym short short = refl

module _ {F : Type 0} where
  -- two rows have different ids, and are not both open for one leg
  abbrev pub apart : Position F → Position F → Bool
  apart p q = not (p.id == q.id) && not (q.is_open && is_leg q.symbol q.side p)

  abbrev pub all_apart : Position F → List (Position F) → Bool
  all_apart p [] = true
  all_apart p (q ∷ qs) = apart p q && all_apart p qs

  abbrev pub distinct : List (Position F) → Bool
  distinct [] = true
  distinct (p ∷ ps) = all_apart p ps && distinct ps

  abbrev pub ids_below : ℕ → List (Position F) → Bool
  ids_below n [] = true
  ids_below n (p ∷ ps) = ltb p.id n && ids_below n ps

  pub record IsLedger (l : Ledger F) : Type 0 where
    pub distinct_rows : distinct l.positions ≡ true
    pub ids_given : ids_below l.next_position l.positions ≡ true

  -- an edit that keeps the row's id and leg, and opens no row
  pub record Keeps (f : Position F → Position F) : Type 0 where
    pub id : (p : Position F) → (f p).id ≡ p.id
    pub symbol : (p : Position F) → (f p).symbol ≡ p.symbol
    pub side : (p : Position F) → (f p).side ≡ p.side
    pub opens : (p : Position F) → (f p).is_open ≡ (f p).is_open && p.is_open

  apart-left :
      (f : Position F → Position F) (p q : Position F)
      → Keeps f
      → apart p q ≡ true
      → apart (f p) q ≡ true
  apart-left f p q k h = ground (arith, k.id p, k.symbol p, k.side p, k.opens p)

  apart-right :
      (f : Position F → Position F) (p q : Position F)
      → Keeps f
      → apart p q ≡ true
      → apart p (f q) ≡ true
  apart-right f p q k h = ground (arith, k.id q, k.symbol q, k.side q, k.opens q)

  all_apart-left :
      (f : Position F → Position F) (p : Position F) (qs : List (Position F))
      → Keeps f
      → all_apart p qs ≡ true
      → all_apart (f p) qs ≡ true
  all_apart-left f p [] k h = refl
  all_apart-left f p (q ∷ qs) k h = ground (arith, apart-left f p q k, all_apart-left f p qs k)

  all_apart-edit :
      (i : ℕ) (f : Position F → Position F) (p : Position F) (qs : List (Position F))
      → Keeps f
      → all_apart p qs ≡ true
      → all_apart p (edit_open i f qs) ≡ true
  all_apart-edit i f p [] k h = refl
  all_apart-edit i f p (q ∷ qs) k h = ground (arith, apart-right f p q k, all_apart-edit i f p qs k)

  pub distinct-edit :
      (i : ℕ) (f : Position F → Position F) (ps : List (Position F))
      → Keeps f
      → distinct ps ≡ true
      → distinct (edit_open i f ps) ≡ true
  distinct-edit i f [] k h = refl
  distinct-edit i f (p ∷ ps) k h = ground (
    arith,
    all_apart-edit i f p ps k,
    all_apart-left f p (edit_open i f ps) k,
    distinct-edit i f ps k,
  )

  ids_below-edit :
      (i n : ℕ) (f : Position F → Position F) (ps : List (Position F))
      → Keeps f
      → ids_below n ps ≡ true
      → ids_below n (edit_open i f ps) ≡ true
  ids_below-edit i n f [] k h = refl
  ids_below-edit i n f (p ∷ ps) k h = ground (arith, k.id p, ids_below-edit i n f ps k)

  ids_below-suc :
      (n : ℕ) (ps : List (Position F)) → ids_below n ps ≡ true → ids_below (suc n) ps ≡ true
  ids_below-suc n [] h = refl
  ids_below-suc n (p ∷ ps) h = ground (arith, ids_below-suc n ps)

  -- a row with a new id, for a leg that is not open
  all_apart-new :
      (p : Position F) (ps : List (Position F))
      → ids_below p.id ps ≡ true
      → is_some (find_leg p.symbol p.side ps) ≡ false
      → all_apart p ps ≡ true
  all_apart-new p [] below absent = refl
  all_apart-new p (q ∷ qs) below absent = ground (
    arith,
    all_apart-new p qs,
    text_eq_iff p.symbol q.symbol,
    text_eq_iff q.symbol p.symbol,
    same_side-sym p.side q.side,
  )

module _ {F : Type 0} ⦃num : Num F⦄ where
  open num use {add}

  pub close_row-Keeps :
      (req : CloseRequest F) (plan : Plan F) (order : ℕ) → Keeps (close_row req plan order)
  close_row-Keeps req plan order = record {
    id = λ p. refl;
    symbol = λ p. refl;
    side = λ p. refl;
    opens = λ p. refl;
  }

  pub resized-Keeps :
      (size : Position F → F) (entry : Position F → F)
      → Keeps (λ p. record p { size = size p; entry_price = entry p })
  resized-Keeps size entry = record {
    id = λ p. refl;
    symbol = λ p. refl;
    side = λ p. refl;
    opens = λ p. ground arith;
  }

  edit-IsLedger :
      (i : ℕ) (f : Position F → Position F) (l l' : Ledger F)
      → Keeps f
      → l'.positions ≡ edit_open i f l.positions
      → l'.next_position ≡ l.next_position
      → IsLedger l
      → IsLedger l'
  edit-IsLedger i f l l' k same next h = record {
    distinct_rows = ground (arith, distinct-edit i f l.positions k h.distinct_rows);
    ids_given = ground (arith, ids_below-edit i l.next_position f l.positions k h.ids_given);
  }

  pub commit_close-IsLedger :
      (exchange : Exchange F) (req : CloseRequest F) (plan : Plan F) (l : Ledger F)
      → IsLedger l
      → IsLedger (commit_close exchange req plan l).1
  commit_close-IsLedger exchange req plan l h =
      let w = commit_close-IsWritten exchange req plan l in
      let l' = (commit_close exchange req plan l).1 in
      let i = plan.pos.id in
      let order = closing_id req l in
      elim (Bool-cases plan.is_full) [
        | inl full ↦
            edit-IsLedger i (close_row req plan order) l l' (close_row-Keeps req plan order)
              (ground (arith, w.positions)) w.next_position h
        | inr part ↦
            edit-IsLedger i (reduce_row plan) l l'
              (resized-Keeps (λ p. num.sub p.size plan.size) (λ p. p.entry_price))
              (ground (arith, w.positions)) w.next_position h
      ]

  create_position-IsLedger :
      (f : Fill F) (l l' : Ledger F) → create_position f l ≡ ok l' → IsLedger l → IsLedger l'
  unfolding create_position
  create_position-IsLedger f l l' e h =
      let n = l.next_position in
      ground (
        arith,
        all_apart-new (created f n) l.positions h.ids_given,
        ids_below-suc n l.positions h.ids_given,
        h.distinct_rows,
      )

  top_up-IsLedger :
      (f : Fill F) (p : Position F) (l l' : Ledger F)
      → top_up f p l ≡ ok l'
      → IsLedger l
      → IsLedger l'
  unfolding top_up
  top_up-IsLedger f p l l' e h =
      edit-IsLedger p.id (grown p f) l l'
        (resized-Keeps (λ _. add p.size (fill_size f)) (λ _. blended p f)) (ground arith)
        (ground arith) h

  fill_leg-IsLedger :
      (f : Fill F) (l l' : Ledger F) (found : Option (Position F))
      → fill_leg f l found ≡ ok l'
      → IsLedger l
      → IsLedger l'
  fill_leg-IsLedger f l l' none e h = create_position-IsLedger f l l' e h
  fill_leg-IsLedger f l l' (some p) e h = top_up-IsLedger f p l l' e h

  -- A fill keeps the invariant: no leg is opened twice, whichever symbol the row takes.
  pub apply_position_fill-IsLedger :
      (f : Fill F) (l l' : Ledger F) → apply_position_fill f l ≡ ok l' → IsLedger l → IsLedger l'
  unfolding apply_position_fill
  apply_position_fill-IsLedger f l l' e h =
      fill_leg-IsLedger f l l' (find_leg f.pos_symbol (pos_side f.side) l.positions) e h
