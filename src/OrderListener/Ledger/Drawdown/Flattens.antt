-- ===== src/OrderListener/Ledger/Drawdown/Flattens.antt =====
-- A drawdown that is hit flattens the strategy, where the exchange carries the closes out.
use matp.Base.{
  ℕ, suc, true, false, ◌≡◌, refl, sym, ap, ◌∙◌, inl, inr, Option, none, some, List, [], ◌∷◌, All,
  Option-cases, arith,
}
use matp.Base.Text.{Text, text_eq_iff}
use matp.Base.Num.{Num, IsOrdered}
use matp.Base.Order.{le_refl}
use matp.Base.Result.{ok}
use matp.OrderListener.GuaranteedStop.{PositionSide}
use matp.OrderListener.Ledger.{
  Position, Ledger, flatten_on_disable, find_leg, edit_open, open_count,
}
use matp.OrderListener.Ledger.Legs.{
  IsLedger, Keeps, close_row-Keeps, resized-Keeps, commit_close-IsLedger,
}
use matp.OrderListener.Ledger.Moves.{same_side_iff, find_leg-edit}
use matp.OrderListener.Ledger.Booking.{drawdown_hit, disabled}
use matp.OrderListener.Ledger.Closing.{
  CloseRequest, Exchange, CloseOutcome, Plan, closes_all, closing_id, requested_size, answer_for,
  made_plan, plan_for, plan_found, plan_close, close_row, reduce_row, commit_close,
}
use matp.OrderListener.Ledger.Closing.Writes.{commit_close-IsWritten}
use matp.OrderListener.Ledger.Drawdown.{
  Leg, open_legs, close_request, carry_out, close_with, flatten_with, settle,
}
use matp.OrderListener.Ledger.Drawdown.Ends.{flatten_with-Ends, settle-ends}
use matp.OrderListener.Ledger.Drawdown.Kept.{
  IsKept, Keeper, close_with-keeps, flatten_with-keeps, settle-keeps, finish_with-keeps,
}

module _ {F : Type 0} where
  edit-shut :
      (i : ℕ) (f : Position F → Position F) (s : Text) (d : PositionSide) (ps : List (Position F))
      → Keeps f
      → find_leg s d ps ≡ none
      → find_leg s d (edit_open i f ps) ≡ none
  edit-shut i f s d [] k h = refl
  edit-shut i f s d (p ∷ ps) k h =
      ground (arith, k.symbol p, k.side p, k.opens p, edit-shut i f s d ps k)

  -- the legs are closed in the rows
  abbrev Shut : List (Position F) → Leg → Type 0
  Shut ps leg = find_leg leg.symbol leg.side ps ≡ none

  listed-Shut :
      (s : Text) (d : PositionSide) (ps ps' : List (Position F)) (p : Position F)
      → All (Shut ps') (open_legs ps)
      → find_leg s d ps ≡ some p
      → find_leg s d ps' ≡ none
  listed-Shut s d [] ps' p all h = absurd (ground arith)
  listed-Shut s d (q ∷ qs) ps' p all h =
      ground (arith, text_eq_iff q.symbol s, same_side_iff q.side d, listed-Shut s d qs ps' p)

  none_open :
      (ps : List (Position F))
      → ((s : Text) (d : PositionSide) → find_leg s d ps ≡ none)
      → open_count ps ≡ 0
  none_open [] h = refl
  none_open (p ∷ ps) h =
      let rest = none_open ps (λ s d. ground (arith, h s d)) in
      ground
        (arith, h p.symbol p.side, text_eq_iff p.symbol p.symbol, same_side_iff p.side p.side, rest)

module _ {F : Type 0} ⦃num : Num F⦄ where
  -- A closed leg stays closed.
  pub record StaysShut (l l' : Ledger F) : Type 0 where
    pub kept : IsLedger l → IsLedger l'
    pub shut :
        (s : Text) (d : PositionSide)
        → find_leg s d l.positions ≡ none
        → find_leg s d l'.positions ≡ none

  pub StaysShut-IsKept : (exchange : Exchange F) → IsKept exchange (λ req. Unit) StaysShut
  StaysShut-IsKept exchange = record {
    flattens = λ leg. tt;
    trans = λ l m n p q. record {
      kept = λ h. q.kept (p.kept h);
      shut = λ s d h. q.shut s d (p.shut s d h);
    };
    same = λ l l' rows next. record {
      kept = λ h. ground (arith, h.distinct_rows, h.ids_given);
      shut = λ s d h. rw rows h;
    };
    commit = λ req l plan kind here. record {
      kept = λ h. commit_close-IsLedger exchange req plan l h;
      shut = λ s d h.
          let w = commit_close-IsWritten exchange req plan l in
          let order = closing_id req l in
          ground (
            arith,
            w.positions,
            edit-shut plan.pos.id (close_row req plan order) s d l.positions
                (close_row-Keeps req plan order) h,
            edit-shut plan.pos.id (reduce_row plan) s d l.positions
                (resized-Keeps (λ p. num.sub p.size plan.size) (λ p. p.entry_price)) h,
          );
    };
  }

  module _ (order : IsOrdered F) (exchange : Exchange F) where
    -- the exchange carries every full close out
    abbrev pub Obeys : Type 0
    Obeys =
        (l : Ledger F) (s : Text) (d : PositionSide)
        → (exchange.close_position l s d none).success ≡ true

    -- a close of the whole leg, by the exchange
    pub record IsWhole (req : CloseRequest F) : Type 0 where
      pub sized : req.close_size ≡ none
      pub sent : req.skip_exchange ≡ false

    plan_for-full :
        (req : CloseRequest F) (l : Ledger F) (p : Position F)
        → Obeys
        → IsWhole req
        → (plan : Plan F) × (plan_for exchange req l p ≡ ok plan)
          × (plan.pos ≡ p)
          × (plan.is_full ≡ true)
    unfolding plan_for answer_for requested_size
    plan_for-full req l p obeys whole =
        let full : closes_all req p ≡ true = rw (whole.sized) (le_refl order p.size) in
        (
          made_plan exchange req l p (answer_for exchange req l p),
          ground (arith, full, whole.sent, obeys l req.symbol req.side),
          refl,
          full,
        )

    full-Shut :
        (req : CloseRequest F) (l : Ledger F) (plan : Plan F)
        → IsLedger l
        → find_leg req.symbol req.side l.positions ≡ some plan.pos
        → plan.is_full ≡ true
        → find_leg req.symbol req.side (commit_close exchange req plan l).1.positions ≡ none
    full-Shut req l plan h found full =
        let w = commit_close-IsWritten exchange req plan l in
        let f = close_row req plan (closing_id req l) in
        ground (
          arith,
          w.positions,
          text_eq_iff req.symbol req.symbol,
          same_side_iff req.side req.side,
          find_leg-edit req.symbol req.side f l.positions plan.pos req.symbol req.side
              (close_row-Keeps req plan (closing_id req l)) h.distinct_rows found,
        )

    found-Shut :
        (check : Ledger F → Option (Ledger F)) (req : CloseRequest F) (l : Ledger F)
        (found : Option (Position F)) (o : CloseOutcome) (l' : Ledger F)
        → Obeys
        → IsWhole req
        → Keeper StaysShut check
        → IsLedger l
        → find_leg req.symbol req.side l.positions ≡ found
        → carry_out check exchange req l (plan_found exchange req l found) ≡ some (o, l')
        → find_leg req.symbol req.side l'.positions ≡ none
    found-Shut check req l none o l' obeys whole keeper h here e = ground arith
    found-Shut check req l (some p) o l' obeys whole keeper h here e =
        let (plan, made, same, full) = plan_for-full req l p obeys whole in
        let done = rw made at e in
        let (outcome, m) = commit_close exchange req plan l in
        let stays =
          finish_with-keeps exchange StaysShut (StaysShut-IsKept exchange) check plan outcome o m l'
            keeper done in
        stays.shut req.symbol req.side (full-Shut req l plan h (here ∙ ap some (sym same)) full)

    -- a close of the whole leg leaves it shut
    pub close_with-Shut :
        (check : Ledger F → Option (Ledger F)) (req : CloseRequest F) (l : Ledger F)
        (o : CloseOutcome) (l' : Ledger F)
        → Obeys
        → IsWhole req
        → Keeper StaysShut check
        → IsLedger l
        → close_with check exchange req l ≡ some (o, l')
        → find_leg req.symbol req.side l'.positions ≡ none
    unfolding close_with plan_close
    close_with-Shut check req l o l' obeys whole keeper h e =
        found-Shut check req l (find_leg req.symbol req.side l.positions) o l' obeys whole keeper h
          refl e

    flatten_with-Shut :
        (check : Ledger F → Option (Ledger F)) (legs : List Leg) (l l' : Ledger F)
        → Obeys
        → Keeper StaysShut check
        → IsLedger l
        → flatten_with check exchange legs l ≡ some l'
        → All (Shut l'.positions) legs
    unfolding flatten_with
    flatten_with-Shut check [] l l' obeys keeper h e = tt
    flatten_with-Shut check (leg ∷ legs) l l' obeys keeper h e =
        let req = close_request leg flatten_on_disable in
        let law = StaysShut-IsKept exchange in
        elim (Option-cases (close_with check exchange req l)) [
          | inl stuck ↦ absurd (ground arith)
          | inr (r, one) ↦
              (let first =
                  close_with-keeps exchange StaysShut law check req l r.0 r.1 tt keeper one in
                let rest : flatten_with check exchange legs r.1 ≡ some l' = ground arith in
                let later =
                  flatten_with-keeps exchange StaysShut law check legs r.1 l' keeper rest in
                (
                  later.shut leg.symbol leg.side (
                      close_with-Shut check req l r.0 r.1 obeys
                        (record { sized = refl; sent = refl }) keeper h one),
                  flatten_with-Shut check legs r.1 l' obeys keeper (first.kept h) rest,
                ))
        ]

    -- A strategy that has hit its drawdown ends with no open leg, and disabled, with the drawdown as the
    -- reason, where the exchange carries every full close out: the legs that were read first, and those
    -- that the closes reach before their turn.
    pub settle-flattens :
        (l : Ledger F)
        → Obeys
        → IsLedger l
        → drawdown_hit l.book ≡ true
        → (l' : Ledger F) × (settle (suc (open_count l.positions)) exchange l ≡ some l')
          × (open_count l'.positions ≡ 0)
          × (l'.book.enabled ≡ false)
          × (l'.book.stopped_by_drawdown ≡ true)
    unfolding settle
    settle-flattens l obeys h hit =
        let n = open_count l.positions in
        let check : Ledger F → Option (Ledger F) = λ m. settle n exchange m in
        let legs = open_legs l.positions in
        let law = StaysShut-IsKept exchange in
        let (m, flat, le) =
          flatten_with-Ends check n exchange legs l (settle-ends n exchange) (omega arith) in
        let keeper = settle-keeps exchange StaysShut law n in
        let all = flatten_with-Shut check legs l m obeys keeper h flat in
        let stays = flatten_with-keeps exchange StaysShut law check legs l m keeper flat in
        (
          record m { book = disabled m.book },
          ground arith,
          none_open m.positions (λ s d. elim (Option-cases (find_leg s d l.positions)) [
            | inl gone ↦ stays.shut s d gone
            | inr (p, live) ↦ listed-Shut s d l.positions m.positions p all live
          ]),
          refl,
          refl,
        )
