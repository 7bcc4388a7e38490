-- ===== src/OrderListener/Ledger/Filling/Sizes.antt =====
-- Which leg a fill reaches.
use matp.Base.{false, ◌≡◌, refl, Option, none, some, ◌∷◌, if◌then◌else◌, Option-cases, arith}
use matp.Base.Text.{Text, text_eq}
use matp.OrderListener.GuaranteedStop.{PositionSide}
use matp.Base.Num.{Num}
use matp.Base.Result.{err, ok}
use matp.OrderListener.Ledger.{Position, Ledger, find_leg, edit_open}
use matp.OrderListener.Ledger.Legs.{IsLedger, resized-Keeps}
use matp.OrderListener.Ledger.Moves.{same_leg, leg_size, size_in, find_leg-edit, find_leg-is_leg}
use matp.OrderListener.Ledger.Filling.{
  Fill, pos_side, fill_size, created, grown, blended, create_position, top_up, fill_leg,
  apply_position_fill,
}
use matp.OrderListener.Ledger.Closing.{CloseRequest, Exchange, no_position_to_close, plan_close}

module _ {F : Type 0} ⦃num : Num F⦄ where
  open num use {add}

  -- the size of a leg after a fill, from its size before and the one of the traded leg before
  abbrev pub filled_view : Fill F → Option F → Option F → Text → PositionSide → Option F
  filled_view f (some n) before s d =
      if same_leg f.pos_symbol (pos_side f.side) s d then some (add n (fill_size f)) else before
  filled_view f none before s d =
      if same_leg f.payload_symbol (pos_side f.side) s d then some (fill_size f) else before

  create_position-size :
      (f : Fill F) (l l' : Ledger F) (s : Text) (d : PositionSide)
      → create_position f l ≡ ok l'
      → leg_size l' s d ≡ filled_view f none (leg_size l s d) s d
  unfolding create_position leg_size
  create_position-size f l l' s d e =
      let rows : l'.positions ≡ created f l.next_position ∷ l.positions = ground arith in
      rw rows (ground arith)

  top_up-size :
      (f : Fill F) (p : Position F) (l l' : Ledger F) (s : Text) (d : PositionSide)
      → IsLedger l
      → find_leg f.pos_symbol (pos_side f.side) l.positions ≡ some p
      → top_up f p l ≡ ok l'
      → leg_size l' s d ≡ filled_view f (some p.size) (leg_size l s d) s d
  unfolding top_up leg_size
  top_up-size f p l l' s d h found e =
      let t = f.pos_symbol in
      let side = pos_side f.side in
      let rows : l'.positions ≡ edit_open p.id (grown p f) l.positions = ground arith in
      let k = resized-Keeps (λ _. add p.size (fill_size f)) (λ _. blended p f) in
      rw rows (
        ground (
          arith,
          find_leg-is_leg t side l.positions p found,
          find_leg-edit t side (grown p f) l.positions p s d k h.distinct_rows found,
        ))

  fill_leg-size :
      (f : Fill F) (l l' : Ledger F) (s : Text) (d : PositionSide) (found : Option (Position F))
      → IsLedger l
      → find_leg f.pos_symbol (pos_side f.side) l.positions ≡ found
      → fill_leg f l found ≡ ok l'
      → leg_size l' s d ≡ filled_view f (size_in found) (leg_size l s d) s d
  fill_leg-size f l l' s d none h here e = create_position-size f l l' s d e
  fill_leg-size f l l' s d (some p) h here e = top_up-size f p l l' s d h here e

  -- In a ledger of distinct rows a fill that is recorded adds its size to the leg that was traded, where that is
  -- open. Where it is not, it opens the leg of the payload's own symbol with its size. Every other leg keeps its size.
  pub apply_position_fill-size :
      (f : Fill F) (l l' : Ledger F) (s : Text) (d : PositionSide)
      → IsLedger l
      → apply_position_fill f l ≡ ok l'
      → leg_size l' s d
        ≡ filled_view f (leg_size l f.pos_symbol (pos_side f.side)) (leg_size l s d) s d
  unfolding apply_position_fill leg_size
  apply_position_fill-size f l l' s d h e =
      fill_leg-size f l l' s d (find_leg f.pos_symbol (pos_side f.side) l.positions) h refl e

  -- After a fill for a payload whose symbol is not the traded one, into no open leg, every close of the traded leg
  -- is told that there is no position.
  pub apply_position_fill-stray :
      (f : Fill F) (l l' : Ledger F) (exchange : Exchange F) (req : CloseRequest F)
      → IsLedger l
      → leg_size l f.pos_symbol (pos_side f.side) ≡ none
      → text_eq f.payload_symbol f.pos_symbol ≡ false
      → apply_position_fill f l ≡ ok l'
      → req.symbol ≡ f.pos_symbol
      → req.side ≡ pos_side f.side
      → plan_close exchange req l' ≡ err no_position_to_close
  unfolding plan_close leg_size
  apply_position_fill-stray f l l' exchange req h absent other e s d =
      let after = apply_position_fill-size f l l' f.pos_symbol (pos_side f.side) h e in
      let gone : find_leg f.pos_symbol (pos_side f.side) l'.positions ≡ none = ground (
        arith,
        after,
        absent,
        other,
        Option-cases (find_leg f.pos_symbol (pos_side f.side) l'.positions),
      ) in
      rw (s, d, gone) refl
