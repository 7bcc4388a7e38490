-- ===== src/OrderListener/Process/Flattens.antt =====
-- What a flat leaves open.
use matp.Base.{
  ℕ, suc, true, ◌||◌, ◌≡◌, refl, inl, inr, Option, none, some, List, [], ◌∷◌, All, any,
  Option-cases, Bool-cases, arith,
}
use matp.Base.Text.{Text}
use matp.Base.Num.{Num, IsOrdered}
use matp.OrderListener.GuaranteedStop.{PositionSide}
use matp.OrderListener.Webhook.{Accepted, opens, side_of}
use matp.OrderListener.Ledger.{Ledger, open_count, find_leg, signal_flat, same_side}
use matp.OrderListener.Ledger.Legs.{IsLedger}
use matp.OrderListener.Ledger.Moves.{same_side_iff}
use matp.OrderListener.Ledger.Closing.{Exchange, CloseRequest}
use matp.OrderListener.Ledger.Drawdown.{close_with, settle}
use matp.OrderListener.Ledger.Drawdown.Kept.{Keeper, close_with-keeps, settle-keeps}
use matp.OrderListener.Ledger.Drawdown.Flattens.{
  StaysShut, StaysShut-IsKept, Obeys, close_with-Shut,
}
use matp.OrderListener.Process.{OrderStatus, Desk, Figures, no_figures, update_order_status}
use matp.OrderListener.Process.Flat.{
  LegResult, worst, signal_request, flat_legs, close_legs, report_flat, process_flat,
}
use matp.OrderListener.Process.Outcomes.{flat_legs-any}
use matp.OrderListener.Process.Causes.{process_flat-Reaches}

any-All :
    (P : PositionSide → Type 0) (d : PositionSide) (sides : List PositionSide)
    → All P sides
    → any (same_side d) sides ≡ true
    → P d
any-All P d [] all h = absurd (ground arith)
any-All P d (s ∷ ss) all h = elim (Bool-cases (same_side d s)) [
  | inl same ↦ rw ((same_side_iff d s).0 same) all.0
  | inr other ↦ any-All P d ss all.1 (ground arith)
]

module _ {F : Type 0} ⦃num : Num F⦄ where
  update-positions :
      (i : ℕ) (r : Figures F) (l : Ledger F) → (update_order_status i r l).positions ≡ l.positions
  unfolding update_order_status
  update-positions i r l = refl

  report_flat-positions :
      (i : ℕ) (rs : List (LegResult F)) (l : Ledger F)
      → (report_flat i rs l).1.positions ≡ l.positions
  report_flat-positions i [] l = update-positions i no_figures l
  report_flat-positions i (r ∷ rs) l = update-positions i (worst r rs).figures l

  module _ (order : IsOrdered F) (exchange : Exchange F) (obeys : Obeys order exchange)
      (check : Ledger F → Option (Ledger F)) (keeper : Keeper StaysShut check) (symbol : Text)
      (i : ℕ) where
    close_legs-Shut :
        (sides : List PositionSide) (l : Ledger F) (rs : List (LegResult F)) (l' : Ledger F)
        → IsLedger l
        → close_legs check exchange symbol i sides l ≡ some (rs, l')
        → StaysShut l l' × All (λ d. find_leg symbol d l'.positions ≡ none) sides
    unfolding close_legs
    close_legs-Shut [] l rs l' h e =
        let same : l ≡ l' = ground arith in
        rw (← same) (record { kept = λ k. k; shut = λ s d k. k }, tt)
    close_legs-Shut (side ∷ sides) l rs l' h e =
        let law = StaysShut-IsKept exchange in
        let req : CloseRequest F = signal_request symbol side none i signal_flat in
        elim (Option-cases (close_with check exchange req l)) [
          | inl stuck ↦ absurd (ground arith)
          | inr (r, one) ↦ elim (Option-cases (close_legs check exchange symbol i sides r.1)) [
            | inl stuck ↦ absurd (ground arith)
            | inr (rest, more) ↦
                (let more' : close_legs check exchange symbol i sides r.1 ≡ some (rest.0, l') =
                    ground arith in
                  let first =
                    close_with-keeps exchange StaysShut law check req l r.0 r.1 tt keeper one in
                  let shut =
                    close_with-Shut order exchange check req l r.0 r.1 obeys
                      (record { sized = refl; sent = refl }) keeper h one in
                  let (later, all) = close_legs-Shut sides r.1 rest.0 l' (first.kept h) more' in
                  (law.trans l r.1 l' first later, (later.shut symbol side shut, all)))
          ]
        ]

  -- A flat comes to an end, and then no leg of the symbol is open on any side that its signal is about: the flat of an
  -- entry is about both sides, and that of a closing signal about its own alone. The exchange is to carry every
  -- full close out, and the rows are to be distinct.
  pub process_flat-shuts :
      (order : IsOrdered F) (desk : Desk F) (i : ℕ) (a : Accepted F) (l : Ledger F)
      (side : PositionSide)
      → Obeys order desk.exchange
      → IsLedger l
      → opens a.payload.signal || same_side (side_of a.payload.signal) side ≡ true
      → (r : OrderStatus × Ledger F) × (process_flat desk i a l ≡ some r)
        × (find_leg a.execution_symbol side r.1.positions ≡ none)
  unfolding process_flat
  process_flat-shuts order desk i a l side obeys h about =
      let n = open_count l.positions in
      let check : Ledger F → Option (Ledger F) = λ m. settle (suc n) desk.exchange m in
      let law = StaysShut-IsKept desk.exchange in
      let sides = flat_legs a.payload.signal a.execution_symbol l.positions in
      let (end, done, follows) = process_flat-Reaches order desk i a l in
      elim (Option-cases (close_legs check desk.exchange a.execution_symbol i sides l)) [
        | inl stuck ↦ absurd (ground arith)
        | inr (r, e) ↦
            (let (stays, all) =
                close_legs-Shut order desk.exchange obeys check
                  (settle-keeps desk.exchange StaysShut law (suc n)) a.execution_symbol i sides l
                  r.0 r.1 h e in
              let shut : find_leg a.execution_symbol side r.1.positions ≡ none =
                elim (Option-cases (find_leg a.execution_symbol side l.positions)) [
                  | inl gone ↦ stays.shut a.execution_symbol side gone
                  | inr (p, live) ↦
                      any-All (λ d. find_leg a.execution_symbol d r.1.positions ≡ none) side sides
                        all
                        (ground (
                          arith,
                          flat_legs-any a.payload.signal a.execution_symbol side l.positions,
                        ))
                ] in
              (report_flat i r.0 r.1, ground arith, rw (report_flat-positions i r.0 r.1) shut))
      ]
