-- ===== src/OrderListener/Manual/Picks.antt =====
-- Which position an adjustment of stops is about, and which levels its opening order takes.
use matp.Base.{
  ◌⊎◌, ◌++◌, [], none, All, ap, refl, Bool-cases, ℕ, true, false, ◌≡◌, inl, inr, Option, some, List,
  [], ◌∷◌, Option-cases, arith,
}
use matp.OrderListener.Ledger.{Position, Order, same_side, opposite, edit_order}
use matp.OrderListener.GuaranteedStop.{PositionSide, long, short}
use matp.OrderListener.Ledger.Moves.{same_side_iff}
use matp.OrderListener.Ledger.Resize.{Resting}
use matp.OrderListener.Ledger.Resize.{tp, sl, other, Trigger}
use matp.OrderListener.Manual.{
  AskedSide, unnamed, other_text, named, is_other_text, AdjustBody, matches, pick, adopt,
  asked_levels, effective_levels, write_levels,
}

-- the side that was named, if one was
abbrev pub OfSide : AskedSide → PositionSide → Type 0
OfSide unnamed side = Unit
OfSide other_text side = ⊥
OfSide (named asked) side = side ≡ asked

other_side : (asked side : PositionSide) → same_side side asked ≡ false → side ≡ opposite asked
other_side long long h = absurd (ground arith)
other_side long short h = refl
other_side short long h = refl
other_side short short h = absurd (ground arith)

module _ {F : Type 0} where
  abbrev pub or_else : Option F → Option F → Option F
  or_else none y = y
  or_else (some x) y = some x

  -- no open position of that side
  abbrev pub Unlike : AskedSide → Position F → Type 0
  Unlike unnamed q = q.is_open ≡ false
  Unlike other_text q = Unit
  Unlike (named asked) q = (q.is_open ≡ false) ⊎ (q.side ≡ opposite asked)

  -- The row is open and of the side that was named, and every newer row is not.
  pub record IsNewest (asked : AskedSide) (ps : List (Position F)) (p : Position F) : Type 0 where
    pub newer : List (Position F)
    pub older : List (Position F)
    pub rows : ps ≡ newer ++ p ∷ older
    pub passed_over : All (Unlike asked) newer
    pub is_open : p.is_open ≡ true
    pub of_side : OfSide asked p.side

  passed_over-Unlike :
      (asked : AskedSide) (q : Position F) → matches asked q ≡ false → Unlike asked q
  passed_over-Unlike unnamed q h = h
  passed_over-Unlike other_text q h = tt
  passed_over-Unlike (named side) q h = elim (Bool-cases q.is_open) [
    | inr shut ↦ inl shut
    | inl live ↦ inr (other_side side q.side (ground arith))
  ]

  picked-OfSide :
      (asked : AskedSide) (q : Position F)
      → is_other_text asked ≡ false
      → matches asked q ≡ true
      → (q.is_open ≡ true) × OfSide asked q.side
  picked-OfSide unnamed q k h = (h, tt)
  picked-OfSide other_text q k h = absurd (ground arith)
  picked-OfSide (named side) q k h = ground (arith, same_side_iff q.side side)

  pub pick-IsNewest :
      (asked : AskedSide) (ps : List (Position F)) (p : Position F)
      → is_other_text asked ≡ false
      → pick asked ps ≡ some p
      → IsNewest asked ps p
  pick-IsNewest asked [] p k h = absurd (ground arith)
  pick-IsNewest asked (q ∷ qs) p k h = elim (Bool-cases (matches asked q)) [
    | inl hit ↦
        (let same : q ≡ p = ground arith in
          let (live, side) = picked-OfSide asked p k (rw same at hit) in
          record {
            newer = [];
            older = qs;
            rows = ap (λ r. r ∷ qs) same;
            passed_over = tt;
            is_open = live;
            of_side = side;
          })
    | inr miss ↦
        (let rest = pick-IsNewest asked qs p k (ground arith) in
          record {
            newer = q ∷ rest.newer;
            older = rest.older;
            rows = ap (λ r. q ∷ r) rest.rows;
            passed_over = (passed_over-Unlike asked q miss, rest.passed_over);
            is_open = rest.is_open;
            of_side = rest.of_side;
          })
  ]

  -- the first price among the triggers of a target, and among those of a stop
  abbrev pub first_tp : List (Trigger F) → Option F
  first_tp [] = none
  first_tp (t ∷ ts) = elim t.kind [
    | tp ↦ or_else t.trigger_px (first_tp ts)
    | sl ↦ first_tp ts
    | other ↦ first_tp ts
  ]

  abbrev pub first_sl : List (Trigger F) → Option F
  first_sl [] = none
  first_sl (t ∷ ts) = elim t.kind [
    | sl ↦ or_else t.trigger_px (first_sl ts)
    | tp ↦ first_sl ts
    | other ↦ first_sl ts
  ]

  levels-tp :
      (ts : List (Trigger F)) (r : Resting F)
      → (effective_levels ts r).tp_price ≡ or_else r.tp_price (first_tp ts)
  unfolding effective_levels
  levels-tp [] r = ground (arith, Option-cases r.tp_price)
  levels-tp (t ∷ ts) r =
      ground (arith, levels-tp ts (adopt t r), Option-cases r.tp_price, Option-cases t.trigger_px)

  levels-sl :
      (ts : List (Trigger F)) (r : Resting F)
      → (effective_levels ts r).sl_price ≡ or_else r.sl_price (first_sl ts)
  unfolding effective_levels
  levels-sl [] r = ground (arith, Option-cases r.sl_price)
  levels-sl (t ∷ ts) r =
      ground (arith, levels-sl ts (adopt t r), Option-cases r.sl_price, Option-cases t.trigger_px)

  -- an order with the levels asked for, or else those carried forward, or else its own
  abbrev pub adjusted_order : AdjustBody F → List (Trigger F) → Order F → Order F
  adjusted_order body preserved o = record o {
    tp_price = or_else (or_else body.tp_price (first_tp preserved)) o.tp_price;
    sl_price = or_else (or_else body.sl_price (first_sl preserved)) o.sl_price;
  }

  pub write-adjusted :
      (body : AdjustBody F) (preserved : List (Trigger F)) (o : Order F)
      → write_levels (effective_levels preserved (asked_levels body)) o
        ≡ adjusted_order body preserved o
  write-adjusted body preserved o =
      let t = levels-tp preserved (asked_levels body) in
      let s = levels-sl preserved (asked_levels body) in
      ground (
        arith,
        t,
        s,
        Option-cases (or_else body.tp_price (first_tp preserved)),
        Option-cases (or_else body.sl_price (first_sl preserved)),
      )

  pub edit_order-ap :
      (i : ℕ) (f g : Order F → Order F) (os : List (Order F))
      → ((o : Order F) → f o ≡ g o)
      → edit_order i f os ≡ edit_order i g os
  edit_order-ap i f g [] h = refl
  edit_order-ap i f g (o ∷ os) h = ground (arith, h o, edit_order-ap i f g os h)
