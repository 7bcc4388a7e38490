-- ===== src/OrderListener/Reconciler/Passes.antt =====
-- Rows over many passes, the newest first.
use matp.Base.{
  Option, ap, ◌∙◌, ℕ, suc, Bool, true, false, not, ◌&&◌, ◌≡◌, refl, leb, none, some, List, [], ◌∷◌,
  if◌then◌else◌, arith,
}
use matp.Base.Num.{Num}
use matp.OrderListener.Reconciler.{
  size_epsilon_abs, Tracked, Seen, unknown, live, Verdict, external_close, reduce_by, agrees,
  exceeds, act, count_miss, reconcile_row,
}

-- A pass: what the exchange answered, and the size that a partial reduction would leave.
pub record Pass (F : Type 0) : Type 0 where
  pub seen : Seen F
  pub left : Option F

-- the size of the row, and the number of passes in a row that found it short
pub record Count (F : Type 0) : Type 0 where
  pub size : F
  pub streak : ℕ

module _ {F : Type 0} ⦃num : Num F⦄ where
  abbrev pub acts : Verdict F → Bool
  acts external_close = true
  acts (reduce_by x) = true
  acts _ = false

  -- the exchange answered, and holds less than the row or nothing
  abbrev pub is_short : F → Seen F → Bool
  is_short size unknown = false
  is_short size (live x) = not (agrees size x) && not (exceeds size x)

  abbrev pub answered : Seen F → Bool
  answered unknown = false
  answered (live x) = true

  -- the exchange still holds some of the leg, so that the row is reduced and not closed
  abbrev pub is_part : Seen F → Bool
  is_part unknown = false
  is_part (live none) = false
  is_part (live (some x)) = not (num.le x size_epsilon_abs)

  abbrev is_reduction : ℕ → Count F → Pass F → Bool
  is_reduction threshold c o =
      is_short c.size o.seen && (is_part o.seen && leb threshold (suc c.streak))

  abbrev reduced : Count F → Option F → Count F
  reduced c none = record c { streak = suc c.streak }
  reduced c (some left) = record { size = left; streak = 0 }

  -- A short answer counts on, any other answer starts anew, and no answer counts for nothing. A short answer that
  -- reaches the threshold and leaves some of the leg reduces the row, and if that succeeds the count
  -- starts anew from the size that is left.
  abbrev pub counted : ℕ → Count F → Pass F → Count F
  counted threshold c o =
      if is_reduction threshold c o
      then reduced c o.left
      else if is_short c.size o.seen
      then record c { streak = suc c.streak }
      else if answered o.seen
      then record c { streak = 0 }
      else c

  -- over passes, the newest first
  abbrev pub count : ℕ → F → List (Pass F) → Count F
  count threshold size [] = record { size = size; streak = 0 }
  count threshold size (o ∷ os) = counted threshold (count threshold size os) o

  -- the row after the passes
  abbrev pub after : ℕ → Tracked F → List (Pass F) → Tracked F
  after threshold r [] = r
  after threshold r (o ∷ os) =
      let before = after threshold r os in (reconcile_row threshold before o.seen o.left).1

  abbrev counts : Tracked F → Count F
  counts r = record { size = r.size; streak = r.miss_count }

  row-counts :
      (n : ℕ) (r : Tracked F) (seen : Seen F) (left : Option F)
      → counts (reconcile_row n r seen left).1
        ≡ counted n (counts r) (record { seen = seen; left = left })
  unfolding reconcile_row count_miss act
  row-counts n r unknown left = refl
  row-counts n r (live none) left = ground arith
  row-counts n r (live (some x)) none = ground arith
  row-counts n r (live (some x)) (some left) = ground arith

  row-acts :
      (n : ℕ) (r : Tracked F) (o : Seen F) (left : Option F)
      → acts (reconcile_row n r o left).0 ≡ is_short r.size o && leb n (suc r.miss_count)
  unfolding reconcile_row count_miss act
  row-acts n r unknown left = refl
  row-acts n r (live none) left = ground arith
  row-acts n r (live (some x)) left = ground arith

  after-counts :
      (n : ℕ) (r : Tracked F) (os : List (Pass F))
      → r.miss_count ≡ 0
      → counts (after n r os) ≡ count n r.size os
  after-counts n r [] z = ground arith
  after-counts n r (o ∷ os) z =
      row-counts n (after n r os) o.seen o.left ∙ ap (λ c. counted n c o) (after-counts n r os z)

  -- For a row without misses, whatever the exchange and the closes answered in the passes before, a pass closes or reduces
  -- it exactly where the exchange answers that it holds less than the row's size of that time, and this is at
  -- least the threshold's number of such answers in a row. A pass without an answer never acts and
  -- never counts; a match, a larger size and a reduction that succeeded start the count anew, the last at the size
  -- that it left.
  pub reconcile_row-acts :
      (threshold : ℕ) (r : Tracked F) (before : List (Pass F)) (now : Pass F)
      → r.miss_count ≡ 0
      → acts (reconcile_row threshold (after threshold r before) now.seen now.left).0
        ≡ is_short (count threshold r.size before).size now.seen
          && leb threshold (suc (count threshold r.size before).streak)
  reconcile_row-acts threshold r before now z =
      let same = after-counts threshold r before z in
      row-acts threshold (after threshold r before) now.seen now.left
      ∙ ap (λ c. is_short c.size now.seen && leb threshold (suc c.streak)) same
