-- ===== src/Base/Slot.antt =====
-- A non-blocking slot for each key, as two services take one: the set of keys in flight, and callers
-- that enter, are turned away, and leave, in any interleaving.
use Prim.Native.Nat.{ℕ}
use mathlib.Core.Path.{◌≡◌}
use mathlib.Core.Logic.{inl, inr}
use mathlib.Core.Bool.{Bool, true, false}
use mathlib.Core.List.{List, [], ◌∷◌}
use native.Mathlib.Omega.{arith}
use matp.Base.Tests.{if◌then◌else◌, Bool-cases}
use matp.Base.Eq.{Eq, member, discard, member-discard, update}

-- Where a caller stands: outside, inside with the slot of a key, or inside without it.
pub data Caller (K : Type 0) : Type 0 where
  outside : Caller K
  owner : K → Caller K
  turned_away : K → Caller K

pub record System (K : Type 0) : Type 0 where
  pub in_flight : List K
  pub callers : ℕ → Caller K

abbrev pub start : {K : Type 0} → System K
start = record { in_flight = []; callers = λ i. outside }

module _ {K : Type 0} ⦃e : Eq K⦄ where
  -- the test and the `add`, with no suspension in between
  unfoldable pub enter : K → List K → Bool × List K
  enter k s = if member k s then (false, s) else (true, k ∷ s)

  -- the `finally` clause
  unfoldable pub leave : K → List K → List K
  leave k s = discard k s

  abbrev pub placed : Bool → K → Caller K
  placed true k = owner k
  placed false k = turned_away k

  -- One caller moves.
  pub data Step : System K → System K → Type 0 where
    come :
        (s : System K) (i : ℕ) (k : K)
        → s.callers i ≡ outside
        → Step s (record {
          in_flight = (enter k s.in_flight).1;
          callers = update s.callers i (placed (enter k s.in_flight).0 k);
        })
    finish :
        (s : System K) (i : ℕ) (k : K)
        → s.callers i ≡ owner k
        → Step s (record { in_flight = leave k s.in_flight; callers = update s.callers i outside })
    go_away :
        (s : System K) (i : ℕ) (k : K)
        → s.callers i ≡ turned_away k
        → Step s (record { in_flight = s.in_flight; callers = update s.callers i outside })

  pub data Reach : System K → Type 0 where
    here : Reach start
    next : {s t : System K} → Reach s → Step s t → Reach t

  -- The keys in flight are those that a caller owns, and a key has one owner.
  record Inv (s : System K) : Type 0 where
    owned : (i : ℕ) (k : K) → s.callers i ≡ owner k → member k s.in_flight ≡ true
    unique : (i j : ℕ) (k : K) → s.callers i ≡ owner k → s.callers j ≡ owner k → i ≡ j
    held : (k : K) → member k s.in_flight ≡ true → (i : ℕ) × (s.callers i ≡ owner k)

  Inv-start : Inv start
  Inv-start = record { owned = λ i k h. cc; unique = λ i j k p q. cc; held = λ k h. cc }

  Step-Inv : {s t : System K} → Step s t → Inv s → Inv t
  unfolding enter leave
  Step-Inv (come s i k out) h = record {
    owned = λ j l p. ground (arith, e.beq_iff k l, h.owned j l);
    unique = λ j l m p q. ground (arith, h.unique j l m, h.owned j m, h.owned l m);
    held = λ l m. elim (Bool-cases (member l s.in_flight)) [
      | inl old ↦ (let (j, p) = h.held l old in (j, ground arith))
      | inr new ↦ (i, ground (arith, e.beq_iff k l))
    ];
  }
  Step-Inv (finish s i k own) h = record {
    owned = λ j l p.
        ground
          (arith, member-discard k l s.in_flight, e.beq_iff k l, h.owned j l, h.unique i j k own);
    unique = λ j l m p q. ground (arith, h.unique j l m);
    held = λ l m.
        let (j, p) = h.held l (ground (arith, member-discard k l s.in_flight)) in
        (j, ground (arith, member-discard k l s.in_flight, e.beq_iff k l, h.unique i j k own));
  }
  Step-Inv (go_away s i k away) h = record {
    owned = λ j l p. ground (arith, h.owned j l);
    unique = λ j l m p q. ground (arith, h.unique j l m);
    held = λ l m. let (j, p) = h.held l m in (j, ground arith);
  }

  Reach-Inv : {s : System K} → Reach s → Inv s
  Reach-Inv here = Inv-start
  Reach-Inv (next r st) = Step-Inv st (Reach-Inv r)

  -- Whatever the interleaving, two callers never own the slot of one key together.
  pub one_owner :
      {s : System K} (i j : ℕ) (k : K)
      → Reach s
      → s.callers i ≡ owner k
      → s.callers j ≡ owner k
      → i ≡ j
  one_owner i j k r p q = (Reach-Inv r).unique i j k p q

  -- Whatever the interleaving, a caller who comes for a key is turned away only where another
  -- owns its slot at that moment: a slot is never left taken.
  pub turned_away_by_owner :
      {s : System K} (k : K)
      → Reach s
      → (enter k s.in_flight).0 ≡ false
      → (i : ℕ) × (s.callers i ≡ owner k)
  unfolding enter
  turned_away_by_owner {s} k r h = (Reach-Inv r).held k (ground arith)
