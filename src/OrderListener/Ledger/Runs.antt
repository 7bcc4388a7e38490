-- ===== src/OrderListener/Ledger/Runs.antt =====
-- Runs of fills, closes and syncs, with the drawdown checks that they start: what one strategy's handlers do to its
-- ledger, one after the other, as steps of the abstract view.
pub mod Whole
use matp.Base.{ℕ, ◌≡◌, refl, inl, inr, Option, none, some, List, [], ◌∷◌, ◌++◌, arith}
use matp.Base.Text.{Text}
use mathlib.Core.List.{append-nil}
use matp.Base.Num.{Num, IsOrdered}
use matp.Base.Result.{Result, err, ok}
use matp.OrderListener.GuaranteedStop.{PositionSide}
use matp.OrderListener.Ledger.{Ledger, flatten_on_disable}
use matp.OrderListener.Ledger.Legs.{IsLedger, commit_close-IsLedger, apply_position_fill-IsLedger}
use matp.OrderListener.Ledger.Moves.{leg_size}
use matp.OrderListener.Ledger.Refines.{
  Cause, by_fill, by_close, Step, fills, plan_close-IsPlan, commit_close-Step,
}
use matp.OrderListener.Ledger.Filling.{Fill, apply_position_fill}
use matp.OrderListener.Ledger.Filling.Sizes.{apply_position_fill-size}
use matp.OrderListener.Ledger.Closing.{
  CloseRequest, Exchange, CloseOutcome, Plan, plan_close, commit_close,
}
use matp.OrderListener.Ledger.Drawdown.Kept.{IsKept, Keeper, finish_with-keeps, settle-keeps}
use matp.OrderListener.Ledger.Drawdown.{carry_out, close_with, settle}

module _ {F : Type 0} where
  -- a close of a whole leg by the drawdown
  abbrev pub Flattens : Cause F → Type 0
  Flattens (by_fill f) = ⊥
  Flattens (by_close req) = (req.close_size ≡ none) × (req.reason ≡ some flatten_on_disable)

  -- What has moved the legs, against what was to: in that order, each at most once, and else the drawdown's closes.
  pub data Traced : List (Cause F) → List (Cause F) → Type 0 where
    nothing : Traced [] []
    acted : (c : Cause F) (own cs : List (Cause F)) → Traced own cs → Traced (c ∷ own) (c ∷ cs)
    skipped : (c : Cause F) (own cs : List (Cause F)) → Traced own cs → Traced (c ∷ own) cs
    flattened :
        (c : Cause F) (own cs : List (Cause F)) → Flattens c → Traced own cs → Traced own (c ∷ cs)

  Traced-append :
      {own cs more ds : List (Cause F)}
      → Traced own cs
      → Traced more ds
      → Traced (own ++ more) (cs ++ ds)
  Traced-append nothing q = q
  Traced-append (acted c own cs p) q = acted c _ _ (Traced-append p q)
  Traced-append (skipped c own cs p) q = skipped c _ _ (Traced-append p q)
  Traced-append (flattened c own cs w p) q = flattened c _ _ w (Traced-append p q)

  Traced-skip : (own cs : List (Cause F)) → Traced [] cs → Traced own cs
  Traced-skip [] cs t = t
  Traced-skip (c ∷ own) cs t = skipped c own cs (Traced-skip own cs t)

module _ {F : Type 0} ⦃num : Num F⦄ where
  -- The abstract view moves step by step.
  pub data Moves (exchange : Exchange F) : List (Cause F) → Ledger F → Ledger F → Type 0 where
    done : (l : Ledger F) → Moves exchange [] l l
    idle :
        (cs : List (Cause F)) (l m n : Ledger F)
        → ((s : Text) (d : PositionSide) → leg_size m s d ≡ leg_size l s d)
        → Moves exchange cs m n
        → Moves exchange cs l n
    step :
        (c : Cause F) (cs : List (Cause F)) (l m n : Ledger F)
        → Step exchange c l m
        → Moves exchange cs m n
        → Moves exchange (c ∷ cs) l n

  Moves-trans :
      {exchange : Exchange F} {cs ds : List (Cause F)} {l m n : Ledger F}
      → Moves exchange cs l m
      → Moves exchange ds m n
      → Moves exchange (cs ++ ds) l n
  Moves-trans (done l) q = q
  Moves-trans (idle cs l k m same p) q = idle _ l k _ same (Moves-trans p q)
  Moves-trans (step c cs l k m s p) q = step c _ l k _ s (Moves-trans p q)

  -- the invariant is kept, and the view has moved by what was to move it
  pub record Follows (exchange : Exchange F) (own : List (Cause F)) (l l' : Ledger F) : Type 0 where
    pub causes : List (Cause F)
    pub traced : Traced own causes
    pub kept : IsLedger l → IsLedger l'
    pub moved : IsLedger l → Moves exchange causes l l'

  pub Follows-trans :
      {exchange : Exchange F} {own more : List (Cause F)} {l m n : Ledger F}
      → Follows exchange own l m
      → Follows exchange more m n
      → Follows exchange (own ++ more) l n
  Follows-trans p q = record {
    causes = p.causes ++ q.causes;
    traced = Traced-append p.traced q.traced;
    kept = λ h. q.kept (p.kept h);
    moved = λ h. Moves-trans (p.moved h) (q.moved (p.kept h));
  }

  -- what follows moves nothing of its own
  pub Follows-then :
      {exchange : Exchange F} (own : List (Cause F)) {l m n : Ledger F}
      → Follows exchange own l m
      → Follows exchange [] m n
      → Follows exchange own l n
  Follows-then own p q = rw (← append-nil own) (Follows-trans p q)

  pub Follows-skip :
      {exchange : Exchange F} (own : List (Cause F)) {l l' : Ledger F}
      → Follows exchange [] l l'
      → Follows exchange own l l'
  Follows-skip own p = record {
    causes = p.causes;
    traced = Traced-skip own p.causes p.traced;
    kept = p.kept;
    moved = p.moved;
  }

  pub Follows-same :
      (exchange : Exchange F) (l l' : Ledger F)
      → l'.positions ≡ l.positions
      → l'.next_position ≡ l.next_position
      → Follows exchange [] l l'
  unfolding leg_size
  Follows-same exchange l l' rows next = record {
    causes = [];
    traced = nothing;
    kept = λ h. ground (arith, h.distinct_rows, h.ids_given);
    moved = λ h. idle [] l l' l' (λ s d. rw rows refl) (done l');
  }

  pub fill-Follows :
      (exchange : Exchange F) (f : Fill F) (l l' : Ledger F)
      → apply_position_fill f l ≡ ok l'
      → Follows exchange (by_fill f ∷ []) l l'
  fill-Follows exchange f l l' e = record {
    causes = by_fill f ∷ [];
    traced = acted (by_fill f) [] [] nothing;
    kept = λ h. apply_position_fill-IsLedger f l l' e h;
    moved = λ h.
        step (by_fill f) [] l l' l' (fills f l l' (λ s d. apply_position_fill-size f l l' s d h e))
          (done l');
  }

  abbrev pub Follower : Exchange F → (Ledger F → Option (Ledger F)) → Type 0
  Follower exchange check = Keeper (Follows exchange []) check

  module _ (order : IsOrdered F) (exchange : Exchange F) where
    commit-moved :
        (req : CloseRequest F) (l : Ledger F) (plan : Plan F)
        → plan_close exchange req l ≡ ok plan
        → IsLedger l
        → let m = (commit_close exchange req plan l).1 in Moves exchange (by_close req ∷ []) l m
    commit-moved req l plan here h =
        let m = (commit_close exchange req plan l).1 in
        step (by_close req) [] l m m
          (commit_close-Step order exchange req l plan h
            (plan_close-IsPlan order exchange req l plan here))
          (done m)

    Follows-IsKept :
        IsKept exchange
          (λ req. (req.close_size ≡ none) × (req.reason ≡ some flatten_on_disable))
          (Follows exchange [])
    Follows-IsKept = record {
      flattens = λ leg. (refl, refl);
      trans = λ l m n p q. Follows-trans p q;
      same = Follows-same exchange;
      commit = λ req l plan kind here. record {
        causes = by_close req ∷ [];
        traced = flattened (by_close req) [] [] kind nothing;
        kept = λ h. commit_close-IsLedger exchange req plan l h;
        moved = commit-moved req l plan here;
      };
    }

    commit-Follows :
        (req : CloseRequest F) (l : Ledger F) (plan : Plan F)
        → plan_close exchange req l ≡ ok plan
        → Follows exchange (by_close req ∷ []) l (commit_close exchange req plan l).1
    commit-Follows req l plan here = record {
      causes = by_close req ∷ [];
      traced = acted (by_close req) [] [] nothing;
      kept = λ h. commit_close-IsLedger exchange req plan l h;
      moved = commit-moved req l plan here;
    }

    carry_out-Follows :
        (check : Ledger F → Option (Ledger F)) (req : CloseRequest F) (l : Ledger F)
        (planned : Result CloseOutcome (Plan F)) (o : CloseOutcome) (l' : Ledger F)
        → Follower exchange check
        → plan_close exchange req l ≡ planned
        → carry_out check exchange req l planned ≡ some (o, l')
        → Follows exchange (by_close req ∷ []) l l'
    carry_out-Follows check req l (err outcome) o l' follower here e =
        Follows-skip (by_close req ∷ []) (Follows-same exchange l l' (ground arith) (ground arith))
    carry_out-Follows check req l (ok plan) o l' follower here e =
        let (outcome, m) = commit_close exchange req plan l in
        Follows-then (by_close req ∷ []) (commit-Follows req l plan here) (
          finish_with-keeps exchange (Follows exchange []) Follows-IsKept check plan outcome o m l'
            follower e)

    pub close_with-Follows :
        (check : Ledger F → Option (Ledger F)) (req : CloseRequest F) (l : Ledger F)
        (o : CloseOutcome) (l' : Ledger F)
        → Follower exchange check
        → close_with check exchange req l ≡ some (o, l')
        → Follows exchange (by_close req ∷ []) l l'
    unfolding close_with
    close_with-Follows check req l o l' follower e =
        carry_out-Follows check req l (plan_close exchange req l) o l' follower refl e

    pub settle-follows : (n : ℕ) → Follower exchange (λ l. settle n exchange l)
    settle-follows = settle-keeps exchange (Follows exchange []) Follows-IsKept
