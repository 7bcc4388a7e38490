-- ===== src/OrderListener/Ledger/Drawdown/Kept.antt =====
-- A relation on ledgers that closes keep is kept by all that a close starts: the drawdown check, the flattening, and the
-- closes in it.
use matp.Base.{
  ℕ, zero, suc, true, false, ◌≡◌, refl, inl, inr, Option, some, List, [], ◌∷◌, Bool-cases,
  Option-cases, arith,
}
use matp.Base.Num.{Num}
use matp.Base.Result.{Result, err, ok}
use matp.OrderListener.Ledger.{Ledger, flatten_on_disable}
use matp.OrderListener.Ledger.Booking.{book_pnl, drawdown_hit}
use matp.OrderListener.Ledger.Closing.{
  CloseRequest, Exchange, CloseOutcome, filled, no_position_to_close, refused_by_exchange,
  race_condition, Plan, plan_close, commit_close,
}
use matp.OrderListener.Ledger.Drawdown.{
  Leg, open_legs, close_request, finish_with, carry_out, close_with, flatten_with, settle,
}

module _ {F : Type 0} ⦃num : Num F⦄ where
  -- A relation of a ledger to a later one: it composes, the rows decide it, and the commit of a plan for a request of
  -- a kind keeps it, of which kind are the requests of a flattening.
  pub record IsKept (exchange : Exchange F) (Kind : CloseRequest F → Type 0)
      (R : Ledger F → Ledger F → Type 0) : Type 0 where
    pub flattens : (leg : Leg) → Kind (close_request leg flatten_on_disable)
    pub trans : (l m n : Ledger F) → R l m → R m n → R l n
    pub same :
        (l l' : Ledger F) → l'.positions ≡ l.positions → l'.next_position ≡ l.next_position → R l l'
    pub commit :
        (req : CloseRequest F) (l : Ledger F) (plan : Plan F)
        → Kind req
        → plan_close exchange req l ≡ ok plan
        → R l (commit_close exchange req plan l).1

  abbrev pub Keeper : (Ledger F → Ledger F → Type 0) → (Ledger F → Option (Ledger F)) → Type 0
  Keeper R check = (l l' : Ledger F) → check l ≡ some l' → R l l'

  module _ (exchange : Exchange F) {Kind : CloseRequest F → Type 0}
      (R : Ledger F → Ledger F → Type 0) (law : IsKept exchange Kind R) where
    pub finish_with-keeps :
        (check : Ledger F → Option (Ledger F)) (plan : Plan F) (outcome o : CloseOutcome)
        (l l' : Ledger F)
        → Keeper R check
        → finish_with check plan (outcome, l) ≡ some (o, l')
        → R l l'
    finish_with-keeps check plan (filled true) o l l' keeper e = elim (Option-cases plan.net_pnl) [
      | inl unknown ↦ law.same l l' (ground arith) (ground arith)
      | inr (pnl, known) ↦
          (let l₁ = record l { book = book_pnl pnl l.book } in
            law.trans l l₁ l' (law.same l l₁ refl refl) (keeper l₁ l' (ground arith)))
    ]
    finish_with-keeps check plan (filled false) o l l' keeper e =
        law.same l l' (ground arith) (ground arith)
    finish_with-keeps check plan no_position_to_close o l l' keeper e =
        law.same l l' (ground arith) (ground arith)
    finish_with-keeps check plan refused_by_exchange o l l' keeper e =
        law.same l l' (ground arith) (ground arith)
    finish_with-keeps check plan race_condition o l l' keeper e =
        law.same l l' (ground arith) (ground arith)

    carry_out-keeps :
        (check : Ledger F → Option (Ledger F)) (req : CloseRequest F) (l : Ledger F)
        (planned : Result CloseOutcome (Plan F)) (o : CloseOutcome) (l' : Ledger F)
        → Kind req
        → Keeper R check
        → plan_close exchange req l ≡ planned
        → carry_out check exchange req l planned ≡ some (o, l')
        → R l l'
    carry_out-keeps check req l (err outcome) o l' kind keeper here e =
        law.same l l' (ground arith) (ground arith)
    carry_out-keeps check req l (ok plan) o l' kind keeper here e =
        let (outcome, m) = commit_close exchange req plan l in
        law.trans l m l' (law.commit req l plan kind here)
          (finish_with-keeps check plan outcome o m l' keeper e)

    pub close_with-keeps :
        (check : Ledger F → Option (Ledger F)) (req : CloseRequest F) (l : Ledger F)
        (o : CloseOutcome) (l' : Ledger F)
        → Kind req
        → Keeper R check
        → close_with check exchange req l ≡ some (o, l')
        → R l l'
    unfolding close_with
    close_with-keeps check req l o l' kind keeper e =
        carry_out-keeps check req l (plan_close exchange req l) o l' kind keeper refl e

    pub flatten_with-keeps :
        (check : Ledger F → Option (Ledger F)) (legs : List Leg) (l l' : Ledger F)
        → Keeper R check
        → flatten_with check exchange legs l ≡ some l'
        → R l l'
    unfolding flatten_with
    flatten_with-keeps check [] l l' keeper e = law.same l l' (ground arith) (ground arith)
    flatten_with-keeps check (leg ∷ legs) l l' keeper e =
        elim (Option-cases (close_with check exchange (close_request leg flatten_on_disable) l)) [
          | inl stuck ↦ absurd (ground arith)
          | inr (r, one) ↦
              law.trans l r.1 l'
                (close_with-keeps check (close_request leg flatten_on_disable) l r.0 r.1
                  (law.flattens leg) keeper one)
                (flatten_with-keeps check legs r.1 l' keeper (ground arith))
        ]

    pub settle-keeps : (n : ℕ) → Keeper R (λ l. settle n exchange l)
    unfolding settle
    settle-keeps zero l l' e = absurd (ground arith)
    settle-keeps (suc n) l l' e =
        let check : Ledger F → Option (Ledger F) = λ m. settle n exchange m in
        elim (Option-cases (flatten_with check exchange (open_legs l.positions) l)) [
          | inl stuck ↦ law.same l l' (ground arith) (ground arith)
          | inr (m, flat) ↦ elim (Bool-cases (drawdown_hit l.book)) [
            | inr calm ↦ law.same l l' (ground arith) (ground arith)
            | inl hit ↦
                law.trans l m l'
                  (flatten_with-keeps check (open_legs l.positions) l m (settle-keeps n) flat)
                  (law.same m l' (ground arith) (ground arith))
          ]
        ]
