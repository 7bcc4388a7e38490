-- ===== src/SocialListener/Manage.antt =====
-- social-listener/app/statemachine.py: scaling in (`_evaluate_add`) and partial profit-taking
-- (`_evaluate_trim`). A result `none` is a Python exception: a division by a reference price of zero.
use matp.Base.{ℕ, Bool, true, false, Option, none, some, [], if◌then◌else◌}
use matp.Base.Num.{Num, nought}
use matp.SocialListener.Legs.{Side, long, short}
use matp.SocialListener.Post.{Phase, Post, Settings, too_old, trim_fraction, add_size}
use matp.SocialListener.Levels.{Refusal, resolve_leg}
use matp.SocialListener.Plan.{is_long}
use matp.SocialListener.Decision.{
  Verdict, Reason, no_signal, trim_signal, add_signal, Decision, Extra, Scope, no_extra, base, skip,
}

-- `_ADD_REFUSAL` and `_TRIM_REFUSAL`
abbrev pub add_refusal : Refusal → Reason
add_refusal Refusal.no_position = Reason.no_position_to_add
add_refusal Refusal.side_not_open = Reason.add_side_mismatch
add_refusal Refusal.side_ambiguous = Reason.add_side_ambiguous

abbrev pub trim_refusal : Refusal → Reason
trim_refusal Refusal.no_position = Reason.no_position_to_trim
trim_refusal Refusal.side_not_open = Reason.trim_side_mismatch
trim_refusal Refusal.side_ambiguous = Reason.trim_side_ambiguous

abbrev pub is_backfill : Phase → Bool
is_backfill Phase.backfill = true
is_backfill Phase.live = false

module _ {F : Type 0} ⦃num : Num F⦄ where
  open num use {lt, le, eq, sub, div, neg}

  -- `(mark - ref) / ref`
  unfoldable pub moved_from : F → F → Option F
  moved_from ref mark = if eq ref nought then none else some (div (sub mark ref) ref)

  -- the price already ran more than `staleness_pct` the signal's way
  abbrev pub chased : Settings F → Bool → F → Bool
  chased cfg true moved = lt cfg.staleness_pct moved
  chased cfg false moved = lt cfg.staleness_pct (neg moved)

  -- the chase test of an add, which is skipped without a reference or a mark
  add_chased : Settings F → Post F → Side → Option F → Option Bool
  unfolding moved_from
  add_chased cfg rec side mark = elim rec.reference_price [
    | none ↦ some false
    | some ref ↦ elim mark [
      | none ↦ some false
      | some m ↦ elim (moved_from ref m) [
        | none ↦ none
        | some moved ↦ some (chased cfg (is_long side) moved)
      ]
    ]
  ]

  add_on : Settings F → Post F → Phase → ℕ → Scope F → Side → Option (Decision F)
  unfolding add_chased base skip
  add_on cfg rec phase now c side =
      let sig = add_signal side in
      let mult = add_size cfg rec in
      let marks : Extra F = record no_extra { leg = some side; add_multiple = some mult } in
      if le mult nought
      then some (skip c Reason.add_size_zero sig marks)
      else if is_backfill phase
      then some (skip c Reason.backfill_no_add sig marks)
      else if too_old cfg rec now
      then some (skip c Reason.signal_too_old sig marks)
      else elim (add_chased cfg rec side c.mark) [
        | none ↦ none
        | some true ↦ some (skip c Reason.stale_price sig marks)
        | some false ↦ some (
            base c Verdict.acted Reason.add_at_market none sig [] true
              (record marks { is_add = true }))
      ]

  abbrev add_resolved :
      Settings F → Post F → Phase → ℕ → Scope F → Option Side × Option Refusal → Option (Decision F)
  add_resolved cfg rec phase now c (some side, refusal) = add_on cfg rec phase now c side
  add_resolved cfg rec phase now c (none, some r) = some (skip c (add_refusal r) no_signal no_extra)
  -- `_ADD_REFUSAL[None]`
  add_resolved cfg rec phase now c (none, none) = none

  -- `_evaluate_add`
  unfoldable pub evaluate_add : Settings F → Post F → Phase → ℕ → Scope F → Option (Decision F)
  unfolding add_on
  evaluate_add cfg rec phase now c = add_resolved cfg rec phase now c (resolve_leg rec c.legs)

  -- a trim at `level`, which the mark has reached or not
  abbrev trim_reached : Side → F → F → Bool
  trim_reached short mark level = le mark level
  trim_reached long mark level = le level mark

  trim_on : Settings F → Post F → Phase → ℕ → Scope F → Side → Decision F
  unfolding base skip
  trim_on cfg rec phase now c side =
      let sig = trim_signal side in
      let marks : Extra F = record no_extra {
        leg = some side;
        size_fraction = some (trim_fraction cfg rec);
        trigger_price = rec.trigger_price;
      } in
      let trim = λ (reason : Reason).
        base c Verdict.acted reason none sig [] true (record marks { is_trim = true }) in
      if is_backfill phase
      then skip c Reason.backfill_no_trim sig marks
      else if too_old cfg rec now
      then skip c Reason.signal_too_old sig marks
      else elim rec.trigger_price [
        | none ↦ trim Reason.trim_at_market
        | some trig ↦ elim c.mark [
          | none ↦ skip c Reason.no_mark sig marks
          | some mark ↦
              if trim_reached side mark trig
              then trim Reason.trim_level_reached
              else base c Verdict.pending Reason.trim_level_pending none sig [] false
                  (record marks { is_trim = true; park = true })
        ]
      ]

  abbrev trim_resolved :
      Settings F → Post F → Phase → ℕ → Scope F → Option Side × Option Refusal → Option (Decision F)
  trim_resolved cfg rec phase now c (some side, refusal) = some (trim_on cfg rec phase now c side)
  trim_resolved cfg rec phase now c (none, some r) =
      some (skip c (trim_refusal r) no_signal no_extra)
  -- `_TRIM_REFUSAL[None]`
  trim_resolved cfg rec phase now c (none, none) = none

  -- `_evaluate_trim`
  unfoldable pub evaluate_trim : Settings F → Post F → Phase → ℕ → Scope F → Option (Decision F)
  unfolding trim_on
  evaluate_trim cfg rec phase now c = trim_resolved cfg rec phase now c (resolve_leg rec c.legs)
