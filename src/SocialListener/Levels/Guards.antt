-- ===== src/SocialListener/Levels/Guards.antt =====
-- Which stops and targets pass their guards.
use matp.Base.{ℕ, Bool, true, false, not, ◌||◌, ◌≡◌, ◌⊎◌, refl, Option, none, some, is_some, arith}
use matp.Base.Num.{Num}
use matp.SocialListener.Legs.{Side, long, short, Legs, is_open, opposite}
use matp.SocialListener.Post.{Post, Settings, direction, too_old}
use matp.SocialListener.Levels.{
  side_ambiguous, resolve_leg, ok, looser, stop_crossed, not_in_profit, wanted_stop, evaluate_stop,
  evaluate_take_profit,
}

-- `resolve_leg` answers with an open leg: the one that the post names, or the only one open.
pub resolve_leg-is_open :
    {F : Type 0} (rec : Post F) (legs : Legs) (s : Side)
    → (resolve_leg rec legs).0 ≡ some s
    → (is_open legs s ≡ true)
      × ((direction rec ≡ some s) ⊎ ((direction rec ≡ none) × (is_open legs (opposite s) ≡ false)))
unfolding resolve_leg opposite
resolve_leg-is_open rec legs long e = ground arith
resolve_leg-is_open rec legs short e = ground arith

-- It answers with a leg exactly where it gives no refusal.
pub resolve_leg-refusal :
    {F : Type 0} (rec : Post F) (legs : Legs)
    → is_some (resolve_leg rec legs).0 ≡ not (is_some (resolve_leg rec legs).1)
unfolding resolve_leg
resolve_leg-refusal rec legs = ground arith

-- It refuses a post as ambiguous only where the post names no side and both legs are open.
pub resolve_leg-ambiguous :
    {F : Type 0} (rec : Post F) (legs : Legs)
    → (resolve_leg rec legs).1 ≡ some side_ambiguous
    → (direction rec ≡ none) × (legs.long ≡ true) × (legs.short ≡ true)
unfolding resolve_leg
resolve_leg-ambiguous rec legs e = ground arith

-- The test fails on the value, if there is one.
abbrev pub Spares : {F : Type 0} → (F → Bool) → Option F → Type 0
Spares test none = Unit
Spares test (some x) = test x ≡ false

module _ {F : Type 0} ⦃num : Num F⦄ (cfg : Settings F) (rec : Post F) where
  -- What a stop at `p` for the leg `s` meets.
  pub record IsSafeStop (s : Side) (entry : F) (mark last_stop : Option F) (now : ℕ) (p : F)
      : Type 0 where
    pub fresh : too_old cfg rec now ≡ false
    pub wanted : wanted_stop rec.stop_price entry ≡ some p
    pub no_wider : looser s p entry ≡ false
    pub uncrossed : Spares (stop_crossed s p) mark
    pub ratchet : Spares (looser s p) last_stop

  -- A stop that `evaluate_stop` sends is for a known leg with a known entry, at the level that the
  -- post asks for, and the post is not too old; it is not worse than the entry, not beyond the mark
  -- and not looser than the last stop, where there are such.
  pub evaluate_stop-IsSafeStop :
      (side : Option Side) (entry_price mark last_stop : Option F) (now : ℕ) (p : F)
      → (evaluate_stop cfg rec side entry_price mark last_stop now).0 ≡ some p
      → (s : Side) × (entry : F) × (side ≡ some s)
        × (entry_price ≡ some entry)
        × IsSafeStop s entry mark last_stop now p
  unfolding evaluate_stop
  evaluate_stop-IsSafeStop none entry_price mark last_stop now p e = absurd (ground arith)
  evaluate_stop-IsSafeStop (some s) none mark last_stop now p e = absurd (ground arith)
  evaluate_stop-IsSafeStop (some s) (some entry) mark last_stop now p e =
      (s, entry, refl, refl, ground arith)

  -- A post that asks for a stop gets it wherever the stop is safe.
  pub IsSafeStop-evaluate_stop :
      (s : Side) (entry : F) (mark last_stop : Option F) (now : ℕ) (p : F)
      → is_some rec.stop_price || rec.stop_to_breakeven ≡ true
      → IsSafeStop s entry mark last_stop now p
      → evaluate_stop cfg rec (some s) (some entry) mark last_stop now ≡ (some p, ok)
  unfolding evaluate_stop
  IsSafeStop-evaluate_stop s entry mark last_stop now p asked safe = ground arith

  -- What a target at `p` for the leg `s` meets.
  pub record IsSafeTarget (s : Side) (entry_price mark : Option F) (now : ℕ) (p : F) : Type 0 where
    pub fresh : too_old cfg rec now ≡ false
    pub beyond_entry : Spares (not_in_profit s p) entry_price
    pub beyond_mark : Spares (not_in_profit s p) mark

  -- A take-profit that `evaluate_take_profit` sends is for a known leg, from a post that is not too
  -- old, and lies beyond the entry and the mark, where these are known, on the side of profit.
  pub evaluate_take_profit-IsSafeTarget :
      (side : Option Side) (entry_price mark last_tp : Option F) (now : ℕ) (p : F)
      → (evaluate_take_profit cfg rec side entry_price mark last_tp now).0 ≡ some p
      → (s : Side) × (side ≡ some s) × IsSafeTarget s entry_price mark now p
  unfolding evaluate_take_profit
  evaluate_take_profit-IsSafeTarget none entry_price mark last_tp now p e = absurd (ground arith)
  evaluate_take_profit-IsSafeTarget (some s) entry_price mark last_tp now p e =
      (s, refl, ground arith)
