-- ===== src/SignalGenerator/Examples.antt =====
-- A pool of two keys of one provider, two callers of one strategy's slot, and a wake-up.
use matp.Base.{ℕ, false, ◌≡◌, refl, none, some, List, [], ◌∷◌}
use matp.Base.Text.{Text, codes}
use matp.Base.Eq.{text_keys, update}
use matp.Base.Slot.{
  Caller, System, start, enter, placed, come, Reach, here, next, one_owner, turned_away_by_owner,
}
use matp.SignalGenerator.KeyPool.{
  KeyHandle, KeyPool, fresh, choose, kill, same_id, usable, slug, entries_of, acquire,
  report_auth_failed,
}
use matp.SignalGenerator.KeyPool.Feedback.{acquire-report_auth_failed}
use matp.SignalGenerator.KeyPool.Reload.{Row, load, AllAlive, load-AllAlive}

abbrev first_key : KeyHandle
first_key = record { id = some 1; provider = codes "gemini"; label = codes "a"; key = codes "k1" }

abbrev second_key : KeyHandle
second_key = record { id = some 2; provider = codes "gemini"; label = codes "b"; key = codes "k2" }

abbrev pool : KeyPool
pool = record {
  entries = (codes "gemini", fresh first_key ∷ fresh second_key ∷ []) ∷ [];
  env_defaults = none;
  settings_key = λ name. [];
}

acquire-report_auth_failed_example : same_id second_key.id first_key.id ≡ false
unfolding slug entries_of acquire report_auth_failed choose usable kill
acquire-report_auth_failed_example =
    acquire-report_auth_failed pool first_key (codes "401") (codes "google") 5 second_key refl refl
      (refl, (refl, tt)) refl

abbrev rows : List Row
rows =
    record { id = 1; provider = codes "gemini"; label = codes "a"; encrypted_key = codes "x" } ∷ []

-- the first key dies, and its row is loaded again
load-AllAlive_example :
    AllAlive
      (load (λ t. some (codes "k1")) rows (report_auth_failed pool first_key (codes "401"))).entries
load-AllAlive_example =
    load-AllAlive (λ t. some (codes "k1")) rows (report_auth_failed pool first_key (codes "401"))

-- one caller is in the slot of a strategy
abbrev held : System Text
held = record {
  in_flight = (enter (codes "s") []).1;
  callers = update start.callers 0 (placed (enter (codes "s") []).0 (codes "s"));
}

held-Reach : Reach held
held-Reach = next here (come start 0 (codes "s") refl)

one_owner_example : ◌≡◌ {A = ℕ} 0 0
unfolding enter
one_owner_example = one_owner 0 0 (codes "s") held-Reach refl refl

turned_away_by_owner_example : (i : ℕ) × (held.callers i ≡ Caller.owner (codes "s"))
unfolding enter
turned_away_by_owner_example = turned_away_by_owner (codes "s") held-Reach refl
