-- ===== src/SignalGenerator/KeyPool.antt =====
-- ai-signal-generator/app/key_pool.py: the pool of LLM API keys. Times are whole seconds of the
-- monotonic clock. The dict of entries is an association list in insertion order. `load` is in the
-- child Reload; log lines and `status` are left out.
pub mod Rotation
pub mod Feedback
pub mod Reload
use Prim.Native.Nat.{min}
use matp.Base.{
  ℕ, zero, suc, ◌+◌, ◌-◌, ◌*◌, ◌^◌, Bool, true, false, not, ◌&&◌, ◌||◌, Option, none, some, is_some,
  List, [], ◌∷◌, ◌++◌, ◌==◌, ltb, leb, any, keep, take, if◌then◌else◌,
}
use matp.Base.Text.{Text, codes, text_eq}

pub record KeyHandle : Type 0 where
  pub id : Option ℕ
  pub provider : Text
  pub label : Text
  pub key : Text

pub record Entry : Type 0 where
  pub handle : KeyHandle
  pub cooldown_until : ℕ
  pub consecutive_429 : ℕ
  pub dead : Bool
  pub dead_reason : Option Text

-- `_env_defaults` is `none` before the first load; `settings_key` is the key of the settings, empty for a
-- provider that they do not list
pub record KeyPool : Type 0 where
  pub entries : List (Text × List Entry)
  pub env_defaults : Option (Text → Text)
  pub settings_key : Text → Text

-- `self._entries.get(name, [])`
unfoldable pub entries_of : Text → List (Text × List Entry) → List Entry
entries_of name [] = []
entries_of name ((n, es) ∷ rest) = if text_eq n name then es else entries_of name rest

-- `_Entry(handle=...)`
abbrev pub fresh : KeyHandle → Entry
fresh h = record {
  handle = h;
  cooldown_until = 0;
  consecutive_429 = 0;
  dead = false;
  dead_reason = none;
}

unfoldable pub usable : ℕ → Entry → Bool
usable now e = not e.dead && leb e.cooldown_until now

abbrev pub same_id : Option ℕ → Option ℕ → Bool
same_id none none = true
same_id none (some b) = false
same_id (some a) none = false
same_id (some a) (some b) = a == b

-- `_slug`
unfoldable pub slug : Text → Text
slug provider = if text_eq provider (codes "google") then codes "gemini" else provider

-- a key that is set, as a handle for the environment
abbrev env_key : Text → Text → Option KeyHandle
env_key name [] = none
env_key name (c ∷ key) =
    some (record { id = none; provider = name; label = codes "env"; key = c ∷ key })

-- `_env_handle`
unfoldable pub env_handle : KeyPool → Text → Option KeyHandle
env_handle pool name = elim pool.env_defaults [
  | none ↦ env_key name (pool.settings_key name)
  | some defaults ↦ env_key name (defaults name)
]

-- the first entry that passes a test
unfoldable pub first_entry : (Entry → Bool) → List Entry → Option Entry
first_entry test [] = none
first_entry test (e ∷ rest) =
    let later = first_entry test rest in elim (test e) [ true ↦ some e | false ↦ later ]

-- `min(alive, key=lambda e: e.cooldown_until)`: the first of the least
unfoldable pub least_cooled : Entry → List Entry → Entry
least_cooled best [] = best
least_cooled best (e ∷ rest) =
    least_cooled (if ltb e.cooldown_until best.cooldown_until then e else best) rest

abbrev least_of : List Entry → Option Entry
least_of [] = none
least_of (e ∷ rest) = some (least_cooled e rest)

abbrev pub alive : Entry → Bool
alive e = not e.dead

-- the choice among the entries of a provider
unfoldable pub choose : ℕ → List Entry → Option Entry
unfolding first_entry least_cooled
choose now entries = elim (first_entry (usable now) entries) [
  | some e ↦ some e
  | none ↦ least_of (keep alive entries)
]

abbrev pub handle_of : Option Entry → Option KeyHandle
handle_of none = none
handle_of (some e) = some e.handle

abbrev acquire_from : KeyPool → Text → ℕ → List Entry → Option KeyHandle
acquire_from pool name now [] = env_handle pool name
acquire_from pool name now (e ∷ rest) = handle_of (choose now (e ∷ rest))

unfoldable pub acquire : KeyPool → Text → ℕ → Option KeyHandle
acquire pool provider now =
    acquire_from pool (slug provider) now (entries_of (slug provider) pool.entries)

-- `id not in tried_ids`
abbrev pub untried : List (Option ℕ) → Entry → Bool
untried tried e = not (any (same_id e.handle.id) tried)

unfoldable pub acquire_after : KeyPool → Text → List (Option ℕ) → ℕ → Option KeyHandle
unfolding first_entry
acquire_after pool provider tried now =
    handle_of
      (first_entry (λ e. untried tried e && usable now e) (entries_of (slug provider) pool.entries))

abbrev has_key_in : KeyPool → Text → List Entry → Bool
has_key_in pool name [] = is_some (env_handle pool name)
has_key_in pool name (e ∷ rest) = any alive (e ∷ rest)

unfoldable pub has_key : KeyPool → Text → Bool
has_key pool provider = has_key_in pool (slug provider) (entries_of (slug provider) pool.entries)

-- `_find` and the assignment to the entry that it finds: the first with the handle's id
unfoldable pub update_entry : Option ℕ → (Entry → Entry) → List Entry → List Entry
update_entry id f [] = []
update_entry id f (e ∷ rest) =
    let later = update_entry id f rest in if same_id e.handle.id id then f e ∷ rest else e ∷ later

unfoldable pub update_entries :
    Text → Option ℕ → (Entry → Entry) → List (Text × List Entry) → List (Text × List Entry)
unfolding update_entry
update_entries name id f [] = []
update_entries name id f ((n, es) ∷ rest) =
    let later = update_entries name id f rest in
    if text_eq n name then (n, update_entry id f es) ∷ rest else (n, es) ∷ later

abbrev report : KeyPool → KeyHandle → (Entry → Entry) → KeyPool
report pool h f = record pool { entries = update_entries h.provider h.id f pool.entries }

unfoldable pub report_ok : KeyPool → KeyHandle → KeyPool
unfolding update_entries
report_ok pool h = report pool h (λ e. record e { consecutive_429 = 0 })

-- `_COOLDOWN_BASE` and `_COOLDOWN_MAX`
abbrev pub cooldown_base : ℕ
cooldown_base = 60

abbrev pub cooldown_max : ℕ
cooldown_max = 3600

-- `retry_after or min(...)`
unfoldable pub cooldown_for : Option ℕ → ℕ → ℕ
cooldown_for none failures = min (cooldown_base * 2 ^ (failures - 1)) cooldown_max
cooldown_for (some zero) failures = min (cooldown_base * 2 ^ (failures - 1)) cooldown_max
cooldown_for (some (suc s)) failures = suc s

unfoldable pub cool : Option ℕ → ℕ → Entry → Entry
cool retry_after now e = record e {
  consecutive_429 = e.consecutive_429 + 1;
  cooldown_until = now + cooldown_for retry_after (e.consecutive_429 + 1);
}

unfoldable pub report_rate_limited : KeyPool → KeyHandle → Option ℕ → ℕ → KeyPool
unfolding update_entries
report_rate_limited pool h retry_after now = report pool h (cool retry_after now)

abbrev reason_text : Text → Text
reason_text [] = codes "auth failed"
reason_text (c ∷ s) = c ∷ s

-- the reason is cut to 200 characters
unfoldable pub kill : Text → Entry → Entry
kill reason e = record e { dead = true; dead_reason = some (take 200 (reason_text reason)) }

unfoldable pub report_auth_failed : KeyPool → KeyHandle → Text → KeyPool
unfolding update_entries
report_auth_failed pool h reason = report pool h (kill reason)
