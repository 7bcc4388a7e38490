-- ===== src/SignalGenerator/KeyPool/Reload.antt =====
-- ai-signal-generator/app/key_pool.py: `load`. The rows of `llm_keys` come as the query orders them, and
-- `decrypt` is an argument; `none` is a failure, which skips the row.
use matp.Base.{
  ℕ, Bool, true, false, Option, none, some, List, [], ◌∷◌, ◌++◌, All, ◌≡◌, refl, inl, inr, arith,
  Bool-cases, Option-cases, if◌then◌else◌,
}
use matp.Base.Text.{Text, codes, text_eq}
use matp.SignalGenerator.KeyPool.{KeyHandle, Entry, KeyPool, fresh, same_id, alive}

pub record Row : Type 0 where
  pub id : ℕ
  pub provider : Text
  pub label : Text
  pub encrypted_key : Text

-- the keys of `_ENV_ATTR`
abbrev pub env_slugs : List Text
env_slugs =
    codes "gemini"
    ∷ codes "openai"
    ∷ codes "anthropic"
    ∷ codes "groq"
    ∷ codes "cerebras"
    ∷ codes "zhipu"
    ∷ codes "openrouter"
    ∷ []

-- `old.get(id)`, where a later entry of the same id hides an earlier one
last_with : ℕ → List Entry → Option Entry
last_with id [] = none
last_with id (e ∷ rest) = elim (last_with id rest) [
  | some later ↦ some later
  | none ↦ if same_id e.handle.id (some id) then some e else none
]

all_entries : List (Text × List Entry) → List Entry
all_entries [] = []
all_entries ((name, es) ∷ rest) = es ++ all_entries rest

-- the cooldown of the same row with the same key is kept; `dead` is not
unfoldable pub carried : Option Entry → KeyHandle → Entry
carried none h = fresh h
carried (some prev) h =
    if text_eq prev.handle.key h.key
    then record (fresh h) {
      cooldown_until = prev.cooldown_until;
      consecutive_429 = prev.consecutive_429;
    }
    else fresh h

-- `entries.setdefault(name, []).append(entry)`
unfoldable pub append_entry : Text → Entry → List (Text × List Entry) → List (Text × List Entry)
append_entry name e [] = (name, e ∷ []) ∷ []
append_entry name e ((n, es) ∷ rest) =
    let later = append_entry name e rest in
    if text_eq n name then (n, es ++ e ∷ []) ∷ rest else (n, es) ∷ later

-- the loop over the rows
unfoldable pub load_rows :
    (Text → Option Text)
    → List Entry
    → List Row
    → List (Text × List Entry)
    → List (Text × List Entry)
unfolding carried append_entry last_with
load_rows decrypt old [] entries = entries
load_rows decrypt old (row ∷ rows) entries =
    load_rows decrypt old rows (elim (decrypt row.encrypted_key) [
      | none ↦ entries
      | some key ↦
          append_entry row.provider
            (carried (last_with row.id old)
              (record { id = some row.id; provider = row.provider; label = row.label; key = key }))
            entries
    ])

abbrev has_slug : Text → List (Text × List Entry) → Bool
has_slug name [] = false
has_slug name ((n, es) ∷ rest) = if text_eq n name then true else has_slug name rest

abbrev env_entry : Text → Text → List (Text × List Entry) → List (Text × List Entry)
env_entry name [] entries = entries
env_entry name (c ∷ key) entries =
    if has_slug name entries
    then entries
    else entries
      ++ (
        name,
        fresh (record { id = none; provider = name; label = codes "env"; key = c ∷ key }) ∷ [],
      )
        ∷ []

-- the loop over `_ENV_ATTR`
unfoldable pub add_env :
    (Text → Text) → List Text → List (Text × List Entry) → List (Text × List Entry)
add_env defaults [] entries = entries
add_env defaults (name ∷ rest) entries =
    add_env defaults rest (env_entry name (defaults name) entries)

abbrev snapshot : KeyPool → Text → Text
snapshot pool = elim pool.env_defaults [ none ↦ pool.settings_key | some defaults ↦ defaults ]

unfoldable pub load : (Text → Option Text) → List Row → KeyPool → KeyPool
unfolding load_rows add_env all_entries
load decrypt rows pool = record pool {
  entries =
      add_env (snapshot pool) env_slugs (load_rows decrypt (all_entries pool.entries) rows []);
  env_defaults = some (snapshot pool);
}

abbrev pub AllAlive : List (Text × List Entry) → Type 0
AllAlive [] = Unit
AllAlive ((name, es) ∷ rest) = All (λ e. alive e ≡ true) es × AllAlive rest

carried-alive : (prev : Option Entry) (h : KeyHandle) → alive (carried prev h) ≡ true
unfolding carried
carried-alive none h = refl
carried-alive (some e) h = ground arith

All-snoc :
    (P : Entry → Type 0) (es : List Entry) (e : Entry) → All P es → P e → All P (es ++ e ∷ [])
All-snoc P [] e a p = (p, tt)
All-snoc P (x ∷ es) e a p = (a.0, All-snoc P es e a.1 p)

append_entry-AllAlive :
    (name : Text) (e : Entry) (d : List (Text × List Entry))
    → alive e ≡ true
    → AllAlive d
    → AllAlive (append_entry name e d)
unfolding append_entry
append_entry-AllAlive name e [] p a = ((p, tt), tt)
append_entry-AllAlive name e ((n, es) ∷ d) p a = elim (Bool-cases (text_eq n name)) [
  | inl here ↦ rw (here, AllAlive) (All-snoc (λ x. alive x ≡ true) es e a.0 p, a.1)
  | inr there ↦ rw (there, AllAlive) (a.0, append_entry-AllAlive name e d p a.1)
]

load_rows-AllAlive :
    (decrypt : Text → Option Text) (old : List Entry) (rows : List Row)
    (d : List (Text × List Entry))
    → AllAlive d
    → AllAlive (load_rows decrypt old rows d)
unfolding load_rows
load_rows-AllAlive decrypt old [] d a = a
load_rows-AllAlive decrypt old (row ∷ rows) d a = elim (Option-cases (decrypt row.encrypted_key)) [
  | inl failed ↦ rw (failed, load_rows) (load_rows-AllAlive decrypt old rows d a)
  | inr (key, got) ↦
      rw (got, load_rows)
        (load_rows-AllAlive decrypt old rows _
          (append_entry-AllAlive row.provider _ d (carried-alive (last_with row.id old) _) a))
]

AllAlive-append : (d c : List (Text × List Entry)) → AllAlive d → AllAlive c → AllAlive (d ++ c)
AllAlive-append [] c a b = b
AllAlive-append ((n, es) ∷ d) c a b = (a.0, AllAlive-append d c a.1 b)

env_entry-AllAlive :
    (name key : Text) (d : List (Text × List Entry)) → AllAlive d → AllAlive (env_entry name key d)
env_entry-AllAlive name [] d a = a
env_entry-AllAlive name (c ∷ key) d a = elim (Bool-cases (has_slug name d)) [
  | inl old ↦ rw old a
  | inr new ↦ rw new (AllAlive-append d _ a ((refl, tt), tt))
]

add_env-AllAlive :
    (defaults : Text → Text) (names : List Text) (d : List (Text × List Entry))
    → AllAlive d
    → AllAlive (add_env defaults names d)
unfolding add_env
add_env-AllAlive defaults [] d a = a
add_env-AllAlive defaults (name ∷ names) d a =
    add_env-AllAlive defaults names _ (env_entry-AllAlive name (defaults name) d a)

-- After a load no key is dead, whatever was dead before it: a failed authentication does not
-- survive a reload, even of an unchanged row.
pub load-AllAlive :
    (decrypt : Text → Option Text) (rows : List Row) (pool : KeyPool)
    → AllAlive (load decrypt rows pool).entries
unfolding load
load-AllAlive decrypt rows pool =
    add_env-AllAlive (snapshot pool) env_slugs _
      (load_rows-AllAlive decrypt (all_entries pool.entries) rows [] tt)
