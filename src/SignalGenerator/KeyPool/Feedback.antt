-- ===== src/SignalGenerator/KeyPool/Feedback.antt =====
-- How reported failures change which key the pool hands out.
use native.Mathlib.Nat.{pow-suc}
use mathlib.Core.Path.{subst}
use mathlib.Core.Option.{some-injective}
use matp.Base.{
  ℕ, zero, suc, ◌+◌, ◌-◌, ◌^◌, ◌≤◌, Bool, true, false, not, ◌&&◌, ◌≡◌, refl, sym, ◌∙◌, ◌⊎◌, inl,
  inr, Option, none, some, is_some, List, [], ◌∷◌, any, nonempty, All, Option-cases, arith,
  Bool-cases,
}
use matp.Base.Text.{Text}
use matp.SignalGenerator.KeyPool.{
  KeyHandle, Entry, KeyPool, usable, same_id, alive, choose, slug, acquire, has_key, handle_of,
  has_key_in, acquire_from, entries_of, update_entry, update_entries, cooldown_for, cool, kill,
  report_auth_failed, report_rate_limited,
}
use matp.SignalGenerator.KeyPool.Rotation.{
  choose-All, choose-alive, is_some-choose, first_entry-passes, is_some-first_entry,
}

is_some-handle_of : (o : Option Entry) → is_some (handle_of o) ≡ is_some o
is_some-handle_of none = refl
is_some-handle_of (some e) = refl

has_key_in-eq-acquire_from :
    (pool : KeyPool) (name : Text) (now : ℕ) (es : List Entry)
    → has_key_in pool name es ≡ is_some (acquire_from pool name now es)
has_key_in-eq-acquire_from pool name now [] = refl
has_key_in-eq-acquire_from pool name now (e ∷ es) =
    sym (is_some-handle_of (choose now (e ∷ es)) ∙ is_some-choose now (e ∷ es))

-- `has_key` says of every provider, at any time, whether `acquire` would hand out a key.
pub has_key-eq-acquire :
    (pool : KeyPool) (provider : Text) (now : ℕ)
    → has_key pool provider ≡ is_some (acquire pool provider now)
unfolding has_key acquire
has_key-eq-acquire pool provider now =
    has_key_in-eq-acquire_from pool (slug provider) now (entries_of (slug provider) pool.entries)

-- No two entries of a provider have the same id.
abbrev pub UniqueIds : List Entry → Type 0
UniqueIds [] = Unit
UniqueIds (e ∷ es) = (any (λ x. same_id x.handle.id e.handle.id) es ≡ false) × UniqueIds es

abbrev Other : Option ℕ → (Entry → Type 0) → Entry → Type 0
Other id P e = (same_id e.handle.id id ≡ false) ⊎ P e

others-All :
    (id : Option ℕ) (P : Entry → Type 0) (es : List Entry)
    → any (λ x. same_id x.handle.id id) es ≡ false
    → All (Other id P) es
others-All id P [] h = tt
others-All id P (e ∷ es) h = (inl (ground arith), others-All id P es (ground arith))

-- After an update of the entry with an id, each entry has another id or is the result of it.
update_entry-All :
    (id : Option ℕ) (f : Entry → Entry) (P : Entry → Type 0) (es : List Entry)
    → UniqueIds es
    → ((e : Entry) → P (f e))
    → All (Other id P) (update_entry id f es)
unfolding update_entry
update_entry-All id f P [] u p = tt
update_entry-All id f P (e ∷ es) u p = elim (Bool-cases (same_id e.handle.id id)) [
  | inl here ↦ rw (here, All) (inr (p e), others-All id P es (ground (arith, u.0)))
  | inr there ↦ rw (there, All) (inl there, update_entry-All id f P es u.1 p)
]

entries_of-update_entries :
    (name : Text) (id : Option ℕ) (f : Entry → Entry) (d : List (Text × List Entry))
    → entries_of name (update_entries name id f d) ≡ update_entry id f (entries_of name d)
unfolding entries_of update_entries
entries_of-update_entries name id f [] = unfold update_entry in refl
entries_of-update_entries name id f ((n, es) ∷ d) =
    ground (arith, entries_of-update_entries name id f d)

-- A key that is handed out was chosen among the entries, where there are any.
acquire_from-choose :
    (pool : KeyPool) (name : Text) (now : ℕ) (es : List Entry) (h : KeyHandle)
    → nonempty es ≡ true
    → acquire_from pool name now es ≡ some h
    → (e : Entry) × (choose now es ≡ some e) × (e.handle ≡ h)
acquire_from-choose pool name now [] h n a = cc
acquire_from-choose pool name now (e ∷ es) h n a = elim (Option-cases (choose now (e ∷ es))) [
  | inl dead ↦ absurd (ground arith)
  | inr (x, found) ↦ (x, found, some-injective _ _ (rw found at a))
]

nonempty-update_entry :
    (id : Option ℕ) (f : Entry → Entry) (es : List Entry)
    → nonempty (update_entry id f es) ≡ nonempty es
unfolding update_entry
nonempty-update_entry id f [] = refl
nonempty-update_entry id f (e ∷ es) = ground arith

kill-dead : (reason : Text) (e : Entry) → alive (kill reason e) ≡ false
unfolding kill
kill-dead reason e = refl

nonempty_of_any : (p : Entry → Bool) (es : List Entry) → any p es ≡ true → nonempty es ≡ true
nonempty_of_any p [] h = cc
nonempty_of_any p (e ∷ es) h = refl

-- What `acquire` hands out after an update of a provider's entries is a choice among them.
acquire-updated :
    (pool : KeyPool) (h : KeyHandle) (f : Entry → Entry) (provider : Text) (now : ℕ)
    (h' : KeyHandle)
    → slug provider ≡ h.provider
    → nonempty (entries_of h.provider pool.entries) ≡ true
    → acquire (record pool { entries = update_entries h.provider h.id f pool.entries }) provider now
      ≡ some h'
    → (e : Entry) × (choose now (update_entry h.id f (entries_of h.provider pool.entries)) ≡ some e)
      × (e.handle ≡ h')
unfolding acquire
acquire-updated pool h f provider now h' named some_entry got =
    acquire_from-choose (record pool { entries = update_entries h.provider h.id f pool.entries })
      h.provider now (update_entry h.id f (entries_of h.provider pool.entries)) h'
      (nonempty-update_entry h.id f (entries_of h.provider pool.entries) ∙ some_entry)
      (rw (named, entries_of-update_entries h.provider h.id f pool.entries) at got)

-- After an authentication failure of a key its id is not handed out for its provider again, where
-- the provider has entries, with distinct ids.
pub acquire-report_auth_failed :
    (pool : KeyPool) (h : KeyHandle) (reason provider : Text) (now : ℕ) (h' : KeyHandle)
    → slug provider ≡ h.provider
    → nonempty (entries_of h.provider pool.entries) ≡ true
    → UniqueIds (entries_of h.provider pool.entries)
    → acquire (report_auth_failed pool h reason) provider now ≡ some h'
    → same_id h'.id h.id ≡ false
unfolding report_auth_failed
acquire-report_auth_failed pool h reason provider now h' named some_entry unique got =
    let es = entries_of h.provider pool.entries in
    let (e, chosen, same) =
      acquire-updated pool h (kill reason) provider now h' named some_entry got in
    elim (choose-All (Other h.id (λ x. alive x ≡ false)) now (update_entry h.id (kill reason) es) e
      (update_entry-All h.id (kill reason) (λ x. alive x ≡ false) es unique (kill-dead reason))
      chosen) [
        | inl other ↦ subst (λ (k : KeyHandle). same_id k.id h.id ≡ false) same other
        | inr dead ↦ absurd (ground (arith, choose-alive now _ e chosen))
      ]

two_pow-pos : (k : ℕ) → 1 ≤ 2 ^ k
two_pow-pos zero = omega arith
two_pow-pos (suc k) = rw pow-suc (omega (arith, two_pow-pos k))

-- The cooldown after a rate limit that names no time is between a minute and an hour.
pub cooldown_for-bounds :
    (failures : ℕ) → (60 ≤ cooldown_for none failures) × (cooldown_for none failures ≤ 3600)
unfolding cooldown_for
cooldown_for-bounds failures = (omega (arith, two_pow-pos (failures - 1)), omega arith)

cooldown_for-pos : (retry_after : Option ℕ) (failures : ℕ) → 1 ≤ cooldown_for retry_after failures
cooldown_for-pos none failures = omega (arith, (cooldown_for-bounds failures).0)
cooldown_for-pos (some zero) failures =
    unfold cooldown_for in omega (arith, two_pow-pos (failures - 1))
cooldown_for-pos (some (suc s)) failures = unfold cooldown_for in omega arith

-- A cooled key is not usable at once.
cool-usable :
    (retry_after : Option ℕ) (now : ℕ) (e : Entry) → usable now (cool retry_after now e) ≡ false
unfolding usable cool
cool-usable retry_after now e = ground (arith, cooldown_for-pos retry_after (e.consecutive_429 + 1))

any-weaken :
    (now : ℕ) (id : Option ℕ) (es : List Entry)
    → any (λ e. not (same_id e.handle.id id) && usable now e) es ≡ true
    → any (usable now) es ≡ true
any-weaken now id [] h = h
any-weaken now id (e ∷ es) h = ground (arith, any-weaken now id es)

any-update_entry :
    (now : ℕ) (id : Option ℕ) (f : Entry → Entry) (es : List Entry)
    → any (λ e. not (same_id e.handle.id id) && usable now e) es ≡ true
    → any (usable now) (update_entry id f es) ≡ true
unfolding update_entry
any-update_entry now id f [] h = h
any-update_entry now id f (e ∷ es) h =
    ground (arith, any-update_entry now id f es, any-weaken now id es)

first_choice :
    (now : ℕ) (es : List Entry) (e : Entry)
    → any (usable now) es ≡ true
    → choose now es ≡ some e
    → usable now e ≡ true
unfolding choose
first_choice now es e h c =
    ground (arith, is_some-first_entry (usable now) es, first_entry-passes (usable now) es e)

-- Right after a rate limit the pool rotates: another key is handed out, where the provider, with
-- distinct ids, has another usable one.
pub acquire-report_rate_limited :
    (pool : KeyPool) (h : KeyHandle) (retry_after : Option ℕ) (provider : Text) (now : ℕ)
    (h' : KeyHandle)
    → slug provider ≡ h.provider
    → any (λ e. not (same_id e.handle.id h.id) && usable now e) (entries_of h.provider pool.entries)
      ≡ true
    → UniqueIds (entries_of h.provider pool.entries)
    → acquire (report_rate_limited pool h retry_after now) provider now ≡ some h'
    → same_id h'.id h.id ≡ false
unfolding report_rate_limited
acquire-report_rate_limited pool h retry_after provider now h' named others unique got =
    let es = entries_of h.provider pool.entries in
    let f = cool retry_after now in
    let (e, chosen, same) =
      acquire-updated pool h f provider now h' named (nonempty_of_any _ es others) got in
    elim (choose-All (Other h.id (λ x. usable now x ≡ false)) now (update_entry h.id f es) e
      (update_entry-All h.id f (λ x. usable now x ≡ false) es unique (cool-usable retry_after now))
      chosen) [
        | inl other ↦ subst (λ (k : KeyHandle). same_id k.id h.id ≡ false) same other
        | inr hot ↦ absurd (
            ground (
              arith,
              first_choice now (update_entry h.id f es) e (any-update_entry now h.id f es others)
                  chosen,
            ))
      ]
