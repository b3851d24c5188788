-- ===== src/Cache/Refined.antt =====
-- cache/service.py: the table of entries as a map from keys to answers with their expiry.
use ecoroute_ht.Base.{
  ℕ, ◌+◌, ◌≤◌, ◌≡◌, refl, ap, ◌∙◌, String, Bool, true, false, ◌&&◌, ◌==◌, str_eq, List, [], ◌∷◌,
  ◌++◌, Option, none, eq_iff, some, find?, ltb, if◌then◌else◌, arith, Bool-cases, inl, inr,
}
use ecoroute_ht.Numbers.{Arithmetic}
use ecoroute_ht.Schemas.{NormalizedRequestFeatures}
use ecoroute_ht.Cache.Entries.{
  EntryKey, CacheEntry, new_entry, CacheStore, Answer, is_active_for, invalidate, store_after,
  store_entry,
}
use ecoroute_ht.Cache.Unique.{active, inactive, new_entry-active}

abbrev pub same_key : EntryKey → EntryKey → Bool
same_key j k =
    j.workspace_id == k.workspace_id
    && j.namespace_version == k.namespace_version
    && str_eq j.fingerprint k.fingerprint

find?-append_miss :
    {X : Type 0} (p : X → Bool) (y : X) (xs : List X)
    → p y ≡ false
    → find? p (xs ++ y ∷ []) ≡ find? p xs
unfolding find?
find?-append_miss p y [] h = rw h refl
find?-append_miss p y (x ∷ xs) h = ground (arith, find?-append_miss p y xs h)

find?-append_hit :
    {X : Type 0} (p : X → Bool) (y : X) (xs : List X)
    → find? p xs ≡ none
    → p y ≡ true
    → find? p (xs ++ y ∷ []) ≡ some y
unfolding find?
find?-append_hit p y [] e h = rw h refl
find?-append_hit p y (x ∷ xs) e h = ground (arith, find?-append_hit p y xs, h)

-- What is stored under a key: its answer, and when that expires.
abbrev pub Known : Type 0 → Type 0
Known Payload = Option (Payload × ℕ)

-- An answer that has not expired stays; otherwise the new one takes its place.
abbrev pub replaced {ℓ} : {X : Type ℓ} → ℕ → X × ℕ → Option (X × ℕ) → Option (X × ℕ)
replaced now new none = some new
replaced now new (some old) = if ltb now old.1 then some old else some new

module _ (A : Arithmetic) (Vector Payload : Type 0) where
  abbrev Entry : Type 0
  Entry = CacheEntry A Vector Payload

  abbrev pub known_of : Option Entry → Known Payload
  known_of none = none
  known_of (some e) = some (e.payload, e.expires_at)

  -- The table as a map from keys.
  unfoldable pub view : List Entry → EntryKey → Known Payload
  view es k = known_of (find? (is_active_for A Vector Payload k) es)

  module _ (k : EntryKey) where
    none-active :
        (es : List Entry)
        → active A Vector Payload k es ≡ 0
        → find? (is_active_for A Vector Payload k) es ≡ none
    unfolding active find?
    none-active [] h = refl
    none-active (e ∷ es) h = ground (arith, none-active es)

    find?-invalidate :
        (now : ℕ) (es : List Entry)
        → active A Vector Payload k es ≤ 1
        → find? (is_active_for A Vector Payload k) (invalidate A Vector Payload k now es) ≡ none
    unfolding active find? invalidate
    find?-invalidate now [] h = refl
    find?-invalidate now (x ∷ xs) h = elim (Bool-cases (is_active_for A Vector Payload k x)) [
      | inl t ↦ rw t (rw (inactive A Vector Payload k now x) (none-active xs (ground (arith, t))))
      | inr n ↦ rw n (rw n (find?-invalidate now xs (ground (arith, n))))
    ]

  other_key :
      (j k : EntryKey) (e : Entry)
      → same_key j k ≡ false
      → is_active_for A Vector Payload k e ≡ true
      → is_active_for A Vector Payload j e ≡ false
  unfolding is_active_for
  other_key j k e d h = ground (
    arith,
    eq_iff e.exact_fingerprint k.fingerprint,
    eq_iff e.exact_fingerprint j.fingerprint,
    eq_iff j.fingerprint k.fingerprint,
  )

  find?-invalidate_other :
      (j k : EntryKey) (now : ℕ) (es : List Entry)
      → same_key j k ≡ false
      → known_of (find? (is_active_for A Vector Payload j) (invalidate A Vector Payload k now es))
        ≡ known_of (find? (is_active_for A Vector Payload j) es)
  unfolding find? invalidate
  find?-invalidate_other j k now [] d = refl
  find?-invalidate_other j k now (x ∷ xs) d =
      elim (Bool-cases (is_active_for A Vector Payload k x)) [
        | inl t ↦ rw t (rw (inactive A Vector Payload j now x) (rw (other_key j k x d t) refl))
        | inr n ↦ rw n (elim (Bool-cases (is_active_for A Vector Payload j x)) [
          | inl y ↦ rw y refl
          | inr y ↦ rw y (find?-invalidate_other j k now xs d)
        ])
      ]

  module _ (k : EntryKey) (encode : String → Vector) (now : ℕ) (f : NormalizedRequestFeatures)
      (a : Answer A Vector Payload) where
    -- The map after the answer was stored.
    abbrev pub IsStored : CacheStore A Vector Payload → CacheStore A Vector Payload → Type 0
    IsStored before after =
        (view after.entries k
          ≡ replaced now (a.payload, now + a.ttl_seconds) (view before.entries k))
        × ((j : EntryKey) → same_key j k ≡ false → view after.entries j ≡ view before.entries j)

    new_other :
        (j : EntryKey)
        → same_key j k ≡ false
        → is_active_for A Vector Payload j (new_entry A Vector Payload encode now k f a) ≡ false
    new_other j d = other_key j k _ d (new_entry-active A Vector Payload k encode now f a)

    store_after-IsStored :
        (o : Option Entry) (s : CacheStore A Vector Payload)
        → find? (is_active_for A Vector Payload k) s.entries ≡ o
        → active A Vector Payload k s.entries ≤ 1
        → IsStored s (store_after A Vector Payload encode now k f a o s).1
    unfolding store_after view
    store_after-IsStored none s h one = (
      rw
          (
            h,
            find?-append_hit (is_active_for A Vector Payload k) _ s.entries h
                (new_entry-active A Vector Payload k encode now f a),
          )
          refl,
      λ j d.
          ap known_of
            (find?-append_miss (is_active_for A Vector Payload j) _ s.entries (new_other j d)),
    )
    store_after-IsStored (some e) s h one = elim (Bool-cases (ltb now e.expires_at)) [
      | inl t ↦ (rw (t, h) (rw t refl), λ j d. rw t refl)
      | inr n ↦ (
        rw (n, h)
            (rw n (
              ap known_of (
                find?-append_hit (is_active_for A Vector Payload k) _
                  (invalidate A Vector Payload k now s.entries)
                  (find?-invalidate k now s.entries one)
                  (new_entry-active A Vector Payload k encode now f a)))),
        λ j d. rw n (
            ap known_of (
              find?-append_miss (is_active_for A Vector Payload j) _
                (invalidate A Vector Payload k now s.entries) (new_other j d))
            ∙ find?-invalidate_other j k now s.entries d),
      )
    ]

    -- Where at most one entry is active for the key, storing an answer changes the table as a map: the
    -- key has its answer that has not expired, or the new one, and no other key changes.
    pub store_entry-IsStored :
        (s : CacheStore A Vector Payload)
        → active A Vector Payload k s.entries ≤ 1
        → IsStored s (store_entry A Vector Payload encode now k f a s).1
    unfolding store_entry
    store_entry-IsStored s one = store_after-IsStored _ s refl one
