-- ===== src/Cache/Unique.antt =====
-- cache/service.py: one active entry for a workspace, namespace and fingerprint.
use ecoroute_ht.Base.{
  ℕ, suc, ◌+◌, ◌≤◌, ◌≡◌, refl, ap, ◌∙◌, String, true, false, List, [], ◌∷◌, ◌++◌, Option, none,
  some, find?, ==_iff, eq_iff, ltb, if◌then◌else◌, arith, Bool-cases, inl, inr,
}
use ecoroute_ht.Numbers.{Arithmetic}
use ecoroute_ht.Schemas.{NormalizedRequestFeatures}
use ecoroute_ht.Cache.Entries.{
  EntryKey, CacheEntry, new_entry, CacheStore, Answer, is_active_for, invalidate, store_after,
  store_entry,
}

module _ (A : Arithmetic) (Vector Payload : Type 0) (k : EntryKey) where
  abbrev Entry : Type 0
  Entry = CacheEntry A Vector Payload

  -- How many entries are active for the key.
  unfoldable pub active : List Entry → ℕ
  active [] = 0
  active (e ∷ es) = let n = active es in if is_active_for A Vector Payload k e then suc n else n

  active-append : (xs ys : List Entry) → active (xs ++ ys) ≡ active xs + active ys
  unfolding active
  active-append [] ys = omega arith
  active-append (x ∷ xs) ys = ground (arith, active-append xs ys)

  active-none :
      (es : List Entry) → find? (is_active_for A Vector Payload k) es ≡ none → active es ≡ 0
  unfolding active find?
  active-none [] h = refl
  active-none (e ∷ es) h = ground (arith, active-none es)

  pub inactive :
      (now : ℕ) (e : Entry)
      → is_active_for A Vector Payload k (record e { invalidated_at = some now }) ≡ false
  unfolding is_active_for
  inactive now e = ground arith

  active-invalidate :
      (now : ℕ) (e : Entry) (es : List Entry)
      → find? (is_active_for A Vector Payload k) es ≡ some e
      → suc (active (invalidate A Vector Payload k now es)) ≡ active es
  unfolding active find? invalidate
  active-invalidate now e [] h = cc
  active-invalidate now e (x ∷ xs) h = elim (Bool-cases (is_active_for A Vector Payload k x)) [
    | inl t ↦ rw t (rw (inactive now x) refl)
    | inr n ↦ rw n (rw n (active-invalidate now e xs (rw n at h)))
  ]

  active-some :
      (e : Entry) (es : List Entry)
      → find? (is_active_for A Vector Payload k) es ≡ some e
      → 1 ≤ active es
  unfolding active find?
  active-some e [] h = cc
  active-some e (x ∷ xs) h = ground (arith, active-some e xs)

  pub new_entry-active :
      (encode : String → Vector) (now : ℕ) (f : NormalizedRequestFeatures)
      (a : Answer A Vector Payload)
      → is_active_for A Vector Payload k (new_entry A Vector Payload encode now k f a) ≡ true
  unfolding is_active_for
  new_entry-active encode now f a = rw ((==_iff k.workspace_id k.workspace_id).1 refl) (
      rw ((==_iff k.namespace_version k.namespace_version).1 refl)
        (rw ((eq_iff k.fingerprint k.fingerprint).1 refl) refl))

  active-insert :
      (e : Entry) (es : List Entry)
      → is_active_for A Vector Payload k e ≡ true
      → active (es ++ e ∷ []) ≡ suc (active es)
  unfolding active
  active-insert e es t =
      let last : active (e ∷ []) ≡ 1 = rw t refl in omega (arith, active-append es (e ∷ []), last)

  store_after-one_active :
      (encode : String → Vector) (now : ℕ) (f : NormalizedRequestFeatures)
      (a : Answer A Vector Payload) (o : Option Entry) (s : CacheStore A Vector Payload)
      → find? (is_active_for A Vector Payload k) s.entries ≡ o
      → active s.entries ≤ 1
      → active (store_after A Vector Payload encode now k f a o s).1.entries ≡ 1
  unfolding store_after
  store_after-one_active encode now f a none s h one =
      active-insert _ s.entries (new_entry-active encode now f a)
      ∙ ap (λ n. suc n) (active-none s.entries h)
  store_after-one_active encode now f a (some e) s h one =
      elim (Bool-cases (ltb now e.expires_at)) [
        | inl t ↦ rw (t, store_after) (omega (arith, active-some e s.entries h))
        | inr n ↦
            rw (n, store_after)
              (active-insert _ (invalidate A Vector Payload k now s.entries)
                  (new_entry-active encode now f a)
                ∙ omega (arith, active-invalidate now e s.entries h, active-some e s.entries h))
      ]

  -- Storing an answer leaves exactly one active entry for its workspace, namespace and fingerprint,
  -- where there was at most one.
  pub store_entry-one_active :
      (encode : String → Vector) (now : ℕ) (f : NormalizedRequestFeatures)
      (a : Answer A Vector Payload) (s : CacheStore A Vector Payload)
      → active s.entries ≤ 1
      → active (store_entry A Vector Payload encode now k f a s).1.entries ≡ 1
  unfolding store_entry
  store_entry-one_active encode now f a s one = store_after-one_active encode now f a _ s refl one
