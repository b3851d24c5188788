-- ===== src/Worker/Cleanup.antt =====
-- worker/ecoroute_worker/jobs/handlers.py, `handle_cache_cleanup`, over the table of entries and the exact cache of
-- Redis. The column created_at of an entry is a parameter.
use ecoroute_ht.Base.{
  ℕ, zero, suc, ◌+◌, ◌-◌, Bool, true, false, not, ◌&&◌, ◌||◌, ◌==◌, str_eq, List, [], ◌∷◌, ◌++◌,
  map, filter, any, Option, none, some, is_none, is_some, length, leb, ltb, sort_by, if◌then◌else◌,
}
use ecoroute_ht.Numbers.{Arithmetic}
use ecoroute_ht.Cache.Entries.{CacheEntry, CacheStore, ExactSet}

-- .limit(n)
unfoldable pub first_rows : {X : Type 0} → ℕ → List X → List X
first_rows n [] = []
first_rows zero (x ∷ xs) = []
first_rows (suc n) (x ∷ xs) = x ∷ first_rows n xs

pub record CleanupResult : Type 0 where
  pub expired : ℕ
  pub invalidated_retained : ℕ
  pub capacity_evicted : ℕ

-- order_by(last_hit_at.asc().nullsfirst(), created_at)
abbrev pub hit_before : Option ℕ → Option ℕ → Bool → Bool
hit_before none none earlier = earlier
hit_before none (some b) earlier = true
hit_before (some a) none earlier = false
hit_before (some a) (some b) earlier = ltb a b || a == b && earlier

module _ {A : Arithmetic} {Vector Payload : Type 0} where
  abbrev pub is_expired : ℕ → CacheEntry A Vector Payload → Bool
  is_expired now e = leb e.expires_at now

  abbrev pub is_invalidated : ℕ → CacheEntry A Vector Payload → Bool
  is_invalidated now e = is_some e.invalidated_at && ltb now e.expires_at

  abbrev pub is_active : CacheEntry A Vector Payload → Bool
  is_active e = is_none e.invalidated_at

  -- the key of Redis is that of the entry
  abbrev pub is_key_of : CacheEntry A Vector Payload → ExactSet A Vector Payload → Bool
  is_key_of e x = x.workspace_id == e.workspace_id && str_eq x.fingerprint e.exact_fingerprint

  -- redis_client.delete for each of the entries
  unfoldable pub delete_keys :
      List (CacheEntry A Vector Payload)
      → List (ExactSet A Vector Payload)
      → List (ExactSet A Vector Payload)
  delete_keys es = filter λ x. not (any (λ e. is_key_of e x) es)

  abbrev pub is_older :
      (CacheEntry A Vector Payload → ℕ)
      → CacheEntry A Vector Payload
      → CacheEntry A Vector Payload
      → Bool
  is_older created x y = hit_before x.last_hit_at y.last_hit_at (ltb (created x) (created y))

  abbrev pub is_chosen : List (CacheEntry A Vector Payload) → CacheEntry A Vector Payload → Bool
  is_chosen chosen e = any (λ c. c.id == e.id) chosen

  -- entry.invalidated_at = now for the entries that were chosen
  unfoldable pub evict :
      ℕ
      → List (CacheEntry A Vector Payload)
      → List (CacheEntry A Vector Payload)
      → List (CacheEntry A Vector Payload)
  evict now chosen =
      map (λ e. if is_chosen chosen e then record e { invalidated_at = some now } else e)

  -- the entries to evict, where `active_count` is above the limit
  unfoldable pub oldest :
      ℕ
      → (CacheEntry A Vector Payload → ℕ)
      → List (CacheEntry A Vector Payload)
      → List (CacheEntry A Vector Payload)
  unfolding first_rows
  oldest max_entries created es =
      let active = filter is_active es in
      if ltb max_entries (length active)
      then first_rows (length active - max_entries) (sort_by (is_older created) active)
      else []

  unfoldable pub handle_cache_cleanup :
      ℕ
      → ℕ
      → (CacheEntry A Vector Payload → ℕ)
      → CacheStore A Vector Payload
      → CleanupResult × CacheStore A Vector Payload
  unfolding delete_keys oldest evict
  handle_cache_cleanup now max_entries created s =
      let expired = filter (is_expired now) s.entries in
      let invalidated = filter (is_invalidated now) s.entries in
      let kept = filter (λ e. not (is_expired now e)) s.entries in
      let chosen = oldest max_entries created kept in
      (
        record {
          expired = length expired;
          invalidated_retained = length invalidated + length chosen;
          capacity_evicted = length chosen;
        },
        record {
          entries = evict now chosen kept;
          exact = delete_keys chosen (delete_keys (expired ++ invalidated) s.exact);
        },
      )
