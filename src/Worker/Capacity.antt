-- ===== src/Worker/Capacity.antt =====
-- handlers.py: how many entries of the cache a cleanup leaves.
use ecoroute_ht.Base.{
  max, All-of_Member, length-sort_by, length-filter-sort_by, ℕ, zero, suc, ◌+◌, ◌-◌, ◌≤◌, ◌≡◌, refl,
  ◌==◌, ==_iff, Bool, true, false, not, List, [], ◌∷◌, filter, any-true, length, ltb, sort_by, All,
  All-of_Member, arith, if-holds, length-filter-le,
}
use ecoroute_ht.Numbers.{Arithmetic}
use ecoroute_ht.Cache.Entries.{CacheEntry, CacheStore}
use ecoroute_ht.Worker.Cleanup.{
  first_rows, is_expired, is_active, is_older, is_chosen, evict, oldest, handle_cache_cleanup,
}

module _ {X : Type 0} (p : X → Bool) where
  -- How many elements of a list are counted after the first `n` are.
  first_rows-filter :
      (n : ℕ) (xs : List X)
      → All (λ x. p x ≡ false) (first_rows n xs)
      → length (filter p xs) + n ≤ max (length xs) n
  unfolding first_rows filter
  first_rows-filter zero [] h = omega arith
  first_rows-filter (suc n) [] h = omega arith
  first_rows-filter zero (x ∷ xs) h = omega (arith, length-filter-le p (x ∷ xs))
  first_rows-filter (suc n) (x ∷ xs) h = ground (arith, h.0, first_rows-filter n xs h.1)

module _ {A : Arithmetic} {Vector Payload : Type 0} where
  -- Those that stay active are the active ones that were not chosen.
  filter-evict :
      (now : ℕ) (chosen es : List (CacheEntry A Vector Payload))
      → length (filter is_active (evict now chosen es))
        ≡ length (filter (λ e. not (is_chosen chosen e)) (filter is_active es))
  unfolding filter evict
  filter-evict now chosen [] = refl
  filter-evict now chosen (e ∷ es) = ground (arith, filter-evict now chosen es)

  chosen-chosen :
      (chosen : List (CacheEntry A Vector Payload))
      → All (λ e. not (is_chosen chosen e) ≡ false) chosen
  chosen-chosen chosen = All-of_Member _ chosen λ e m.
      let t : is_chosen chosen e ≡ true =
        any-true (λ c. c.id == e.id) e chosen m ((==_iff e.id e.id).1 refl) in
      rw t refl

  -- After a cleanup at most as many entries are active as the cache may hold.
  pub handle_cache_cleanup_le :
      (now max_entries : ℕ) (created : CacheEntry A Vector Payload → ℕ)
      (s : CacheStore A Vector Payload)
      → length (filter is_active (handle_cache_cleanup now max_entries created s).1.entries)
        ≤ max_entries
  unfolding handle_cache_cleanup oldest
  handle_cache_cleanup_le now max_entries created s =
      let kept = filter (λ e. not (is_expired now e)) s.entries in
      let active = filter is_active kept in
      let sorted = sort_by (is_older created) active in
      if-holds
        (λ (chosen : List (CacheEntry A Vector Payload)).
          length (filter is_active (evict now chosen kept)) ≤ max_entries)
        (ltb max_entries (length active)) _ _
        (λ t.
          let chosen = first_rows (length active - max_entries) sorted in
          let unchosen = λ (e : CacheEntry A Vector Payload). not (is_chosen chosen e) in
          ground (
            arith,
            t,
            filter-evict now chosen kept,
            length-filter-sort_by (is_older created) unchosen active,
            length-sort_by (is_older created) active,
            first_rows-filter unchosen (length active - max_entries) sorted (chosen-chosen chosen),
          ))
        (λ f. ground (
          arith,
          f,
          filter-evict now [] kept,
          length-filter-le (λ (e : CacheEntry A Vector Payload). not (is_chosen [] e)) active,
        ))
