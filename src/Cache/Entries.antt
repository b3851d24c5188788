-- ===== src/Cache/Entries.antt =====
-- cache/service.py, `CacheService`: `semantic_find` and `store_entry` over the table of entries and the
-- exact cache of Redis. The embedding of a text and the distance of two embeddings are parameters; the
-- answer that is stored, a JSON object, is of any type.
use ecoroute_ht.Base.{
  ℕ, ◌+◌, ◌-◌, String, Bool, false, ◌&&◌, List, [], ◌∷◌, ◌++◌, map, filter, Option, none, some,
  is_none, is_some, find?, str_eq, ◌==◌, max, ltb, sort_by, if◌then◌else◌,
}
use ecoroute_ht.Numbers.{Arithmetic, f_lt}
use ecoroute_ht.Schemas.{Uuid, NormalizedRequestFeatures}

-- What an active entry is found by: the workspace, the version of the namespace and the fingerprint.
pub record EntryKey : Type 0 where
  pub workspace_id : Uuid
  pub namespace_version : ℕ
  pub fingerprint : String

module _ (A : Arithmetic) (Vector Payload : Type 0) where
  open A use {Float, f_lit, f_sub, f_le}

  pub record CacheEntry : Type 0 where
    pub id : Uuid
    pub workspace_id : Uuid
    pub logical_model_id : Uuid
    pub exact_fingerprint : String
    pub namespace_version : ℕ
    pub system_prompt_hash : String
    pub tool_schema_hash : Option String
    pub response_format_hash : Option String
    pub language : String
    pub embedding : Option Vector
    pub payload : Payload  -- the completion with its source and baselines
    pub task_type : Option String  -- quality_verdict["task_type"]
    pub expires_at : ℕ
    pub invalidated_at : Option ℕ
    pub hit_count : ℕ
    pub last_hit_at : Option ℕ

  -- What Redis is told to keep, for how many seconds, the latest first.
  pub record ExactSet : Type 0 where
    pub workspace_id : Uuid
    pub fingerprint : String
    pub payload : Payload
    pub ttl : ℕ

  pub record CacheStore : Type 0 where
    pub entries : List CacheEntry
    pub exact : List ExactSet

  -- the `where` of the query for an existing entry
  unfoldable pub is_active_for : EntryKey → CacheEntry → Bool
  is_active_for k e =
      e.workspace_id == k.workspace_id
      && e.namespace_version == k.namespace_version
      && str_eq e.exact_fingerprint k.fingerprint
      && is_none e.invalidated_at

  -- the entry that the query found is invalidated
  unfoldable pub invalidate : EntryKey → ℕ → List CacheEntry → List CacheEntry
  invalidate k now [] = []
  invalidate k now (e ∷ es) =
      let rest = invalidate k now es in
      if is_active_for k e then record e { invalidated_at = some now } ∷ es else e ∷ rest

  abbrev exact_of : EntryKey → Payload → ℕ → ExactSet
  exact_of k payload ttl = record {
    workspace_id = k.workspace_id;
    fingerprint = k.fingerprint;
    payload = payload;
    ttl = ttl;
  }

  -- What the caller gives for a new entry.
  pub record Answer : Type 0 where
    pub id : Uuid  -- of the new row
    pub logical_model_id : Uuid
    pub payload : Payload
    pub task_type : String
    pub verdict_task_type : Option String
    pub ttl_seconds : ℕ

  abbrev pub new_entry :
      (String → Vector) → ℕ → EntryKey → NormalizedRequestFeatures → Answer → CacheEntry
  new_entry encode now k f a = record {
    id = a.id;
    workspace_id = k.workspace_id;
    logical_model_id = a.logical_model_id;
    exact_fingerprint = k.fingerprint;
    namespace_version = k.namespace_version;
    system_prompt_hash = f.system_prompt_hash;
    tool_schema_hash = f.tool_schema_hash;
    response_format_hash = f.response_format_hash;
    language = f.requested_language;
    embedding = if str_eq a.task_type "policy_qa" then some (encode f.normalized_text) else none;
    payload = a.payload;
    task_type = a.verdict_task_type;
    expires_at = now + a.ttl_seconds;
    invalidated_at = none;
    hit_count = 0;
    last_hit_at = none;
  }

  abbrev pub insert :
      EntryKey → Answer → CacheEntry → List CacheEntry → List ExactSet → CacheEntry × CacheStore
  insert k a entry entries exact = (
    entry,
    record { entries = entries ++ entry ∷ []; exact = exact_of k a.payload a.ttl_seconds ∷ exact },
  )

  unfoldable pub store_after :
      (String → Vector)
      → ℕ
      → EntryKey
      → NormalizedRequestFeatures
      → Answer
      → Option CacheEntry
      → CacheStore
      → CacheEntry × CacheStore
  unfolding invalidate
  store_after encode now k f a none s = insert k a (new_entry encode now k f a) s.entries s.exact
  store_after encode now k f a (some existing) s =
      if ltb now existing.expires_at
      then (
        existing,
        record s {
          exact = exact_of k existing.payload (max 60 (existing.expires_at - now)) ∷ s.exact;
        },
      )
      else insert k a (new_entry encode now k f a) (invalidate k now s.entries) s.exact

  unfoldable pub store_entry :
      (String → Vector)
      → ℕ
      → EntryKey
      → NormalizedRequestFeatures
      → Answer
      → CacheStore
      → CacheEntry × CacheStore
  unfolding store_after is_active_for
  store_entry encode now k f a s =
      store_after encode now k f a (find? (is_active_for k) s.entries) s

  -- a hash that is given is equal, and one that is not is missing
  abbrev pub same_hash : Option String → Option String → Bool
  same_hash none wanted = is_none wanted
  same_hash (some h) none = false
  same_hash (some h) (some wanted) = str_eq h wanted

  abbrev pub is_policy_qa : Option String → Bool
  is_policy_qa none = false
  is_policy_qa (some t) = str_eq t "policy_qa"

  -- the filters of `semantic_find`
  unfoldable pub is_comparable : ℕ → Uuid → Uuid → NormalizedRequestFeatures → ℕ → CacheEntry → Bool
  is_comparable now workspace model f version e =
      e.workspace_id == workspace
      && e.logical_model_id == model
      && e.namespace_version == version
      && str_eq e.system_prompt_hash f.system_prompt_hash
      && str_eq e.language f.requested_language
      && ltb now e.expires_at
      && is_none e.invalidated_at
      && is_some e.embedding
      && is_policy_qa e.task_type
      && same_hash e.tool_schema_hash f.tool_schema_hash
      && same_hash e.response_format_hash f.response_format_hash

  module _ (distance : CacheEntry → Float) where
    -- 1 - distance
    abbrev pub similarity : CacheEntry → Float
    similarity e = f_sub (f_lit 1 0) (distance e)

    -- the rows in the order of their distance; only the first two of the three are read
    unfoldable pub pick_nearest : Float → List CacheEntry → Option CacheEntry
    pick_nearest threshold [] = none
    pick_nearest threshold (e ∷ []) = if f_lt A (similarity e) threshold then none else some e
    pick_nearest threshold (e ∷ d ∷ ds) =
        if f_lt A (similarity e) threshold
        then none
        else if f_lt A (f_sub (similarity e) (similarity d)) (f_lit 2 2)
        then none
        else some e

    unfoldable pub nearest_match :
        ℕ
        → Uuid
        → Uuid
        → NormalizedRequestFeatures
        → ℕ
        → Float
        → List CacheEntry
        → Option CacheEntry
    unfolding is_comparable pick_nearest
    nearest_match now workspace model f version threshold entries = pick_nearest threshold (
        sort_by (λ a b. f_lt A (distance a) (distance b))
          (filter (is_comparable now workspace model f version) entries))

    -- the entry with its hit counted
    abbrev pub hit : ℕ → CacheEntry → CacheEntry
    hit now e = record e { hit_count = e.hit_count + 1; last_hit_at = some now }

    abbrev counted : ℕ → Option CacheEntry → List CacheEntry → Option CacheEntry × List CacheEntry
    counted now none entries = (none, entries)
    counted now (some found) entries =
        (some (hit now found), map (λ e. if e.id == found.id then hit now e else e) entries)

    -- the answer, and the table with the hit counted
    unfoldable pub semantic_find :
        ℕ
        → Uuid
        → Uuid
        → NormalizedRequestFeatures
        → ℕ
        → Float
        → List CacheEntry
        → Option CacheEntry × List CacheEntry
    unfolding nearest_match
    semantic_find now workspace model f version threshold entries =
        counted now (nearest_match now workspace model f version threshold entries) entries
