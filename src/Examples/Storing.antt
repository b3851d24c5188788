-- ===== src/Examples/Storing.antt =====
-- cache/service.py on a table of one entry, which has expired when the same question is stored again.
use ecoroute_ht.Base.{length, ◌≤◌, ℕ, ◌≡◌, String, [], ◌∷◌, none, some, arith, filter}
use ecoroute_ht.Numbers.{millionths}
use ecoroute_ht.Cache.Entries.{EntryKey, CacheEntry, CacheStore, Answer, is_active_for, store_entry}
use ecoroute_ht.Cache.Unique.{active, store_entry-one_active}
use ecoroute_ht.Cache.Refined.{IsStored, store_entry-IsStored}
use ecoroute_ht.Worker.Cleanup.{is_active, handle_cache_cleanup}
use ecoroute_ht.Worker.Capacity.{handle_cache_cleanup_le}
use ecoroute_ht.Examples.Selecting.{features}

abbrev pub key : EntryKey
key = record { workspace_id = 5; namespace_version = 1; fingerprint = "abc" }

abbrev entry : CacheEntry millionths String String
entry = record {
  id = 1;
  workspace_id = 5;
  logical_model_id = 6;
  exact_fingerprint = "abc";
  namespace_version = 1;
  system_prompt_hash = "h";
  tool_schema_hash = none;
  response_format_hash = none;
  language = "en";
  embedding = some "what is the return window";
  payload = "30 days";
  task_type = some "policy_qa";
  expires_at = 1000;
  invalidated_at = none;
  hit_count = 0;
  last_hit_at = none;
}

abbrev table : CacheStore millionths String String
table = record { entries = entry ∷ []; exact = [] }

abbrev answer : Answer millionths String String
answer = record {
  id = 2;
  logical_model_id = 6;
  payload = "30 days from delivery";
  task_type = "policy_qa";
  verdict_task_type = some "policy_qa";
  ttl_seconds = 3600;
}

store_entry-one_active_example :
    active millionths String String key
      (store_entry millionths String String (λ s. s) 2000 key features answer table).1.entries
    ≡ 1
unfolding active is_active_for
store_entry-one_active_example =
    store_entry-one_active millionths String String key (λ s. s) 2000 features answer table
      (omega arith)

abbrev near : CacheEntry millionths String String → ℕ
near e = 20000

store_entry-IsStored_example :
    IsStored millionths String String key
      (λ s. s)
      2000
      features
      answer
      table
      (store_entry millionths String String (λ s. s) 2000 key features answer table).1
unfolding active is_active_for
store_entry-IsStored_example =
    store_entry-IsStored millionths String String key (λ s. s) 2000 features answer table
      (omega arith)

handle_cache_cleanup_le_example :
    length (filter is_active (handle_cache_cleanup 500 0 (λ e. 400) table).1.entries) ≤ 0
handle_cache_cleanup_le_example = handle_cache_cleanup_le 500 0 (λ e. 400) table
