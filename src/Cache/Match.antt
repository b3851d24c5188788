-- ===== src/Cache/Match.antt =====
-- cache/service.py: what `semantic_find` may answer.
use ecoroute_ht.Base.{ℕ, ◌<◌, ◌≡◌, none}
use ecoroute_ht.Numbers.{Arithmetic}
use ecoroute_ht.Schemas.{Uuid, NormalizedRequestFeatures}
use ecoroute_ht.Cache.Entries.{CacheEntry}

module _ (A : Arithmetic) (Vector Payload : Type 0)
    (distance : CacheEntry A Vector Payload → A.Float) where
  open A use {Float, f_le}

  abbrev Entry : Type 0
  Entry = CacheEntry A Vector Payload

  -- An entry that answers the request of the workspace and model.
  pub record IsMatch (now : ℕ) (workspace model : Uuid) (f : NormalizedRequestFeatures)
      (version : ℕ) (e : Entry) : Type 0 where
    pub own_workspace : e.workspace_id ≡ workspace
    pub own_model : e.logical_model_id ≡ model
    pub own_version : e.namespace_version ≡ version
    pub same_context : e.system_prompt_hash ≡ f.system_prompt_hash
    pub same_language : e.language ≡ f.requested_language
    pub not_expired : now < e.expires_at
    pub not_invalidated : e.invalidated_at ≡ none
    pub same_tools : e.tool_schema_hash ≡ f.tool_schema_hash
    pub same_format : e.response_format_hash ≡ f.response_format_hash
