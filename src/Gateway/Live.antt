-- ===== src/Gateway/Live.antt =====
-- api/gateway.py: the loop of `live_events`, which passes a provider's chunks on as they arrive. The JSON
-- of a chunk is a parameter; what the provider and the client do is a list of rounds.
use ecoroute_ht.Base.{
  ℕ, ◌/◌, String, Bool, List, ◌++◌, [], ◌∷◌, Option, none, some, max, if◌then◌else◌,
}

-- "usage", as far as it is read
pub record Usage : Type 0 where
  pub prompt_tokens : Option ℕ
  pub completion_tokens : Option ℕ

-- The JSON objects of the chunks and of the completion that they make up.
pub record Chunks (Chunk Completion : Type 0) : Type 0 where
  pub contents : Chunk → List String  -- the texts of the choices' deltas
  pub finish_reasons : Chunk → List String  -- of the choices that have one
  pub usage : Chunk → Option Usage
  pub set_model : String → Chunk → Chunk
  pub join : List String → String
  pub len : String → ℕ
  pub compose : Chunk → String → String → String → Usage → Completion
  -- ^ from the first chunk, the model, the content, the finish reason and the usage
  pub usage_chunk : Chunk → String → Usage → Chunk

-- A round of the loop: the client has gone, a chunk arrives, the task is cancelled, or the provider
-- raises or takes too long; or the generator is closed where it has yielded. The list of the rounds ends where the provider's chunks do.
pub data Round (Chunk : Type 0) : Type 0 where
  hung_up cancelled broken : Round Chunk
  closed : Round Chunk
  receives : Chunk → Round Chunk

pub record Heard (Chunk : Type 0) : Type 0 where
  pub content_parts : List String
  pub finish_reason : String
  pub upstream_usage : Option Usage
  pub sent : List Chunk

pub data StreamFailure : Type 0 where
  client_cancelled partial_stream_error : StreamFailure

pub data Ended (Chunk : Type 0) : Type 0 where
  finished : Heard Chunk → Ended Chunk
  stopped : StreamFailure → Heard Chunk → Ended Chunk
  abandoned : Heard Chunk → Ended Chunk  -- GeneratorExit at the `yield`, which no handler catches

-- the last of the finish reasons
unfoldable pub last_or : String → List String → String
last_or s [] = s
last_or s (t ∷ ts) = last_or t ts

abbrev pub newer {ℓ} : {X : Type ℓ} → Option X → Option X → Option X
newer old none = old
newer old (some x) = some x

abbrev pub nothing_heard : {Chunk : Type 0} → Heard Chunk
nothing_heard = record {
  content_parts = [];
  finish_reason = "stop";
  upstream_usage = none;
  sent = [];
}

module _ {Chunk Completion : Type 0} (chunks : Chunks Chunk Completion) (model : String) where
  unfoldable pub hear : Chunk → Heard Chunk → Heard Chunk
  unfolding last_or
  hear chunk h =
      let normalized = chunks.set_model model chunk in
      record {
        content_parts = h.content_parts ++ chunks.contents normalized;
        finish_reason = last_or h.finish_reason (chunks.finish_reasons normalized);
        upstream_usage = newer h.upstream_usage (chunks.usage normalized);
        sent = h.sent ++ normalized ∷ [];
      }

  unfoldable pub listen : Heard Chunk → List (Round Chunk) → Ended Chunk
  unfolding hear
  listen h [] = Ended.finished h
  listen h (Round.hung_up ∷ _) = Ended.stopped StreamFailure.client_cancelled h
  listen h (Round.cancelled ∷ _) = Ended.stopped StreamFailure.client_cancelled h
  listen h (Round.broken ∷ _) = Ended.stopped StreamFailure.partial_stream_error h
  listen h (Round.closed ∷ _) = Ended.abandoned h
  listen h (Round.receives chunk ∷ rounds) = listen (hear chunk h) rounds

  -- the first chunk is there before the loop; `has_gone` is that the client has gone
  unfoldable pub live_events : Bool → Chunk → List (Round Chunk) → Ended Chunk
  unfolding hear listen
  live_events has_gone first rounds =
      if has_gone
      then Ended.stopped StreamFailure.client_cancelled nothing_heard
      else listen (hear first nothing_heard) rounds

  -- max(1, len(content) // 4)
  abbrev pub estimated_output : Heard Chunk → ℕ
  estimated_output h = max 1 (chunks.len (chunks.join h.content_parts) / 4)
