-- ===== src/Gateway/Ledger.antt =====
-- api/gateway.py: the rows that `chat_completions` writes and what it sends, as one state. `calls` are
-- the endpoints that the providers were asked for, the latest last.
use ecoroute_ht.Base.{ℕ, String, Bool, true, List, [], ◌∷◌, ◌++◌, Option, none, some}
use ecoroute_ht.Numbers.{Arithmetic}
use ecoroute_ht.Schemas.{Uuid}
use ecoroute_ht.Routing.Ranking.{SelectionReason}
use ecoroute_ht.Carbon.Impact.{ImpactCalculation}
use ecoroute_ht.Cache.Entries.{CacheStore}

pub data RequestStatus : Type 0 where
  routing completed failed client_cancelled partial_stream_error : RequestStatus

-- GatewayRequest
pub record RequestRow : Type 0 where
  pub status : RequestStatus
  pub error_code : Option String
  pub selected_endpoint_id : Option Uuid
  pub fallback_used : Bool
  pub output_tokens : Option ℕ

pub data Purpose : Type 0 where
  selected transport_fallback quality_fallback : Purpose

pub data AttemptStatus : Type 0 where
  completed failed streaming client_cancelled partial_stream_error : AttemptStatus

-- ModelAttempt
pub record Attempt : Type 0 where
  pub attempt_number : ℕ
  pub endpoint_id : Uuid
  pub purpose : Purpose
  pub status : AttemptStatus
  pub error_code : Option String
  pub input_tokens : Option ℕ
  pub output_tokens : Option ℕ
  pub passed : Option Bool  -- quality_verdict["passed"]

-- decision.selection_reason
pub data DecisionReason : Type 0 where
  by_selection : SelectionReason → DecisionReason
  transport_fallback_before_stream quality_fallback : DecisionReason

-- RouteDecision
pub record Decision : Type 0 where
  pub selected_endpoint_id : Uuid
  pub selection_reason : DecisionReason

pub data Published : Type 0 where
  route_selected : Uuid → Published
  route_failed : String → Published
  cache_stored : Published
  route_completed : Uuid → Bool → Published

-- The value that the exact cache gives back: the completion, the endpoint it came from, and the baseline.
pub record Stored (A : Arithmetic) (Completion : Type 0) : Type 0 where
  pub completion : Completion
  pub source_endpoint_id : Uuid
  pub baseline_energy_kwh : A.Float
  pub baseline_cost_usd : A.Decimal

pub record Ledger (A : Arithmetic) (Vector Completion : Type 0) : Type 0 where
  pub row : RequestRow
  pub attempts : List Attempt
  pub decision : Option Decision
  pub published : List Published
  pub impacts : List (ImpactCalculation A)
  pub cache : CacheStore A Vector (Stored A Completion)
  pub calls : List Uuid

-- EcoRouteError
pub record GatewayError : Type 0 where
  pub message : String
  pub status_code : ℕ
  pub code : String
  pub error_type : String

-- What the handler raises: its own error, or an exception that nothing catches, a KeyError of a
-- completion with no message or what else a selection raises.
pub data Raised : Type 0 where
  error : GatewayError → Raised
  unhandled : Raised

module _ {A : Arithmetic} {Vector Completion : Type 0} where
  abbrev pub called : Uuid → Ledger A Vector Completion → Ledger A Vector Completion
  called id l = record l { calls = l.calls ++ id ∷ [] }

  abbrev pub add_attempt : Attempt → Ledger A Vector Completion → Ledger A Vector Completion
  add_attempt a l = record l { attempts = l.attempts ++ a ∷ [] }

  abbrev pub publish : Published → Ledger A Vector Completion → Ledger A Vector Completion
  publish e l = record l { published = l.published ++ e ∷ [] }

  -- row.selected_endpoint_id = id; row.fallback_used = True
  abbrev pub fall_back : Uuid → Ledger A Vector Completion → Ledger A Vector Completion
  fall_back id l = record l {
    row = record l.row { selected_endpoint_id = some id; fallback_used = true };
  }

  -- row.status = "failed"; row.error_code = code
  abbrev pub fail_row : String → Ledger A Vector Completion → Ledger A Vector Completion
  fail_row code l = record l {
    row = record l.row { status = RequestStatus.failed; error_code = some code };
  }

-- an attempt that failed, with no tokens
abbrev pub failed_attempt : ℕ → Uuid → Purpose → String → Attempt
failed_attempt n id purpose code = record {
  attempt_number = n;
  endpoint_id = id;
  purpose = purpose;
  status = AttemptStatus.failed;
  error_code = some code;
  input_tokens = none;
  output_tokens = none;
  passed = none;
}
