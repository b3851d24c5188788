-- ===== src/Lib.antt =====
-- EcoRoute, a gateway that sends each chat request to the endpoint that its policy, its cost and its
-- carbon footprint favour, with a worker for durable jobs and an agent on the hosts.
--
-- Parts, files and code (paths from the repository's root):
-- - Base, and the modules under it: names of the libraries, Boolean tests on the native numbers, list
--   functions, Python's min and sorted by a key, and code that may raise (Outcome).
-- - Numbers: the interface Arithmetic for Python's float and Decimal, and one instance for the examples.
-- - Schemas: services/gateway/ecoroute/api/schemas.py, the closed vocabularies and the policy.
-- - Routing: services/gateway/ecoroute/routing/engine.py. Candidate has the candidates, estimates and
--   penalties; Exclusion the first loop of select_candidate with its ladder of reasons; Ranking the
--   rules after it, the scores and the tie break; Selection their composition; Caching the
--   eligibility for the caches. Admission, Soundness, Totality and Decision prove.
-- - Safety: routing/safety.py beside it. Luhn, Redact and Normalize are its three functions; Cover
--   relates them to the cache.
-- - Worker: services/worker/ecoroute_worker/main.py. Jobs has the rows and the ends of a job, Execute
--   execute_job; Retries, Limits and Redelivered prove. The store is passed from step to step; the
--   handlers, the clock and what publish_event raises are parameters.
-- - Agent: services/node-agent/ecoroute_agent/controls/transaction.py. Transaction has apply and
--   restore, Simulator the control of the simulator; Rollback, Atomic and Restoration prove.
-- - Routing.Classifier: routing/classifier.py; Guards proves what the adapter cannot change.
-- - Carbon: services/gateway/ecoroute/carbon/service.py. Reading is CarbonService.reading, Fresh proves.
-- - Worker.Queue, Worker.Periodic and Worker.Health: _enqueue_due_jobs and _ensure_periodic_jobs of main.py, and
--   handle_endpoint_health of jobs/handlers.py.
-- - Cache: services/gateway/ecoroute/cache/service.py. Entries has semantic_find and store_entry; Unique
--   and Match prove.
-- - Routing.Quality: routing/quality.py, verify_output; Accepted proves.
-- - Worker.Training: worker/ecoroute_worker/freesolo/state.py.
-- - Gateway: services/gateway/ecoroute/api/gateway.py, chat_completions from the selection on, as functions from a
--   ledger to a ledger: its row, attempts, decision, events, impact records, caches and calls. Route has the
--   decision; Context the fallbacks and the verdict; Upstream one call; Complete the answer in one piece;
--   Settle its end; Stream, Relay and Live the answer that is streamed. Concluded, Ending, Completing,
--   Streaming, Streamed and Served prove how a request ends, Liveness when it is answered, Forwarded what a
--   client is sent, and Stale what a transport fallback leaves behind.
-- - Carbon.Impact: carbon/impact.py.
-- - Agent.Loop: node-agent/ecoroute_agent/main.py, the rounds of run as functions of what the server answers; Watchdog
--   and Silence prove. Agent.Limits: controls/host.py, the controls of the gateway's concurrency and of the
--   power limit; Capped and Concurrency prove.
-- - Cache.Refined: the table of the cache as a map.
-- - Worker.Cleanup: handle_cache_cleanup of jobs/handlers.py; Capacity proves.
-- - Examples: runs at concrete inputs.
--
-- A selection reads the features that normalize_request computes and the policy; the caches read the
-- same features. A job's handler gets the row that execute_job committed and answers with a result, a
-- delay or an exception. An exception is a value of Outcome, and a control may change the host before
-- it raises.
--
-- Bounds: every loop is structural on a list, so no fuel is needed. Times are numbers of seconds and
-- a UUID is its integer; Python's integers have no width.
--
-- Not modelled: the HTTP and database layers with their failures, providers, embeddings, regular
-- expressions (parameters of Safety.Redact), the loop of the worker over Redis, the host controls of
-- priorities, groups, schedulers and network queues, the API of the control plane, scripts and the
-- training environments.
pub mod Base
pub mod Numbers
pub mod Schemas
pub mod Routing
pub mod Safety
pub mod Worker
pub mod Agent
pub mod Carbon
pub mod Cache
pub mod Gateway
mod Examples
