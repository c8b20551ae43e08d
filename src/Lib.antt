-- ===== src/Lib.antt =====
-- Agent Studio: the logic of its control layer, in a model that the kernel checks.
--
-- The program is a multi-tenant backend for LLM agents. A request passes the tenant's gates
-- (backend/app/governance), its prompt is assembled within a token budget (backend/app/context), and
-- the gateway (backend/app/gateway) is the only part that calls a provider: it ranks the
-- deployments, reserves money, tries one deployment after another and settles the reservation.
-- Long threads are compacted by an application service (backend/app/application/compaction), and
-- shared patterns (backend/app/infrastructure/patterns) guard the calls of other services.
--
-- The parts and their files:
--
-- - Base: lists, texts, dictionaries, membership tests and the stable sort that stand for Python's
--   list, str, dict, `in` and sorted. A str is the list of its code points; lower() maps the letters
--   of ASCII only.
-- - Patterns.CircuitBreaker models backend/app/infrastructure/patterns/circuit_breaker.py: `enter`,
--   `record_success` and `record_failure` are the locked blocks of CircuitBreaker, and `call` joins
--   them. A history is a list of events, each one locked block, so any interleaving of tasks is one.
-- - Patterns.Retry models backend/app/infrastructure/patterns/retry.py: retry_async with its
--   exceptions, and ExponentialBackoff.delay with the random draw as an argument.
-- - Patterns.RateLimiter models backend/app/infrastructure/patterns/rate_limiter.py: the Lua script,
--   the bucket of the process, and acquire, which falls back from the one to the other.
-- - Compaction.Breaker models backend/app/application/compaction/breaker.py; Compaction.Summary and
--   Compaction.Service model service.py beside it, the generator of summaries and the service, with
--   list_messages and set_summary of backend/app/infrastructure/db/threads.py.
-- - Gateway.Catalog, Gateway.Router and Gateway.Fallback model backend/app/gateway/catalog.py,
--   router.py and fallback.py. The router reads the catalog; the fallback chain reads both.
-- - Gateway.Chain models Gateway.generate, Gateway._execute_chain and Gateway._attempt of
--   backend/app/gateway/service.py. The targets of a failure class and the outcome of a call are
--   arguments; what happens to the quota and to the cooldowns is a list of effects, in order. A
--   request may be cancelled before its cost is reconciled, or once that has begun.
-- - Gateway.Quota models backend/app/gateway/quota.py, the two Lua scripts included.
-- - Gateway.DependencyBreaker models RedisDependencyBreaker of backend/app/gateway/cooldown.py.
-- - Gateway.Cooldown models RedisCooldownCache of the same file.
-- - Gateway.Admission models backend/app/gateway/admission.py: an event is what one task does to the
--   gate between two awaits.
-- - Context.Estimator models backend/app/context/estimator.py; Context.Prompt and Context.Assembler
--   model assembler.py beside it, its data and texts and its blocks. `assemble_with` is the method
--   assemble over any estimate, and `with_summary`, `with_memory`, `tail_loop`, `doc_loop` and
--   `with_current` are its numbered blocks.
-- - Gateway.Stream models Gateway._stream_impl of service.py: `handle` is _handle, `stream_loop` the
--   loop over the deployments, `after_stop` its handlers of failures and cancellations. What a
--   provider yields and where the client goes away, before the end of a stream or after it, are
--   arguments; what the client receives and what happens to the quota and the cooldowns are the
--   trace.
-- - StreamBuffer models backend/app/infrastructure/stream/buffer.py and overflow.py: the chunks of a
--   turn in Redis or in the memory of the process, and those over the cap in the database.
-- - Validation.Streaming models backend/app/application/validation/streaming.py; its Driver is the
--   part of event_generator in backend/app/api/routes/conversations.py that takes the items of the
--   queue, drives the window and sends frames to the client, up to the result frame.
-- - Session.Tokens models backend/app/session/tokens.py with SessionTokenRepository of
--   backend/app/infrastructure/db/repositories.py.
-- - Session.Coordinator models backend/app/session/coordinator.py as steps of tasks of several
--   processes: a step is what one task does between two awaits.
-- - Queue models backend/app/infrastructure/queue/manager.py: the keys of jobs, with the ends of
--   their claims, the runs and retries of workers, each with the keys that its process has processed,
--   and the dead letters.
-- - Database.Replicas models backend/app/infrastructure/db/replicas.py: where a read goes.
-- - Governance.Budgets and Governance.Compiled model backend/app/governance/budgets.py and
--   compiled.py, quota_limits_from_cfg of the gateway included.
-- - Governance.ToolGate, Residency, Isolation and Promotion model backend/app/governance/toolgate.py,
--   residency.py, isolation.py and promotion.py.
--
-- Redis is a parameter: an interface of reads and writes of a hash, with the law that a read finds
-- what was written last (HashStore in Gateway.Quota, BucketStore in Patterns.RateLimiter,
-- CounterStore, with deadlines, in Gateway.Cooldown; ListStore, of lists, in StreamBuffer). The rows
-- of the database are one too, where a part keeps some (ChunkTable in StreamBuffer, TokenTable in
-- Session.Tokens), and so are the encryption of a token, json.loads for the arguments of tools and
-- the check of a configuration against its schema. Each interface has an instance in the tests.
-- Which calls of Redis are answered is an argument. SHA-256 is a function argument of
-- Governance.Promotion.
--
-- Numbers: money is in millionths of a dollar, times are whole milliseconds, shares and scores are
-- in hundredths, and tokens of a bucket are exact fractions with a fixed denominator. Rounding of
-- floats is not modelled, but the whole dollars are that Redis makes of a number in a reply
-- (`whole_usd`). No quantity of the modelled code is negative.
--
-- Loops are structural, with few exceptions. The loops of Gateway.Chain and Gateway.Stream run on
-- fuel, one unit for each attempt, and get the number of deployments that they can come to; this is
-- enough, since no deployment is tried twice. The snapshot of Compaction.Service has a unit for each
-- message that it may ask for, and reads at least one with each page. The digits of a number are
-- written on fuel that exceeds their number.
--
-- Not modelled: HTTP routes, most database repositories, provider adapters, metrics, tracing and
-- health reports, which are input, output and wiring; the cache keys of the gateway and its moving
-- average of latencies; priorities and scheduled times of jobs; the key file of the session tokens;
-- and the services around the modelled parts (retrieval, ingestion, guardrails, escalation, webhooks,
-- end-user limits, workers), whose logic stands apart.
pub mod Base
pub mod Patterns
pub mod Gateway
pub mod Governance
pub mod Compaction
pub mod Context
pub mod StreamBuffer
pub mod Validation
pub mod Session
pub mod Queue
pub mod Database
