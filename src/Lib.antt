-- ===== src/Lib.antt =====
-- A verification library for the job queue, the send path, the connections, the searches and the
-- histories of the repository.
--
-- The program takes a draft through a gate (packages/core/send/service.py) that asks for the
-- digest of the exact content, claims an idempotency key (send/claim.py) and books a job
-- (jobs/queue.py). A worker leases the job with one statement, and the send job (send/handler.py)
-- commits `dispatched_at` before it contacts the provider (send/providers.py), so that a run after
-- a crash asks the provider what happened before it dispatches again. The sweeper does the same
-- for jobs whose worker died. Failures are classified once (errors.py), and the class decides
-- between a delayed retry, parking and failing. Accounts are connected by OAuth and their tokens
-- stored sealed (security/crypto.py, connections/store.py); a search fans out to one job per
-- source (adapters/orchestrator.py).
--
-- Files, with the code that each models:
--
-- - Enums: packages/core/enums.py. Errors: packages/core/errors.py.
-- - Jobs/Table: the `jobs` table and ClaimedJob. Jobs/Queue: enqueue, succeed, fail, requeue,
--   park, resolve, select_stale and operator_retry of packages/core/jobs/queue.py;
--   Queue/Consistent has the table's constraints as an invariant. Jobs/Claim: the claim statement
--   in its stages. Jobs/Backoff, Jobs/Recovery: the modules of those names and ReconcileOutcome of
--   jobs/runtime.py. Jobs/Sweep: sweep of jobs/runtime.py, with the reconcilers as parameters.
--   Jobs/Runtime: run_once and _execute of that file, with the handlers as parameters.
-- - Security/Crypto: the token envelope of packages/core/security/crypto.py; Crypto/Bound: the
--   associated data of a column.
-- - Connections/Row: the `connections` table and mark_success of connections/store.py;
--   Connections/Store: the other operations of that file; Connections/Tokens, State, Scopes,
--   Service: the modules of those names under packages/core/connections, Grant and the requested
--   scopes of its oauth.py. Connections/Rotation: scripts/rotate_keys.py.
-- - Adapters/Types, Registry, Merge, Orchestrator: the modules of those names under
--   packages/core/adapters; Adapters/Table: the tables of searches; Adapters/Run: the adapter job
--   of jobs/handlers.py.
-- - Send/Row: the `sends` and `drafts` tables and the row transitions of send/handler.py.
--   Send/Provider: the dispatch interface as a record of operations, with the laws that the job
--   relies on; Provider/Fake: FakeSendProvider. Send/Reconcile: reconcile_send and
--   reconcile_send_job. Send/Handler: run_send and _finalize_failure; Handler/Schedule: sequences
--   of runs and sweeps. Send/Claim, Send/Digest: the modules of those names. Send/Service:
--   send_draft; Service/Operator: operator_retry and resolve_send. Send/Detail: send_detail of
--   send/service.py. Send/Recipients: the module of that name. Send/Drafts: create_draft and
--   update_draft of send/service.py.
-- - Api/Paging: apps/api/paging.py and the keyset query that it pages; Api/Listing: list_sends and
--   list_searches of apps/api/routes_v1.py and send/service.py, without what a payload reads from
--   other tables.
-- - Prelude: shared names, Boolean tests, lists, rows of a table and text. Tests: concrete data.
--
-- An operation is a function of the tables, the transaction's clock and its arguments. A table is
-- a list of rows; an UPDATE is a change of the rows that pass its WHERE, and its row count is
-- their number. A refusal or an error comes with no tables, since the caller rolls back. A time is
-- in microseconds, in the signed state in seconds, and a uuid is an opaque number. The process
-- dies at the seams of send/crash.py that a predicate names, and what is left is the world at that
-- seam. Loops are recursion on a list or on a count, `claim_retries` (3) among them; the decimal
-- digits of n are made in n + 1 steps, more than it has, and a merge of buckets of at most `cap`
-- rows takes `cap` rounds. The key rotation alone runs for a number of passes that is an argument,
-- since the script's loop has no bound.
--
-- Parameters: the clock, the random generator (IsUniform), sha256, the rows that other
-- transactions lock, what other transactions do to the sends before and between the statements of
-- a claim, how a handler ends, the jobs whose failure cannot be written, the ids that the database
-- generates, AES-GCM (Opens, Authenticates), base64, JSON and HMAC (IsCodec), the nonces, the name
-- of a Slack channel, what a provider answers to a code, to a refresh or to a search, the parser
-- of timestamps and which of them have no offset, the arithmetic of scores, and the provider of
-- sends (IsHonest: only a dispatch takes a message, at most one, and a probe says `absent` only
-- where there is none).
--
-- Assumed: the runs and sweeps of a send's job follow one another, which the lease and the
-- partition index are there for. A run that outlives its lease beside another run of the same job
-- is outside the model. The session is READ COMMITTED, as send/claim.py asserts. A claim of jobs
-- is one statement on the rows that it sees: two claims at one time that lease rows of one
-- partition meet in its unique index, where PostgreSQL refuses one of them, and that is outside
-- the model.
--
-- Not modelled: the worker's loop and its deadlines, a reconciler that raises, the text of a
-- cursor, the URL of an authorization and the reading of a provider's answer, the reading of the
-- keyring's text, the Gmail and Slack providers and the adapters themselves, API keys, redaction,
-- the rest of the HTTP API, settings, migrations and the other scripts. They are I/O, calls of
-- third-party code, or parts that the modelled ones do not need. The jobs of a batch are run one
-- after another.
pub mod Prelude
pub mod Enums
pub mod Errors
pub mod Jobs
pub mod Security
pub mod Connections
pub mod Adapters
pub mod Send
pub mod Api
pub mod Tests
