-- ===== src/Lib.antt =====
-- Foundation Intelligence Platform: the parts of the backend that keep state and guard it.
--
-- The API enqueues durable jobs in PostgreSQL (src/bff/postgres/job_repository.py), workers claim and
-- finish them (src/pipelines/durable_worker.py), a dispatcher publishes their messages from an outbox,
-- a reaper fails jobs whose lease has run out, and a deployment retires jobs
-- (src/pipelines/job_admin.py). Every API request is authenticated, limited and, where it must not be
-- repeated, reserved (src/bff/security.py); administrators manage users (src/bff/user_management.py),
-- place holds and plan retention (src/bff/postgres/governance_routes.py), and reach a downstream API
-- (src/bff/proxy.py). Reads go through a cache (src/bff/postgres/base.py), and some responses are
-- compared with those of the system that is to replace it (src/transition/shadow.py).
--
-- Common holds the shared helpers: Boolean tests, tables as lists with WHERE, UPDATE and DELETE,
-- ORDER BY as insertion sort, Python's `strip` and slices, and the result type of fallible code.
--
-- Durable models src/pipelines/durable.py: Envelope the queue messages, Sources the configurations of
-- data sources, Objects the immutable object store with the digest as a parameter.
--
-- Jobs models the job tables. Jobs/Schema has a record per table of alembic/versions 0001, 0005 and
-- 0007, with a field per column that the code uses, and `Db` is the tables together. The data
-- sets that a foreign key allows are a field of a job's result. Jobs/Enqueue,
-- Claim, Finish, Expire, Outbox, Events and Retire have a function per method: from the time of the
-- transaction, the arguments and a `Db` to the new `Db` and the method's return value, or to a
-- `JobError` where the method raises; then the transaction is rolled back. A SQL statement is a
-- function on a list of rows. Jobs/Worker is `DurableWorker.run_once`, with the handlers and what
-- other sessions commit meanwhile as parameters; Jobs/Outbox also has `OutboxDispatcher.run_once`
-- with the queue's answers as a parameter. Jobs/Machine is the state machine of one row and of a table
-- of rows, Jobs/Refines and Jobs/Advances relate the operations to it, and Jobs/System is the
-- step relation of committed transactions, any number of sessions interleaved: PostgreSQL's row locks
-- order the writes to a row, and `FOR UPDATE SKIP LOCKED` is the parameter `locked` of `claim`.
--
-- Governance models src/governance/retention.py: Policy has the configuration and its validation,
-- Retention the planner, Deletion the authorization of deletions, Lifecycle the status of an export;
-- Lookup and Plans are about validated policies and about plans. Exceptions are the error
-- values of the functions. Holds models src/bff/postgres/governance_repository.py and the dry run of
-- src/bff/postgres/governance_routes.py over the tables of policies, holds, actions and manifests;
-- Holds/Operations is any sequence of their transactions, and Holds/Constraints what the schema asks of
-- these tables.
--
-- Security models src/bff/security.py and src/bff/postgres/idempotency_repository.py: RateLimit is the
-- sliding window limiter, with the history of admitted calls beside its deques, Roles the ranks, and
-- Idempotency has an interface, `Guard`, of the operations and laws of an idempotency store, which the
-- children Postgres and Local fill and the child Once uses. Claims has the roles that token claims
-- grant, and Access composes them into `authenticate_request` and `require_roles`, for any `Guard` and
-- any token decoder.
--
-- Users models src/bff/user_management.py: Client is Cognito as an interface, Documented what Cognito
-- documents of it, aliases of users included, Handlers has a function per route; Membership, Guarded, Protected and Administrators
-- follow the administrators through them, and Sample is a pool that meets the interface.
--
-- Cache models `VersionedTTLCache` of src/bff/postgres/base.py: Cache has a function for each stretch of
-- code between two awaits, Cache/World the step relation of any number of callers and tasks, which may
-- be cancelled. Promise is the abstract journal of loads and answers, and Shows and Refines relate it to
-- the world; Keys, Valid and Single are about entries and tasks in flight.
--
-- Transition models src/transition/shadow.py: Values, Printing and Canonical the JSON values and their
-- canonical form, Compare `compare_payloads` with fuel for the depth of its values, Shadowing the
-- coordinator as a step relation, Middleware the messages of one response. Same is the equality of values
-- that Matching compares with; Shapes, Growth, Union, Loops, Agreement and Unique lead to it.
--
-- Proxy models src/bff/proxy.py: the functions that decide which request is sent to the core API, with
-- its path and headers; Proxy/Paths has which paths are let through, Proxy/Forwarded what may be sent on.
--
-- Times are numbers of microseconds. UUIDs are numbers, or their texts in Governance/Holds. New ids are
-- arguments. The JSON of payloads and results is an opaque text. Only `walk` of Transition runs on fuel;
-- every other loop recurs on its data.
--
-- Not modelled: SQL reports, other HTTP routes, scrapers, enrichment, the migration from SQLite and the
-- scoring engine, which are I/O, query texts or floating point; tokens and digests (JOSE, SHA-256),
-- which are parameters.
pub mod Common
pub mod Cache
pub mod Durable
pub mod Governance
pub mod Jobs
pub mod Proxy
pub mod Security
pub mod Transition
pub mod Users
