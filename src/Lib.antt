-- ===== src/Lib.antt =====
-- Releases and deploys of ai-pub: a Go service that takes release requests for a service, a version,
-- an environment and a deployment target, has them confirmed, queues a deploy record with one log for
-- each execution target, and has workers claim, execute and finish the deploys under a lease.
--
-- How the parts fit. internal/httpapi and internal/worker call internal/app and
-- internal/repository; all state is in the SQL tables, which the repository changes by single
-- statements and by transactions. Handlers and workers run at the same time and share nothing else,
-- so a run of the system is a sequence of store calls, in any order.
--
-- What models what.
--   * Domain (internal/domain/models.go): the structs as records, the status texts as enumerations.
--   * Database (migrations/): a table is the list of its rows in insertion order.
--   * Action: a call is a function from the environment and the tables to a value or an error, with
--     both; the environment scripts the clock, the random ids and the statements that the driver
--     fails. A transaction puts the tables back when its body or its commit fails. Action.Ends has
--     one rule for each way to build a call, for what holds when it returns and when it fails.
--   * Repository.Lookup, Release, Confirm, Claim, Finish, Recover, Events
--     (internal/repository/release.go, deploy.go, repository.go): one function for each operation of
--     the store, in snake_case: ClaimNextDeploy is claim_next_deploy, FinishDeploy is
--     finish_deploy. A function ending in _tx is the body of the operation's transaction.
--   * Repository.Coupling, Exclusion, Leases, Outcome, Queue, Reads: what the store's operations
--     keep and establish.
--   * App.Preflight, with the tests on texts in App.Preflight.Text, App.Notify, App.Release,
--     App.Release.Decide and App.Release.Again (internal/app/release.go and the texts of
--     internal/app/notification.go): ReleaseService's Preflight, Create, Confirm, Reject, Cancel,
--     CreateRollback and Retry. Below them, what is proved of each.
--   * Repository.Inventory, Servers, Groups, Targets, Users, Keys (internal/repository/repository.go):
--     the administration of projects, services, environments, servers, server groups, deployment
--     targets, users and API keys. Their child modules hold what is proved of them.
--   * Repository.Versions and App.Versions (internal/repository/version_registration.go,
--     internal/app/version_registration.go): the registration of a version by a build.
--   * Auth (internal/auth/session.go): session tokens and the check of a password.
--   * Http, Http.Access, Http.Session, Http.Users, Http.Keys (internal/httpapi/auth.go, session.go, and
--     from inventory.go and release.go): who a request comes from, the middlewares that admit it,
--     logging in, and the administration of users and of API keys. A handler is an action that
--     answers with one response.
--   * Executor (internal/executor/executor.go): the command and the variables of a script, and the mock
--     executor.
--   * Strings: what the program uses of package strings.
--   * Worker (internal/worker/worker.go): RunOnce, with the registry of executors as a parameter.
--   * System: the store calls as a step relation on the tables, for any caller and environment.
--   * Examples: a small installation, with the theorems applied to it.
--
-- Bounds and conventions. Every loop runs over a list of rows, so no fuel is needed; decimal uses its
-- argument as fuel, which is more than it has digits. Times are milliseconds as ℕ: the texts that
-- formatTime stores have a fixed width, so their order is the order of the numbers. A NULL text
-- column is the empty text, as nullString and nullStringValue convert it. A target snapshot is kept
-- as the value that its JSON text encodes, without the fields that the JSON form leaves out. Ids are
-- drawn from the environment and may clash; a clash is the driver's constraint error.
--
-- Assumed of what is not here. A transaction is atomic and isolated. The primary keys, unique indexes
-- and CHECK constraints that the modelled INSERTs meet are modelled, foreign keys are not. A worker
-- reports a target result that is success or failed, as the executors return them. The checker of a
-- Kubernetes deployment, the executors, the notifier, JSON decoding, the quoting of fmt, SHA-256, HMAC,
-- base64, PBKDF2, the random secret of a key, strings.ToLower and strings.EqualFold are parameters.
--
-- Not modelled: the worker's ticker and heartbeat goroutine, running ssh and the calls of Kubernetes,
-- administration of credentials and clusters, notifications' deliveries, the list operations of
-- releases and deploys, HTTP routing and the handlers not named above, HashPassword, configuration,
-- migrations and the web front end.
pub mod Base
pub mod Strings
pub mod Auth
pub mod Executor
pub mod Http
pub mod Domain
pub mod Database
pub mod Action
pub mod Repository
pub mod System
pub mod Worker
pub mod Examples
pub mod App
