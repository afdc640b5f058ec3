-- ===== src/Lib.antt =====
-- A verification of the task service of this repository (app/): the queue of tasks in a relational
-- database, the workers that claim and run them, fan-out and fan-in of batches, the scheduler of
-- recurring tasks, and the revisions of the runtime configuration.
--
-- Parts and files.
--   Base, Base/*: lists measured by native numbers, tests, optional values, texts, decimals.
--   Table, Table/Laws, Table/Order: a table as a SQLAlchemy session sees it, with `stored` columns for
--     WHERE and ORDER BY and `live` columns for attributes, since app/infrastructure/datasource/
--     relational/session.py opens sessions with autoflush off; a flush copies the second to the first.
--   Domain, Models, Session: app/domain/enums.py, app/infrastructure/datasource/relational/models.py
--     and session.py. A method takes the session and gives the new one; an exception is `err`, and
--     `session_scope` then keeps the old database.
--   Tasks, Tasks/*: app/infrastructure/repositories/task_repository.py. Events (events and attempts),
--     Create (create_task, create_child_tasks), Finish (the mark_ methods), Control (cancel, retry,
--     lease, progress), Family (parents and children), Claim, Recover, Queries. Effects says in one form
--     what a method does to the table, and Invariant is the well-formedness of it.
--   Services, Services/*: app/application/services/base/task_command_service.py (Commands),
--     aggregate/task_orchestration_service.py (Fanout) and aggregate/task_execution_service.py
--     (Execution), which call the repository in one or two transactions.
--   Worker, Worker/*: app/infrastructure/runtime/worker_runner.py: a round, the outcome of a handler, the
--     heartbeat, the backoff; SchedulerTick runs both schedulers in one transaction.
--   History: the transactions above as steps, one after another, on one database.
--   Schedules, Schedules/*: app/infrastructure/repositories/system_schedule_repository.py and
--     app/application/services/aggregate/system_scheduler_service.py.
--   Configs, Configs/*: app/infrastructure/repositories/runtime_config_repository.py.
--   Templates, Templates/*: the templates of app/core/config.py: what is accepted, and placeholders.
--   Handlers, Handlers/*: app/workers/registry.py (Registry), the aggregate handler of
--     app/workers/modules/batch.py (Batch), and the shard handler, app/workers/modules/basic.py and
--     app/workers/contracts.py (Basic).
--   Szdm, Szdm/*: app/infrastructure/repositories/szdm_repository.py and, under
--     app/application/services/aggregate/, szdm_scheduler_service.py; Creation is
--     szdm_orchestration_service.py there, and Handlers is app/workers/modules/szdm.py.
--   Storage, Storage/*: the local client of app/infrastructure/datasource/s3/client.py.
--   Polymarket, Polymarket/*: app/infrastructure/repositories/polymarket_repository.py (Values, Store,
--     Queries), app/application/services/aggregate/polymarket_sync_service.py (Sync, Catalog, Snapshots),
--     app/infrastructure/integrations/polymarket_client.py (Client) and
--     app/application/services/base/polymarket_command_service.py (Commands). Unique has the unique
--     constraints as a property of the rows, with the calls of the repository as steps.
--   Http, Http/*: app/interfaces/http/dependencies.py and the routes of app/interfaces/http/routes/:
--     tasks.py (Tasks), runtime_config.py (Configs), polymarket.py (Polymarket), szdm.py (Szdm), with the
--     query services they call. A route gets the session of its request and answers, refuses or
--     crashes; only an answer is committed.
--   Migrations, Migrations/*: app/bootstrap/migration.py. Sources has the table alembic_schema, Chains the
--     order of revisions; Reruns and Ahead are about a run after an upgrade that failed and about a
--     database that is ahead.
--   Examples, Examples/*: runs on small databases.
--
-- Conventions. Times are microseconds, as natural numbers, and `now` of an Env is what utc_now() reads
-- in one transaction. The float quotient int((c / t) * 100) is a parameter `percent`, of which IsPercent
-- says that it is at most 100 for a part of a whole; isoformat is a parameter. Which rows other
-- transactions hold locked (FOR UPDATE SKIP LOCKED) and the order in which a SELECT without ORDER BY
-- gives its rows, or one with equal times in list_tasks, are arguments.
--
-- What is not in this repository is an argument: Builtins is what Python's float, int, str,
-- fromisoformat, json and hashlib do to a JSON value; Codec and Net are json and urllib for the
-- bucket and the client; HandlerEnv has the bucket, the clock and the context of a szdm handler,
-- SyncEnv those of a synchronisation, whose pages are a function `fetch`; HttpEnv has the API key
-- and the settings that the routes read; Alembic has the commands of the package alembic, whose
-- revisions, a chain without cycles, are a Chain. A value that is read at several moments is a
-- function of the moment's number.
--
-- Fuel. The loop of mark_schedule_dispatched runs on the time of the dispatch plus two, which is
-- enough where the interval is positive, and gives `none` when it runs out. The loop of
-- run_catalog_sync runs on a number of turns: it ends in n + 1 turns where the remote service's
-- page n + 1 is a last one, and a service that always has another page keeps the code's loop
-- running too. The slices of a list run on its length.
--
-- Not modelled: logs (app/core/app_logging.py), threads, sleeping and signals (the combined runner
-- of app/infrastructure/runtime/combined.py and the loops of the worker runner), what
-- Alembic's commands do, boto3 and elasticsearch clients, the middleware and the composition of the
-- routers, since these are calls of other packages. pydantic has parsed each request: its ranges
-- are left out, and its check of a resolved template is a parameter. The caches of settings, the
-- default template, and columns that only the database writes (created_at except of tasks and
-- events, updated_at, version) are left out. Keys of the bucket are in their normal form, a cursor
-- is a text, and SQLAlchemy and the database are seen only through Table and Session.
pub mod Base
pub mod Table
pub mod Domain
pub mod Models
pub mod Session
pub mod Tasks
pub mod Services
pub mod Worker
pub mod History
pub mod Schedules
pub mod Configs
pub mod Templates
pub mod Handlers
pub mod Szdm
pub mod Storage
pub mod Polymarket
pub mod Http
pub mod Migrations
pub mod Examples
