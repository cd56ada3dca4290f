-- ===== src/Lib.antt =====
-- Verification of the Douyin dashboard backend (the Python package `src/`).
--
-- The backend is a FastAPI application over SQLAlchemy tables and a cache. A request passes the rate
-- limiter and the role checks of its route and reaches a service. Modelled here are the parts that
-- decide something on their own:
--
-- - Prelude (Lists, Text, Int, Tests, Dict): what the parts share. A Python dict is an association
--   list in insertion order (`put`, `pop`, `update`), an integer is `ℤ` over the native numbers.
-- - Auth: `src/auth/rbac.py`, the rows of `src/auth/models.py` and the log of
--   `src/audit/service.py`. Permission has `_split_permission`, `_match_permission` and
--   `_has_permission`; Tables has the two queries as joins over lists of rows; Check has
--   `check_permissions` and `check_roles`; Audit has the audit rows that a request's session has
--   flushed or committed, Session `get_session` of `src/session.py`, which commits or rolls back, and
--   Guard the three route dependencies. Grants says what a permission text means apart
--   from the code, Holds and Outcomes relate the checks and the routes to it.
-- - Cache: `src/cache/local.py`. Local has every method of `LocalCache`, with the clock as an
--   argument; Bounds, Lookup and Write are about the bound, the reads and the writes.
-- - Import: `src/domains/data_import/validator.py`. Value, Result and Rules have the cells, the
--   results and the six checks; Validator, Builtin and Service have the row and batch validation,
--   the order and product rules, and the registry with its summary. A ValueError is `none` or
--   `err`.
-- - RateLimit: `src/middleware/rate_limit.py` and `src/config/rate_limit.py`. Window has the two
--   sliding windows, Middleware the choice of a backend and `dispatch`. History says what the
--   windows should count, Served and Calls (over Sorted) run the windows over a history of
--   requests.
-- - Ingest: `src/domains/data_import/mapping.py`, `repository.py`, `models.py`, `enums.py` and
--   `service.py`. Mapping has `FieldMapper` and its transforms, Similar the normaliser and the
--   matcher, AutoMap the two loops of `auto_map`; Records has the tables with their writes in a
--   session that commits, World the cache and the exceptions of a step, Confirm the loop of
--   `confirm_import`, and Service the other operations. Targets and Mapped are about `auto_map`,
--   Template about saving and loading, Parsed about `parse_file`; Plain, Loop, Rows, Confirmed,
--   Ending, Ended and Again lead to the end of an import.
-- - Locks: `src/scrapers/shop_dashboard/lock_manager.py` and `src/shared/idempotency.py`. Script has the
--   calls that a Lua script makes of Redis, Manager `LockManager` with its script, over a client whose
--   methods may be missing, Idempotency the helper of the tasks, by its two scripts or by
--   transactions. A release without the script is two calls, with a time each and what others do in
--   between. Store is the interface, what a store of locks promises; Running says what the scripts
--   do on a server; Backing and Exclusion are about `LockManager` as a store, Race about its release
--   without the script, Tasks, TaskStore and Results about the helper.
--
-- - Plan: `src/application/collection/plan_builder_impl.py` and `src/shared/shop_ids.py`. Calendar has
--   the dates of Python's calendar, Moments the steps from one window to the next, Windows and
--   Backfill the two loops that make windows (Months counts in months for the second), Shops the
--   shop ids, Config the readers of a configuration, Build the plan and Units what it consists of. A
--   moment is a number of microseconds of wall-clock time in the plan's time zone.
--
-- - Tasks: `src/domains/task`, `src/scrapers/shop_dashboard/shop_selection_validator.py`,
--   `src/tasks/status_store.py` and `src/tasks/base.py`. Selection has what a payload selects, Tables
--   the rows and the repositories, Service and Run the operations of `TaskService`, Status what a
--   worker reports. Valid and Kept are about the tables, Outcome and Single about runs, Reach about
--   any sequence of operations, Synced about the reports and Selected about the selection.
--
-- A service takes the session and the cache and returns them with its result or its exception; a
-- client of a part uses the part's own definitions (Ingest.Service runs Import.Summary on the rows that
-- Ingest.Mapping maps). Loops are structural recursion over the rows, rules, requests or characters
-- that they run over, with two exceptions on fuel: the search for the year of a day
-- (Plan.Calendar.year_from, a step per year, with more than a year per day) and the loop over
-- windows (Plan.Windows.cut, a step per microsecond from the first window to the end). Neither runs
-- out, since each step moves on by at least one.
--
-- Parameters, of which only the documented behaviour is assumed and where a theorem names it:
-- floats, `float(text)`, `strptime` and `str` of numbers (Import.Value.Runtime); `str.lower`,
-- `int(float)` and `abs` (Ingest.Mapping.Builtins); `difflib` and the order in which Python lists a
-- set (Ingest.Similar.Similarity); Redis, which runs any script as the calls that it makes, with nothing in
-- between, the cache behind `CacheProtocol`, and JSON texts
-- (RateLimit.Window, Ingest.World, Locks.Running, Locks.Backing, Locks.Tasks); time zones, ISO dates,
-- `str.upper`, `int` and `json.dumps` (Plan.Config.Python); the queue's handlers, the validator of
-- target shops that the service is built with, `json.loads` and `int` (Tasks.Service.Services,
-- Tasks.Selection.Texts); the file parser and the clock (arguments).
--
-- Not modelled: the routes and the FastAPI plumbing, user accounts and tokens, the scrapers but for
-- their locks and the selection of shops, the workers of the tasks but for their locks, results and
-- reports, and the collection use case but for its plan, the other domains' services, and the queries
-- that only list rows; so the loader that is the validator of target shops by default is not. The
-- database fails in no way but by the uniqueness of a batch number, of a task's type and, where an
-- execution is inserted, of its queue's id, and by an execution without its task; the id that a queue
-- gives to a run is taken to be a new one. A session is used by one task at a time.
pub mod Prelude
pub mod Auth
pub mod Cache
pub mod Import
pub mod RateLimit
pub mod Ingest
pub mod Locks
pub mod Plan
pub mod Tasks
