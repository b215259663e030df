-- ===== src/Lib.antt =====
-- A model of the blacklist platform: a collector that takes malicious addresses from the REGTECH
-- site into the table `blacklist_ips`, and an application that decides on addresses by that table.
-- Every definition is translated from the Python code; paths are from the repository's root.
--
-- How the parts work together. The scheduler (collector/scheduler) starts runs. A run pages
-- through REGTECH (collector/core/regtech), which waits at the rate limiter
-- (collector/core/rate_limiter.py) before each request, and saves what it got
-- (collector/core/database). The cleanup and the expiry service move rows between active and
-- inactive. The application's decision service answers for an address from Redis or from the
-- tables, the scoring service from a row. Administrators log in with a password and a token, and
-- their writes to the tables drop what Redis holds of the addresses.
--
-- Which file models which part:
--   RateLimiter   collector/core/rate_limiter.py. Bucket is RateLimiter, Adaptive is
--                 AdaptiveRateLimiter, AuthLimiter is AuthRateLimiter, Clock the time module.
--   Regtech       collector/core/regtech: RegtechCollector.collect_blacklist_data of collector.py
--                 with the site's answers as an argument; Session is auth.py, Response and Request
--                 are page_collection.py, Request.Pages the loops of collector.py on the
--                 collector's state, Processing data_processor.py and normalization.py.
--   Storage       save_blacklist_ips of collector/core/database/service.py with its helpers of
--                 collector/core/database/queries.py; Insert has the upsert and the whole save,
--                 History the collection history and the status rows of service.py.
--   BoundedProcess  collector/core/bounded_process.py, which runs curl for a request
--   Lifecycle     collector/scheduler/cleanup.py and app/core/services/expiry_service.py
--   Scheduler     collector/scheduler: Backfill is manual.py, Adaptive the statistics and the
--                 interval of manager.py with the runs of scheduled.py, Force is force_collection
--                 and _initial_collection of manager.py, Collections the daily collection of
--                 scheduled.py and the manual one of manual.py.
--   CollectionService  app/core/services/collection_service.py: Status is
--                 collection/collection_status.py beside it, Trigger the collection itself with
--                 collection_persistence.py and collection_history.py of that directory.
--   Decision      app/core/services/blacklist_service.py, the two queries that it makes of
--                 app/core/services/blacklist_repository.py, app/core/utils/ip_cache.py
--   IpManagement  app/core/routes/api/ip_management: policy.py with app/core/utils/
--                 input_security.py; Repository and Routes are the writes of repository.py and
--                 routes.py, Batch is app/core/routes/api/blacklist/batch.py. Decisions runs
--                 them together with the decision service.
--   Scoring       app/core/services/scoring_service.py
--   Auth          Security, Passwords and Redis are app/core/auth/security.py, Jwt is
--                 app/core/auth/jwt_service.py, AuthState app/core/services/auth_state_service.py.
--   Connection    app/core/database/connection_pool_manager.py
--   Prelude       shared helpers: lists and tests on native numbers, dictionaries, Python's truth
--                 of values, integers.
-- A module named for a property, such as Regtech.Pages or Decision.Coherence, has the proofs; a
-- module Tests has concrete services and runs.
--
-- State. An object is a record, and a method a function from it to its result and the new record.
-- Time is explicit: RateLimiter.Clock has a clock that each reading may find later (the argument
-- `jitter`), other modules take the moment of a call. The limiter and Connection count
-- milliseconds, thousandths of a request per second and millionths of a token, so the products are
-- exact, and a rate times 1.2 or 0.5 is rounded down; the decision service, Redis, tokens and the
-- scheduler count seconds; a date is its ordinal number. A table is a list of rows, and a call of
-- the database that can fail has its outcome as an argument. Threads are steps on the shared set
-- (Scheduler.Force).
--
-- Fuel. `acquire` and `collect_windows` take a unit for each round of their loops: two rounds
-- settle a request that fits the bucket, and a backfill has two units more than today's ordinal
-- number. `collect_pages` has the memory limit of 10,000,000 items as its fuel, and
-- `Request.Pages.try_pages` the pages left up to the last. `get_batches` has the length of its
-- list.
--
-- Arguments stand for what is not in the repository: Redis, PyJWT, bcrypt and Python's numerals
-- are records of operations with their documented laws, and Auth.Services has concrete ones; so
-- are strptime, strftime and ipaddress in Regtech.Processing, elsewhere functions without laws, as
-- hashes are. What a run of curl, a login or the database gives is an argument too.
--
-- Not modelled: the parsers of the site's HTML and Excel files (collector/core/regtech/
-- html_parsing.py, collector/core/regtech_excel.py and their kin), the listings of the decision
-- service and of IpManagement, the trigger over HTTP and the queries of the collection service,
-- the other sources, encrypted credentials, other HTTP routes, monitoring, log texts and the
-- frontend: input and output, or code around third-party parsers and clients. In Lifecycle the
-- database never raises, in Storage only in a transaction that writes. In IpManagement a request
-- runs to its end before the next one.
pub mod Prelude
pub mod RateLimiter
pub mod BoundedProcess
pub mod Regtech
pub mod Storage
pub mod Lifecycle
pub mod Scheduler
pub mod CollectionService
pub mod Decision
pub mod IpManagement
pub mod Scoring
pub mod Auth
pub mod Connection
