-- ===== src/Lib.antt =====
-- Verification of qjazz: the project cache, the handlers that serve requests from it, the component
-- manager, and of the processes service: its cache of descriptions, the realms of its clients, and the
-- life of its jobs from the request that launches them to their dismissal.
--
-- qjazz serves QGIS projects. A worker process keeps the projects it has loaded in a cache. A request
-- names a project by a path; the routes of the configuration turn the path into the url of a storage,
-- the handler of the url's scheme reads that storage, and the cache manager compares what the storage
-- says with what it holds: `checkout` gives a status, and `update` acts on a status by loading,
-- reloading or dropping the project. The handlers of the worker decide which of these a request may
-- cause, keep the number of projects within its limit by evictions, and answer on a connection.
--
-- The processes service runs QGIS processes as tasks of celery. A request to execute a process sends a
-- task to the workers of a service and registers a job in Redis, under a key of the job's identifier, its
-- service and the realm of the client; the record expires. The status of a job is put together from what
-- celery's backend, the workers and the registry tell. A job is dismissed by marking its record under a
-- lock, revoking its task, and deleting the record.
--
-- The paths below are from the repository's root.
--   Cache.Common        qjazz-contrib/src/qjazz_cache/status.py, common.py, and the entries of cachemanager.py
--   Cache.Paths         pathlib.PurePosixPath, as far as the cache uses it
--   Cache.Routes        qjazz-contrib/src/qjazz_cache/routes.py, and resolve_path of cachemanager.py
--   Cache.FileHandler   public_path of qjazz-contrib/src/qjazz_cache/handlers/file.py
--   Cache.Manager       qjazz-contrib/src/qjazz_cache/cachemanager.py: checkout, checkout_entry, update, clear, len;
--                       Cache.Collect and Cache.Refresh: find_location, collect_projects, the body of the loop of
--                       update_cache, checkout_iter
--   Cache.Eviction      qjazz-contrib/src/qjazz_cache/extras.py
--   Rpc.Session         what the handlers work on: the manager and the connection (messages.py of
--                       qjazz-server/qjazz-rpc/python/qjazz_rpc, as are the files named below)
--   Rpc.Requests        get_project and request_project_from_cache of op_requests.py
--   Rpc.CacheOps        checkout_project and drop_project of op_cache.py
--   Rpc.CacheViews      send_cache_list and send_project_info of op_cache.py
--   Rpc.Worker          the loop of worker.py over the messages on the cache: Serving, Bounds
--   Components          qjazz-contrib/src/qjazz_core/componentmanager.py, which hands out the storage
--                       handlers as services
--   Processes.Cache     qjazz-processes/src/qjazz_processes/worker/cache.py: the descriptions of processes,
--                       which a child process computes
--   Processes.JobRealm  qjazz-processes/src/qjazz_processes/server/jobrealm.py: the tokens that give access to
--                       jobs
--   Processes.Registry  qjazz-processes/src/qjazz_processes/worker/registry.py, over an interface of Redis with
--                       its laws (Registry.Laws), and the registry as a map of jobs (Registry.History)
--   Processes.Services  executor/executor.py and executor/commands.py of qjazz-processes/src/qjazz_processes, as
--                       are the files named below
--   Processes.Jobs      executor/processes.py: Status, Dismissal, Listing, Launch, and Answers for the results,
--                       the log, the files and the download urls of a job
--   Processes.Handlers  server/_handlers/jobs.py; Handlers.Execution: execute_process and ExecutePrefs of
--                       server/_handlers/processes.py, and its composition with the executor
--   Prelude, Dict       results and state, dictionaries
--   Tests               the theorems at concrete inputs
-- Definitions keep the names of the source, and a comment names the method where the two differ.
--
-- How the code is modelled:
--   State is passed along: a handler is a function from a `Session` (manager and sent replies) to a
--   result and the next session. An exception is a result `raise e`; the state changed before it stays
--   changed. Local variables that outlive an exception are the fields of `Frame`.
--   The calls of `removeConfigCacheEntry` are recorded in the manager, in order.
--   A cached entry is an object shared by the cache and its user: `hit_me` and `pin` change both,
--   which `change_entry` writes out.
--   Times are counts of microseconds, and a popularity is an exact quotient where the source has
--   floats. A division by zero is an error as there.
--   A storage handler is a record of the answers it gives during one call. The standard library's
--   functions on texts (urlsplit, geturl, format_map) and the compiled pattern of a dynamic route are
--   functions given to the model; a QGIS project is a type parameter.
--   A pipe is the list of the answers that have arrived; whether an answer comes before the poll for it
--   gives up is a value of `Pace`, given with each request.
--   Redis is a record of its commands, and what the registry relies on is a record of laws, RedisLaws;
--   Tests.ListRedis is a store that has them. A key is its three parts, so the laws speak of keys
--   whose parts hold no colon. What a pattern matches is known only if each of its parts is `*` or holds
--   no special character (is literal): in others a character such as an unclosed bracket may reach
--   into the next part. A key that has expired is not read any more, and each reading comes with its
--   time; one operation on a job is taken to last no time, so that all its readings have the same
--   one, the wait for a revocation included.
--   celery's backend and control are a record of the answers they give during one operation; that a
--   new task has an identifier of its own is a hypothesis where it is needed.
--   Dates of jobs are counts of milliseconds, those of the registry of seconds, as there.
--   What the worker's pipe brings is a list of arrivals; each message comes with the clock and the
--   answers of `conn.cancelled` while it is handled.
--   A generator is the list of what it yields, the last perhaps an exception.
--   The realm of a request about jobs is read from the storage of the request, where no code of the
--   repository puts one; it is given to the model as an option.
--   Every loop is over a list, so no fuel is needed.
--
-- Not modelled: QGIS itself, storages and their handlers but for `public_path`, the transport of
-- messages, logging, the parsing of dynamic routes, the loop of `update_cache` (it changes the
-- dictionary that it iterates over, and what Python does then is not documented), the messages of
-- the worker that call the QGIS server or its plugins, read or change its configuration, or update
-- the whole cache, the transport and the JSON of HTTP requests, the workers that run the tasks of
-- jobs with their storages, the waiting for a lock, and the servers in Rust.
pub mod Prelude
pub mod Dict
pub mod Cache
pub mod Rpc
pub mod Components
pub mod Processes
pub mod Tests
