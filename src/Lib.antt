-- ===== src/Lib.antt =====
-- The task management API (backend): a Go server that keeps tasks and users in PostgreSQL, lets
-- requests in by roles and attributes, and caches what it reads in memory and in Redis. A read goes
-- from the services to the two-level cache, which asks the memory cache first and then Redis, under
-- a circuit breaker. A request is let in by the authorization service, for the user of a token that
-- the session service issued. Jobs that warm the cache wait in a priority queue until a scheduler
-- submits them to a worker pool, whose goroutines store what they bring, or the warmer stores them
-- itself, batch by batch.
--
-- Files, with the code each one models:
--   Shared           library names, Boolean tests, lists and byte strings, and the integers of Go's
--                    `int`, `time.Duration` and `time.Time` with their wrap-around.
--   Cache.Errors     the errors of backend/internal/cache.
--   Cache.Breaker    circuit_breaker.go. One function for each method; `execute` is a call run alone,
--                    and Cache.Breaker.Concurrent the steps of calls of `Execute` that interleave. Its
--                    children hold the proofs.
--   Cache.SyncMap    the part of `sync.Map` that the code uses, as an association list.
--   Cache.Pattern    `matchPattern` of memory.go.
--   Cache.Memory     the rest of memory.go; Race is `Get` with another call between its two accesses.
--   Cache.Metrics    metrics.go.
--   Cache.Values     values that a cache holds, and the caller's variables on a heap.
--   Cache.Redis      redis.go over the operations of the go-redis client.
--   Cache.MultiLevel multilevel.go: `Set`, `Get`, `Delete`, `DeletePattern`, `Exists`, `Health`.
--   Cache.Jobs       WarmupJob of warmer.go.
--   Cache.PriorityQueue  priority_queue.go over container/heap: Items is about the swaps, Invariant about
--                    each method, Order about runs of calls, and Sorted is a package that keeps the laws.
--   Cache.WorkerPool worker_pool.go: Channels is Go's channels and `select`, Events the interleavings,
--                    Workers and Collector the goroutines, Moves and Steps the moves as a relation, and
--                    Stores what they do to the cache, and Conservation, Phases, Stopping, Draining and
--                    Restart what becomes of the jobs.
--   Cache.Triggers   the triggers of job_scheduler.go, when one is due.
--   Cache.Scheduler  the rest of job_scheduler.go: Submission is about the pool, Extraction about the
--                    queue, Batches about both, Triggers about a tick.
--   Cache.Warmer     warmer.go, with Parts: Helpers and Turns are the goroutines of `processBatch`,
--                    Shares, Order and Ends what they do with a batch, Rounds `warmCache` without a
--                    pool, Slices and Warmed what it stores, Handed what the scheduler gets.
--   Cache.Manager    unified_cache_manager.go over the warmer, the integrated one being an interface.
--   Models           rows of backend/internal/models that are read here.
--   Services         backend/internal/services: Database is what the queries answer, Authorization is
--                    authorization.go, and its child Policy describes who is let in; Roles and Writes are
--                    its writes, Revoked is about roles that were taken away.
--   Services.CachedTasks  cached_tasks.go over the interface TaskService of tasks.go; Keys is about its
--                    keys and patterns, Local about its deletions on a cache without Redis.
--   Services.Tasks   tasks.go; Pages is about the paginated query.
--   Services.Users   users.go.
--   Services.Auth    auth.go, its methods in Service: Ids, Leaves and Spent are about tokens that were
--                    used or revoked, Issued about fresh ones.
--   Services.Register  register.go; Endings is about its transaction.
--   Middleware       backend/internal/middleware: Authz is authz.go, Rbac is
--                    rbac_abac.go, whose child Subjects describes whom a request is from, Breaker is the
--                    circuit breaker of rate_limiter.go, and Limits its rate limits: SortedSets is what
--                    they rely on of Redis, Windows a log of requests.
--   Worker           backend/internal/worker/worker.go: one job through its handler; Retries is about
--                    where a job goes that failed.
--
-- Conventions. A method is a function from the old state to the new one and its result, and one
-- atomic step where a mutex makes it one. The clock is an argument, one for each reading. A time is
-- the number of nanoseconds since 1970; `time.Since` saturates as the Go library says, and a counter
-- of type `int` or `int64` wraps around. A string is the list of its bytes. A pointer to a caller's
-- variable is an address of a heap, so that aliases are visible. An error is a value, and `none` is
-- `nil`. Every function is total by structural recursion, and no fuel is used: a loop whose end is in
-- doubt, as that of `warmCache`, is given the turns of its goroutines, batch by batch, and runs of the
-- components are over a list of calls.
--
-- Parameters, since their code is elsewhere: container/heap, golang.org/x/time/rate, the signing of
-- tokens, bcrypt, the go-redis client with its sorted sets and pipelines, encoding/json, the copying of
-- values by reflection in that package, conversions from and to float64, strconv.Atoi, jwt.Parse, the
-- printing and parsing of UUIDs, and GORM with PostgreSQL: a query is a function from its arguments to a
-- count, a row, no row, or an error, and a statement one to the database and an error.
--
-- Not modelled: the integrated warmer and what the cache manager does with that alone, the goroutines
-- of the worker, the HTTP handlers and the rest of the middleware, the metrics for Prometheus, the
-- configuration, the database pool, and main.go, which are glue around libraries; logging, spans and
-- contexts, which change no state of these parts; the frontend and the deployment files.
pub mod Shared
pub mod Cache
pub mod Middleware
pub mod Models
pub mod Services
pub mod Worker
