-- ===== src/Lib.antt =====
-- A verification library for async-queue-go: a message queue over Redis with producers, consumers
-- that retry and acknowledge, and a forwarder for delayed and timed out messages.
--
-- The parts. A producer pushes through the queue facade (asyncqueue/asyncqueue.go) to the Redis
-- driver (pkg/queue/redis_driver.go), which runs Lua scripts (pkg/queue/lua.go) on the keys of a
-- channel (pkg/queue/keys.go). A consumer (pkg/queue/consumer.go) pops a message, calls its handler
-- and commits the result by one more script. The forwarder (pkg/queue/forwarder.go) moves due
-- messages back. A worker (pkg/worker/worker.go) runs each of these loops in a goroutine, and the
-- server (asyncqueue/) starts workers from a configuration.
--
-- The files.
-- - Prelude: shared names, Boolean tests, lists and integers over the native numbers. Go's `int` and
--   `int64` are ℤ, with `int64` for the wrap-around of 64-bit arithmetic.
-- - Redis: the server. Server is the interface of the commands that the scripts use, a parameter
--   of all models; `keyspace` is a reference server on lists, sorted sets and texts. IsRedis says that
--   a server behaves like it, as documented; Agreement carries programs over. A script runs
--   atomically, so it is a program: a function on the server's state.
-- - Core: message, result and retry policy (pkg/core).
-- - Queue.Keys, Queue.Cjson, Queue.Lua: the scripts, grouped by what they do (Commit, Move, Manage,
--   Sequence); Queue.Lua.Agreement shows that they behave alike on all servers that are Redis.
-- - Queue.State: the abstract state of a channel, and the specifications of the scripts of push
--   (Enqueue), claim (Claim), commits (Commit), retry (Retry), forwarding (Forward), cancel (Cancel)
--   and reload (Reload). Observe has the single commands; Fifo is the order of claims; Counts and
--   Exclusive are about the places of a message, over any sequence of scripts, and Alive and Lossless
--   about messages that are not ended; Statuses reads a status back from a stored text (IsCjson).
--   Lease and Reservation follow a claimed message up to its deadline, Recovery one that has run out,
--   and Place and Matrix are about the transition matrix of docs/guide.md.
-- - Queue.RedisDriver: the driver's operations. The client library, both JSON codecs, MD5 and decimal
--   texts are parameters (Libraries); an error of the client is a value. Reloading is about the loop
--   of `Reload` (Recovery: with the forwarder before it), Forwarding about `ForwardMessages`, Claiming
--   about `Pop`, and Loading about the read of a stored text; Construction is `NewRedisDriver` and the
--   cache of keys.
-- - Queue.Backoff, Queue.Forwarder: the schedule of waits.
-- - Queue.Consumer: one message, from the handler's end to the commit; Loop is the loop of `Run`
--   over a history of answers of `Pop`; Running adds the goroutines of the handlers, the semaphore
--   and the returned error, one event at a time; PopErrors tells which errors are retried; Commits
--   and Calls are about the commit calls; Deliveries follows a message through its retries.
-- - Queue.Delivery: the consumer over the Redis driver, as a step of a channel's state; Queue.Outage:
--   its loop while the server cannot be reached.
-- - Worker: start, wait, stop and the goroutine's end as steps on a state with channels.
-- - Service: options, the queue facade, its round trip through the driver (Roundtrip), the way
--   of a message from a push to a consumer (Handover) and its commit (Handled), the start
--   checks and the shutdown timeout (asyncqueue/). Manager is the state of asyncqueue/manager.go:
--   Start is `StartWorker` and Launch what it leaves; Goroutines has the steps of the goroutines, the
--   map of errors and the automatic restart; Lifecycle puts the calls of one owner and these steps
--   into any order, and Safety is about all of them; Settings is about the consumers' options;
--   Running is `Stop` and `Run` as whole calls. Server is `NewServer` and the head of its `Run`,
--   Server.Running the whole `Run`, and DefaultServer the package functions on the default server.
-- - Examples: the order demo (examples/demo/order/main.go), its store, queue handler and HTTP
--   handlers; Deliveries and Settlement follow a job through its deliveries, Overlap has a payment
--   during a query.
-- - Tests: the theorems at concrete inputs, on the reference server and small libraries.
--
-- Bounds and fuel. The loop of `popScript` takes one element in each round, so it is given one round
-- more than the list is long. The loop of `reloadScript` has its own bound of 100. The number of
-- deliveries of a message is computed with fuel; more fuel than attempts are left is enough. The loop
-- of the driver's `Reload` takes fuel; more than the length of the source list is enough.
-- The deliveries of a job of the demo end with the list of its draws; one draw more than attempts are
-- left is enough.
--
-- Not modelled: calls of the manager's `StartWorker` and `Stop` by several callers at once (a
-- rollback releases the lock while it waits); the expiry of stored texts; the other example
-- programs and the demo's main; and the output of loggers. Times are arguments: seconds, or
-- nanoseconds for durations; the driver's clock and `time.Now` are one in `Push` and `Retry`, as with
-- the clock that the constructor sets. `cjson.encode` of a table that `cjson.decode` gave is taken to
-- succeed: a text with a number out of range, which makes it raise an error and aborts the script,
-- is left out. A run that ends also gives the manager as it is when its wait ends, for the theorems
-- to speak of; the code returns the errors only.
mod Prelude
pub mod Redis
pub mod Core
pub mod Queue
pub mod Worker
pub mod Service
pub mod Examples
mod Tests
