-- ===== src/Lib.antt =====
-- Background jobs: a job queue with retries and schedules, its stores and its actors.
--
-- A job is created through a server, which stores it and puts it into its queue. Workers ask the
-- server for jobs of their queue; the server asks the store, sends the job that it gets, or keeps
-- the worker until a job comes. A worker runs the job by the processor that is registered under
-- the job's processor name, reports success, failure or a missing processor, and asks again. The
-- store removes a job that is done, and queues one that failed again, after a backoff, while its
-- limit of retries allows it. There are two stores, one in memory and one in a sled database, and
-- several servers run over one store, each in a thread of its own.
--
-- The files and the code that they model:
--   Job, JobInfo       jobs-core/src/lib.rs and jobs-core/src/job_info.rs: the enumerations, the
--                      records of a job and their methods
--   Stats              jobs-core/src/stats.rs: the counters
--   Storage.Trait      jobs-core/src/storage.rs, the trait `Storage`: a record of operations, and
--                      `new_job`, `request_job` and `return_job`, which are built from them
--   Storage.Spec       the abstract store: which jobs are stored, which queue each waits in, a
--                      bound on the identifiers given out, the counters; and the laws of a store,
--                      on the states that are sound for it
--   Storage.Refines, Storage.Sound, Storage.Valid, Storage.Delivery, Storage.Calls, Storage.Fit
--                      the three methods against the abstract store, one call after another
--   Storage.Ready, Storage.Complete
--                      a store whose fetch looks at whether a job is ready: where its jobs are
--   Storage.Total, Storage.Reliable, Storage.Trace, Storage.Covers
--                      a store whose operations succeed from its good states on, and whose calls do
--                      but for returns that panic; and what is seen of a history of calls, beside
--                      the messages that asked for them
--   Storage.Threads    jobs-core/src/storage.rs: the three methods one operation of the store at a
--                      time, and threads that alternate between operations
--   Storage.Race, Storage.Overflow
--                      two orders of events that lose a retry: a request in the middle of a
--                      return, and a backoff that is too long
--   Memory             jobs-core/src/storage.rs, `memory_storage`: `Inner` over hash maps
--   Sled               jobs-sled/src/error.rs, and sled and JSON as parameters
--   Sled.Tree          jobs-sled/src/sled_wrappers.rs: a tree of values that are kept as JSON
--   Sled.Key, Sled.Store, Sled.Open
--                      jobs-sled/src/lib.rs: the keys, the operations, the lock of a queue, and the
--                      opening of the trees
--   Sled.Lawful, Sled.Walk, Sled.Fetch, Sled.Sound, Sled.View, Sled.Laws, Sled.Ready, Sled.Lock
--                      the store on disk against the abstract store, and when its lock is had
--   Sled.Working, Sled.Total, Sled.Finds
--                      the store on disk over a database whose operations do not fail
--   Processor, ProcessorMap
--                      jobs-core/src/job.rs, processor.rs and processor_map.rs: what users declare
--                      of a job, and how a worker runs it
--   Actix, Server      jobs-actix/src/storage.rs and jobs-actix/src/server.rs: the wrapper of a
--                      store, the cache of waiting workers and a handler for each message
--   Server.Calls, Server.Places
--                      a handler as a history of calls of the store, and where it leaves workers
--   Pool               jobs-actix/src/lib.rs, every.rs and pinger.rs: the threads that run servers
--                      over one store, as steps, and the messages of the handle and the timers
--   Workers            jobs-actix/src/lib.rs and jobs-actix/src/worker.rs: the configuration of
--                      the workers, their numbers, and what a worker sends for a job
--   Pool.System        jobs-actix/src/lib.rs, server.rs and worker.rs together: the threads, the
--                      workers, and the messages that are on the way between them
--   Pool.Disk          the threads over a store on disk that was just opened
--   Pool.Life          a job from the handle over a server, a worker and the user's function back to
--                      the store in memory
--   Example            examples/actix-example/src/main.rs: the program that uses the library, with
--                      its job, its processor and its configuration
--   Outcome, Chrono, Common
--                      results and panics with an explicit state; the clock and the calendar; hash
--                      maps, tests and lists
--   Samples            concrete jobs, stores and servers, and the theorems at them
--
-- How the code is modelled. A method on `&mut self` takes the state and returns it beside its
-- result, which is a value, an error or a panic; what was written before an error stays written.
-- Integers keep their width: `% 2 ^ 32` and `% 2 ^ 64` are the wrap-around of a release build.
-- An instant is a number. `Utc::now()` is the clock of a call, a function from the number of the
-- reading to an instant; an operation of the store is handed readings of its own, and where a
-- theorem needs that time does not go back between two of them it says so. The calendar of
-- `chrono`, `serde_json`, the database and its trees, the user's code, the order in which a hash
-- map is walked, and the conversion of errors are parameters; what is relied on is a named
-- hypothesis: `AddsForward` and `SecondsAreLimited` of chrono, and `Adds` of one sum of a reading and
-- a backoff, where a theorem needs that it does not panic; `RoundTrips`, `IsJson` and `Writes` of
-- JSON, `IsDatabase` of sled, `Works` of a database whose operations do not fail, `OpensStored` of
-- the contents of the trees that a database opens, with `IsNew` of one database whose trees hold
-- nothing, and `Iteration` of a hash map's walk. `Laws`, `IsReliable` and `FetchesReady` are what
-- clients ask of a store; `IsReliable` lets a return panic if it leaves the store as it was, as the
-- sum of `JobInfo::next_queue` does. A future is what it resolves to.
--
-- Bounds and fuel. Loops are recursive in the list that they walk, but for four. The loop of
-- `lock_queue` on disk, which waits for another to give the lock back, runs on fuel; out of fuel
-- it has not returned, for which `panic` stands. One round is enough if the lock is free, and no
-- number of rounds if nobody gives it back. `decimal` writes a number n with n + 1 units of fuel,
-- more than it has digits. `grants`, which repeats failures in a theorem, is given one round more
-- than the limit of retries, which the theorem on it shows to be enough. `finish` of
-- Storage.Threads, which runs a method one operation after the other, is given four operations,
-- as many as the longest method has, which its theorem shows to be enough.
--
-- Not modelled: the order in which a mailbox keeps its messages and the time at which a timer
-- rings, so a message may be handled by any thread at any time. In Pool a handler runs to its end
-- before the next one begins; how threads alternate within the methods of a store is modelled in
-- Storage.Threads, where the operations of the store are atomic, as they are in memory under the
-- lock, and succeed. Not modelled either: how sled keeps its trees. Logging and the re-exports
-- of src/lib.rs carry no state.
pub mod Common
pub mod Outcome
pub mod Chrono
pub mod Example
pub mod Job
pub mod JobInfo
pub mod Stats
pub mod Storage
pub mod Memory
pub mod Sled
pub mod Processor
pub mod ProcessorMap
pub mod Actix
pub mod Server
pub mod Pool
pub mod Workers
pub mod Samples
