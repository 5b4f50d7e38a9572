-- ===== src/Server.antt =====
-- jobs-actix/src/server.rs: the server actor, which hands jobs of the store to workers and keeps
-- the workers that wait for one. `Worker` is the handle of jobs-actix/src/worker.rs; the jobs that
-- the server sends are collected in `sent`, the latest last.
pub mod Cache
pub mod NewJob
pub mod CheckDb
pub mod Handing
pub mod Matched
pub mod Check
pub mod Store
pub mod Places
pub mod Calls
use backjob.Common.{
  ℕ, suc, String, Bool, true, false, Option, none, some, List, [], ◌∷◌, ◌++◌, string_eq,
  if◌then◌else◌,
}
use backjob.Common.HashMap
use backjob.Common.HashMap.{HashMap, Iteration, get, insert}
use backjob.Outcome.{Outcome, ok, err, panic, Exec, pure, ◌>>=◌, ◌>>◌}
use backjob.Chrono.{Clock, later}
use backjob.JobInfo.{JobInfo, NewJobInfo, ReturnJobInfo, is_unscheduled}
use backjob.Stats.{Stats}
use backjob.Actix.{ActixStorage}

-- `LocalWorkerHandle`: the actor that it speaks to, the worker's number and its queue.
pub record Worker : Type 0 where
  pub addr : ℕ
  pub id : ℕ
  pub queue : String

-- The messages `NewJob`, `ReturningJob`, `RequestJob` and `CheckDb`.
pub data Message (V : Type 0) : Type 0 where
  new_job : NewJobInfo V → Message V
  returning_job : ReturnJobInfo → Message V
  request_job : Worker → Message V
  check_db : Message V

pub record Server (S V : Type 0) : Type 0 where
  pub storage : S
  pub cache : HashMap String (List Worker)
  pub sent : List (Worker × JobInfo V)

abbrev pub or_empty : Option (List Worker) → List Worker
or_empty none = []
or_empty (some workers) = workers

module _ {S V : Type 0} where
  -- `Server::new`
  unfoldable pub new : S → Server S V
  new storage = record { storage = storage; cache = HashMap.empty; sent = [] }

  -- `entry(queue).or_insert(VecDeque::new())`, read.
  abbrev pub waiting : String → Server S V → List Worker
  waiting queue server = or_empty (get queue server.cache)

  -- The queue's entry with these workers, at a store.
  abbrev pub with_entry : String → List Worker → S → Server S V → Server S V
  with_entry queue workers storage server = record server {
    storage = storage;
    cache = insert queue workers server.cache;
  }

  -- `worker.process_job(job)`
  abbrev pub send : Worker → JobInfo V → Server S V → Server S V
  send worker job server = record server { sent = server.sent ++ (worker, job) ∷ [] }

  abbrev pub on_storage : {F A : Type 0} → Exec S F A → Exec (Server S V) F A
  on_storage m server = ((m server.storage).0, record server { storage = (m server.storage).1 })

module _ {S F V : Type 0} (store : ActixStorage S F V) where
  -- What becomes of the worker that was taken from the front of its queue's entry, by what the
  -- store answered: it is sent the job, or goes to the back.
  unfoldable pub settle :
      String
      → Worker
      → List Worker
      → Outcome F (Option (JobInfo V))
      → S
      → Exec (Server S V) F (Unit {0})
  settle queue worker rest (ok (some job)) s server =
      (ok tt, send worker job (with_entry queue rest s server))
  settle queue worker rest (ok none) s server =
      (ok tt, with_entry queue (rest ++ worker ∷ []) s server)
  settle queue worker rest (err e) s server =
      (ok tt, with_entry queue (rest ++ worker ∷ []) s server)
  settle queue worker rest panic s server = (panic, with_entry queue rest s server)

  unfoldable pub serve_entry : Clock → String → List Worker → Exec (Server S V) F (Unit {0})
  unfolding settle
  serve_entry clock queue [] server = (ok tt, with_entry queue [] server.storage server)
  serve_entry clock queue (worker ∷ rest) server =
      let (r, s) = store.request_job clock queue worker.id server.storage in
      settle queue worker rest r s server

  unfoldable pub serve_queue : Clock → String → Exec (Server S V) F (Unit {0})
  unfolding serve_entry
  serve_queue clock queue server = serve_entry clock queue (waiting queue server) server

  unfoldable pub handle_new_job : Clock → NewJobInfo V → Exec (Server S V) F (Unit {0})
  unfolding serve_queue is_unscheduled
  handle_new_job clock new = do
    on_storage (store.new_job clock new)
    if is_unscheduled new then serve_queue (later 3 clock) new.queue else pure tt

  unfoldable pub handle_returning_job : Clock → ReturnJobInfo → Exec (Server S V) F (Unit {0})
  handle_returning_job clock r = on_storage (store.return_job clock r)

  unfoldable pub place : Worker → Option (JobInfo V) → Exec (Server S V) F (Unit {0})
  place worker (some job) server = (ok tt, send worker job server)
  place worker none server = (
    ok tt,
    with_entry worker.queue (waiting worker.queue server ++ worker ∷ []) server.storage server,
  )

  unfoldable pub handle_request_job : Clock → Worker → Exec (Server S V) F (Unit {0})
  unfolding place
  handle_request_job clock worker = do
    job ← on_storage (store.request_job clock worker.queue worker.id)
    place worker job

  -- A round of the `while` loop over the workers of one queue, by what the store answered; `more`
  -- is the rest of the loop. The loop ends with the workers that are left and the server.
  unfoldable pub drain_on :
      (Server S V → Outcome F (Unit {0}) × List Worker × Server S V)
      → Worker
      → List Worker
      → Outcome F (Option (JobInfo V)) × S
      → Server S V
      → Outcome F (Unit {0}) × List Worker × Server S V
  drain_on more worker rest (ok (some job), s) server =
      more (send worker job (record server { storage = s }))
  drain_on more worker rest (ok none, s) server =
      (ok tt, rest ++ worker ∷ [], record server { storage = s })
  drain_on more worker rest (err _, s) server =
      (ok tt, rest ++ worker ∷ [], record server { storage = s })
  drain_on more worker rest (panic, s) server = (panic, rest, record server { storage = s })

  unfoldable pub drain :
      Clock → String → List Worker → Server S V → Outcome F (Unit {0}) × List Worker × Server S V
  unfolding drain_on
  drain clock queue [] server = (ok tt, [], server)
  drain clock queue (worker ∷ rest) server =
      drain_on (drain (later 6 clock) queue rest) worker rest
        (store.request_job clock queue worker.id server.storage) server

  -- A round of the `for` loop, by what the loop over the workers of the queue ended with; `more` is
  -- the rest of the walk.
  unfoldable pub next_entry :
      Exec (Server S V) F (Unit {0})
      → String
      → Outcome F (Unit {0}) × List Worker × Server S V
      → Outcome F (Unit {0}) × Server S V
  next_entry more queue (ok _, left, after) = more (with_entry queue left after.storage after)
  next_entry more queue (err e, left, after) = (err e, with_entry queue left after.storage after)
  next_entry more queue (panic, left, after) = (panic, with_entry queue left after.storage after)

  -- The `for` loop; `clocks n` is the clock of the n-th queue that it comes to.
  unfoldable pub check_entries :
      (ℕ → Clock) → List (String × List Worker) → Exec (Server S V) F (Unit {0})
  unfolding drain next_entry
  check_entries clocks [] server = (ok tt, server)
  check_entries clocks ((queue, workers) ∷ more) server =
      next_entry (check_entries (λ n. clocks (suc n)) more) queue
        (drain (clocks 0) queue workers server)

  -- The cache is walked in the order of `order`.
  unfoldable pub handle_check_db :
      Iteration String (List Worker) → (ℕ → Clock) → Exec (Server S V) F (Unit {0})
  unfolding check_entries
  handle_check_db order clocks server = check_entries clocks (order.iter server.cache) server

  -- One message; only the walk over the cache uses more than the first clock.
  unfoldable pub handle :
      Iteration String (List Worker) → (ℕ → Clock) → Message V → Exec (Server S V) F (Unit {0})
  unfolding handle_new_job handle_returning_job handle_request_job handle_check_db
  handle order clocks (new_job new) = handle_new_job (clocks 0) new
  handle order clocks (returning_job r) = handle_returning_job (clocks 0) r
  handle order clocks (request_job worker) = handle_request_job (clocks 0) worker
  handle order clocks check_db = handle_check_db order clocks

  unfoldable pub handle_get_stats : Clock → Server S V → Outcome F Stats
  handle_get_stats clock server = store.get_stats clock server.storage
