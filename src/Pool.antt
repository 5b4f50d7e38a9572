-- ===== src/Pool.antt =====
-- jobs-actix/src/lib.rs, jobs-actix/src/every.rs and jobs-actix/src/pinger.rs: the threads that run
-- servers over one store, what the handle of the servers sends them, and the timers. A message goes to
-- any one of the threads, which handles it to its end.
pub mod Matched
pub mod Timers
pub mod Once
pub mod Life
pub mod Disk
pub mod System
use backjob.Common.{
  ℕ, zero, suc, String, ◌≡◌, ◌≢◌, Option, none, some, List, [], ◌∷◌, ◌++◌, string_eq,
}
use backjob.Common.HashMap
use backjob.Common.HashMap.{HashMap, Iteration}
use backjob.Outcome.{Outcome, ok, err, panic}
use backjob.Chrono.{Clock}
use backjob.JobInfo.{JobInfo}
use backjob.Stats.{Stats}
use backjob.Processor.{Serde, Job, Processor, new_job}
use backjob.Actix.{ActixStorage}
use backjob.Server.{Worker, Server, Message, handle}
use backjob.Server

pub record ServerConfig (S : Type 0) : Type 0 where
  pub storage : S
  pub threads : ℕ

-- The threads share the store; each has the workers that it keeps waiting. `sent` is what all of them
-- sent, the latest last.
pub record Pool (S V : Type 0) : Type 0 where
  pub storage : S
  pub caches : List (HashMap String (List Worker))
  pub sent : List (Worker × JobInfo V)

abbrev pub replicate {ℓ} : {A : Type ℓ} → ℕ → A → List A
replicate zero a = []
replicate (suc n) a = a ∷ replicate n a

module _ {S : Type 0} where
  -- `ServerConfig::new`, on a machine with `cpus` cores.
  unfoldable pub new : ℕ → S → ServerConfig S
  new cpus storage = record { storage = storage; threads = cpus }

  unfoldable pub thread_count : ℕ → ServerConfig S → ServerConfig S
  thread_count threads config = record config { threads = threads }

  -- `ServerConfig::start`: each thread has a server of its own over the one store.
  unfoldable pub start : {V : Type 0} → ServerConfig S → Pool S V
  start config = record {
    storage = config.storage;
    caches = replicate config.threads HashMap.empty;
    sent = [];
  }

-- `QueueHandle::queue`, by the message that it sends; `none` is the error of a job that JSON cannot
-- carry.
module _ {J V State Cause : Type 0} (serde : Serde J V) (jobs : Job J State Cause)
    (p : Processor) where
  unfoldable pub queue : J → Option (Message V)
  unfolding new_job
  queue job = elim (new_job serde jobs p job) [
    | none ↦ none
    | some new ↦ some (Message.new_job new)
  ]

  -- `Every`: the job is queued when the timer starts and after each period; an error is logged. These
  -- are the messages of `n` periods.
  unfoldable pub every : J → ℕ → List (Message V)
  unfolding queue
  every job zero = elim (queue job) [ none ↦ [] | some message ↦ message ∷ [] ]
  every job (suc n) = elim (queue job) [ none ↦ [] | some message ↦ message ∷ [] ] ++ every job n

-- `Pinger`: one message for each thread, each second.
unfoldable pub ping : {V : Type 0} → ℕ → List (Message V)
ping threads = replicate threads Message.check_db

-- `coerce`, with the conversion `from` of the mailbox's errors.
unfoldable pub coerce : {I E F : Type 0} → (F → E) → Outcome F (Outcome E I) → Outcome E I
coerce from (ok inner) = inner
coerce from (err e) = err (from e)
coerce from panic = panic

-- One message in one thread. A thread whose handler panics is gone.
module _ {S F V : Type 0} (store : ActixStorage S F V) where
  pub data Step (message : Message V) : Pool S V → Pool S V → Type 0 where
    handles :
        (earlier later : List (HashMap String (List Worker)))
        (order : Iteration String (List Worker)) (clocks : ℕ → Clock) (r : Outcome F (Unit {0}))
        (server next : Server S V)
        → r ≢ panic
        → handle store order clocks message server ≡ (r, next)
        → Step message
            (record {
              storage = server.storage;
              caches = earlier ++ server.cache ∷ later;
              sent = server.sent;
            })
            (record {
              storage = next.storage;
              caches = earlier ++ next.cache ∷ later;
              sent = next.sent;
            })
    stops :
        (earlier later : List (HashMap String (List Worker)))
        (order : Iteration String (List Worker)) (clocks : ℕ → Clock) (server next : Server S V)
        → handle store order clocks message server ≡ (panic, next)
        → Step message
            (record {
              storage = server.storage;
              caches = earlier ++ server.cache ∷ later;
              sent = server.sent;
            })
            (record { storage = next.storage; caches = earlier ++ later; sent = next.sent })

  pub data Reach (p : Pool S V) : Pool S V → Type 0 where
    here : Reach p p
    further : {q r : Pool S V} (message : Message V) → Reach p q → Step message q r → Reach p r
