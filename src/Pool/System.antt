-- ===== src/Pool/System.antt =====
-- jobs-actix/src/lib.rs, server.rs and worker.rs together: the threads that run servers, the workers,
-- and the messages between them, which may arrive in any order.
pub mod Exclusive
pub mod Lost
use backjob.Common.{ℕ, ◌+◌, ◌≡◌, String, List, [], ◌∷◌, ◌++◌, string_eq}
use backjob.Common.HashMap.{Iteration}
use backjob.JobInfo.{JobInfo, NewJobInfo, ReturnJobInfo}
use backjob.Actix.{ActixStorage}
use backjob.Server.{Worker, Message}
use backjob.Workers.{LocalWorker, WorkerConfig, handle_of, handle_process_job}
use backjob.Workers
use backjob.Pool.{ServerConfig, Pool, Step}
use backjob.Pool

-- The threads, the messages `RequestJob` and `ReturningJob` that have not arrived yet, and the jobs
-- that are at workers, those that have not arrived yet included.
pub record System (S V : Type 0) : Type 0 where
  pub pool : Pool S V
  pub requests : List Worker
  pub returns : List ReturnJobInfo
  pub working : List (Worker × JobInfo V)

module _ {V State Cause : Type 0} where
  -- Each worker that starts sends a request with its handle; the actors have addresses of their own.
  unfoldable pub introduced : ℕ → List (LocalWorker V State Cause) → List Worker
  unfolding handle_of
  introduced addr [] = []
  introduced addr (worker ∷ rest) = handle_of addr worker ∷ introduced (addr + 1) rest

  -- `ServerConfig::start`, and then `WorkerConfig::start`.
  unfoldable pub started :
      {S : Type 0} → Iteration String ℕ → ServerConfig S → WorkerConfig V State Cause → System S V
  unfolding introduced Pool.start Workers.start
  started order servers workers = record {
    pool = Pool.start servers;
    requests = introduced 0 (Workers.start order workers);
    returns = [];
    working = [];
  }

-- What the program does next. The handler of a worker answers a job with two messages.
pub data Move {S F V : Type 0} (State Cause : Type 0) (store : ActixStorage S F V)
    : System S V → System S V → Type 0 where
  asks :
      (before behind : List Worker) (returns : List ReturnJobInfo)
      (working new : List (Worker × JobInfo V)) (worker : Worker) (p q : Pool S V)
      → Step store (Message.request_job worker) p q
      → q.sent ≡ p.sent ++ new
      → Move State Cause store
          (record {
            pool = p;
            requests = before ++ worker ∷ behind;
            returns = returns;
            working = working;
          })
          (record {
            pool = q;
            requests = before ++ behind;
            returns = returns;
            working = working ++ new;
          })
  reports :
      (before behind : List ReturnJobInfo) (requests : List Worker)
      (working new : List (Worker × JobInfo V)) (r : ReturnJobInfo) (p q : Pool S V)
      → Step store (Message.returning_job r) p q
      → q.sent ≡ p.sent ++ new
      → Move State Cause store
          (record {
            pool = p;
            requests = requests;
            returns = before ++ r ∷ behind;
            working = working;
          })
          (record {
            pool = q;
            requests = requests;
            returns = before ++ behind;
            working = working ++ new;
          })
  creates :
      (returns : List ReturnJobInfo) (requests : List Worker)
      (working new : List (Worker × JobInfo V)) (job : NewJobInfo V) (p q : Pool S V)
      → Step store (Message.new_job job) p q
      → q.sent ≡ p.sent ++ new
      → Move State Cause store
          (record { pool = p; requests = requests; returns = returns; working = working })
          (record { pool = q; requests = requests; returns = returns; working = working ++ new })
  checks :
      (returns : List ReturnJobInfo) (requests : List Worker)
      (working new : List (Worker × JobInfo V)) (p q : Pool S V)
      → Step store Message.check_db p q
      → q.sent ≡ p.sent ++ new
      → Move State Cause store
          (record { pool = p; requests = requests; returns = returns; working = working })
          (record { pool = q; requests = requests; returns = returns; working = working ++ new })
  works :
      (before behind : List (Worker × JobInfo V)) (requests : List Worker)
      (returns : List ReturnJobInfo) (worker : Worker) (job : JobInfo V) (p : Pool S V)
      (actor : LocalWorker V State Cause) (n : ℕ)
      → handle_of worker.addr actor ≡ worker
      → Move State Cause store
          (record {
            pool = p;
            requests = requests;
            returns = returns;
            working = before ++ (worker, job) ∷ behind;
          })
          (record {
            pool = p;
            requests = requests ++ (handle_process_job worker.addr n job actor).1 ∷ [];
            returns = returns ++ (handle_process_job worker.addr n job actor).0 ∷ [];
            working = before ++ behind;
          })

pub data Moves {S F V : Type 0} (State Cause : Type 0) (store : ActixStorage S F V) (s : System S V)
    : System S V → Type 0 where
  begin : Moves State Cause store s s
  move :
      {t u : System S V}
      → Moves State Cause store s t
      → Move State Cause store t u
      → Moves State Cause store s u
