-- ===== src/Example.antt =====
-- examples/actix-example/src/main.rs: a program that uses the library, with one kind of job. The job's
-- function prints a line, which is left out, and succeeds.
pub mod Done
use backjob.Common.{ℕ, String, Option, none, some, List, [], ◌∷◌, ◌++◌, string_eq}
use backjob.Common.HashMap.{Iteration}
use backjob.Outcome.{Outcome, ok, err, Exec, ◌>>◌}
use backjob.Chrono.{Clock}
use backjob.Job.{exponential, count}
use backjob.Processor.{Future, item, Serde, Job, Processor}
use backjob.Processor
use backjob.Memory.{Inner}
use backjob.Memory
use backjob.Server.{Message}
use backjob.Workers.{WorkerConfig, register, set_processor_count}
use backjob.Workers
use backjob.Pool.{ServerConfig, thread_count, queue}
use backjob.Pool
use backjob.Pool.System.{System, started}

abbrev pub default_queue : String
default_queue = "default"

pub record MyState : Type 0 where
  pub app_name : String

pub record MyJob : Type 0 where
  pub some_usize : ℕ
  pub other_usize : ℕ

-- `MyState::new` and `MyJob::new`
abbrev pub my_state : String → MyState
my_state app_name = record { app_name = app_name }

abbrev pub my_job : ℕ → ℕ → MyJob
my_job some_usize other_usize = record { some_usize = some_usize; other_usize = other_usize }

-- `impl Job for MyJob`; what it does not say is said by the trait.
abbrev pub my_jobs : {Cause : Type 0} → Job MyJob MyState Cause
my_jobs = record {
  run = λ job state. item tt;
  queue = λ job. none;
  max_retries = λ job. none;
  backoff_strategy = λ job. none;
}

-- `impl Processor for MyProcessor`
abbrev pub my_processor : Processor
my_processor = record {
  name = "MyProcessor";
  queue = default_queue;
  max_retries = count 1;
  backoff_strategy = exponential 2;
}

module _ {V : Type 0} (serde : Serde MyJob V) (Cause : Type 0) where
  -- The parts of `main`: the servers, on a machine with `cpus` cores, the workers, and the jobs that are
  -- queued, by the messages that are sent until the end or the first error.
  unfoldable pub servers : {S : Type 0} → ℕ → S → ServerConfig S
  unfolding Pool.new thread_count
  servers cpus storage = thread_count 8 (Pool.new cpus storage)

  unfoldable pub workers : WorkerConfig V MyState Cause
  unfolding Workers.new register set_processor_count
  workers = set_processor_count default_queue 16 (
      register my_processor (Processor.process serde my_jobs)
        (Workers.new (λ _. my_state "My App")))

  unfoldable pub queue_one : MyJob → Exec (List (Message V)) (Unit {0}) (Unit {0})
  unfolding queue
  queue_one job sent = elim (queue serde (my_jobs {Cause = Cause}) my_processor job) [
    | none ↦ (err tt, sent)
    | some message ↦ (ok tt, sent ++ message ∷ [])
  ]

  unfoldable pub queue_jobs : Exec (List (Message V)) (Unit {0}) (Unit {0})
  unfolding queue_one
  queue_jobs = do queue_one (my_job 1 2); queue_one (my_job 3 4); queue_one (my_job 5 6)

  -- What runs when `main` waits for the actors, how far the queueing came, and the messages of the
  -- handle. The time is that of the new store.
  unfoldable pub main :
      Iteration String ℕ
      → ℕ
      → Clock
      → System (Inner V) V × (Outcome (Unit {0}) (Unit {0}) × List (Message V))
  unfolding servers workers queue_jobs started Memory.new
  main order cpus clock = (started order (servers cpus (Memory.new clock)) workers, queue_jobs [])
