-- ===== src/Samples/Lives.antt =====
-- A job whose function fails, and a job of the example program, from the queue to the end.
use backjob.Common.{ℕ, ◌≡◌, ◌≢◌, refl, String, none, some, [], ◌∷◌, ◌++◌, nat_eq, string_eq}
use backjob.Chrono.{as_i64}
use mathlib.Core.List.{Memᴰ}
use backjob.Common.HashMap
use backjob.Common.HashMap.{newest_first, get, insert, remove, get-empty}
use backjob.Outcome.{ok}
use backjob.JobInfo.{NewJobInfo}
use backjob.JobInfo
use backjob.Job.{count, exponential}
use backjob.Processor.{Future, item, error, Serde, RoundTrips, Job}
use backjob.Processor
use backjob.ProcessorMap.{register_processor}
use backjob.ProcessorMap
use backjob.Actix.{storage_wrapper}
use backjob.Memory.{Inner, new, storage}
use backjob.Memory.View.{view}
use backjob.Memory.Requests.{new-IsValid}
use backjob.Server.{Server, Message, handle}
use backjob.Server
use backjob.Workers.{
  LocalWorker, handle_of, handle_process_job, register, set_processor_count, start_queue,
  start_queues,
}
use backjob.Workers
use backjob.Pool.{queue}
use backjob.Pool.Life.{first_run, queue-Ends}
use backjob.Pool.Life.Left.{Ends, IsGone}
use backjob.Example.{MyJob, MyState, my_job, my_jobs, my_processor, workers, main}
use backjob.Example.Done.{my_job-IsGone}
use backjob.Samples.Data.{chrono, clock, clocks}
use backjob.Samples.Stores.{order, room}
use backjob.Samples.Processors.{serde, serde-RoundTrips, processor, made}
use backjob.Samples.Actors.{never, actix_store, first, idle, waits}

abbrev failing : Job String ℕ String
failing = record {
  run = λ j state. error "no such image";
  queue = λ j. none;
  max_retries = λ j. none;
  backoff_strategy = λ j. none;
}

queued_by : queue serde failing processor "cat" ≡ some (Message.new_job made)
unfolding queue Processor.new_job JobInfo.new
queued_by = refl

abbrev fails_on : LocalWorker String ℕ String
fails_on = record {
  id = 1000;
  queue = "images";
  processors =
      register_processor "resize" (Processor.process serde failing) (ProcessorMap.new (λ n. n));
}

nothing_waits : (k : ℕ) → (view idle.storage).queued k ≢ some "images"
unfolding new
nothing_waits k h = let e = get-empty {V = String} k in cc

queue-Ends_example :
    (t : Server (Inner String) String) × (u : Server (Inner String) String) × (handle actix_store
        newest_first clocks
        (Message.new_job made)
        idle
      ≡ (ok tt, t))
    × (t.sent ≡ idle.sent ++ (first, first_run (clocks 0) idle.storage.count made) ∷ [])
    × (handle actix_store newest_first clocks
          (Message.returning_job
            (handle_process_job first.addr 0
              (first_run (clocks 0) idle.storage.count made)
              fails_on).0)
          t
        ≡ (ok tt, u))
    × Ends
        (failing.run "cat" (fails_on.processors.state_fn 0))
        (first_run (clocks 0) idle.storage.count made)
        (view u.storage)
unfolding JobInfo.new as_i64 JobInfo.backoff_secs get register_processor insert
queue-Ends_example =
    queue-Ends serde failing processor order chrono never "cat" made first [] idle newest_first
      clocks clocks 0 fails_on serde-RoundTrips (λ e ran more. (_, refl)) queued_by
      (new-IsValid clock) room waits nothing_waits refl

-- JSON that carries a job as it is.
abbrev as_it_is : Serde MyJob MyJob
as_it_is = record { to_value = some; from_value = some }

as_it_is-RoundTrips : RoundTrips as_it_is
as_it_is-RoundTrips j v h = cc

abbrev carried : NewJobInfo MyJob
carried = JobInfo.new "MyProcessor" "default" (my_job 1 2) (count 1) (exponential 2)

carried_by :
    queue as_it_is (my_jobs {Cause = String}) my_processor (my_job 1 2)
    ≡ some (Message.new_job carried)
unfolding queue Processor.new_job JobInfo.new
carried_by = refl

-- The first of the sixteen workers.
abbrev first_worker : LocalWorker MyJob MyState String
first_worker = record {
  id = 1000;
  queue = "default";
  processors = (workers as_it_is String).processors;
}

is_started : Memᴰ first_worker (Workers.start newest_first (workers as_it_is String))
unfolding Workers.start start_queues start_queue workers Workers.new register set_processor_count
    ProcessorMap.new newest_first insert remove HashMap.empty
is_started = Memᴰ.head refl

my_job-IsGone_example :
    (s : Server (Inner MyJob) MyJob) × (t : Server (Inner MyJob) MyJob) × (u : Server
      (Inner MyJob)
      MyJob)
    × (handle
          (storage_wrapper never chrono (storage newest_first))
          newest_first
          clocks
          (Message.request_job (handle_of 0 first_worker))
          (Server.new (main as_it_is String newest_first 4 clock).0.pool.storage)
        ≡ (ok tt, s))
    × (handle
          (storage_wrapper never chrono (storage newest_first))
          newest_first
          clocks
          (Message.new_job carried)
          s
        ≡ (ok tt, t))
    × (t.sent ≡ (handle_of 0 first_worker, first_run (clocks 0) 0 carried) ∷ [])
    × (handle
          (storage_wrapper never chrono (storage newest_first))
          newest_first
          clocks
          (Message.returning_job
            (handle_process_job 0 0 (first_run (clocks 0) 0 carried) first_worker).0)
          t
        ≡ (ok tt, u))
    × IsGone 0 (view u.storage)
my_job-IsGone_example =
    my_job-IsGone as_it_is newest_first chrono never newest_first newest_first 4 clock clocks clocks
      clocks 1 2 0 0 carried first_worker as_it_is-RoundTrips carried_by is_started
