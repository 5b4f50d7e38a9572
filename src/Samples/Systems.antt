-- ===== src/Samples/Systems.antt =====
-- Two threads over a store in memory and two workers: a job comes in, a worker asks for it and works on
-- it.
use backjob.Common.{ℕ, ◌≤◌, String, ◌≡◌, refl, [], ◌∷◌, string_eq, nat_eq}
use backjob.Pool.System.Lost.{asking, refused, lost_for_good}
use backjob.Common.HashMap
use backjob.Common.HashMap.{HashMap, newest_first, get, insert, remove}
use backjob.Outcome.{ok, err}
use backjob.JobInfo.{JobInfo, with_id, is_pending, is_ready, is_in_queue, is_unscheduled, run}
use backjob.Memory
use backjob.Memory.{
  Inner, generate_id, save_job, fetch_job_from_queue, queue_job, run_job, update_stats,
}
use backjob.Storage.Trait
use backjob.ProcessorMap
use backjob.ProcessorMap.{register_processor}
use backjob.Server.{
  Worker, Server, new_job, request_job, handle, handle_new_job, serve_queue, serve_entry, settle,
  handle_request_job,
}
use backjob.Server
use backjob.Workers.{
  LocalWorker, register, set_processor_count, start_queue, start_queues, handle_of,
  handle_process_job,
}
use backjob.Workers
use backjob.Pool.{ServerConfig, Pool, handles, start}
use backjob.Pool.System.{
  System, introduced, started, Moves, begin, move, creates, asks, works, Move,
}
use backjob.Pool.System.Exclusive.{places, one_place}
use backjob.Samples.Data.{clocks, resize}
use backjob.Samples.Stores.{empty_store}
use backjob.Samples.Actors.{actix_store, two_workers, fits, down}

abbrev threads : ServerConfig (Inner String)
threads = record { storage = empty_store; threads = 2 }

abbrev actor : LocalWorker String ℕ String
actor = record { id = 1000; queue = "images"; processors = two_workers.processors }

abbrev worker : Worker
worker = record { addr = 0; id = 1000; queue = "images" }

abbrev other : Worker
other = record { addr = 1; id = 1001; queue = "images" }

abbrev one : Server (Inner String) String
one = (handle actix_store newest_first clocks (new_job resize) (Server.new empty_store)).1

abbrev second : Server (Inner String) String
second = record { storage = one.storage; cache = HashMap.empty; sent = [] }

abbrev two : Server (Inner String) String
two = (handle actix_store newest_first clocks (request_job worker) second).1

one_by :
    handle actix_store newest_first clocks (new_job resize) (Server.new empty_store) ≡ (ok tt, one)
unfolding handle handle_request_job Server.place Server.new Trait.request_job fetch_job_from_queue
    handle_new_job serve_queue serve_entry settle Trait.new_job generate_id save_job queue_job
    run_job update_stats Memory.new newest_first get insert remove HashMap.empty is_pending is_ready
    is_in_queue run with_id is_unscheduled start started introduced handle_of handle_process_job
    Workers.start start_queue start_queues register set_processor_count ProcessorMap.new
    register_processor Workers.new
one_by = refl

two_by : handle actix_store newest_first clocks (request_job worker) second ≡ (ok tt, two)
unfolding handle handle_request_job Server.place Server.new Trait.request_job fetch_job_from_queue
    handle_new_job serve_queue serve_entry settle Trait.new_job generate_id save_job queue_job
    run_job update_stats Memory.new newest_first get insert remove HashMap.empty is_pending is_ready
    is_in_queue run with_id is_unscheduled start started introduced handle_of handle_process_job
    Workers.start start_queue start_queues register set_processor_count ProcessorMap.new
    register_processor Workers.new
two_by = refl

abbrev job : JobInfo String
job = run 1002 (with_id 1000 0 resize)

abbrev after_two : Pool (Inner String) String
after_two = record { storage = two.storage; caches = one.cache ∷ two.cache ∷ []; sent = two.sent }

abbrev ended : System (Inner String) String
ended = record {
  pool = after_two;
  requests = other ∷ worker ∷ [];
  returns = (handle_process_job 0 0 job actor).0 ∷ [];
  working = [];
}

ran : Moves ℕ String actix_store (started newest_first threads two_workers) ended
unfolding handle handle_request_job Server.place Server.new Trait.request_job fetch_job_from_queue
    handle_new_job serve_queue serve_entry settle Trait.new_job generate_id save_job queue_job
    run_job update_stats Memory.new newest_first get insert remove HashMap.empty is_pending is_ready
    is_in_queue run with_id is_unscheduled start started introduced handle_of handle_process_job
    Workers.start start_queue start_queues register set_processor_count ProcessorMap.new
    register_processor Workers.new
ran =
    move
      (move
        (move begin (
          creates [] (worker ∷ other ∷ []) [] [] resize (start threads)
            (record {
              storage = one.storage;
              caches = one.cache ∷ HashMap.empty ∷ [];
              sent = one.sent;
            })
            (handles [] (HashMap.empty ∷ []) newest_first clocks (ok tt) (Server.new empty_store)
              one (λ q. cc) one_by)
            refl))
        (asks [] (other ∷ []) [] [] ((worker, job) ∷ []) worker
          (record {
            storage = one.storage;
            caches = one.cache ∷ HashMap.empty ∷ [];
            sent = one.sent;
          })
          after_two
          (handles (one.cache ∷ []) [] newest_first clocks (ok tt) second two (λ q. cc) two_by)
          refl))
      (works [] [] (other ∷ []) [] worker job after_two actor 0 refl)

one_place_example : places 1000 ended ≤ 1
one_place_example = one_place actix_store newest_first threads two_workers ended 1000 fits ran

-- A store on which requests fail.
abbrev idle_server : Server (Inner String) String
idle_server = Server.new empty_store

failed_by :
    handle down newest_first clocks (request_job worker) idle_server ≡ (err "down", idle_server)
unfolding handle handle_request_job
failed_by = refl

abbrev made : Server (Inner String) String
made = (handle down newest_first clocks (new_job resize) idle_server).1

-- A job that arrives later.
abbrev too_late : System (Inner String) String
too_late = record {
  pool = record {
    storage = made.storage;
    caches = made.cache ∷ HashMap.empty ∷ [];
    sent = made.sent;
  };
  requests = other ∷ [];
  returns = [];
  working = [];
}

made_by : handle down newest_first clocks (new_job resize) idle_server ≡ (ok tt, made)
unfolding handle handle_new_job serve_queue serve_entry settle Trait.new_job generate_id save_job
    queue_job update_stats Memory.new get insert remove HashMap.empty with_id is_unscheduled
    Server.new
made_by = refl

at_first :
    Moves ℕ String down
      (started newest_first threads two_workers)
      (asking [] (HashMap.empty ∷ []) [] (other ∷ []) [] [] worker idle_server)
unfolding started start introduced handle_of Workers.start start_queue start_queues register
    set_processor_count ProcessorMap.new register_processor Workers.new Server.new newest_first
    insert remove HashMap.empty
at_first = begin

later_on :
    Moves ℕ String down (refused [] (HashMap.empty ∷ []) [] (other ∷ []) [] [] idle_server) too_late
unfolding handle_new_job serve_queue serve_entry settle Trait.new_job generate_id save_job queue_job
    update_stats Memory.new get insert remove HashMap.empty with_id is_unscheduled Server.new handle
later_on = move begin (
    creates [] (other ∷ []) [] [] resize
      (record { storage = empty_store; caches = HashMap.empty ∷ HashMap.empty ∷ []; sent = [] })
      (record {
        storage = made.storage;
        caches = made.cache ∷ HashMap.empty ∷ [];
        sent = made.sent;
      })
      (handles [] (HashMap.empty ∷ []) newest_first clocks (ok tt) idle_server made (λ q. cc)
        made_by)
      refl)

lost_for_good_example :
    Move ℕ String down
      (asking [] (HashMap.empty ∷ []) [] (other ∷ []) [] [] worker idle_server)
      (refused [] (HashMap.empty ∷ []) [] (other ∷ []) [] [] idle_server)
    × (places 1000 too_late ≡ 0)
lost_for_good_example =
    lost_for_good down newest_first threads two_workers newest_first clocks [] (HashMap.empty ∷ [])
      idle_server idle_server [] (other ∷ []) worker [] [] "down" too_late fits at_first failed_by
      later_on
