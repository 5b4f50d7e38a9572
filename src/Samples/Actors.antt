-- ===== src/Samples/Actors.antt =====
-- The theorems on the server and the workers, over a store in memory.
use backjob.Common.{
  ℕ, ◌+◌, ◌^◌, ◌≤◌, ◌≡◌, refl, String, true, some, List, [], ◌∷◌, ◌++◌, map, string_eq, nat_eq,
  arith,
}
use backjob.Common.HashMap
use backjob.Common.HashMap.{HashMap, Iteration, newest_first, get, insert, remove, get-empty}
use backjob.Outcome.{ok, err}
use backjob.JobInfo.{JobInfo, with_id, is_pending, is_ready, is_in_queue, is_unscheduled, run}
use backjob.Memory
use backjob.Memory.{
  Inner, Never, generate_id, save_job, fetch_job_from_queue, queue_job, run_job, update_stats,
}
use backjob.Storage.Trait
use backjob.Actix.{ActixStorage, storage_wrapper}
use backjob.ProcessorMap.{ProcessorMap, ProcessFn, process_job, process, register_processor}
use backjob.ProcessorMap
use backjob.Server.{
  handle_new_job, serve_queue, serve_entry, settle, Worker, Server, request_job, waiting,
  handle_request_job, place, handle, drain,
}
use backjob.Server
use backjob.Server.Matched.{IsMatched}
use backjob.Server.Store.{handle-storage_wrapper-IsMatched}
use backjob.Server.NewJob.{Keeps, handle_new_job-Keeps}
use backjob.Server.Cache.{Splits, drain-Splits}
use backjob.Workers.{WorkerConfig, LocalWorker, register, set_processor_count, start}
use backjob.Workers
use backjob.Workers.Numbers.{count_up, total, ids-start}
use backjob.Samples.Data.{chrono, clock, clocks, resize}
use backjob.Samples.Stores.{order, store, created_store, empty_store, room}
use backjob.Memory.View.{view}
use backjob.Memory.Requests.{new-IsValid}
use backjob.Server.Handing.{handle_new_job-sends}
use backjob.Samples.Processors.{processor, step}

-- The store in memory, whose errors cannot happen, behind the wrapper.
abbrev pub never : Never → String
never _ = "never"

abbrev pub actix_store : ActixStorage (Inner String) String String
actix_store = storage_wrapper never chrono store

abbrev pub down : ActixStorage (Inner String) String String
down = record actix_store { request_job = λ clock queue runner_id s. (err "down", s) }

abbrev pub first : Worker
first = record { addr = 1; id = 1000; queue = "images" }

abbrev second : Worker
second = record { addr = 2; id = 1001; queue = "images" }

abbrev pub server : Server (Inner String) String
server = Server.new created_store

server-IsMatched : IsMatched server
unfolding Server.new
server-IsMatched = record {
  filed = λ queue workers h. let e = get-empty {V = List Worker} queue in absurd (cc);
  fitting = tt;
}

handle-storage_wrapper-IsMatched_example :
    IsMatched
      (handle (storage_wrapper never chrono store) newest_first clocks (request_job first) server).1
handle-storage_wrapper-IsMatched_example =
    handle-storage_wrapper-IsMatched never chrono store newest_first clocks (request_job first)
      server server-IsMatched

abbrev pub served : Server (Inner String) String
served = (handle_request_job actix_store clock first server).1

pub served_by : handle_request_job actix_store clock first server ≡ (ok tt, served)
unfolding handle_request_job place Server.new Trait.request_job fetch_job_from_queue Trait.new_job
    generate_id save_job queue_job run_job update_stats Memory.new newest_first get insert remove
    HashMap.empty is_pending is_ready is_in_queue run with_id
served_by = refl

drain-Splits_example :
    Splits actix_store
      (first ∷ second ∷ [])
      server
      (drain actix_store clock "images" (first ∷ second ∷ []) server)
drain-Splits_example = drain-Splits actix_store clock "images" (first ∷ second ∷ []) server

-- A worker waits, and no job does.
abbrev pub idle : Server (Inner String) String
idle = record server { storage = empty_store; cache = insert "images" (first ∷ []) HashMap.empty }

abbrev put_to_work : Server (Inner String) String
put_to_work = (handle_new_job actix_store clock resize idle).1

put_to_work_by : handle_new_job actix_store clock resize idle ≡ (ok tt, put_to_work)
unfolding handle_new_job serve_queue serve_entry settle is_unscheduled Server.new Trait.request_job
    fetch_job_from_queue Trait.new_job generate_id save_job queue_job run_job update_stats
    Memory.new newest_first get insert remove HashMap.empty is_pending is_ready is_in_queue run
    with_id
put_to_work_by = refl

handle_new_job-Keeps_example : Keeps "images" "images" idle put_to_work
handle_new_job-Keeps_example =
    handle_new_job-Keeps actix_store clock resize "images" idle put_to_work put_to_work_by

none_queued :
    (i : ℕ) (j : JobInfo String)
    → (view empty_store).queued i ≡ some "images"
    → (view empty_store).jobs i ≡ some j
    → is_ready 1004 j ≡ true
unfolding Memory.new
none_queued i j q h = let e = get-empty {V = String} i in absurd (cc)

pub waits : waiting "images" idle ≡ first ∷ []
unfolding get insert remove HashMap.empty
waits = refl

at_once : is_unscheduled resize ≡ true
unfolding is_unscheduled
at_once = refl

handle_new_job-sends_example :
    (job : JobInfo String) × (t : Server (Inner String) String) × (handle_new_job actix_store clock
        resize idle
      ≡ (ok tt, t))
    × (t.sent ≡ idle.sent ++ (first, job) ∷ [])
    × (waiting "images" t ≡ [])
handle_new_job-sends_example =
    handle_new_job-sends order chrono clock resize never first [] idle (new-IsValid clock) room
      at_once waits none_queued

-- Two workers for the one queue.
abbrev pub two_workers : WorkerConfig String ℕ String
two_workers = set_processor_count "images" 2 (register processor step (Workers.new (λ n. n)))

pub fits : total (newest_first.iter two_workers.queues) + 1000 ≤ 2 ^ 64
unfolding Workers.new register set_processor_count ProcessorMap.new newest_first insert remove
    HashMap.empty
fits = omega arith

ids-start_example :
    map (λ (w : LocalWorker String ℕ String). w.id) (start newest_first two_workers)
    ≡ count_up 1000 (total (newest_first.iter two_workers.queues))
ids-start_example = ids-start newest_first two_workers fits
