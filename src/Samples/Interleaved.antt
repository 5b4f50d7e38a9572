-- ===== src/Samples/Interleaved.antt =====
-- Two threads that request a job of the same queue of a store in memory, one operation at a time.
use backjob.Common.{◌+◌, ◌≤◌, ◌≡◌, refl, String, [], ◌∷◌, nat_eq, string_eq, inl, inr}
use backjob.Common.HashMap.{newest_first, get, insert, remove, empty}
use backjob.Outcome.{ok}
use backjob.JobInfo.{is_pending, is_ready, is_in_queue, run, with_id}
use backjob.Storage.Trait.{new_job}
use backjob.Storage.Threads.{
  Thread, looks, takes, saves_started, counts_started, handed, refused, decides, advance,
}
use backjob.Storage.Threads.Shared.{
  Shared, operate, Moves, begins_request, goes_on, answers, begin, move,
}
use backjob.Storage.Threads.Tokens.{waits}
use backjob.Storage.Threads.Exclusive.{in_hands, times_away, job_in_one_place}
use backjob.Memory.{
  Inner, new, generate_id, save_job, fetch_job_from_queue, queue_job, run_job, update_stats,
}
use backjob.Memory.View.{view, storage-Laws}
use backjob.Samples.Data.{chrono, clock}
use backjob.Samples.Stores.{order, store, created_store, created-IsValid, started_job}

abbrev begun : Thread String
begun = looks clock "images" 7

abbrev later_begun : Thread String
later_begun = looks clock "images" 8

abbrev fetched_store : Inner String
fetched_store = (store.fetch_job_from_queue 1000 "images" created_store).1

abbrev taken_store : Inner String
taken_store = (run_job 0 7 fetched_store).1

abbrev saved_store : Inner String
saved_store = (save_job started_job taken_store).1

abbrev counted_store : Inner String
counted_store = (operate chrono store view (counts_started clock started_job) saved_store).1

abbrev taking : Thread String
taking = takes clock 7 started_job

fetches : operate chrono store view begun created_store ≡ (ok (inl taking), fetched_store)
unfolding advance decides fetch_job_from_queue new_job generate_id save_job queue_job update_stats
    new newest_first get insert remove empty is_pending is_ready is_in_queue run with_id
fetches = refl

finds_nothing :
    operate chrono store view later_begun fetched_store ≡ (ok (inr refused), fetched_store)
unfolding advance decides fetch_job_from_queue new_job generate_id save_job queue_job update_stats
    new newest_first get insert remove empty is_pending is_ready is_in_queue run with_id
finds_nothing = refl

takes_it :
    operate chrono store view taking fetched_store
    ≡ (ok (inl (saves_started clock started_job)), taken_store)
unfolding advance run_job with_id run
takes_it = refl

saves_it :
    operate chrono store view (saves_started clock started_job) taken_store
    ≡ (ok (inl (counts_started clock started_job)), saved_store)
unfolding advance save_job
saves_it = refl

counts_it :
    operate chrono store view (counts_started clock started_job) saved_store
    ≡ (ok (inr (handed started_job)), counted_store)
unfolding advance update_stats
counts_it = refl

abbrev at_worker : Shared (Inner String) String
at_worker = record { storage = counted_store; threads = []; away = started_job.id ∷ [] }

both :
    Moves chrono store view (record { storage = created_store; threads = []; away = [] }) at_worker
both =
    move
      (move
        (move
          (move
            (move
              (move (move begin (begins_request created_store [] [] clock "images" 7))
                (begins_request created_store (begun ∷ []) [] clock "images" 8))
              (goes_on created_store fetched_store (later_begun ∷ []) [] [] begun taking tt
                fetches))
            (answers fetched_store fetched_store [] (taking ∷ []) [] later_begun refused tt
              finds_nothing))
          (goes_on fetched_store taken_store [] [] [] taking (saves_started clock started_job) tt
            takes_it))
        (goes_on taken_store saved_store [] [] [] (saves_started clock started_job)
          (counts_started clock started_job) tt saves_it))
      (answers saved_store counted_store [] [] [] (counts_started clock started_job)
        (handed started_job) tt counts_it)

job_in_one_place_example :
    waits 0 (view counted_store) + in_hands 0 at_worker + times_away 0 at_worker ≤ 1
job_in_one_place_example =
    job_in_one_place (storage-Laws order) chrono created_store at_worker tt created-IsValid both 0
