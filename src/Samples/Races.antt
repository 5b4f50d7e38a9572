-- ===== src/Samples/Races.antt =====
-- A request between the steps of a retry, and a backoff that no duration can hold, on a store in memory.
use backjob.Common.{ℕ, String, ◌≡◌, ◌≢◌, refl, true, none, some, nat_eq, string_eq, arith}
use backjob.Common.HashMap
use backjob.Common.HashMap.{HashMap, newest_first, get, insert, remove}
use backjob.Outcome.{ok, panic}
use backjob.Chrono.{as_i64}
use backjob.Job.{
  pending, running, infinite, exponential, compare, should_requeue, count, is_failure,
}
use backjob.JobInfo.{
  JobInfo, fail, run, with_id, is_ready, is_pending, is_in_queue, needs_retry, backoff_secs,
}
use backjob.Storage.Trait.{new_job, request_job, return_job, retry_or_fail, requeue}
use backjob.Storage.Valid.{IsValid}
use backjob.Storage.Delivery.{Event, handed}
use backjob.Storage.Calls.{news, done, after, Calls-IsValid}
use backjob.Storage.Race.{retry_race, interrupted}
use backjob.Storage.Overflow.{return_job-panics}
use backjob.Memory.{
  Inner, new, generate_id, save_job, fetch_job, fetch_job_from_queue, queue_job, run_job,
  update_stats,
}
use backjob.Memory.View.{view, storage-Laws}
use backjob.Memory.Requests.{new-IsValid}
use backjob.Samples.Data.{chrono, limited, clock, resize}
use backjob.Samples.Stores.{order, store, room, created, started_store, started_job, started-Call}

-- The store after the failure, between whose steps the worker 8 asked.
abbrev raced_store : Inner String
raced_store =
    (return_job chrono (interrupted chrono store clock "images" 8) clock (fail 0) started_store).1

started-IsValid : IsValid (view started_store)
started-IsValid = Calls-IsValid (storage-Laws order) tt (new-IsValid clock) (
    after (Event.created 0) (news clock resize 0 room created) (after (handed 0) started-Call done))

was_stored : (view started_store).jobs 0 ≡ some started_job
unfolding request_job fetch_job_from_queue new_job generate_id save_job queue_job run_job
    update_stats new newest_first get insert remove HashMap.empty is_pending is_ready is_in_queue
    run with_id
was_stored = refl

was_running : (started_job.status ≡ running) × (is_ready 1000 started_job ≡ true)
unfolding run with_id is_ready
was_running = (refl, refl)

nothing_waits : (k : ℕ) → (view started_store).queued k ≢ some "images"
unfolding request_job fetch_job_from_queue new_job generate_id save_job queue_job run_job
    update_stats new newest_first get insert remove HashMap.empty is_pending is_ready is_in_queue
    run with_id
nothing_waits k h = cc

allowed : should_requeue (compare (count 1) 1) ≡ true
unfolding should_requeue compare
allowed = refl

raced_by :
    return_job chrono (interrupted chrono store clock "images" 8) clock (fail 0) started_store
    ≡ (ok tt, raced_store)
unfolding return_job retry_or_fail requeue is_failure needs_retry backoff_secs as_i64 compare
    should_requeue fetch_job request_job fetch_job_from_queue new_job generate_id save_job queue_job
    run_job update_stats new newest_first get insert remove HashMap.empty is_pending is_ready
    is_in_queue run with_id
raced_by = refl

retry_race_example :
    (j : JobInfo String) × ((view raced_store).jobs 0 ≡ some j)
    × (j.status ≡ pending)
    × (j.retry_count ≡ 1)
    × ((view raced_store).queued 0 ≡ none)
unfolding run with_id
retry_race_example =
    retry_race (storage-Laws order) chrono clock clock 8 0 started_job started_store raced_store tt
      started-IsValid was_stored (was_running.0) (was_running.1) nothing_waits (omega arith) allowed
      raced_by

-- A job that failed 53 times and waits 2^54 seconds next.
abbrev patient_job : JobInfo String
patient_job = record started_job {
  retry_count = 53;
  max_retries = infinite;
  backoff_strategy = exponential 2;
}

abbrev patient_store : Inner String
patient_store = (save_job patient_job started_store).1

was_fetched : fetch_job 0 patient_store ≡ (ok (some patient_job), patient_store)
unfolding fetch_job save_job get insert run with_id
was_fetched = refl

goes_on : should_requeue (compare infinite 54) ≡ true
unfolding compare should_requeue
goes_on = refl

return_job-panics_example :
    return_job chrono store clock (fail 0) patient_store ≡ (panic, patient_store)
return_job-panics_example =
    return_job-panics chrono store clock 0 patient_job patient_store patient_store limited
      was_fetched (omega arith) goes_on (omega arith) (omega arith)
