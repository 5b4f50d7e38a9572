-- ===== src/Samples/Stores.antt =====
-- The theorems on stores at a store in memory: a job is created, handed out, and fails.
use backjob.Common.{
  ℕ, ◌+◌, ◌^◌, ◌<◌, ◌≤◌, ◌≡◌, refl, String, true, false, Option, none, some, [], ◌∷◌, All, nat_eq,
  string_eq, arith, ◌⊎◌,
}
use backjob.JobInfo.Retry.{Overruns}
use backjob.Common.HashMap.{Iteration, newest_first, get, insert, remove, empty}
use backjob.Outcome.{ok, panic}
use backjob.Job.{running, failure, compare, is_failure}
use backjob.JobInfo.{JobInfo, fail, is_pending, is_ready, is_in_queue, run, with_id, needs_retry}
use backjob.Storage.Trait.{Storage, new_job, request_job, return_job}
use backjob.Storage.Spec.{Laws}
use backjob.Memory.{
  Inner, Never, new, storage, generate_id, save_job, fetch_job, fetch_job_from_queue, queue_job,
  run_job, update_stats,
}
use backjob.Storage.Spec.{HandedOut, Returned}
use backjob.Storage.Refines.{new_job-Spec, request_job-Spec, return_job-Spec}
use backjob.Storage.Valid.{IsValid}
use backjob.Storage.Delivery.{Event, refused, handed, NotHanded}
use backjob.Storage.Calls.{
  Call, Calls, news, finds, finds_nothing, done, after, Calls-IsValid, handed_once,
}
use backjob.Storage.Fit.{request_job-answer}
use backjob.Memory.View.{view, storage-Laws}
use backjob.Memory.Requests.{new-IsValid, request_job-finds, unready_job_lost}
use backjob.Storage.Reliable.{Succeeds}
use backjob.Memory.Total.{methods-Succeed}
use backjob.Samples.Data.{chrono, clock, resize}

abbrev pub order : Iteration ℕ String
order = newest_first

abbrev pub store : Storage (Inner String) Never String
store = storage order

abbrev pub empty_store : Inner String
empty_store = new clock

-- With one job, which waits.
abbrev pub created_store : Inner String
created_store = (new_job chrono store clock resize empty_store).1

pub created : new_job chrono store clock resize empty_store ≡ (ok 0, created_store)
unfolding new_job generate_id save_job queue_job update_stats new
created = refl

-- With the job being worked on.
abbrev pub started_store : Inner String
started_store = (request_job chrono store clock "images" 7 created_store).1

abbrev pub started_job : JobInfo String
started_job = run 1002 (with_id 1000 0 resize)

started :
    request_job chrono store clock "images" 7 created_store ≡ (ok (some started_job), started_store)
unfolding request_job fetch_job_from_queue new_job generate_id save_job queue_job run_job
    update_stats new newest_first get insert remove empty is_pending is_ready is_in_queue run
    with_id
started = refl

-- With the job back in its queue, after a failure.
abbrev failed_store : Inner String
failed_store = (return_job chrono store clock (fail 0) started_store).1

failed : return_job chrono store clock (fail 0) started_store ≡ (ok tt, failed_store)
unfolding return_job request_job fetch_job_from_queue new_job generate_id save_job fetch_job
    queue_job run_job update_stats new newest_first get insert remove empty is_pending is_ready
    is_in_queue run with_id is_failure needs_retry compare
failed = refl

pub room : (view empty_store).next_id + 1 < 2 ^ 64
unfolding new
room = omega arith

created_history : Calls chrono store view empty_store (Event.created 0 ∷ []) created_store
created_history = after (Event.created 0) (news clock resize 0 room created) done

pub created-IsValid : IsValid (view created_store)
created-IsValid = Calls-IsValid (storage-Laws order) tt (new-IsValid clock) created_history

pub started-Call : Call chrono store view created_store started_store (handed 0)
unfolding run with_id
started-Call = finds clock "images" 7 started_job 0 refl started

-- A second worker asks for a job of the queue.
abbrev asked_store : Inner String
asked_store = (request_job chrono store clock "images" 8 started_store).1

asked : request_job chrono store clock "images" 8 started_store ≡ (ok none, asked_store)
unfolding request_job fetch_job_from_queue new_job generate_id save_job queue_job run_job
    update_stats new newest_first get insert remove empty is_pending is_ready is_in_queue run
    with_id
asked = refl

asked_history : Calls chrono store view started_store (refused ∷ []) asked_store
asked_history = after refused (finds_nothing clock "images" 8 asked) done

storage-Laws_example : Laws store view (λ _. Unit {0})
storage-Laws_example = storage-Laws order

handed_once_example : All (NotHanded 0) (refused ∷ [])
handed_once_example =
    handed_once (storage-Laws order) 0 tt created-IsValid started-Call asked_history ((λ q. cc), tt)

Calls-IsValid_example : IsValid (view started_store)
Calls-IsValid_example = Calls-IsValid (storage-Laws order) tt (new-IsValid clock) (
    after (Event.created 0) (news clock resize 0 room created) (after (handed 0) started-Call done))

new_job-Spec_example : (view empty_store).next_id ≤ 0
new_job-Spec_example =
    (new_job-Spec (storage-Laws order) chrono clock resize empty_store created_store 0 room
      created).0

request_job-Spec_example :
    HandedOut clock "images" (some started_job) (view created_store) (view started_store)
request_job-Spec_example =
    request_job-Spec (storage-Laws order) chrono clock "images" 7 created_store started_store
      (some started_job) tt created-IsValid.keyed started

return_job-Spec_example : Returned chrono clock 0 failure (view started_store) (view failed_store)
return_job-Spec_example =
    return_job-Spec (storage-Laws order) chrono clock (fail 0) started_store failed_store failed

request_job-answer_example :
    (started_job.queue ≡ "images")
    × (started_job.status ≡ running)
    × (is_ready 1001 started_job ≡ true)
request_job-answer_example =
    request_job-answer chrono store clock "images" 7 started_job created_store started_store started

methods-Succeed_example :
    Succeeds (new_job chrono store clock resize) empty_store
    × Succeeds (request_job chrono store clock "images" 7) empty_store
    × (Succeeds (return_job chrono store clock (fail 0)) empty_store
        ⊎ ((return_job chrono store clock (fail 0) empty_store ≡ (panic, empty_store))
            × ((failure ≡ failure)
                × ((job : JobInfo String) × (get 0 empty_store.jobs ≡ some job)
                    × Overruns chrono clock job))))
methods-Succeed_example = methods-Succeed order chrono clock resize "images" 7 (fail 0) empty_store

new-IsValid_example : IsValid (view empty_store)
new-IsValid_example = new-IsValid clock

created_queue : (view created_store).queued 0 ≡ some "images"
unfolding new_job generate_id save_job queue_job update_stats new get insert empty with_id
created_queue = refl

created_ready :
    (i : ℕ) (j : JobInfo String)
    → (view created_store).queued i ≡ some "images"
    → (view created_store).jobs i ≡ some j
    → is_ready 1001 j ≡ true
unfolding new_job generate_id save_job queue_job update_stats new get insert empty is_ready with_id
created_ready i j q h = ground arith

request_job-finds_example :
    (job : JobInfo String) × (t : Inner String) × ((view created_store).queued job.id
      ≡ some "images")
    × (request_job chrono store clock "images" 7 created_store ≡ (ok (some job), t))
request_job-finds_example =
    request_job-finds order chrono clock "images" 7 0 created_store created-IsValid created_queue
      created_ready

-- A job that is not due before time 5000.
abbrev late_job : JobInfo String
late_job = with_id 1000 0 (record resize { next_queue = some 5000 })

abbrev late_store : Inner String
late_store = (new_job chrono store clock (record resize { next_queue = some 5000 }) empty_store).1

late_created :
    new_job chrono store clock (record resize { next_queue = some 5000 }) empty_store
    ≡ (ok 0, late_store)
unfolding new_job generate_id save_job queue_job update_stats new
late_created = refl

late-IsValid : IsValid (view late_store)
late-IsValid = Calls-IsValid (storage-Laws order) tt (new-IsValid clock) (
    after (Event.created 0)
      (news clock (record resize { next_queue = some 5000 }) 0 room late_created) done)

late_facts :
    ((view late_store).jobs 0 ≡ some late_job)
    × ((view late_store).queued 0 ≡ some "images")
    × (is_ready 1001 late_job ≡ false)
unfolding new_job generate_id save_job queue_job update_stats new get insert empty is_ready with_id
late_facts = (refl, refl, refl)

late_alone : (k : ℕ) → (view late_store).queued k ≡ some "images" → k ≡ 0
unfolding new_job generate_id save_job queue_job update_stats new get insert empty with_id
late_alone k h = ground arith

abbrev lost_store : Inner String
lost_store = (request_job chrono store clock "images" 7 late_store).1

lost : request_job chrono store clock "images" 7 late_store ≡ (ok none, lost_store)
unfolding request_job fetch_job_from_queue new_job generate_id save_job queue_job run_job
    update_stats new newest_first get insert remove empty is_pending is_ready is_in_queue run
    with_id
lost = refl

unready_job_lost_example :
    (◌≡◌ {A = Option (JobInfo String)} none none)
    × ((view lost_store).jobs 0 ≡ some late_job)
    × ((view lost_store).queued 0 ≡ none)
    × All (NotHanded 0) []
unready_job_lost_example =
    unready_job_lost order chrono clock "images" 7 0 late_job late_store lost_store lost_store none
      late-IsValid (late_facts.0) (late_facts.1) (late_facts.2) late_alone lost done tt
