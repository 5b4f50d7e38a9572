-- ===== src/Storage/Sound.antt =====
-- The provided methods of the trait `Storage` (jobs-core/src/storage.rs) keep whatever the operations
-- of the store keep, also when they fail on the way.
use backjob.Common.{ℕ, String, Bool, true, false, Option, none, some, if◌then◌else◌}
use backjob.Outcome.{Outcome, ok, err, panic, Exec, pure, or_panic, continue, ◌>>=◌}
use backjob.Chrono.{Chrono, Clock, later}
use backjob.Job.{JobResult, success, failure, missing_processor, is_failure, is_missing_processor}
use backjob.JobInfo.{JobInfo, NewJobInfo, ReturnJobInfo, with_id, run, set_pending, needs_retry}
use backjob.Stats
use backjob.Storage.Trait.{
  Storage, new_job, start, hand_out, request_job, requeue, finish, retry_or_fail, put_back,
  return_job,
}
use backjob.Storage.Spec.{Keeps, Preserves, admits}

module _ {S E : Type 0} (IsSound : S → Type 0) where
  continue-IsSound :
      {A B : Type 0} (r : Outcome E A) (f : A → Exec S E B) (s : S)
      → ((a : A) → Preserves IsSound (f a))
      → IsSound s
      → IsSound (continue r f s).1
  continue-IsSound (ok a) f s keep h = keep a s h
  continue-IsSound (err e) f s keep h = h
  continue-IsSound panic f s keep h = h

  -- A chain preserves what its parts preserve.
  pub >>=-Preserves :
      {A B : Type 0} (m : Exec S E A) (f : A → Exec S E B)
      → Preserves IsSound m
      → ((a : A) → Preserves IsSound (f a))
      → Preserves IsSound (m >>= f)
  >>=-Preserves m f first rest s h = continue-IsSound (m s).0 f (m s).1 rest (first s h)

or_panic-Preserves :
    {S A : Type 0} (E : Type 0) (IsSound : S → Type 0) (o : Option A)
    → Preserves IsSound (or_panic {E = E} o)
or_panic-Preserves E IsSound none s h = h
or_panic-Preserves E IsSound (some a) s h = h

module _ {S E V : Type 0} {store : Storage S E V} {IsSound : S → Type 0}
    (keeps : Keeps store IsSound) (chrono : Chrono) (clock : Clock) where
  pub new_job-Preserves : (new : NewJobInfo V) → Preserves IsSound (new_job chrono store clock new)
  unfolding new_job
  new_job-Preserves new = >>=-Preserves IsSound store.generate_id _ keeps.generate_id λ id.
      >>=-Preserves IsSound (store.save_job (with_id (clock 0) id new)) _ (keeps.save_job _) λ _.
        >>=-Preserves IsSound (store.queue_job (with_id (clock 0) id new).queue id) _
          (keeps.queue_job _ id)
          λ _.
            >>=-Preserves IsSound (store.update_stats (later 1 clock) Stats.new_job) _
              (keeps.update_stats (later 1 clock) Stats.new_job) λ _ s h. h

  start-Preserves :
      (runner_id : ℕ) (started : JobInfo V)
      → Preserves IsSound (start chrono store clock runner_id started)
  unfolding start
  start-Preserves runner_id started =
      >>=-Preserves IsSound (store.run_job started.id runner_id) _
        (keeps.run_job started.id runner_id)
        λ _. >>=-Preserves IsSound (store.save_job started) _ (keeps.save_job started) λ _.
          >>=-Preserves IsSound (store.update_stats (later 3 clock) Stats.run_job) _
            (keeps.update_stats (later 3 clock) Stats.run_job) λ _ s h. h

  choose-Preserves :
      {A : Type 0} (b : Bool) (m n : Exec S E A)
      → Preserves IsSound m
      → Preserves IsSound n
      → Preserves IsSound (if b then m else n)
  choose-Preserves true m n p q = p
  choose-Preserves false m n p q = q

  hand_out-Preserves :
      (queue : String) (runner_id : ℕ) (found : Option (JobInfo V))
      → Preserves IsSound (hand_out chrono store clock queue runner_id found)
  unfolding hand_out
  hand_out-Preserves queue runner_id none = λ s h. h
  hand_out-Preserves queue runner_id (some job) =
      choose-Preserves (admits clock queue job)
        (start chrono store clock runner_id (run (clock 2) job)) (pure none)
        (start-Preserves runner_id (run (clock 2) job)) (λ s h. h)

  pub request_job-Preserves :
      (queue : String) (runner_id : ℕ)
      → Preserves IsSound (request_job chrono store clock queue runner_id)
  unfolding request_job
  request_job-Preserves queue runner_id =
      >>=-Preserves IsSound (store.fetch_job_from_queue (clock 0) queue) _
        (keeps.fetch_job_from_queue (clock 0) queue) (hand_out-Preserves queue runner_id)

  requeue-Preserves :
      (job : JobInfo V) (id : ℕ) → Preserves IsSound (requeue chrono store clock job id)
  unfolding requeue
  requeue-Preserves job id =
      >>=-Preserves IsSound (store.queue_job job.queue id) _ (keeps.queue_job job.queue id) λ _.
        >>=-Preserves IsSound (store.save_job job) _ (keeps.save_job job)
          λ _. keeps.update_stats (later 3 clock) Stats.retry_job

  finish-Preserves :
      (count : backjob.Stats.Stats → backjob.Stats.Stats) (id : ℕ)
      → Preserves IsSound (finish chrono store clock count id)
  unfolding finish
  finish-Preserves count id =
      >>=-Preserves IsSound (store.delete_job id) _ (keeps.delete_job id)
        λ _. keeps.update_stats (later 3 clock) count

  retry_or_fail-Preserves :
      (id : ℕ) (found : Option (JobInfo V))
      → Preserves IsSound (retry_or_fail chrono store clock id found)
  unfolding retry_or_fail
  retry_or_fail-Preserves id none = λ s h. h
  retry_or_fail-Preserves id (some job) =
      >>=-Preserves IsSound (or_panic (needs_retry chrono clock job)) _
        (or_panic-Preserves E IsSound (needs_retry chrono clock job))
        λ answer.
          choose-Preserves answer.0 (requeue chrono store clock answer.1 id)
            (finish chrono store clock (Stats.fail_job chrono (clock 5)) id)
            (requeue-Preserves answer.1 id) (finish-Preserves (Stats.fail_job chrono (clock 5)) id)

  put_back-Preserves :
      (id : ℕ) (found : Option (JobInfo V))
      → Preserves IsSound (put_back chrono store clock id found)
  unfolding put_back
  put_back-Preserves id none = λ s h. h
  put_back-Preserves id (some job) = requeue-Preserves (set_pending (clock 0) job) id

  by_result :
      (id : ℕ) (result : JobResult)
      → Preserves IsSound (return_job chrono store clock (record { id = id; result = result }))
  unfolding return_job is_failure is_missing_processor
  by_result id success = finish-Preserves (Stats.complete_job chrono (clock 5)) id
  by_result id failure =
      >>=-Preserves IsSound (store.fetch_job id) _ (keeps.fetch_job id) (retry_or_fail-Preserves id)
  by_result id missing_processor =
      >>=-Preserves IsSound (store.fetch_job id) _ (keeps.fetch_job id) (put_back-Preserves id)

  pub return_job-Preserves :
      (r : ReturnJobInfo) → Preserves IsSound (return_job chrono store clock r)
  return_job-Preserves r = by_result r.id r.result
