-- ===== src/Storage/Trait.antt =====
-- jobs-core/src/storage.rs, the trait `Storage`: the operations that a store has to offer, and the
-- three methods that the trait builds from them. `S` is the store, `E` its error type. Every
-- operation takes the store and returns it changed, beside a result. `Utc::now()` is read from the
-- clock of the call: an operation is handed the readings that its implementations may make.
use backjob.Common.{ℕ, String, ◌&&◌, Option, none, some, if◌then◌else◌}
use backjob.Outcome.{Outcome, Exec, pure, or_panic, ◌>>=◌, ◌>>◌}
use backjob.Chrono.{Chrono, Clock, later}
use backjob.Job.{is_failure, is_missing_processor}
use backjob.JobInfo.{
  JobInfo, NewJobInfo, ReturnJobInfo, with_id, run, set_pending, is_pending, is_ready, is_in_queue,
  needs_retry,
}
use backjob.Stats
use backjob.Stats.{Stats}

pub record Storage (S E V : Type 0) : Type 0 where
  pub generate_id : Exec S E ℕ
  pub save_job : JobInfo V → Exec S E (Unit {0})
  pub fetch_job : ℕ → Exec S E (Option (JobInfo V))
  pub fetch_job_from_queue : ℕ → String → Exec S E (Option (JobInfo V))
  pub queue_job : String → ℕ → Exec S E (Unit {0})
  pub run_job : ℕ → ℕ → Exec S E (Unit {0})
  pub delete_job : ℕ → Exec S E (Unit {0})
  pub get_stats : Clock → S → Outcome E Stats
  pub update_stats : Clock → (Stats → Stats) → Exec S E (Unit {0})

module _ {S E V : Type 0} (chrono : Chrono) (store : Storage S E V) where
  unfoldable pub new_job : Clock → NewJobInfo V → Exec S E ℕ
  new_job clock new = do
    id ← store.generate_id
    let job = with_id (clock 0) id new
    store.save_job job
    store.queue_job job.queue id
    store.update_stats (later 1 clock) Stats.new_job
    pure id

  unfoldable pub start : Clock → ℕ → JobInfo V → Exec S E (Option (JobInfo V))
  start clock runner_id started = do
    store.run_job started.id runner_id
    store.save_job started
    store.update_stats (later 3 clock) Stats.run_job
    pure (some started)

  unfoldable pub hand_out : Clock → String → ℕ → Option (JobInfo V) → Exec S E (Option (JobInfo V))
  hand_out clock queue runner_id none = pure none
  hand_out clock queue runner_id (some job) =
      if is_pending job && is_ready (clock 1) job && is_in_queue queue job
      then start clock runner_id (run (clock 2) job)
      else pure none

  unfoldable pub request_job : Clock → String → ℕ → Exec S E (Option (JobInfo V))
  unfolding start hand_out
  request_job clock queue runner_id = do
    found ← store.fetch_job_from_queue (clock 0) queue
    hand_out clock queue runner_id found

  unfoldable pub requeue : Clock → JobInfo V → ℕ → Exec S E (Unit {0})
  requeue clock job id = do
    store.queue_job job.queue id
    store.save_job job
    store.update_stats (later 3 clock) Stats.retry_job

  -- The job is done with, well or badly.
  unfoldable pub finish : Clock → (Stats → Stats) → ℕ → Exec S E (Unit {0})
  finish clock count id = do store.delete_job id; store.update_stats (later 3 clock) count

  unfoldable pub retry_or_fail : Clock → ℕ → Option (JobInfo V) → Exec S E (Unit {0})
  unfolding requeue finish
  retry_or_fail clock id none = pure tt
  retry_or_fail clock id (some job) = do
    (again, counted) ← or_panic (needs_retry chrono clock job)
    if again then requeue clock counted id else finish clock (Stats.fail_job chrono (clock 5)) id

  unfoldable pub put_back : Clock → ℕ → Option (JobInfo V) → Exec S E (Unit {0})
  unfolding requeue
  put_back clock id none = pure tt
  put_back clock id (some job) = requeue clock (set_pending (clock 0) job) id

  unfoldable pub return_job : Clock → ReturnJobInfo → Exec S E (Unit {0})
  unfolding retry_or_fail put_back finish
  return_job clock returned =
      if is_failure returned.result
      then (do found ← store.fetch_job returned.id; retry_or_fail clock returned.id found)
      else if is_missing_processor returned.result
      then (do found ← store.fetch_job returned.id; put_back clock returned.id found)
      else finish clock (Stats.complete_job chrono (clock 5)) returned.id
