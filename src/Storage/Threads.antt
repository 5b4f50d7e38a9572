-- ===== src/Storage/Threads.antt =====
-- The provided methods of the trait `Storage` (jobs-core/src/storage.rs), one operation of the store at
-- a time: what a thread that runs a method does next. The operations themselves are atomic, as they are
-- under the lock of the store in memory.
pub mod Whole
pub mod Shared
pub mod Tokens
pub mod Operations
pub mod Exclusive
use backjob.Common.{ℕ, zero, suc, String, ◌&&◌, Option, none, some, if◌then◌else◌}
use backjob.Outcome.{Exec, or_panic, ◌>>=◌, ◌>>◌}
use backjob.Chrono.{Chrono, Clock, later}
use backjob.Job.{is_failure, is_missing_processor}
use backjob.JobInfo.{
  JobInfo, NewJobInfo, ReturnJobInfo, with_id, run, set_pending, is_pending, is_ready, is_in_queue,
  needs_retry,
}
use backjob.Stats
use backjob.Stats.{Stats}
use backjob.Storage.Trait.{Storage}

-- The operation that comes next, with what the method knows by then.
pub data Thread (V : Type 0) : Type 0 where
  creates : Clock → NewJobInfo V → Thread V
  saves_new : Clock → JobInfo V → ℕ → Thread V
  queues_new : Clock → String → ℕ → Thread V
  counts_new : Clock → ℕ → Thread V
  looks : Clock → String → ℕ → Thread V
  takes : Clock → ℕ → JobInfo V → Thread V
  saves_started : Clock → JobInfo V → Thread V
  counts_started : Clock → JobInfo V → Thread V
  reads_failed : Clock → ℕ → Thread V
  reads_missing : Clock → ℕ → Thread V
  deletes : Clock → (Stats → Stats) → ℕ → Thread V
  counts_deleted : Clock → (Stats → Stats) → Thread V
  requeues : Clock → JobInfo V → ℕ → Thread V
  saves_again : Clock → JobInfo V → Thread V
  counts_again : Clock → Thread V

-- What a method answers.
pub data Answer (V : Type 0) : Type 0 where
  created : ℕ → Answer V
  refused : Answer V
  handed : JobInfo V → Answer V
  returned : Answer V

module _ {S E V : Type 0} (chrono : Chrono) (store : Storage S E V) where
  -- `return_job` begins with one of three operations.
  unfoldable pub returning : Clock → ReturnJobInfo → Thread V
  returning clock r =
      if is_failure r.result
      then reads_failed clock r.id
      else if is_missing_processor r.result
      then reads_missing clock r.id
      else deletes clock (Stats.complete_job chrono (clock 5)) r.id

  module _ {B : Type 0} (more : Thread V → Exec S E B) (answer : Answer V → Exec S E B) where
    -- `request_job`, by what was fetched.
    unfoldable pub decides : Clock → String → ℕ → Option (JobInfo V) → Exec S E B
    decides clock queue runner_id none = answer refused
    decides clock queue runner_id (some job) =
        if is_pending job && is_ready (clock 1) job && is_in_queue queue job
        then more (takes clock runner_id (run (clock 2) job))
        else answer refused

    -- `return_job` of a failed job, by what was fetched.
    unfoldable pub retries : Clock → ℕ → Option (JobInfo V) → Exec S E B
    retries clock id none = answer returned
    retries clock id (some job) = do
      (again, counted) ← or_panic (needs_retry chrono clock job)
      if again
          then more (requeues clock counted id)
          else more (deletes clock (Stats.fail_job chrono (clock 5)) id)

    unfoldable pub puts_back : Clock → ℕ → Option (JobInfo V) → Exec S E B
    puts_back clock id none = answer returned
    puts_back clock id (some job) = more (requeues clock (set_pending (clock 0) job) id)

    -- One operation, and then the rest of the method or its answer.
    unfoldable pub advance : Thread V → Exec S E B
    unfolding decides retries puts_back
    advance (creates clock new) = do
      id ← store.generate_id
      more (saves_new clock (with_id (clock 0) id new) id)
    advance (saves_new clock job id) = do store.save_job job; more (queues_new clock job.queue id)
    advance (queues_new clock queue id) = do store.queue_job queue id; more (counts_new clock id)
    advance (counts_new clock id) = do
      store.update_stats (later 1 clock) Stats.new_job
      answer (created id)
    advance (looks clock queue runner_id) = do
      found ← store.fetch_job_from_queue (clock 0) queue
      decides clock queue runner_id found
    advance (takes clock runner_id started) = do
      store.run_job started.id runner_id
      more (saves_started clock started)
    advance (saves_started clock started) = do
      store.save_job started
      more (counts_started clock started)
    advance (counts_started clock started) = do
      store.update_stats (later 3 clock) Stats.run_job
      answer (handed started)
    advance (reads_failed clock id) = do found ← store.fetch_job id; retries clock id found
    advance (reads_missing clock id) = do found ← store.fetch_job id; puts_back clock id found
    advance (deletes clock count id) = do store.delete_job id; more (counts_deleted clock count)
    advance (counts_deleted clock count) = do
      store.update_stats (later 3 clock) count
      answer returned
    advance (requeues clock job id) = do store.queue_job job.queue id; more (saves_again clock job)
    advance (saves_again clock job) = do store.save_job job; more (counts_again clock)
    advance (counts_again clock) = do
      store.update_stats (later 3 clock) Stats.retry_job
      answer returned

  -- A method that runs with nothing in between. No method has more than four operations.
  unfoldable pub finish : {B : Type 0} → (Answer V → Exec S E B) → ℕ → Thread V → Exec S E B
  unfolding advance
  finish answer zero thread = or_panic none
  finish answer (suc n) thread = advance (finish answer n) answer thread
