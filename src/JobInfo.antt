-- ===== src/JobInfo.antt =====
-- jobs-core/src/job_info.rs: what is stored of a job, and its changes. `V` is the type of the JSON
-- values that carry a job's arguments. A method on `&mut self` returns the new record; a method
-- that reads `Utc::now()` takes the reading, or the clock that it reads from.
pub mod Retry
use backjob.Common.{
  ℕ, ◌+◌, ◌^◌, ◌%◌, String, Bool, true, false, Option, none, some, ltb, ◌==◌, string_eq,
  if◌then◌else◌,
}
use backjob.Chrono.{Chrono, Clock, as_i64}
use backjob.Job.{
  JobResult, success, failure, missing_processor, JobStatus, pending, running, Backoff, linear,
  exponential, MaxRetries, ShouldStop, compare, should_requeue,
}

pub record ReturnJobInfo : Type 0 where
  pub id : ℕ
  pub result : JobResult

abbrev pub fail : ℕ → ReturnJobInfo
fail id = record { id = id; result = failure }

abbrev pub pass : ℕ → ReturnJobInfo
pass id = record { id = id; result = success }

abbrev pub missing : ℕ → ReturnJobInfo
missing id = record { id = id; result = missing_processor }

pub record NewJobInfo {ℓ} (V : Type ℓ) : Type ℓ where
  pub processor : String
  pub queue : String
  pub args : V
  pub max_retries : MaxRetries
  pub backoff_strategy : Backoff
  pub next_queue : Option ℕ

pub record JobInfo {ℓ} (V : Type ℓ) : Type ℓ where
  pub id : ℕ
  pub processor : String
  pub queue : String
  pub args : V
  pub status : JobStatus
  pub retry_count : ℕ
  pub max_retries : MaxRetries
  pub backoff_strategy : Backoff
  pub next_queue : Option ℕ
  pub updated_at : ℕ

module _ {ℓ} {V : Type ℓ} where
  unfoldable pub new : String → String → V → MaxRetries → Backoff → NewJobInfo V
  new processor queue args max_retries backoff_strategy = record {
    processor = processor;
    queue = queue;
    args = args;
    max_retries = max_retries;
    backoff_strategy = backoff_strategy;
    next_queue = none;
  }

  unfoldable pub schedule : ℕ → NewJobInfo V → NewJobInfo V
  schedule time job = record job { next_queue = some time }

  -- `NewJobInfo::is_ready`
  unfoldable pub is_unscheduled : NewJobInfo V → Bool
  is_unscheduled job = elim job.next_queue [ none ↦ true | some _ ↦ false ]

  unfoldable pub with_id : ℕ → ℕ → NewJobInfo V → JobInfo V
  with_id now id job = record {
    id = id;
    processor = job.processor;
    queue = job.queue;
    args = job.args;
    status = pending;
    retry_count = 0;
    max_retries = job.max_retries;
    backoff_strategy = job.backoff_strategy;
    next_queue = job.next_queue;
    updated_at = now;
  }

  unfoldable pub updated : ℕ → JobInfo V → JobInfo V
  updated now job = record job { updated_at = now }

  -- `self.retry_count += 1` wraps at 2^32 in a release build.
  unfoldable pub increment : ℕ → JobInfo V → ShouldStop × JobInfo V
  unfolding updated compare
  increment now job =
      let count = (job.retry_count + 1) % 2 ^ 32 in
      (compare job.max_retries count, record (updated now job) { retry_count = count })

  unfoldable pub run : ℕ → JobInfo V → JobInfo V
  unfolding updated
  run now job = record (updated now job) { status = running }

  unfoldable pub set_pending : ℕ → JobInfo V → JobInfo V
  unfolding updated
  set_pending now job = record (updated now job) { status = pending }

  unfoldable pub is_pending : JobInfo V → Bool
  is_pending job = elim job.status [ pending ↦ true | running ↦ false ]

  unfoldable pub is_ready : ℕ → JobInfo V → Bool
  is_ready now job = elim job.next_queue [ none ↦ true | some time ↦ ltb time now ]

  unfoldable pub is_in_queue : String → JobInfo V → Bool
  is_in_queue queue job = job.queue == queue

-- The seconds between two executions, a `usize`: `pow` wraps at 2^64 in a release build.
unfoldable pub backoff_secs : Backoff → ℕ → ℕ
backoff_secs (linear secs) retry_count = secs
backoff_secs (exponential base) retry_count = base ^ retry_count % 2 ^ 64

module _ {ℓ} {V : Type ℓ} (chrono : Chrono) where
  -- `none` where the sum with the duration panics.
  unfoldable pub next_queue : ℕ → JobInfo V → Option (JobInfo V)
  unfolding backoff_secs as_i64
  next_queue now job =
      elim (chrono.add_seconds now (as_i64 (backoff_secs job.backoff_strategy job.retry_count))) [
        | none ↦ none
        | some time ↦ some (record job { next_queue = some time })
      ]

  -- Whether the job is to be retried, and the job; `none` where `next_queue` panics.
  unfoldable pub needs_retry : Clock → JobInfo V → Option (Bool × JobInfo V)
  unfolding increment should_requeue set_pending next_queue
  needs_retry clock job =
      let (stop, counted) = increment (clock 0) job in
      if should_requeue stop
      then elim (next_queue (clock 2) (set_pending (clock 1) counted)) [
        | none ↦ none
        | some scheduled ↦ some (true, scheduled)
      ]
      else some (false, counted)
