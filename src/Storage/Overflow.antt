-- ===== src/Storage/Overflow.antt =====
-- `return_job` (jobs-core/src/storage.rs) with `JobInfo::next_queue` (jobs-core/src/job_info.rs): a
-- backoff that is longer than the durations of `chrono`.
use backjob.Common.{ℕ, ◌+◌, ◌^◌, ◌<◌, ◌≡◌, ap, ◌∙◌, Bool, true, none, some, if◌then◌else◌}
use backjob.Outcome.{ok, panic, Exec, or_panic, continue, ◌>>=◌}
use backjob.Chrono.{Chrono, Clock, pos}
use backjob.Job.{is_failure, compare, should_requeue}
use backjob.JobInfo.{JobInfo, fail, needs_retry}
use backjob.JobInfo.Retry.{wait, needs_retry_panics}
use backjob.Stats
use backjob.Storage.Trait.{Storage, return_job, retry_or_fail, requeue, finish}

-- The seconds of the longest duration, which is 2^63 - 1 milliseconds.
abbrev pub longest : ℕ
longest = 9223372036854775

-- A duration of more seconds cannot be made: `Duration::seconds` panics.
abbrev pub SecondsAreLimited : Chrono → Type 0
SecondsAreLimited chrono = (t n : ℕ) → longest < n → chrono.add_seconds t (pos n) ≡ none

module _ {S E V : Type 0} (chrono : Chrono) (store : Storage S E V) (clock : Clock) where
  -- On any store: if a job whose limit allows one more retry fails, and its next backoff is longer than
  -- the longest duration and fits an `i64`, then its return panics, and leaves
  -- the store as the fetch of the job left it: the job is neither queued again nor deleted.
  pub return_job-panics :
      (id : ℕ) (job : JobInfo V) (s t : S)
      → SecondsAreLimited chrono
      → store.fetch_job id s ≡ (ok (some job), t)
      → job.retry_count + 1 < 2 ^ 32
      → should_requeue (compare job.max_retries (job.retry_count + 1)) ≡ true
      → longest < wait job.backoff_strategy (job.retry_count + 1)
      → wait job.backoff_strategy (job.retry_count + 1) < 2 ^ 63
      → return_job chrono store clock (fail id) s ≡ (panic, t)
  unfolding return_job retry_or_fail is_failure
  return_job-panics id job s t limited fetched fits more long small =
      let e : needs_retry chrono clock job ≡ none =
        needs_retry_panics chrono clock job fits small more
          (limited (clock 2) (wait job.backoff_strategy (job.retry_count + 1)) long) in
      let rest : Bool × JobInfo V → Exec S E (Unit {0}) = λ answer.
        if answer.0
        then requeue chrono store clock answer.1 id
        else finish chrono store clock (Stats.fail_job chrono (clock 5)) id in
      ap (λ x. continue x.0 (retry_or_fail chrono store clock id) x.1) fetched
      ∙ ap (λ o. (or_panic o >>= rest) t) e
