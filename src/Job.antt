-- ===== src/Job.antt =====
-- The enumerations of jobs-core/src/lib.rs.
use backjob.Common.{ℕ, Bool, true, false, leb, if◌then◌else◌}

-- `JobError`; `Cause` is the type of the errors that user code returns.
pub data JobError {ℓ} (Cause : Type ℓ) : Type ℓ where
  processing : Cause → JobError Cause
  json : JobError Cause
  missing_processor : JobError Cause

pub data JobResult : Type 0 where
  success failure missing_processor : JobResult

unfoldable pub is_failure : JobResult → Bool
is_failure JobResult.failure = true
is_failure _ = false

unfoldable pub is_success : JobResult → Bool
is_success JobResult.success = true
is_success _ = false

unfoldable pub is_missing_processor : JobResult → Bool
is_missing_processor JobResult.missing_processor = true
is_missing_processor _ = false

pub data JobStatus : Type 0 where
  pending running : JobStatus

pub data Backoff : Type 0 where
  linear : ℕ → Backoff
  exponential : ℕ → Backoff

pub data MaxRetries : Type 0 where
  infinite : MaxRetries
  count : ℕ → MaxRetries

pub data ShouldStop : Type 0 where
  limit_reached requeue : ShouldStop

unfoldable pub should_requeue : ShouldStop → Bool
should_requeue limit_reached = false
should_requeue requeue = true

-- `MaxRetries::compare`
unfoldable pub compare : MaxRetries → ℕ → ShouldStop
compare infinite retry_count = requeue
compare (count n) retry_count = if leb retry_count n then requeue else limit_reached
