-- ===== src/Processor.antt =====
-- jobs-core/src/job.rs and jobs-core/src/processor.rs: what a user declares of a kind of job, and
-- what the library makes of it. `J` is the type of the jobs, `V` that of the JSON values, `State`
-- what a job is run with and `Cause` the error type of user code.
use backjob.Common.{ℕ, String, Option, none, some, ◌≡◌}
use backjob.Job.{JobError, processing, json, MaxRetries, Backoff}
use backjob.JobInfo
use backjob.JobInfo.{NewJobInfo}

-- What a future resolves to.
pub data Future {ℓ κ} (A : Type ℓ) (E : Type κ) : Type (ℓ ⊔ κ) where
  item : A → Future A E
  error : E → Future A E

abbrev pub map_err {ℓ κ μ} :
    {A : Type ℓ} {E : Type κ} {F : Type μ} → (E → F) → Future A E → Future A F
map_err f (item a) = item a
map_err f (error e) = error (f e)

-- `serde_json` at a type of jobs: `none` is an error.
pub record Serde (J V : Type 0) : Type 0 where
  pub to_value : J → Option V
  pub from_value : V → Option J

-- What was written is read back as it was.
abbrev pub RoundTrips : {J V : Type 0} → Serde J V → Type 0
RoundTrips {J} {V} serde = (j : J) (v : V) → serde.to_value j ≡ some v → serde.from_value v ≡ some j

-- The trait `Job`.
pub record Job (J State Cause : Type 0) : Type 0 where
  pub run : J → State → Future (Unit {0}) Cause
  pub queue : J → Option String
  pub max_retries : J → Option MaxRetries
  pub backoff_strategy : J → Option Backoff

-- The constants of the trait `Processor`.
pub record Processor : Type 0 where
  pub name : String
  pub queue : String
  pub max_retries : MaxRetries
  pub backoff_strategy : Backoff

abbrev pub unwrap_or {ℓ} : {A : Type ℓ} → Option A → A → A
unwrap_or none a = a
unwrap_or (some b) a = b

module _ {J V State Cause : Type 0} (serde : Serde J V) (jobs : Job J State Cause) where
  -- `none` is the error `ToJson`.
  unfoldable pub new_job : Processor → J → Option (NewJobInfo V)
  unfolding JobInfo.new
  new_job p job =
      let queue = unwrap_or (jobs.queue job) p.queue in
      let max_retries = unwrap_or (jobs.max_retries job) p.max_retries in
      let backoff_strategy = unwrap_or (jobs.backoff_strategy job) p.backoff_strategy in
      elim (serde.to_value job) [
        | none ↦ none
        | some args ↦ some (JobInfo.new p.name queue args max_retries backoff_strategy)
      ]

  unfoldable pub new_scheduled_job : Processor → J → ℕ → Option (NewJobInfo V)
  unfolding new_job JobInfo.schedule
  new_scheduled_job p job after = elim (new_job p job) [
    | none ↦ none
    | some new ↦ some (JobInfo.schedule after new)
  ]

  unfoldable pub process : V → State → Future (Unit {0}) (JobError Cause)
  process args state = elim (serde.from_value args) [
    | some job ↦ map_err processing (jobs.run job state)
    | none ↦ error json
  ]
