-- ===== src/ProcessorMap.antt =====
-- jobs-core/src/processor_map.rs: the processors of a worker by their names, and how a job is
-- processed. A future is modelled by what it resolves to.
pub mod Dispatch
use backjob.Common.{ℕ, String, Option, none, some, string_eq}
use backjob.Common.HashMap
use backjob.Common.HashMap.{HashMap, get, insert}
use backjob.Job.{JobError}
use backjob.JobInfo.{JobInfo, ReturnJobInfo, pass, fail, missing}
use backjob.Processor.{Future, item, error}

-- `ProcessFn<S>`
abbrev pub ProcessFn : Type 0 → Type 0 → Type 0 → Type 0
ProcessFn V State Cause = V → State → Future (Unit {0}) (JobError Cause)

-- `state_fn n` is what the n-th call of the state function answers.
pub record ProcessorMap (V State Cause : Type 0) : Type 0 where
  pub inner : HashMap String (ProcessFn V State Cause)
  pub state_fn : ℕ → State

module _ {V State Cause : Type 0} where
  unfoldable pub new : (ℕ → State) → ProcessorMap V State Cause
  new state_fn = record { inner = HashMap.empty; state_fn = state_fn }

  unfoldable pub register_processor :
      String → ProcessFn V State Cause → ProcessorMap V State Cause → ProcessorMap V State Cause
  register_processor name processor pm = record pm { inner = insert name processor pm.inner }

  unfoldable pub process : ProcessFn V State Cause → State → JobInfo V → ReturnJobInfo
  process process_fn state job = elim (process_fn job.args state) [
    | item _ ↦ pass job.id
    | error _ ↦ fail job.id
  ]

  -- The `n`-th call of the map.
  unfoldable pub process_job : ProcessorMap V State Cause → ℕ → JobInfo V → ReturnJobInfo
  unfolding process
  process_job pm n job = elim (get job.processor pm.inner) [
    | some processor ↦ process processor (pm.state_fn n) job
    | none ↦ missing job.id
  ]
