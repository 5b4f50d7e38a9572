-- ===== src/ProcessorMap/Dispatch.antt =====
-- jobs-core/src/processor_map.rs with jobs-core/src/processor.rs: which processor runs a job, and
-- what comes back.
use backjob.Common.{
  ℕ, String, ◌≡◌, ap, ◌∙◌, ◌↔◌, true, false, none, some, ◌==◌, string_eq, ltb, if◌then◌else◌, arith,
  Option-cases, inl, inr,
}
use backjob.Common.HashMap.{get, get-insert}
use backjob.Job.{missing_processor}
use backjob.JobInfo.{JobInfo, NewJobInfo, new, pass, fail, with_id, is_ready, is_unscheduled}
use backjob.Processor.{
  Future, item, error, Serde, RoundTrips, Job, Processor, new_job, new_scheduled_job,
}
use backjob.Processor
use backjob.ProcessorMap.{ProcessorMap, ProcessFn, register_processor, process, process_job}

module _ {V State Cause : Type 0} (pm : ProcessorMap V State Cause) (n : ℕ) (job : JobInfo V) where
  -- The answer names the job that was given, and says that the processor is missing exactly if no
  -- processor is registered under the job's processor name.
  pub process_job-answer :
      ((process_job pm n job).id ≡ job.id)
      × (((process_job pm n job).result ≡ missing_processor) ↔ (get job.processor pm.inner ≡ none))
  unfolding process_job
  process_job-answer = (ground arith, ground arith)

  -- The processor that was registered last under a name runs the jobs of that name, and all other
  -- jobs go where they went before.
  pub process_job-register_processor :
      (name : String) (p : ProcessFn V State Cause)
      → process_job (register_processor name p pm) n job
        ≡ (if name == job.processor then process p (pm.state_fn n) job else process_job pm n job)
  unfolding process_job register_processor
  process_job-register_processor name p = ground (arith, get-insert name job.processor p pm.inner)

module _ {J V State Cause : Type 0} (serde : Serde J V) (jobs : Job J State Cause) (p : Processor)
    (job : J) where
  carried :
      (new : NewJobInfo V)
      → RoundTrips serde
      → new_job serde jobs p job ≡ some new
      → (new.processor ≡ p.name) × (serde.from_value new.args ≡ some job)
  unfolding new_job
  carried new trips made = elim (Option-cases (serde.to_value job)) [
    | inl e ↦ absurd (ground arith)
    | inr (v, e) ↦ (ground arith, ground (arith, trips job v e))
  ]

  -- A job that was queued and comes to a worker whose map has the job's processor under its name is
  -- run as it was, with the worker's state, and the answer says whether it went well, if JSON reads back
  -- what it writes.
  pub process_job-new_job :
      (pm : ProcessorMap V State Cause) (n now id : ℕ) (new : NewJobInfo V)
      → RoundTrips serde
      → get p.name pm.inner ≡ some (Processor.process serde jobs)
      → new_job serde jobs p job ≡ some new
      → process_job pm n (with_id now id new)
        ≡ elim (jobs.run job (pm.state_fn n)) [ item _ ↦ pass id | error _ ↦ fail id ]
  unfolding process_job process Processor.process new_job with_id
  process_job-new_job pm n now id new trips registered made =
      let (named, read_back) = carried new trips made in
      let found : get new.processor pm.inner ≡ some (Processor.process serde jobs) =
        ap (λ q. get q pm.inner) named ∙ registered in
      ground (arith, found, read_back)

  -- A job that is scheduled is ready exactly after its time; a job that is not is ready at once.
  pub is_ready-new_scheduled_job :
      (now id after t : ℕ) (new scheduled : NewJobInfo V)
      → new_job serde jobs p job ≡ some new
      → new_scheduled_job serde jobs p job after ≡ some scheduled
      → (is_unscheduled new ≡ true)
        × (is_ready t (with_id now id new) ≡ true)
        × (is_unscheduled scheduled ≡ false)
        × (is_ready t (with_id now id scheduled) ≡ ltb after t)
  unfolding new_job new_scheduled_job is_unscheduled is_ready with_id
  is_ready-new_scheduled_job now id after t new scheduled made planned =
      (ground arith, ground arith, ground arith, ground arith)
