-- ===== src/Pool/Life/Left.antt =====
-- jobs-core/src/storage.rs, `return_job`, after jobs-actix/src/worker.rs: what becomes of a job by what
-- the user's function came to.
use backjob.Common.{
  ℕ, ◌≡◌, ◌⊎◌, refl, sym, subst, ap, ◌∙◌, Bool, true, false, none, some, string_eq, nat_eq, arith,
  inl, inr, if◌then◌else◌, beq_refl, beq_iff,
}
use backjob.Chrono.{Chrono, Clock, later}
use backjob.Job.{pending, compare, should_requeue}
use backjob.JobInfo.{JobInfo, ReturnJobInfo, needs_retry, pass, fail}
use backjob.JobInfo.Retry.{id-needs_retry, status-needs_retry}
use backjob.Stats.{fail_job}
use backjob.Storage.Spec.{Spec, Returned, Retried, tally, forget, requeued}
use backjob.Processor.{Future, item, error}

-- The answer of a worker, by what the user's function came to.
abbrev pub answer_of : {E : Type 0} → Future (Unit {0}) E → ℕ → ReturnJobInfo
answer_of future id = elim future [ item _ ↦ pass id | error _ ↦ fail id ]

module _ {V : Type 0} where
  -- What a finished round leaves of a job: nothing after a success, and after a failure a pending job
  -- in its queue if the limit allows a retry.
  abbrev pub IsGone : ℕ → Spec V → Type 0
  IsGone id a = (a.jobs id ≡ none) × (a.queued id ≡ none)

  abbrev pub IsBack : JobInfo V → Spec V → Type 0
  IsBack job a =
      (j : JobInfo V) × (a.jobs job.id ≡ some j)
      × (j.status ≡ pending)
      × (j.retry_count ≡ 1)
      × (a.queued job.id ≡ some job.queue)

  abbrev pub Ends : {E : Type 0} → Future (Unit {0}) E → JobInfo V → Spec V → Type 0
  Ends (item _) job a = IsGone job.id a
  Ends (error _) job a =
      ((should_requeue (compare job.max_retries 1) ≡ true) × IsBack job a)
      ⊎ ((should_requeue (compare job.max_retries 1) ≡ false) × IsGone job.id a)

  counted_once :
      (chrono : Chrono) (clock : Clock) (job counted : JobInfo V) (again : Bool)
      → job.retry_count ≡ 0
      → needs_retry chrono clock job ≡ some (again, counted)
      → (again ≡ should_requeue (compare job.max_retries 1))
        × (again ≡ true → counted.retry_count ≡ 1)
  unfolding needs_retry
  counted_once chrono clock job counted again first h =
      (ground (arith, first), ground (arith, first))

  failed :
      (chrono : Chrono) (clock : Clock) (job counted : JobInfo V) (again : Bool) (a b : Spec V)
      → job.retry_count ≡ 0
      → needs_retry chrono clock job ≡ some (again, counted)
      → b ≡ (
          if again
          then requeued clock job.id counted a
          else tally (fail_job chrono (clock 5)) (later 3 clock) (forget job.id a))
      → ((should_requeue (compare job.max_retries 1) ≡ true) × IsBack job b)
        ⊎ ((should_requeue (compare job.max_retries 1) ≡ false) × IsGone job.id b)
  failed chrono clock job counted true a b first answer r =
      let (allowed, once) = counted_once chrono clock job counted true first answer in
      let (own, queue) = id-needs_retry chrono clock job true counted answer in
      inl (
        sym allowed,
        (
          counted,
          ap (λ (a : Spec V). a.jobs job.id) r ∙ rw ((beq_iff counted.id job.id).1 own) refl,
          status-needs_retry chrono clock job true counted answer refl,
          once refl,
          ap (λ (a : Spec V). a.queued job.id) r ∙ rw (beq_refl job.id) (ap some queue),
        ),
      )
  failed chrono clock job counted false a b first answer r = inr (
    sym (counted_once chrono clock job counted false first answer).0,
    (
      ap (λ (a : Spec V). a.jobs job.id) r ∙ rw (beq_refl job.id) refl,
      ap (λ (a : Spec V). a.queued job.id) r ∙ rw (beq_refl job.id) refl,
    ),
  )

  pub Returned-Ends :
      {E : Type 0} (chrono : Chrono) (clock : Clock) (future : Future (Unit {0}) E)
      (job : JobInfo V) (a b : Spec V)
      → a.jobs job.id ≡ some job
      → job.retry_count ≡ 0
      → (let r = answer_of future job.id in Returned chrono clock r.id r.result a b)
      → Ends future job b
  Returned-Ends chrono clock (item _) job a b kept first r = (
    ap (λ (a : Spec V). a.jobs job.id) r ∙ rw (beq_refl job.id) refl,
    ap (λ (a : Spec V). a.queued job.id) r ∙ rw (beq_refl job.id) refl,
  )
  Returned-Ends chrono clock (error _) job a b kept first r =
      let (again, counted, answer, changed) =
        subst (λ o. Retried chrono clock job.id o a b) kept r in
      failed chrono clock job counted again a b first answer changed
