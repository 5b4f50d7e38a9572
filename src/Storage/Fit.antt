-- ===== src/Storage/Fit.antt =====
-- The trait `Storage` (jobs-core/src/storage.rs): what a request answers with, on any store, lawful
-- or not.
use backjob.Common.{
  ℕ, String, ◌≡◌, true, Option, none, some, arith, Bool-cases, inl, inr, beq_iff, string_eq,
}
use backjob.Outcome.{ok, pure, >>=-eq-ok}
use backjob.Chrono.{Chrono, Clock, later}
use backjob.Job.{running}
use backjob.JobInfo.{JobInfo, run, is_ready, is_in_queue}
use backjob.Stats
use backjob.Storage.Trait.{Storage, request_job, hand_out, start}
use backjob.Storage.Spec.{admits}

module _ {S E V : Type 0} (chrono : Chrono) (store : Storage S E V) (clock : Clock) (queue : String)
    (runner_id : ℕ) where
  start-answer :
      (started job : JobInfo V) (s t : S)
      → start chrono store clock runner_id started s ≡ (ok (some job), t)
      → job ≡ started
  unfolding start
  start-answer started job s t h =
      let (x₁, s₁, p₁, h₁) = >>=-eq-ok (store.run_job started.id runner_id) _ s t (some job) h in
      let (x₂, s₂, p₂, h₂) = >>=-eq-ok (store.save_job started) _ s₁ t (some job) h₁ in
      let (x₃, s₃, p₃, h₃) =
        >>=-eq-ok (store.update_stats (later 3 clock) Stats.run_job) _ s₂ t (some job) h₂ in
      cc

  hand_out-answer :
      (found : Option (JobInfo V)) (job : JobInfo V) (s t : S)
      → hand_out chrono store clock queue runner_id found s ≡ (ok (some job), t)
      → (met : JobInfo V) × (admits clock queue met ≡ true) × (job ≡ run (clock 2) met)
  unfolding hand_out
  hand_out-answer none job s t h = absurd (cc)
  hand_out-answer (some met) job s t h = elim (Bool-cases (admits clock queue met)) [
    | inl fit ↦ (met, fit, start-answer (run (clock 2) met) job s t (rw fit at h))
    | inr unfit ↦ let q : pure {E = E} none s ≡ (ok (some job), t) = rw unfit at h in absurd (cc)
  ]

  -- On any store, a job that a request answers with is of the queue that was asked for, is marked as
  -- running, and was ready at the reading that the test made.
  pub request_job-answer :
      (job : JobInfo V) (s t : S)
      → request_job chrono store clock queue runner_id s ≡ (ok (some job), t)
      → (job.queue ≡ queue) × (job.status ≡ running) × (is_ready (clock 1) job ≡ true)
  unfolding request_job run is_in_queue is_ready
  request_job-answer job s t h =
      let (found, s₁, p₁, h₁) =
        >>=-eq-ok (store.fetch_job_from_queue (clock 0) queue)
          (hand_out chrono store clock queue runner_id) s t (some job) h in
      let (met, fit, e) = hand_out-answer found job s₁ t h₁ in
      (ground (arith, beq_iff met.queue queue), ground arith, ground arith)
