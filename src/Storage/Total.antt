-- ===== src/Storage/Total.antt =====
-- The provided methods of the trait `Storage` (jobs-core/src/storage.rs) return on a store whose
-- operations do, but for the sum of `JobInfo::next_queue` (jobs-core/src/job_info.rs), which can
-- panic.
use backjob.Common.{
  ℕ, String, ◌≡◌, refl, ap, ◌∙◌, Bool, true, false, Option, none, some, Bool-cases, inl, inr,
  if◌then◌else◌, subst, sym, ◌⊎◌,
}
use backjob.Outcome.{Outcome, ok, panic, Exec, pure, continue, ◌>>=◌}
use backjob.Chrono.{Chrono, Clock, later}
use backjob.Job.{JobResult, success, failure, missing_processor, is_failure, is_missing_processor}
use backjob.JobInfo.{JobInfo, NewJobInfo, ReturnJobInfo, with_id, run, set_pending}
use backjob.JobInfo.Retry.{Overruns, needs_retry-total}
use backjob.Stats
use backjob.Stats.{Stats}
use backjob.Storage.Trait.{
  Storage, new_job, request_job, hand_out, start, return_job, retry_or_fail, put_back, requeue,
  finish,
}
use backjob.Storage.Spec.{admits}

-- The call returns, without an error and without a panic, in a good state.
abbrev pub Arrives : {S E A : Type 0} → (S → Type 0) → Exec S E A → S → Type 0
Arrives {S} {E} {A} Good m s = (a : A) × (t : S) × (m s ≡ (ok a, t)) × Good t

-- It does from every good state.
abbrev pub Goes : {S E A : Type 0} → (S → Type 0) → Exec S E A → Type 0
Goes {S} Good m = (s : S) → Good s → Arrives Good m s

-- All operations of the store do, and the fetch of a job by its id leaves the store alone.
pub record IsTotal {S E V : Type 0} (store : Storage S E V) (Good : S → Type 0) : Type 0 where
  pub generate_id : Goes Good store.generate_id
  pub save_job : (job : JobInfo V) → Goes Good (store.save_job job)
  pub fetch_job :
      (id : ℕ) (s : S) → Good s → (o : Option (JobInfo V)) × (store.fetch_job id s ≡ (ok o, s))
  pub fetch_job_from_queue :
      (now : ℕ) (queue : String) → Goes Good (store.fetch_job_from_queue now queue)
  pub queue_job : (queue : String) (id : ℕ) → Goes Good (store.queue_job queue id)
  pub run_job : (id runner_id : ℕ) → Goes Good (store.run_job id runner_id)
  pub delete_job : (id : ℕ) → Goes Good (store.delete_job id)
  pub update_stats : (clock : Clock) (f : Stats → Stats) → Goes Good (store.update_stats clock f)

module _ {S E : Type 0} (Good : S → Type 0) where
  pub pure-Goes : {A : Type 0} (a : A) → Goes Good (pure {E = E} a)
  pure-Goes a s good = (a, s, refl, good)

  pub >>=-Goes :
      {A B : Type 0} (m : Exec S E A) (f : A → Exec S E B)
      → Goes Good m
      → ((a : A) → Goes Good (f a))
      → Goes Good (m >>= f)
  >>=-Goes {A} m f first next s good =
      let (a, t, e, kept) = first s good in
      let (b, u, h, last) = next a t kept in
      (b, u, ap (λ (x : Outcome E A × S). continue x.0 f x.1) e ∙ h, last)

module _ {S E V : Type 0} {store : Storage S E V} {Good : S → Type 0} (total : IsTotal store Good)
    (chrono : Chrono) (clock : Clock) where
  pub new_job-Goes : (new : NewJobInfo V) → Goes Good (new_job chrono store clock new)
  unfolding new_job
  new_job-Goes new = >>=-Goes Good store.generate_id _ total.generate_id λ id.
      >>=-Goes Good (store.save_job (with_id (clock 0) id new)) _
        (total.save_job (with_id (clock 0) id new))
        λ _.
          >>=-Goes Good (store.queue_job (with_id (clock 0) id new).queue id) _
            (total.queue_job (with_id (clock 0) id new).queue id)
            λ _.
              >>=-Goes Good (store.update_stats (later 1 clock) Stats.new_job) _
                (total.update_stats (later 1 clock) Stats.new_job) λ _. pure-Goes Good id

  start-Goes :
      (runner_id : ℕ) (started : JobInfo V) → Goes Good (start chrono store clock runner_id started)
  unfolding start
  start-Goes runner_id started =
      >>=-Goes Good (store.run_job started.id runner_id) _ (total.run_job started.id runner_id) λ _.
        >>=-Goes Good (store.save_job started) _ (total.save_job started) λ _.
          >>=-Goes Good (store.update_stats (later 3 clock) Stats.run_job) _
            (total.update_stats (later 3 clock) Stats.run_job) λ _. pure-Goes Good (some started)

  hand_out-Goes :
      (queue : String) (runner_id : ℕ) (found : Option (JobInfo V))
      → Goes Good (hand_out chrono store clock queue runner_id found)
  unfolding hand_out
  hand_out-Goes queue runner_id none = pure-Goes Good none
  hand_out-Goes queue runner_id (some job) = elim (Bool-cases (admits clock queue job)) [
    | inl fit ↦ rw fit (start-Goes runner_id (run (clock 2) job))
    | inr unfit ↦ rw unfit (pure-Goes Good none)
  ]

  pub request_job-Goes :
      (queue : String) (runner_id : ℕ) → Goes Good (request_job chrono store clock queue runner_id)
  unfolding request_job
  request_job-Goes queue runner_id =
      >>=-Goes Good (store.fetch_job_from_queue (clock 0) queue) _
        (total.fetch_job_from_queue (clock 0) queue) (hand_out-Goes queue runner_id)

  requeue-Goes : (job : JobInfo V) (id : ℕ) → Goes Good (requeue chrono store clock job id)
  unfolding requeue
  requeue-Goes job id =
      >>=-Goes Good (store.queue_job job.queue id) _ (total.queue_job job.queue id) λ _.
        >>=-Goes Good (store.save_job job) _ (total.save_job job)
          λ _. total.update_stats (later 3 clock) Stats.retry_job

  finish-Goes : (count : Stats → Stats) (id : ℕ) → Goes Good (finish chrono store clock count id)
  unfolding finish
  finish-Goes count id =
      >>=-Goes Good (store.delete_job id) _ (total.delete_job id)
        λ _. total.update_stats (later 3 clock) count

  again-Goes :
      (id : ℕ) (again : Bool) (counted : JobInfo V)
      → Goes Good (
          if again
          then requeue chrono store clock counted id
          else finish chrono store clock (Stats.fail_job chrono (clock 5)) id)
  again-Goes id true counted = requeue-Goes counted id
  again-Goes id false counted = finish-Goes (Stats.fail_job chrono (clock 5)) id

  -- The job has failed, and its backoff cannot be added to the reading.
  abbrev pub FailsLate : ReturnJobInfo → S → Type 0
  FailsLate r s =
      (r.result ≡ failure)
      × ((job : JobInfo V) × (store.fetch_job r.id s ≡ (ok (some job), s))
          × Overruns chrono clock job)

  -- What a return ends with: a result, or the panic of the one sum that it makes, the store as it was.
  abbrev pub GoesOrPanics : ReturnJobInfo → Exec S E (Unit {0}) → S → Type 0
  GoesOrPanics r m s = Arrives Good m s ⊎ ((m s ≡ (panic, s)) × FailsLate r s)

  retry_or_fail-Goes :
      (id : ℕ) (found : Option (JobInfo V)) (s : S)
      → Good s
      → store.fetch_job id s ≡ (ok found, s)
      → GoesOrPanics
          (record { id = id; result = failure })
          (retry_or_fail chrono store clock id found)
          s
  unfolding retry_or_fail
  retry_or_fail-Goes id none s good e = inl (pure-Goes Good tt s good)
  retry_or_fail-Goes id (some job) s good e = elim (needs_retry-total chrono clock job) [
    | inl (again, counted, h) ↦ inl (rw h (again-Goes id again counted s good))
    | inr (over, h) ↦ inr (rw h refl, (refl, (job, e, over)))
  ]

  put_back-Goes :
      (id : ℕ) (found : Option (JobInfo V)) → Goes Good (put_back chrono store clock id found)
  unfolding put_back
  put_back-Goes id none = pure-Goes Good tt
  put_back-Goes id (some job) = requeue-Goes (set_pending (clock 0) job) id

  fetched-Goes : (id : ℕ) → Goes Good (store.fetch_job id)
  fetched-Goes id s good = let (o, e) = total.fetch_job id s good in (o, s, e, good)

  by_result :
      (id : ℕ) (result : JobResult) (s : S)
      → Good s
      → GoesOrPanics
          (record { id = id; result = result })
          (return_job chrono store clock (record { id = id; result = result }))
          s
  unfolding return_job is_failure is_missing_processor
  by_result id success s good = inl (finish-Goes (Stats.complete_job chrono (clock 5)) id s good)
  by_result id failure s good =
      let (o, e) = total.fetch_job id s good in
      subst
        (λ (x : Outcome E (Option (JobInfo V)) × S).
          Ends (continue x.0 (retry_or_fail chrono store clock id) x.1))
        (sym e) (retry_or_fail-Goes id o s good e)
    where
      Ends : Outcome E (Unit {0}) × S → Type 0
      Ends y = GoesOrPanics (record { id = id; result = failure }) (λ _. y) s
  by_result id missing_processor s good =
      inl (>>=-Goes Good (store.fetch_job id) _ (fetched-Goes id) (put_back-Goes id) s good)

  -- A return ends with a result, or panics and leaves the store as it was, and this only if the job has
  -- failed, is retried, and its backoff cannot be added to the reading.
  pub return_job-Goes :
      (r : ReturnJobInfo) (s : S) → Good s → GoesOrPanics r (return_job chrono store clock r) s
  return_job-Goes r = by_result r.id r.result
