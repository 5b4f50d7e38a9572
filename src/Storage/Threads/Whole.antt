-- ===== src/Storage/Threads/Whole.antt =====
-- jobs-core/src/storage.rs: the operations of a thread, with nothing in between, are the method.
use backjob.Common.{
  ℕ, String, ◌≡◌, refl, ap, fun_ext, Bool, true, false, Option, none, some, Bool-cases, inl, inr,
  if◌then◌else◌,
}
use backjob.Outcome.{Outcome, ok, err, panic, Exec, pure, or_panic, continue, ◌>>=◌, ◌>>◌}
use backjob.Chrono.{Chrono, Clock, later}
use backjob.Job.{JobResult, success, failure, missing_processor, is_failure, is_missing_processor}
use backjob.JobInfo.{JobInfo, NewJobInfo, ReturnJobInfo, needs_retry, set_pending}
use backjob.Storage.Trait.{
  Storage, new_job, request_job, hand_out, start, return_job, retry_or_fail, put_back, requeue,
}
use backjob.Storage.Trait
use backjob.Stats
use backjob.Storage.Spec.{admits}
use backjob.Storage.Threads.{
  creates, looks, deletes, requeues, Answer, created, refused, handed, returned, returning, decides,
  retries, puts_back, finish,
}

-- What a method makes of the answer of its thread.
module _ {S E V : Type 0} where
  abbrev pub id_of : Answer V → Exec S E ℕ
  id_of (created id) = pure id
  id_of refused = or_panic none
  id_of (handed _) = or_panic none
  id_of returned = or_panic none

  abbrev pub job_of : Answer V → Exec S E (Option (JobInfo V))
  job_of (handed job) = pure (some job)
  job_of refused = pure none
  job_of (created _) = or_panic none
  job_of returned = or_panic none

  abbrev pub nothing_of : Answer V → Exec S E (Unit {0})
  nothing_of returned = pure tt
  nothing_of refused = or_panic none
  nothing_of (handed _) = or_panic none
  nothing_of (created _) = or_panic none

module _ {S E V : Type 0} (chrono : Chrono) (store : Storage S E V) (clock : Clock) where
  finish-creates :
      (new : NewJobInfo V)
      → finish chrono store id_of 4 (creates clock new) ≡ new_job chrono store clock new
  unfolding finish new_job
  finish-creates new = refl

  decides_lem :
      (queue : String) (runner_id : ℕ) (found : Option (JobInfo V))
      → decides chrono store (finish chrono store job_of 3) job_of clock queue runner_id found
        ≡ hand_out chrono store clock queue runner_id found
  unfolding decides hand_out start finish
  decides_lem queue runner_id none = refl
  decides_lem queue runner_id (some job) = elim (Bool-cases (admits clock queue job)) [
    | inl fit ↦ rw fit refl
    | inr unfit ↦ rw unfit refl
  ]

  finish-looks :
      (queue : String) (runner_id : ℕ)
      → finish chrono store job_of 4 (looks clock queue runner_id)
        ≡ request_job chrono store clock queue runner_id
  unfolding finish request_job
  finish-looks queue runner_id =
      ap (λ f. store.fetch_job_from_queue (clock 0) queue >>= f)
        (fun_ext (decides_lem queue runner_id))

  -- A count that ends a method is what the method answers with.
  ends : (m : Exec S E (Unit {0})) → (m >>= λ _. pure tt) ≡ m
  ends m = fun_ext λ s. ended (m s).0 (m s).1
    where
      ended :
          (r : Outcome E (Unit {0})) (t : S)
          → ◌≡◌ {A = Outcome E (Unit {0}) × S} (continue r (λ _. pure tt) t) (r, t)
      ended (ok _) t = refl
      ended (err e) t = refl
      ended panic t = refl

  finish-requeues :
      (job : JobInfo V) (id : ℕ)
      → finish chrono store nothing_of 3 (requeues clock job id) ≡ requeue chrono store clock job id
  unfolding finish requeue
  finish-requeues job id =
      let last = ends (store.update_stats (later 3 clock) Stats.retry_job) in
      ap (λ (m : Exec S E (Unit {0})). store.queue_job job.queue id >> (store.save_job job >> m))
        last

  finish-deletes :
      (count : Stats.Stats → Stats.Stats) (id : ℕ)
      → finish chrono store nothing_of 3 (deletes clock count id)
        ≡ Trait.finish chrono store clock count id
  unfolding finish Trait.finish
  finish-deletes count id =
      ap (λ (m : Exec S E (Unit {0})). store.delete_job id >> m)
        (ends (store.update_stats (later 3 clock) count))

  retried :
      (id : ℕ) (r : Bool × JobInfo V)
      → (if r.0
          then finish chrono store nothing_of 3 (requeues clock r.1 id)
          else finish chrono store nothing_of 3
              (deletes clock (Stats.fail_job chrono (clock 5)) id))
        ≡ (if r.0
            then requeue chrono store clock r.1 id
            else Trait.finish chrono store clock (Stats.fail_job chrono (clock 5)) id)
  retried id (true, counted) = finish-requeues counted id
  retried id (false, counted) = finish-deletes (Stats.fail_job chrono (clock 5)) id

  retries_lem :
      (id : ℕ) (found : Option (JobInfo V))
      → retries chrono store (finish chrono store nothing_of 3) nothing_of clock id found
        ≡ retry_or_fail chrono store clock id found
  unfolding retries retry_or_fail
  retries_lem id none = refl
  retries_lem id (some job) =
      ap (λ f. or_panic (needs_retry chrono clock job) >>= f) (fun_ext (retried id))

  puts_back_lem :
      (id : ℕ) (found : Option (JobInfo V))
      → puts_back chrono store (finish chrono store nothing_of 3) nothing_of clock id found
        ≡ put_back chrono store clock id found
  unfolding puts_back put_back
  puts_back_lem id none = refl
  puts_back_lem id (some job) = finish-requeues (set_pending (clock 0) job) id

  finish-returning :
      (r : ReturnJobInfo)
      → finish chrono store nothing_of 4 (returning chrono store clock r)
        ≡ return_job chrono store clock r
  unfolding returning return_job finish is_failure is_missing_processor
  finish-returning r = by_result r.id r.result
    where
      by_result :
          (id : ℕ) (result : JobResult)
          → (let r : ReturnJobInfo = record { id = id; result = result } in
              finish chrono store nothing_of 4 (returning chrono store clock r)
              ≡ return_job chrono store clock r)
      by_result id failure = ap (λ f. store.fetch_job id >>= f) (fun_ext (retries_lem id))
      by_result id missing_processor =
          ap (λ f. store.fetch_job id >>= f) (fun_ext (puts_back_lem id))
      by_result id success = finish-deletes (Stats.complete_job chrono (clock 5)) id

  -- A thread that runs its operations with nothing in between runs the method: `new_job`, `request_job`
  -- or `return_job`.
  pub finish-methods :
      (new : NewJobInfo V) (queue : String) (runner_id : ℕ) (r : ReturnJobInfo)
      → (finish chrono store id_of 4 (creates clock new) ≡ new_job chrono store clock new)
        × (finish chrono store job_of 4 (looks clock queue runner_id)
            ≡ request_job chrono store clock queue runner_id)
        × (finish chrono store nothing_of 4 (returning chrono store clock r)
            ≡ return_job chrono store clock r)
  finish-methods new queue runner_id r =
      (finish-creates new, finish-looks queue runner_id, finish-returning r)
