-- ===== src/Memory/Total.antt =====
-- jobs-core/src/storage.rs, `memory_storage`: its methods never fail, but for the sum of
-- `JobInfo::next_queue` (jobs-core/src/job_info.rs).
use backjob.Common.{ℕ, String, ◌≡◌, refl, some, ◌⊎◌, inl, inr}
use backjob.Outcome.{panic}
use backjob.Common.{nat_eq}
use backjob.Common.HashMap.{Iteration, get}
use backjob.Chrono.{Chrono, Clock}
use backjob.Job.{failure}
use backjob.JobInfo.{JobInfo, NewJobInfo, ReturnJobInfo}
use backjob.JobInfo.Retry.{Overruns}
use backjob.Storage.Trait.{new_job, request_job, return_job}
use backjob.Storage.Reliable.{Succeeds, IsReliable, IsTotal-IsReliable}
use backjob.Storage.Total.{IsTotal, return_job-Goes}
use backjob.Memory.{
  Inner, generate_id, save_job, fetch_job, first_match, drop_from_queue, fetch_job_from_queue,
  queue_job, run_job, delete_job, update_stats, storage,
}

module _ {V : Type 0} (order : Iteration ℕ String) where
  pub storage-IsTotal : IsTotal {V = V} (storage order) (λ _. Unit {0})
  unfolding generate_id save_job fetch_job fetch_job_from_queue queue_job run_job delete_job
      update_stats
  storage-IsTotal = record {
    generate_id = λ s _. (s.count, (generate_id s).1, refl, tt);
    save_job = λ job s _. (tt, (save_job job s).1, refl, tt);
    fetch_job = λ id s _. (get id s.jobs, refl);
    fetch_job_from_queue = λ now queue s _.
        let found = first_match queue s.jobs (order.iter s.queues) in
        (found, drop_from_queue found s, refl, tt);
    queue_job = λ queue id s _. (tt, (queue_job queue id s).1, refl, tt);
    run_job = λ id runner_id s _. (tt, (run_job id runner_id s).1, refl, tt);
    delete_job = λ id s _. (tt, (delete_job id s).1, refl, tt);
    update_stats = λ clock f s _. (tt, (update_stats f s).1, refl, tt);
  }

-- The store in memory is reliable.
pub storage-IsReliable :
    {V : Type 0} (order : Iteration ℕ String) (chrono : Chrono)
    → IsReliable {V = V} chrono (storage order) (λ _. Unit {0})
storage-IsReliable order chrono = IsTotal-IsReliable chrono (storage-IsTotal order)

-- Every method of the store in memory returns with a result, but for one case: a return panics and
-- leaves the store as it was only if it is the failure of a stored job whose limit allows one more retry
-- and whose backoff cannot be added to the reading.
pub methods-Succeed :
    {V : Type 0} (order : Iteration ℕ String) (chrono : Chrono) (clock : Clock) (new : NewJobInfo V)
    (queue : String) (runner_id : ℕ) (r : ReturnJobInfo) (s : Inner V)
    → Succeeds (new_job chrono (storage order) clock new) s
      × Succeeds (request_job chrono (storage order) clock queue runner_id) s
      × (Succeeds (return_job chrono (storage order) clock r) s
          ⊎ ((return_job chrono (storage order) clock r s ≡ (panic, s))
              × ((r.result ≡ failure)
                  × ((job : JobInfo V) × (get r.id s.jobs ≡ some job)
                      × Overruns chrono clock job))))
unfolding fetch_job
methods-Succeed order chrono clock new queue runner_id r s =
    let reliable = storage-IsReliable order chrono in
    let (id, t, e, _) = reliable.new_job clock new s tt in
    let (o, u, h, _) = reliable.request_job clock queue runner_id s tt in
    (
      (id, t, e),
      (o, u, h),
      elim (return_job-Goes (storage-IsTotal order) chrono clock r s tt) [
        | inl (x, v, k, _) ↦ inl (x, v, k)
        | inr (stuck, (failed, (job, stored, over))) ↦ inr (stuck, (failed, (job, cc, over)))
      ],
    )
