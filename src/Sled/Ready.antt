-- ===== src/Sled/Ready.antt =====
-- jobs-sled/src/lib.rs: the store on disk fetches ready jobs only, so that it loses none.
use backjob.Common.{ℕ, ◌≤◌, String, ◌≡◌, Option, none, some}
use backjob.Outcome.{ok, >>=-eq-ok, pure}
use backjob.Chrono.{Chrono, Clock}
use backjob.JobInfo.{JobInfo}
use backjob.Storage.Trait.{request_job}
use backjob.Storage.Spec.{issue}
use backjob.Storage.Valid.{IsValid}
use backjob.Storage.Ready.{FetchesReady, request_job-none}
use backjob.Sled.{Database, Json}
use backjob.Sled.Key.{job_key}
use backjob.Sled.Tree.{del, iter}
use backjob.Sled.Lawful.{IsDatabase, IsJson}
use backjob.Sled.Walk.{first_ready-some}
use backjob.Sled.Sound.{IsSound}
use backjob.Sled.Fetch.{lock_queue-eq-ok}
use backjob.Sled.View.{view}
use backjob.Sled.Laws.{sled_storage-Laws}
use backjob.Sled.Store.{
  SledStorage, on_queue, first_ready, take_out, fetch_ready, fetch_job_from_queue, storage,
}

module _ {T D B X V : Type 0} (db : Database T D B X) (content : T → String → Option B)
    (bound : D → ℕ) (laws : IsDatabase db content bound) (json : Json V B)
    (reads : IsJson json) where
  taken_is_found :
      (found : Option (JobInfo V)) (job : JobInfo V) (s t : SledStorage T D)
      → take_out db json found s ≡ (ok (some job), t)
      → found ≡ some job
  unfolding take_out
  taken_is_found none job s t h = cc
  taken_is_found (some met) job s t h =
      let (x, u, p, q) =
        >>=-eq-ok (on_queue (del db json.text (job_key met.id))) (λ _. pure (some met)) s t
          (some job) h in
      cc

  pub storage-FetchesReady : (fuel : ℕ) → FetchesReady (storage db json fuel)
  unfolding fetch_job_from_queue fetch_ready
  storage-FetchesReady fuel now queue job s t h =
      let (d, l, m, u, le, ran, e) =
        lock_queue-eq-ok db content bound laws json fuel queue (fetch_ready db json now queue) s t
          (some job) h in
      let met =
        taken_is_found (first_ready db json queue now s.jobinfo (iter db json.text s.queue)) job
          (record s { db = d; lock = l }) u ran in
      let (_, _, _, ready) =
        first_ready-some db content bound laws json queue now s.jobinfo (iter db json.text s.queue)
          job met in
      ready

  -- On disk, a request that answers nothing leaves all jobs and queues as they were, if the queues
  -- stand under the keys of jobs, the store is valid and time does not go back.
  pub sled_request_job-none :
      (chrono : Chrono) (clock : Clock) (fuel runner_id : ℕ) (queue : String)
      (s t : SledStorage T D)
      → IsSound db content bound laws json s
      → IsValid (view db content bound laws json reads s)
      → clock 0 ≤ clock 1
      → request_job chrono (storage db json fuel) clock queue runner_id s ≡ (ok none, t)
      → (n : ℕ) × (view db content bound laws json reads t
          ≡ issue n (view db content bound laws json reads s))
  sled_request_job-none chrono clock fuel runner_id queue s t sound v le h =
      request_job-none (sled_storage-Laws db content bound laws json reads fuel) chrono clock queue
        runner_id s t (storage-FetchesReady fuel) sound v le h
