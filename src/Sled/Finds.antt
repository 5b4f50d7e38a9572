-- ===== src/Sled/Finds.antt =====
-- jobs-sled/src/lib.rs: on disk a job that is ready is found.
use backjob.Common.{ℕ, suc, ◌≤◌, String, ◌≡◌, subst, true, Option, some, Option-cases, inl, inr}
use backjob.Outcome.{ok}
use backjob.Chrono.{Chrono, Clock}
use backjob.JobInfo.{JobInfo, is_ready}
use backjob.Storage.Trait.{request_job}
use backjob.Storage.Valid.{IsValid}
use backjob.Storage.Fit.{request_job-answer}
use backjob.Storage.Ready.{request_job-none_ready}
use backjob.Sled.{Database, Json}
use backjob.Sled.Lawful.{IsDatabase, IsJson}
use backjob.Sled.Working.{Works}
use backjob.Sled.Sound.{IsSound}
use backjob.Sled.View.{view}
use backjob.Sled.Laws.{sled_storage-Laws}
use backjob.Sled.Ready.{storage-FetchesReady}
use backjob.Sled.Total.{Writes}
use backjob.Sled.Total.Operations.{Good}
use backjob.Sled.Total.Methods.{sled_storage-IsReliable}
use backjob.Sled.Store.{SledStorage, storage}

module _ {T D B X V : Type 0} (db : Database T D B X) (content : T → String → Option B)
    (bound : D → ℕ) (laws : IsDatabase db content bound) (json : Json V B) (reads : IsJson json)
    (works : Works db) (writes : Writes json) where
  -- On disk, if a job waits in a queue and is ready, and time does not go back, a request for a job of
  -- the queue returns with one, which was ready, whatever else waits there: from a sound, valid state
  -- in which all values can be read and no lock is held, if the database works and JSON can be written
  -- of every job and text.
  pub sled_request_job-finds :
      (chrono : Chrono) (clock : Clock) (fuel runner_id k : ℕ) (queue : String) (j : JobInfo V)
      (s : SledStorage T D)
      → IsSound db content bound laws json s
      → IsValid (view db content bound laws json reads s)
      → Good db content bound laws json reads works writes s
      → clock 0 ≤ clock 1
      → (view db content bound laws json reads s).queued k ≡ some queue
      → (view db content bound laws json reads s).jobs k ≡ some j
      → is_ready (clock 0) j ≡ true
      → (job : JobInfo V) × (t : SledStorage T D) × (request_job chrono
            (storage db json (suc fuel))
            clock
            queue
            runner_id
            s
          ≡ (ok (some job), t))
        × (job.queue ≡ queue)
        × (is_ready (clock 1) job ≡ true)
  sled_request_job-finds chrono clock fuel runner_id k queue j s sound v good le waits stored
        ready =
      let store = storage db json (suc fuel) in
      let reliable =
        sled_storage-IsReliable db content bound laws json reads works writes chrono fuel in
      let (o, t, e, _) = reliable.request_job clock queue runner_id s good in
      elim (Option-cases o) [
        | inl nothing ↦
            let none_ =
              subst (λ x. request_job chrono store clock queue runner_id s ≡ (ok x, t)) nothing e in
            let early =
              request_job-none_ready (sled_storage-Laws db content bound laws json reads (suc fuel))
                chrono clock queue runner_id s t
                (storage-FetchesReady db content bound laws json reads (suc fuel)) sound v le none_
                k j waits stored in
            absurd (cc)
        | inr (job, found) ↦
            let h =
              subst (λ x. request_job chrono store clock queue runner_id s ≡ (ok x, t)) found e in
            let (own, _, fit) = request_job-answer chrono store clock queue runner_id job s t h in
            (job, t, h, own, fit)
      ]
