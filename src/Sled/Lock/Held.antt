-- ===== src/Sled/Lock/Held.antt =====
-- jobs-sled/src/lib.rs, `lock_queue`: a queue whose lock is held.
use backjob.Common.{ℕ, String, ◌≡◌, ap, ◌∙◌, Option, some}
use backjob.Outcome.{Outcome, panic, Exec, continue, ◌>>◌}
use backjob.Chrono.{Chrono, Clock}
use backjob.Storage.Trait.{request_job, hand_out}
use backjob.JobInfo.{JobInfo}
use backjob.Sled.{Error, Database, Json}
use backjob.Sled.Lawful.{IsDatabase, IsJson}
use backjob.Sled.Store.{
  SledStorage, on_lock, storage, acquire, release, lock_queue, fetch_ready, fetch_job_from_queue,
}
use backjob.Sled.Working.{Works}
use backjob.Sled.Lock.{holder, acquire-held, numbered}

module _ {T D B X V : Type 0} (db : Database T D B X) (content : T → String → Option B)
    (bound : D → ℕ) (laws : IsDatabase db content bound) (json : Json V B) (reads : IsJson json)
    (works : Works db) where
  -- While somebody holds the lock of a queue, a fetch from the queue does not return, with whatever
  -- fuel.
  fetch_job_from_queue-held :
      (fuel now other : ℕ) (queue : String) (s : SledStorage T D)
      → holder db content bound laws json s.lock queue ≡ some other
      → (fetch_job_from_queue db json fuel now queue s).0 ≡ panic
  unfolding fetch_job_from_queue lock_queue
  fetch_job_from_queue-held fuel now other queue s held =
      let (id, d, e) = numbered db content bound laws json reads works s in
      let rest : ℕ → Exec (SledStorage T D) (Error X) (Option (JobInfo V)) = λ n.
        on_lock (acquire db json fuel queue n) >> (λ v.
          release db json queue (fetch_ready db json now queue v).0
            (fetch_ready db json now queue v).1) in
      let stuck =
        acquire-held db content bound laws json reads works fuel id other queue s.lock held in
      ap (λ (x : Outcome (Error X) ℕ × SledStorage T D). (continue x.0 rest x.1).0) e
      ∙ ap
          (λ (r : Outcome (Error X) (Unit {0})).
            (continue r
              (λ _ v.
                release db json queue (fetch_ready db json now queue v).0
                  (fetch_ready db json now queue v).1)
              (record s { db = d; lock = (acquire db json fuel queue id s.lock).1 })).0)
          stuck

  -- While somebody holds the lock of a queue, no request for a job of the queue returns, with whatever
  -- fuel, if the database works.
  pub request_job-held :
      (chrono : Chrono) (clock : Clock) (fuel runner_id other : ℕ) (queue : String)
      (s : SledStorage T D)
      → holder db content bound laws json s.lock queue ≡ some other
      → (request_job chrono (storage db json fuel) clock queue runner_id s).0 ≡ panic
  unfolding request_job
  request_job-held chrono clock fuel runner_id other queue s held =
      ap
        (λ (r : Outcome (Error X) (Option (JobInfo V))).
          (continue r (hand_out chrono (storage db json fuel) clock queue runner_id)
            (fetch_job_from_queue db json fuel (clock 0) queue s).1).0)
        (fetch_job_from_queue-held fuel (clock 0) other queue s held)
