-- ===== src/Sled/Total.antt =====
-- jobs-sled/src/lib.rs: over a database that works, the operations of the store on disk return, and the
-- locks are free again.
pub mod Operations
pub mod Methods
use backjob.Common.{
  ℕ, suc, String, ◌≡◌, refl, sym, ap, ◌∙◌, false, Option, none, some, inl, inr, ◌==◌, string_eq,
  List,
}
use backjob.Outcome.{Outcome, ok, err, Exec, pure, continue, ◌>>=◌}
use backjob.Chrono.{Clock}
use backjob.JobInfo.{JobInfo}
use backjob.Stats.{Stats}
use backjob.Processor.{Serde}
use backjob.Storage.Total.{Goes, IsTotal, pure-Goes, >>=-Goes}
use backjob.Sled.{Error, Result, Database, Json}
use backjob.Sled.Key.{job_key, runner_key}
use backjob.Sled.Tree.{set, del, get, iter, fetch_and_update, decoded}
use backjob.Sled.Lawful.{IsDatabase, IsJson, read}
use backjob.Sled.Working.{
  Works, IsReadable, IsReadableAt, updated, update-goes, del-goes, set-goes, decoded-read,
}
use backjob.Sled.Lock.{holder, numbered}
use backjob.Sled.Store.{
  SledStorage, lift, done, on_jobinfo, on_running, on_running_inverse, on_queue, on_stats, on_lock,
  generate_id, save_job, fetch_job, taken, spin, acquire, unlock, release, lock_queue, first_ready,
  take_out, fetch_ready, fetch_job_from_queue, stop_running, queue_job, run_job, delete_job,
  update_stats, storage, changed,
}

-- JSON can be written of every job and every text.
pub record Writes {V B : Type 0} (json : Json V B) : Type 0 where
  pub job : (j : JobInfo V) → (b : B) × (json.job.to_value j ≡ some b)
  pub text : (q : String) → (b : B) × (json.text.to_value q ≡ some b)

module _ {T D B X V : Type 0} (db : Database T D B X) (content : T → String → Option B)
    (bound : D → ℕ) (laws : IsDatabase db content bound) (json : Json V B) (reads : IsJson json)
    (works : Works db) where
  abbrev Fine : {A : Type 0} → Serde A B → T → Type 0
  Fine serde t = IsReadable db content bound laws works serde t

  -- Every value of the store can be read; of the locks, `L` holds.
  pub record Ready (L : T → Type 0) (s : SledStorage T D) : Type 0 where
    pub jobs : Fine json.job s.jobinfo
    pub runners : Fine json.number s.running
    pub inverse : Fine json.number s.running_inverse
    pub queues : Fine json.text s.queue
    pub counted : Fine json.stats s.stats
    pub locks : L s.lock

  abbrev pub IsFree : T → Type 0
  IsFree t = (queue : String) → content t queue ≡ none

  -- Nobody but the one of this queue holds a lock.
  abbrev pub IsHeld : String → T → Type 0
  IsHeld queue t =
      IsReadableAt db content bound laws works json.number queue t
      × ((other : String) → (queue == other) ≡ false → content t other ≡ none)

  -- An operation of a tree returns, and leaves what can be read.
  abbrev Returns : {A R : Type 0} → Serde A B → (T → Result (Error X) R × T) → Type 0
  Returns {A} {R} serde m =
      (t : T) → Fine serde t → (o : R) × (u : T) × (m t ≡ (inr o, u)) × Fine serde u

  module _ (L : T → Type 0) where
    pub on_jobinfo-Goes :
        {R : Type 0} (m : T → Result (Error X) R × T)
        → Returns json.job m
        → Goes (Ready L) (on_jobinfo {D = D} m)
    on_jobinfo-Goes m go s r =
        let (o, u, e, fine) = go s.jobinfo r.jobs in
        (
          o,
          record s { jobinfo = u },
          ap (λ x. (lift x.0, record s { jobinfo = x.1 })) e,
          record {
            jobs = fine;
            runners = r.runners;
            inverse = r.inverse;
            queues = r.queues;
            counted = r.counted;
            locks = r.locks;
          },
        )

    pub on_running-Goes :
        {R : Type 0} (m : T → Result (Error X) R × T)
        → Returns json.number m
        → Goes (Ready L) (on_running {D = D} m)
    on_running-Goes m go s r =
        let (o, u, e, fine) = go s.running r.runners in
        (
          o,
          record s { running = u },
          ap (λ x. (lift x.0, record s { running = x.1 })) e,
          record {
            jobs = r.jobs;
            runners = fine;
            inverse = r.inverse;
            queues = r.queues;
            counted = r.counted;
            locks = r.locks;
          },
        )

    pub on_running_inverse-Goes :
        {R : Type 0} (m : T → Result (Error X) R × T)
        → Returns json.number m
        → Goes (Ready L) (on_running_inverse {D = D} m)
    on_running_inverse-Goes m go s r =
        let (o, u, e, fine) = go s.running_inverse r.inverse in
        (
          o,
          record s { running_inverse = u },
          ap (λ x. (lift x.0, record s { running_inverse = x.1 })) e,
          record {
            jobs = r.jobs;
            runners = r.runners;
            inverse = fine;
            queues = r.queues;
            counted = r.counted;
            locks = r.locks;
          },
        )

    pub on_queue-Goes :
        {R : Type 0} (m : T → Result (Error X) R × T)
        → Returns json.text m
        → Goes (Ready L) (on_queue {D = D} m)
    on_queue-Goes m go s r =
        let (o, u, e, fine) = go s.queue r.queues in
        (
          o,
          record s { queue = u },
          ap (λ x. (lift x.0, record s { queue = x.1 })) e,
          record {
            jobs = r.jobs;
            runners = r.runners;
            inverse = r.inverse;
            queues = fine;
            counted = r.counted;
            locks = r.locks;
          },
        )

    pub on_stats-Goes :
        {R : Type 0} (m : T → Result (Error X) R × T)
        → Returns json.stats m
        → Goes (Ready L) (on_stats {D = D} m)
    on_stats-Goes m go s r =
        let (o, u, e, fine) = go s.stats r.counted in
        (
          o,
          record s { stats = u },
          ap (λ x. (lift x.0, record s { stats = x.1 })) e,
          record {
            jobs = r.jobs;
            runners = r.runners;
            inverse = r.inverse;
            queues = r.queues;
            counted = fine;
            locks = r.locks;
          },
        )

  -- An operation on the locks takes what holds of them to something else.
  pub on_lock-goes :
      {L M : T → Type 0} {R : Type 0} (m : T → Outcome (Error X) R × T)
      → ((t : T) → L t → (o : R) × (u : T) × (m t ≡ (ok o, u)) × M u)
      → (s : SledStorage T D) → Ready L s
      → (o : R) × (v : SledStorage T D) × (on_lock m s ≡ (ok o, v)) × Ready M v
  on_lock-goes m go s r =
      let (o, u, e, locks) = go s.lock r.locks in
      (
        o,
        record s { lock = u },
        ap (λ x. (x.0, record s { lock = x.1 })) e,
        record {
          jobs = r.jobs;
          runners = r.runners;
          inverse = r.inverse;
          queues = r.queues;
          counted = r.counted;
          locks = locks;
        },
      )
