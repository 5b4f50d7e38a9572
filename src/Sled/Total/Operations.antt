-- ===== src/Sled/Total/Operations.antt =====
-- jobs-sled/src/lib.rs: the operations of the store on disk return, over a database that works.
use backjob.Common.{ℕ, String, ap, ◌≡◌, ◌∙◌, Option, none, some, string_eq}
use backjob.Outcome.{ok, pure}
use backjob.Chrono.{Clock}
use backjob.JobInfo.{JobInfo}
use backjob.Stats.{Stats}
use backjob.Storage.Total.{Goes, pure-Goes, >>=-Goes}
use backjob.Sled.{Database, Json}
use backjob.Sled.Key.{job_key, runner_key}
use backjob.Sled.Tree.{set, del, get, iter, fetch_and_update, decoded}
use backjob.Sled.Lawful.{IsDatabase, IsJson, read}
use backjob.Sled.Working.{Works, update-goes, del-goes, set-goes, decoded-read}
use backjob.Sled.Lock.{numbered}
use backjob.Sled.Total.{
  Writes, Ready, IsFree, IsHeld, on_jobinfo-Goes, on_running-Goes, on_running_inverse-Goes,
  on_queue-Goes, on_stats-Goes,
}
use backjob.Sled.Store.{
  SledStorage, lift, on_jobinfo, on_running, on_running_inverse, on_queue, on_stats, generate_id,
  save_job, fetch_job, first_ready, take_out, fetch_ready, stop_running, queue_job, run_job,
  delete_job, update_stats, changed,
}

module _ {T D B X V : Type 0} (db : Database T D B X) (content : T → String → Option B)
    (bound : D → ℕ) (laws : IsDatabase db content bound) (json : Json V B) (reads : IsJson json)
    (works : Works db) (writes : Writes json) where
  abbrev pub Fits : (T → Type 0) → SledStorage T D → Type 0
  Fits = Ready db content bound laws json reads works

  abbrev pub Good : SledStorage T D → Type 0
  Good = Fits (IsFree db content bound laws json reads works)

  abbrev pub Held : String → T → Type 0
  Held = IsHeld db content bound laws json reads works

  module _ (L : T → Type 0) where
    pub generate_id-Goes : Goes (Fits L) (generate_id db json)
    generate_id-Goes s r =
        let (id, d, e) = numbered db content bound laws json reads works s in
        (
          id,
          record s { db = d },
          e,
          record {
            jobs = r.jobs;
            runners = r.runners;
            inverse = r.inverse;
            queues = r.queues;
            counted = r.counted;
            locks = r.locks;
          },
        )

    pub queue_del-Goes : (id : ℕ) → Goes (Fits L) (on_queue {D = D} (del db json.text (job_key id)))
    queue_del-Goes id =
        on_queue-Goes db content bound laws json reads works L (del db json.text (job_key id))
          (del-goes db content bound laws works json.text (job_key id))

    pub take_out-Goes : (found : Option (JobInfo V)) → Goes (Fits L) (take_out db json found)
    unfolding take_out
    take_out-Goes none = pure-Goes (Fits L) none
    take_out-Goes (some job) =
        >>=-Goes (Fits L) (on_queue (del db json.text (job_key job.id))) _ (queue_del-Goes job.id)
          λ _. pure-Goes (Fits L) (some job)

    pub fetch_ready-Goes :
        (now : ℕ) (queue : String) → Goes (Fits L) (fetch_ready db json now queue)
    unfolding fetch_ready
    fetch_ready-Goes now queue s r =
        take_out-Goes (first_ready db json queue now s.jobinfo (iter db json.text s.queue)) s r

    pub save_job-Goes : (job : JobInfo V) → Goes (Fits L) (save_job db json job)
    unfolding save_job
    save_job-Goes job =
        let (b, w) = writes.job job in
        >>=-Goes (Fits L) (on_jobinfo (set db json.job (job_key job.id) job)) _
          (on_jobinfo-Goes db content bound laws json reads works L
            (set db json.job (job_key job.id) job)
            (λ t.
              set-goes db content bound laws works json.job (job_key job.id) job b t reads.job w))
          λ _. pure-Goes (Fits L) tt

    pub fetch_job-reads :
        (id : ℕ) (s : SledStorage T D)
        → Fits L s
        → (o : Option (JobInfo V)) × (fetch_job db json id s ≡ (ok o, s))
    unfolding fetch_job get
    fetch_job-reads id s r = (
      read db content bound laws json.job s.jobinfo (job_key id),
      ap (λ x. (lift (decoded db json.job x), s)) (laws.get (job_key id) s.jobinfo)
          ∙ ap (λ x. (lift x, s))
              (decoded-read db content bound laws works json.job (job_key id) s.jobinfo
                (r.jobs (job_key id))),
    )

    pub stop_running-Goes : (runner : Option ℕ) → Goes (Fits L) (stop_running db json runner)
    unfolding stop_running
    stop_running-Goes none = pure-Goes (Fits L) tt
    stop_running-Goes (some runner_id) =
        >>=-Goes (Fits L) (on_running (del db json.number (runner_key runner_id))) _
          (on_running-Goes db content bound laws json reads works L
            (del db json.number (runner_key runner_id))
            (del-goes db content bound laws works json.number (runner_key runner_id)))
          λ _. pure-Goes (Fits L) tt

    pub inverse_del-Goes :
        (id : ℕ) → Goes (Fits L) (on_running_inverse {D = D} (del db json.number (job_key id)))
    inverse_del-Goes id =
        on_running_inverse-Goes db content bound laws json reads works L
          (del db json.number (job_key id))
          (del-goes db content bound laws works json.number (job_key id))

    pub queue_job-Goes : (queue : String) (id : ℕ) → Goes (Fits L) (queue_job db json queue id)
    unfolding queue_job
    queue_job-Goes queue id =
        let (b, w) = writes.text queue in
        >>=-Goes (Fits L) (on_running_inverse (del db json.number (job_key id))) _
          (inverse_del-Goes id)
          λ runner.
            >>=-Goes (Fits L) (stop_running db json runner) _ (stop_running-Goes runner) λ _.
              >>=-Goes (Fits L) (on_queue (set db json.text (job_key id) queue)) _
                (on_queue-Goes db content bound laws json reads works L
                  (set db json.text (job_key id) queue)
                  (λ t.
                    set-goes db content bound laws works json.text (job_key id) queue b t reads.text
                      w))
                λ _. pure-Goes (Fits L) tt

    pub run_job-Goes : (id runner_id : ℕ) → Goes (Fits L) (run_job db json id runner_id)
    unfolding run_job
    run_job-Goes id runner_id =
        let (b, w) = reads.number_writes id in
        let (c, v) = reads.number_writes runner_id in
        >>=-Goes (Fits L) (on_queue (del db json.text (job_key id))) _ (queue_del-Goes id) λ _.
          >>=-Goes (Fits L) (on_running (set db json.number (runner_key runner_id) id)) _
            (on_running-Goes db content bound laws json reads works L
              (set db json.number (runner_key runner_id) id)
              (λ t.
                set-goes db content bound laws works json.number (runner_key runner_id) id b t
                  reads.number w))
            λ _.
              >>=-Goes (Fits L) (on_running_inverse (set db json.number (job_key id) runner_id)) _
                (on_running_inverse-Goes db content bound laws json reads works L
                  (set db json.number (job_key id) runner_id)
                  (λ t.
                    set-goes db content bound laws works json.number (job_key id) runner_id c t
                      reads.number v))
                λ _. pure-Goes (Fits L) tt

    pub delete_job-Goes : (id : ℕ) → Goes (Fits L) (delete_job db json id)
    unfolding delete_job
    delete_job-Goes id =
        >>=-Goes (Fits L) (on_jobinfo (del db json.job (job_key id))) _
          (on_jobinfo-Goes db content bound laws json reads works L (del db json.job (job_key id))
            (del-goes db content bound laws works json.job (job_key id)))
          λ _.
            >>=-Goes (Fits L) (on_queue (del db json.text (job_key id))) _ (queue_del-Goes id) λ _.
              >>=-Goes (Fits L) (on_running_inverse (del db json.number (job_key id))) _
                (inverse_del-Goes id) λ runner. stop_running-Goes runner

    pub update_stats-Goes :
        (clock : Clock) (f : Stats → Stats) → Goes (Fits L) (update_stats db json clock f)
    unfolding update_stats
    update_stats-Goes clock f =
        let change = changed db json clock f in
        >>=-Goes (Fits L) (on_stats (fetch_and_update db json.stats "stats" change)) (λ _. pure tt)
          (on_stats-Goes db content bound laws json reads works L
            (fetch_and_update db json.stats "stats" change)
            (λ t. update-goes db content bound laws works json.stats "stats" change t reads.stats))
          λ _. pure-Goes (Fits L) tt
