-- ===== src/Sled/Sound.antt =====
-- jobs-sled/src/lib.rs: the tree of the queues holds entries under the keys of jobs only, whatever the
-- operations of the store answer.
use backjob.Common.{
  ℕ, String, ◌≡◌, sym, ◌∙◌, Option, none, some, ◌==◌, string_eq, Bool-cases, beq_iff, inl, inr,
}
use backjob.Outcome.{Outcome, ok, err, panic, Exec, pure}
use backjob.JobInfo.{JobInfo}
use backjob.Storage.Spec.{Keeps, Preserves}
use backjob.Storage.Sound.{>>=-Preserves}
use backjob.Sled.{Database, Json, Error}
use backjob.Sled.Key.{job_key, runner_key}
use backjob.Sled.Tree.{set, del, fetch_and_update, iter}
use backjob.Sled.Lawful.{IsDatabase, set_other, del_other}
use backjob.Sled.Store.{
  SledStorage, on_jobinfo, on_running, on_running_inverse, on_queue, on_stats, on_lock, generate_id,
  save_job, fetch_job, acquire, unlock, release, lock_queue, first_ready, take_out, fetch_ready,
  fetch_job_from_queue, stop_running, queue_job, run_job, delete_job, update_stats, storage,
  changed,
}

-- Every entry of the tree stands under the key of a job.
abbrev pub HasJobKeys : {T B : Type 0} → (T → String → Option B) → T → Type 0
HasJobKeys {T} {B} content t =
    (k : String) (b : B) → content t k ≡ some b → (n : ℕ) × (k ≡ job_key n)

module _ {T D B X V : Type 0} (db : Database T D B X) (content : T → String → Option B)
    (bound : D → ℕ) (laws : IsDatabase db content bound) (json : Json V B) where
  abbrev pub IsSound : SledStorage T D → Type 0
  IsSound s = HasJobKeys content s.queue

  set-HasJobKeys :
      (n : ℕ) (a : String) (t : T)
      → HasJobKeys content t
      → HasJobKeys content (set db json.text (job_key n) a t).1
  set-HasJobKeys n a t old k b h = elim (Bool-cases (job_key n == k)) [
    | inl hit ↦ (n, sym ((beq_iff (job_key n) k).0 hit))
    | inr miss ↦
        old k b (sym (set_other db content bound laws json.text (job_key n) k a t miss) ∙ h)
  ]

  del-HasJobKeys :
      (n : ℕ) (t : T) → HasJobKeys content t → HasJobKeys content (del db json.text (job_key n) t).1
  del-HasJobKeys n t old k b h = elim (Bool-cases (job_key n == k)) [
    | inl hit ↦ (n, sym ((beq_iff (job_key n) k).0 hit))
    | inr miss ↦ old k b (sym (del_other db content bound laws json.text (job_key n) k t miss) ∙ h)
  ]

  set-Preserves :
      (n : ℕ) (a : String) → Preserves IsSound (on_queue (set db json.text (job_key n) a))
  set-Preserves n a s h = set-HasJobKeys n a s.queue h

  del-Preserves : (n : ℕ) → Preserves IsSound (on_queue (del db json.text (job_key n)))
  del-Preserves n s h = del-HasJobKeys n s.queue h

  take_out-Preserves : (found : Option (JobInfo V)) → Preserves IsSound (take_out db json found)
  unfolding take_out
  take_out-Preserves none = λ s h. h
  take_out-Preserves (some job) =
      >>=-Preserves IsSound (on_queue (del db json.text (job_key job.id))) _ (del-Preserves job.id)
        λ _ s h. h

  release-Preserves :
      {A : Type 0} (queue : String) (r : Outcome (Error X) A)
      → Preserves IsSound (release db json queue r)
  unfolding release
  release-Preserves queue (ok a) =
      λ s h. >>=-Preserves IsSound (on_lock (unlock db json queue)) _ (λ s h. h) (λ _ s h. h) s h
  release-Preserves queue (err e) =
      λ s h. >>=-Preserves IsSound (on_lock (unlock db json queue)) _ (λ s h. h) (λ _ s h. h) s h
  release-Preserves queue panic = λ s h. h

  lock_queue-Preserves :
      {A : Type 0} (fuel : ℕ) (queue : String) (f : Exec (SledStorage T D) (Error X) A)
      → Preserves IsSound f
      → Preserves IsSound (lock_queue db json fuel queue f)
  unfolding lock_queue generate_id
  lock_queue-Preserves fuel queue f keep =
      >>=-Preserves IsSound (generate_id db json) _ (λ s h. h)
        λ id.
          >>=-Preserves IsSound (on_lock (acquire db json fuel queue id)) _ (λ s h. h)
            λ _ s h. release-Preserves queue (f s).0 (f s).1 (keep s h)

  fetch_ready-Preserves :
      (now : ℕ) (queue : String) → Preserves IsSound (fetch_ready db json now queue)
  unfolding fetch_ready
  fetch_ready-Preserves now queue s h =
      take_out-Preserves (first_ready db json queue now s.jobinfo (iter db json.text s.queue)) s h

  stop_running-Preserves : (runner : Option ℕ) → Preserves IsSound (stop_running db json runner)
  unfolding stop_running
  stop_running-Preserves none = λ s h. h
  stop_running-Preserves (some runner_id) =
      >>=-Preserves IsSound (on_running (del db json.number (runner_key runner_id))) _ (λ s h. h)
        λ _ s h. h

  -- The store keeps its queues under the keys of jobs.
  pub storage-Keeps : (fuel : ℕ) → Keeps (storage db json fuel) IsSound
  unfolding generate_id save_job fetch_job fetch_job_from_queue queue_job run_job delete_job
      update_stats
  storage-Keeps fuel = record {
    generate_id = λ s h. h;
    save_job = λ job.
        >>=-Preserves IsSound (on_jobinfo (set db json.job (job_key job.id) job)) _ (λ s h. h)
          λ _ s h. h;
    fetch_job = λ id s h. h;
    fetch_job_from_queue = λ now queue.
        lock_queue-Preserves fuel queue (fetch_ready db json now queue)
          (fetch_ready-Preserves now queue);
    queue_job = λ queue id.
        >>=-Preserves IsSound (on_running_inverse (del db json.number (job_key id))) _ (λ s h. h)
          λ runner.
            >>=-Preserves IsSound (stop_running db json runner) _ (stop_running-Preserves runner)
              λ _.
                >>=-Preserves IsSound (on_queue (set db json.text (job_key id) queue)) _
                  (set-Preserves id queue) λ _ s h. h;
    run_job = λ id runner_id.
        >>=-Preserves IsSound (on_queue (del db json.text (job_key id))) _ (del-Preserves id) λ _.
          >>=-Preserves IsSound (on_running (set db json.number (runner_key runner_id) id)) _
            (λ s h. h)
            λ _.
              >>=-Preserves IsSound (on_running_inverse (set db json.number (job_key id) runner_id))
                _ (λ s h. h) λ _ s h. h;
    delete_job = λ id.
        >>=-Preserves IsSound (on_jobinfo (del db json.job (job_key id))) _ (λ s h. h)
          λ _.
            >>=-Preserves IsSound (on_queue (del db json.text (job_key id))) _ (del-Preserves id)
              λ _.
                >>=-Preserves IsSound (on_running_inverse (del db json.number (job_key id))) _
                  (λ s h. h) λ runner. stop_running-Preserves runner;
    update_stats = λ clock f.
        >>=-Preserves IsSound
          (on_stats (fetch_and_update db json.stats "stats" (changed db json clock f)))
          (λ _. pure tt) (λ s h. h) λ _ s h. h;
  }
