-- ===== src/Sled/Store.antt =====
-- jobs-sled/src/lib.rs: the store on disk. `lock_queue` spins until the lock is free; the loop runs on
-- fuel, and a call that is out of fuel has not returned, which is what `panic` stands for.
use backjob.Common.{
  ℕ, zero, suc, String, ◌⊎◌, inl, inr, Option, none, some, List, [], ◌∷◌, ◌==◌, string_eq,
  if◌then◌else◌,
}
use backjob.Outcome.{Outcome, ok, err, panic, Exec, pure, ◌>>=◌, ◌>>◌}
use backjob.Chrono.{Clock}
use backjob.JobInfo.{JobInfo, is_ready}
use backjob.Stats
use backjob.Stats.{Stats}
use backjob.Processor.{unwrap_or}
use backjob.Storage.Trait.{Storage}
use backjob.Sled.{Error, Result, Database, Json, sled}
use backjob.Sled.Key.{job_key, runner_key}
use backjob.Sled.Tree.{get, set, del, fetch_and_update, iter}

pub record SledStorage (T D : Type 0) : Type 0 where
  pub jobinfo : T
  pub running : T
  pub running_inverse : T
  pub queue : T
  pub stats : T
  pub lock : T
  pub db : D

-- A result as the outcome of a call.
abbrev pub lift {ℓ} : {E A : Type ℓ} → E ⊎ A → Outcome E A
lift (inl e) = err e
lift (inr a) = ok a

-- `.map(|_| ())`
abbrev pub done {ℓ} : {E A : Type ℓ} → E ⊎ A → Outcome E (Unit {ℓ})
done (inl e) = err e
done (inr a) = ok tt

module _ {T D X : Type 0} where
  abbrev pub on_jobinfo :
      {A : Type 0} → (T → Result (Error X) A × T) → Exec (SledStorage T D) (Error X) A
  on_jobinfo m s = (lift (m s.jobinfo).0, record s { jobinfo = (m s.jobinfo).1 })

  abbrev pub on_running :
      {A : Type 0} → (T → Result (Error X) A × T) → Exec (SledStorage T D) (Error X) A
  on_running m s = (lift (m s.running).0, record s { running = (m s.running).1 })

  abbrev pub on_running_inverse :
      {A : Type 0} → (T → Result (Error X) A × T) → Exec (SledStorage T D) (Error X) A
  on_running_inverse m s =
      (lift (m s.running_inverse).0, record s { running_inverse = (m s.running_inverse).1 })

  abbrev pub on_queue :
      {A : Type 0} → (T → Result (Error X) A × T) → Exec (SledStorage T D) (Error X) A
  on_queue m s = (lift (m s.queue).0, record s { queue = (m s.queue).1 })

  abbrev pub on_stats :
      {A : Type 0} → (T → Result (Error X) A × T) → Exec (SledStorage T D) (Error X) A
  on_stats m s = (lift (m s.stats).0, record s { stats = (m s.stats).1 })

  abbrev pub on_lock :
      {A : Type 0} → (T → Outcome (Error X) A × T) → Exec (SledStorage T D) (Error X) A
  on_lock m s = ((m s.lock).0, record s { lock = (m s.lock).1 })

module _ {T D B X V : Type 0} (sled_db : Database T D B X) (json : Json V B) where
  -- `self.db.generate_id()`, with its error turned into one of the store's.
  unfoldable pub generate_id : Exec (SledStorage T D) (Error X) ℕ
  generate_id s =
      let (r, next) = sled_db.generate_id s.db in
      (elim r [ inl e ↦ err (sled e) | inr id ↦ ok id ], record s { db = next })

  unfoldable pub save_job : JobInfo V → Exec (SledStorage T D) (Error X) (Unit {0})
  unfolding set job_key
  save_job job = do on_jobinfo (set sled_db json.job (job_key job.id) job); pure tt

  unfoldable pub fetch_job : ℕ → Exec (SledStorage T D) (Error X) (Option (JobInfo V))
  unfolding get job_key
  fetch_job id s = (lift (get sled_db json.job (job_key id) s.jobinfo), s)

  -- What the lock's entry becomes: a taken lock stays as it is.
  abbrev pub taken : ℕ → Option ℕ → Option ℕ
  taken id (some holder) = some holder
  taken id none = some id

  -- A round of the `while` loop of `lock_queue`, by what the update answered; `more` is the rest of
  -- the loop.
  abbrev pub spin :
      (T → Outcome (Error X) (Unit {0}) × T)
      → Result (Error X) (Option ℕ) × T
      → Outcome (Error X) (Unit {0}) × T
  spin more (inl e, next) = (err e, next)
  spin more (inr none, next) = (ok tt, next)
  spin more (inr (some _), next) = more next

  -- The loop, on fuel.
  unfoldable pub acquire : ℕ → String → ℕ → T → Outcome (Error X) (Unit {0}) × T
  unfolding fetch_and_update
  acquire zero queue id tree = (panic, tree)
  acquire (suc fuel) queue id tree =
      spin (acquire fuel queue id) (fetch_and_update sled_db json.number queue (taken id) tree)

  -- `lock.fetch_and_update(queue, |_| None)`
  unfoldable pub unlock : String → T → Outcome (Error X) (Unit {0}) × T
  unfolding fetch_and_update
  unlock queue tree =
      let (r, next) = fetch_and_update sled_db json.number queue (λ _. none) tree in (done r, next)

  -- The end of `lock_queue`: the lock is given back also after an error of the closure.
  unfoldable pub release :
      {A : Type 0} → String → Outcome (Error X) A → Exec (SledStorage T D) (Error X) A
  unfolding unlock
  release queue (ok a) = do on_lock (unlock queue); pure a
  release queue (err e) = do on_lock (unlock queue); λ s. (err e, s)
  release queue panic = λ s. (panic, s)

  unfoldable pub lock_queue :
      {A : Type 0}
      → ℕ
      → String
      → Exec (SledStorage T D) (Error X) A
      → Exec (SledStorage T D) (Error X) A
  unfolding generate_id acquire release
  lock_queue fuel queue f = do
    id ← generate_id
    on_lock (acquire fuel queue id)
    λ s. release queue (f s).0 (f s).1

  -- The filters after that on the queue: `get(id).ok()`, the option's value, and `is_ready`.
  abbrev pub pick :
      ℕ → Result (Error X) (Option (JobInfo V)) → Option (JobInfo V) → Option (JobInfo V)
  pick now (inl _) others = others
  pick now (inr none) others = others
  pick now (inr (some job)) others = if is_ready now job then some job else others

  -- The chain of filters over the items of the walk, up to its first job.
  unfoldable pub first_ready :
      String → ℕ → T → List (Result (Error X) (String × String)) → Option (JobInfo V)
  unfolding get
  first_ready queue now jobs [] = none
  first_ready queue now jobs (inl _ ∷ rest) = first_ready queue now jobs rest
  first_ready queue now jobs (inr (id, in_queue) ∷ rest) =
      let others = first_ready queue now jobs rest in
      if queue == in_queue then pick now (get sled_db json.job id jobs) others else others

  unfoldable pub take_out :
      Option (JobInfo V) → Exec (SledStorage T D) (Error X) (Option (JobInfo V))
  unfolding del job_key
  take_out none = pure none
  take_out (some job) = do on_queue (del sled_db json.text (job_key job.id)); pure (some job)

  -- The closure of `fetch_job_from_queue`, which reads `now`.
  unfoldable pub fetch_ready : ℕ → String → Exec (SledStorage T D) (Error X) (Option (JobInfo V))
  unfolding first_ready take_out iter
  fetch_ready now queue s =
      take_out (first_ready queue now s.jobinfo (iter sled_db json.text s.queue)) s

  unfoldable pub fetch_job_from_queue :
      ℕ → ℕ → String → Exec (SledStorage T D) (Error X) (Option (JobInfo V))
  unfolding lock_queue fetch_ready
  fetch_job_from_queue fuel now queue = lock_queue fuel queue (fetch_ready now queue)

  -- The entry of the worker that `running_inverse` named, if any.
  unfoldable pub stop_running : Option ℕ → Exec (SledStorage T D) (Error X) (Unit {0})
  unfolding del runner_key
  stop_running none = pure tt
  stop_running (some runner_id) = do
    on_running (del sled_db json.number (runner_key runner_id))
    pure tt

  unfoldable pub queue_job : String → ℕ → Exec (SledStorage T D) (Error X) (Unit {0})
  unfolding del set job_key stop_running
  queue_job queue id = do
    runner ← on_running_inverse (del sled_db json.number (job_key id))
    stop_running runner
    on_queue (set sled_db json.text (job_key id) queue)
    pure tt

  unfoldable pub run_job : ℕ → ℕ → Exec (SledStorage T D) (Error X) (Unit {0})
  unfolding del set job_key runner_key
  run_job id runner_id = do
    on_queue (del sled_db json.text (job_key id))
    on_running (set sled_db json.number (runner_key runner_id) id)
    on_running_inverse (set sled_db json.number (job_key id) runner_id)
    pure tt

  unfoldable pub delete_job : ℕ → Exec (SledStorage T D) (Error X) (Unit {0})
  unfolding del job_key stop_running
  delete_job id = do
    on_jobinfo (del sled_db json.job (job_key id))
    on_queue (del sled_db json.text (job_key id))
    runner ← on_running_inverse (del sled_db json.number (job_key id))
    stop_running runner

  unfoldable pub get_stats : Clock → SledStorage T D → Outcome (Error X) Stats
  unfolding get
  get_stats clock s = elim (get sled_db json.stats "stats" s.stats) [
    | inl e ↦ err e
    | inr opt ↦ ok (unwrap_or opt (Stats.default clock))
  ]

  -- The closure of `update_stats`.
  abbrev pub changed : Clock → (Stats → Stats) → Option Stats → Option Stats
  changed clock f opt = some (f (unwrap_or opt (Stats.default clock)))

  unfoldable pub update_stats :
      Clock → (Stats → Stats) → Exec (SledStorage T D) (Error X) (Unit {0})
  unfolding fetch_and_update
  update_stats clock f = do
    on_stats (fetch_and_update sled_db json.stats "stats" (changed clock f))
    pure tt

  abbrev pub storage : ℕ → Storage (SledStorage T D) (Error X) V
  storage fuel = record {
    generate_id = generate_id;
    save_job = save_job;
    fetch_job = fetch_job;
    fetch_job_from_queue = fetch_job_from_queue fuel;
    queue_job = queue_job;
    run_job = run_job;
    delete_job = delete_job;
    get_stats = get_stats;
    update_stats = update_stats;
  }
