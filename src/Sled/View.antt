-- ===== src/Sled/View.antt =====
-- jobs-sled/src/lib.rs: what can be seen of the store on disk, and how the operations that write
-- change it.
use backjob.Common.{
  ℕ, String, ◌≡◌, refl, sym, subst, ap, fun_ext, ◌∙◌, Option, none, some, ◌==◌, nat_eq, string_eq,
  if◌then◌else◌, inl, inr, Bool-cases, beq_iff,
}
use backjob.Outcome.{ok, end_of, >>=-eq-ok, pure}
use backjob.Chrono.{Clock}
use backjob.JobInfo.{JobInfo}
use backjob.Stats
use backjob.Stats.{Stats}
use backjob.Processor.{unwrap_or}
use backjob.Storage.Spec.{Spec, put, enqueue, forget, tally}
use backjob.Sled.{Database, Json}
use backjob.Sled.Key.{job_key, runner_key, job_key_eq}
use backjob.Sled.Tree.{set, del, fetch_and_update}
use backjob.Sled.Lawful.{IsDatabase, IsJson, read, read-set, read-del, read-fetch_and_update}
use backjob.Sled.Fetch.{lift-eq-ok}
use backjob.Sled.Store.{
  SledStorage, on_jobinfo, on_running, on_running_inverse, on_queue, on_stats, save_job,
  stop_running, queue_job, run_job, delete_job, update_stats, changed,
}

module _ {T D B X V : Type 0} (db : Database T D B X) (content : T → String → Option B)
    (bound : D → ℕ) (laws : IsDatabase db content bound) (json : Json V B)
    (reads : IsJson json) where
  abbrev pub job_at : T → ℕ → Option (JobInfo V)
  job_at t k = read db content bound laws json.job t (job_key k)

  abbrev pub queue_at : T → ℕ → Option String
  queue_at t k = read db content bound laws json.text t (job_key k)

  -- What can be seen of the store. Statistics that were never written are those that the clock
  -- begins with.
  abbrev pub view : SledStorage T D → Spec V
  view s = record {
    jobs = job_at s.jobinfo;
    queued = queue_at s.queue;
    next_id = bound s.db;
    stats = λ clock.
        unwrap_or (read db content bound laws json.stats s.stats "stats") (Stats.default clock);
  }

  by_id :
      {A : Type 0} (id k : ℕ) (a b : A)
      → (if job_key id == job_key k then a else b) ≡ (if id == k then a else b)
  by_id id k a b = ap (λ t. if t then a else b) (job_key_eq id k)

  -- A change of one tree that succeeds.
  jobs_set :
      (job : JobInfo V) (t u : T) (o : Option (JobInfo V))
      → set db json.job (job_key job.id) job t ≡ (inr o, u)
      → job_at u ≡ (λ k. if job.id == k then some job else job_at t k)
  jobs_set job t u o h = fun_ext λ k.
      read-set db content bound laws json.job (job_key job.id) job t u o reads.job h (job_key k)
      ∙ by_id job.id k (some job) (job_at t k)

  jobs_del :
      (id : ℕ) (t u : T) (o : Option (JobInfo V))
      → del db json.job (job_key id) t ≡ (inr o, u)
      → job_at u ≡ (λ k. if id == k then none else job_at t k)
  jobs_del id t u o h = fun_ext λ k.
      (read-del db content bound laws json.job (job_key id) t u o h).1 (job_key k)
      ∙ by_id id k none (job_at t k)

  queue_set :
      (queue : String) (id : ℕ) (t u : T) (o : Option String)
      → set db json.text (job_key id) queue t ≡ (inr o, u)
      → queue_at u ≡ (λ k. if id == k then some queue else queue_at t k)
  queue_set queue id t u o h = fun_ext λ k.
      read-set db content bound laws json.text (job_key id) queue t u o reads.text h (job_key k)
      ∙ by_id id k (some queue) (queue_at t k)

  pub queue_del :
      (id : ℕ) (t u : T) (o : Option String)
      → del db json.text (job_key id) t ≡ (inr o, u)
      → queue_at u ≡ (λ k. if id == k then none else queue_at t k)
  queue_del id t u o h = fun_ext λ k.
      (read-del db content bound laws json.text (job_key id) t u o h).1 (job_key k)
      ∙ by_id id k none (queue_at t k)

  -- The trees that note which worker runs a job are not seen.
  stop_running-view :
      (runner : Option ℕ) (s t : SledStorage T D)
      → stop_running db json runner s ≡ (ok tt, t)
      → view t ≡ view s
  unfolding stop_running
  stop_running-view none s t h = ap view (sym (end_of h))
  stop_running-view (some runner_id) s t h =
      let (o, u, p, q) =
        >>=-eq-ok (on_running (del db json.number (runner_key runner_id))) (λ _. pure tt) s t tt
          h in
      ap view (sym (end_of p ∙ end_of q))

  pub save_job-view :
      (job : JobInfo V) (s t : SledStorage T D)
      → save_job db json job s ≡ (ok tt, t)
      → view t ≡ put job (view s)
  unfolding save_job
  save_job-view job s t h =
      let m = set db json.job (job_key job.id) job in
      let (o, u, p, q) = >>=-eq-ok (on_jobinfo m) (λ _. pure tt) s t tt h in
      let (r, e) = lift-eq-ok (m s.jobinfo).0 o (record s { jobinfo = (m s.jobinfo).1 }) u p in
      ap view (sym (e ∙ end_of q))
      ∙ ap (λ f. record (view s) { jobs = f })
          (jobs_set job s.jobinfo (m s.jobinfo).1 o (λ i. (r i, (m s.jobinfo).1)))

  pub queue_job-view :
      (queue : String) (id : ℕ) (s t : SledStorage T D)
      → queue_job db json queue id s ≡ (ok tt, t)
      → view t ≡ enqueue queue id (view s)
  unfolding queue_job
  queue_job-view queue id s t h =
      let m = set db json.text (job_key id) queue in
      let (runner, s₁, p₁, h₁) =
        >>=-eq-ok (on_running_inverse (del db json.number (job_key id))) _ s t tt h in
      let (_, s₂, p₂, h₂) = >>=-eq-ok (stop_running db json runner) _ s₁ t tt h₁ in
      let (o, s₃, p₃, h₃) = >>=-eq-ok (on_queue m) (λ _. pure tt) s₂ t tt h₂ in
      let (r, e) = lift-eq-ok (m s₂.queue).0 o (record s₂ { queue = (m s₂.queue).1 }) s₃ p₃ in
      let same : view s₂ ≡ view s = stop_running-view runner s₁ s₂ p₂ ∙ ap view (sym (end_of p₁)) in
      ap view (sym (e ∙ end_of h₃))
      ∙ ap (λ f. record (view s₂) { queued = f })
          (queue_set queue id s₂.queue (m s₂.queue).1 o (λ i. (r i, (m s₂.queue).1)))
      ∙ ap (enqueue queue id) same

  pub run_job-view :
      (id runner_id : ℕ) (s t : SledStorage T D)
      → (view s).queued id ≡ none
      → run_job db json id runner_id s ≡ (ok tt, t)
      → view t ≡ view s
  unfolding run_job
  run_job-view id runner_id s t free h =
      let m = del db json.text (job_key id) in
      let (o, s₁, p₁, h₁) = >>=-eq-ok (on_queue m) _ s t tt h in
      let (_, s₂, p₂, h₂) =
        >>=-eq-ok (on_running (set db json.number (runner_key runner_id) id)) _ s₁ t tt h₁ in
      let (_, s₃, p₃, h₃) =
        >>=-eq-ok (on_running_inverse (set db json.number (job_key id) runner_id)) (λ _. pure tt) s₂
          t tt h₂ in
      let (r, e) = lift-eq-ok (m s.queue).0 o (record s { queue = (m s.queue).1 }) s₁ p₁ in
      let gone = queue_del id s.queue (m s.queue).1 o (λ i. (r i, (m s.queue).1)) in
      let nothing : (λ k. if id == k then none else queue_at s.queue k) ≡ queue_at s.queue =
        fun_ext λ k. elim (Bool-cases (id == k)) [
          | inl hit ↦
              let mine : queue_at s.queue k ≡ none =
                subst (λ i. queue_at s.queue i ≡ none) ((beq_iff id k).0 hit) free in
              rw (hit, mine) refl
          | inr miss ↦ rw miss refl
        ] in
      ap view (sym (end_of p₃ ∙ end_of h₃))
      ∙ ap view (sym (end_of p₂))
      ∙ ap view (sym e)
      ∙ ap (λ f. record (view s) { queued = f }) (gone ∙ nothing)

  pub delete_job-view :
      (id : ℕ) (s t : SledStorage T D)
      → delete_job db json id s ≡ (ok tt, t)
      → view t ≡ forget id (view s)
  unfolding delete_job
  delete_job-view id s t h =
      let m = del db json.job (job_key id) in
      let n = del db json.text (job_key id) in
      let (o, s₁, p₁, h₁) = >>=-eq-ok (on_jobinfo m) _ s t tt h in
      let (o', s₂, p₂, h₂) = >>=-eq-ok (on_queue n) _ s₁ t tt h₁ in
      let (runner, s₃, p₃, h₃) =
        >>=-eq-ok (on_running_inverse (del db json.number (job_key id))) _ s₂ t tt h₂ in
      let (r, e) = lift-eq-ok (m s.jobinfo).0 o (record s { jobinfo = (m s.jobinfo).1 }) s₁ p₁ in
      let (r', e') = lift-eq-ok (n s₁.queue).0 o' (record s₁ { queue = (n s₁.queue).1 }) s₂ p₂ in
      stop_running-view runner s₃ t h₃
      ∙ ap view (sym (end_of p₃))
      ∙ ap view (sym e')
      ∙ ap (λ f. record (view s₁) { queued = f })
          (queue_del id s₁.queue (n s₁.queue).1 o' (λ i. (r' i, (n s₁.queue).1)))
      ∙ ap (λ v. record (view v) { queued = λ k. if id == k then none else queue_at v.queue k })
          (sym e)
      ∙ ap (λ f. record (forget id (view s)) { jobs = f })
          (jobs_del id s.jobinfo (m s.jobinfo).1 o (λ i. (r i, (m s.jobinfo).1)))

  pub update_stats-view :
      (clock : Clock) (f : Stats → Stats) (s t : SledStorage T D)
      → update_stats db json clock f s ≡ (ok tt, t)
      → view t ≡ tally f clock (view s)
  unfolding update_stats
  update_stats-view clock f s t h =
      let m = fetch_and_update db json.stats "stats" (changed db json clock f) in
      let now = f ((view s).stats clock) in
      let (b, w) = reads.stats_writes now in
      let (o, u, p, q) = >>=-eq-ok (on_stats m) (λ _. pure tt) s t tt h in
      let (r, e) = lift-eq-ok (m s.stats).0 o (record s { stats = (m s.stats).1 }) u p in
      let (_, written) =
        read-fetch_and_update db content bound laws json.stats "stats" (changed db json clock f)
          s.stats (m s.stats).1 o now b reads.stats refl w (λ i. (r i, (m s.stats).1)) in
      ap view (sym (e ∙ end_of q))
      ∙ ap (λ x. record (view s) { stats = λ c. unwrap_or x (Stats.default c) }) written
