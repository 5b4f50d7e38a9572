-- ===== src/Storage/Ready.antt =====
-- The trait `Storage` (jobs-core/src/storage.rs) asks of `fetch_job_from_queue` that it answers with a
-- job that is ready: what a request does on a store that keeps this.
use backjob.Common.{
  ℕ, ◌≤◌, String, ◌≡◌, refl, sym, subst, ap, ◌∙◌, true, false, Option, none, some, arith, ◌==◌,
  string_eq, beq_iff,
}
use backjob.Outcome.{ok, end_of, >>=-eq-ok}
use backjob.Chrono.{Chrono, Clock, later}
use backjob.Job.{pending}
use backjob.JobInfo.{JobInfo, run, is_pending, is_ready, is_in_queue}
use backjob.Stats
use backjob.Storage.Trait.{Storage, request_job, hand_out, start}
use backjob.Storage.Spec.{Spec, Laws, Fetches, admits, issue}
use backjob.Storage.Valid.{IsValid, issue-IsValid}

-- A fetched job is ready at the reading of the fetch.
abbrev pub FetchesReady : {S E V : Type 0} → Storage S E V → Type 0
FetchesReady {S} {E} {V} store =
    (now : ℕ) (queue : String) (job : JobInfo V) (s t : S)
    → store.fetch_job_from_queue now queue s ≡ (ok (some job), t)
    → is_ready now job ≡ true

-- A job that is ready stays ready.
is_ready_later :
    {V : Type 0} (job : JobInfo V) (t u : ℕ) → t ≤ u → is_ready t job ≡ true → is_ready u job ≡ true
unfolding is_ready
is_ready_later job t u le h = ground arith

module _ {S E V : Type 0} {store : Storage S E V} {view : S → Spec V} {IsSound : S → Type 0}
    (laws : Laws store view IsSound) (chrono : Chrono) (clock : Clock) where
  start-ne-none :
      (runner_id : ℕ) (started : JobInfo V) (s t : S)
      → start chrono store clock runner_id started s ≡ (ok none, t)
      → ⊥
  unfolding start
  start-ne-none runner_id started s t h =
      let (_, s₁, p₁, h₁) = >>=-eq-ok (store.run_job started.id runner_id) _ s t none h in
      let (_, s₂, p₂, h₂) = >>=-eq-ok (store.save_job started) _ s₁ t none h₁ in
      let (_, s₃, p₃, h₃) =
        >>=-eq-ok (store.update_stats (later 3 clock) Stats.run_job) _ s₂ t none h₂ in
      cc

  -- A waiting job that is ready passes the test of the method.
  admitted :
      (queue : String) (job : JobInfo V) (a : Spec V)
      → IsValid a
      → a.jobs job.id ≡ some job
      → a.queued job.id ≡ some queue
      → is_ready (clock 1) job ≡ true
      → admits clock queue job ≡ true
  unfolding is_pending is_in_queue
  admitted queue job a v stored queued ready =
      let (j, p, q, r) = v.waiting job.id queue queued in
      let same : j ≡ job = cc in
      let mine : (job.queue == queue) ≡ true =
        (beq_iff job.queue queue).1 (subst (λ (i : JobInfo V). i.queue ≡ queue) same r) in
      let idle = subst (λ (i : JobInfo V). i.status ≡ pending) same q in
      ground (arith, mine, idle, ready)

  unfit_or_none :
      (queue : String) (runner_id : ℕ) (a : Spec V) (s t : S) (found : Option (JobInfo V))
      → IsValid a
      → Fetches (clock 0) queue found a (view s)
      → ((job : JobInfo V) → found ≡ some job → is_ready (clock 1) job ≡ true)
      → hand_out chrono store clock queue runner_id found s ≡ (ok none, t)
      → view t ≡ a
  unfolding hand_out
  unfit_or_none queue runner_id a s t none v f ready h = ap view (sym (end_of h)) ∙ f.0
  unfit_or_none queue runner_id a s t (some job) v f ready h =
      let fit : admits clock queue job ≡ true =
        admitted queue job a v (f.0) (f.1) (ready job refl) in
      absurd (start-ne-none runner_id (run (clock 2) job) s t (rw fit at h))

  -- On a store that obeys the laws and fetches ready jobs only, a request that answers nothing leaves
  -- all jobs and queues as they were, if the store is sound and valid and time does not go back.
  pub request_job-none :
      (queue : String) (runner_id : ℕ) (s t : S)
      → FetchesReady store
      → IsSound s
      → IsValid (view s)
      → clock 0 ≤ clock 1
      → request_job chrono store clock queue runner_id s ≡ (ok none, t)
      → (n : ℕ) × (view t ≡ issue n (view s))
  unfolding request_job
  request_job-none queue runner_id s t ready sound v le h =
      let (found, s₁, p₁, h₁) =
        >>=-eq-ok (store.fetch_job_from_queue (clock 0) queue)
          (hand_out chrono store clock queue runner_id) s t none h in
      let (n, more, f) = laws.fetch_job_from_queue (clock 0) queue s s₁ found sound v.keyed p₁ in
      (
        n,
        unfit_or_none queue runner_id (issue n (view s)) s₁ t found
            (issue-IsValid (view s) v n more) f
            (λ job e. is_ready_later job (clock 0) (clock 1) le (
              ready (clock 0) queue job s s₁
                (subst (λ o. store.fetch_job_from_queue (clock 0) queue s ≡ (ok o, s₁)) e p₁)))
            h₁,
      )

  nobody_ready :
      (queue : String) (runner_id : ℕ) (a : Spec V) (s t : S) (found : Option (JobInfo V))
      → IsValid a
      → Fetches (clock 0) queue found a (view s)
      → ((job : JobInfo V) → found ≡ some job → is_ready (clock 1) job ≡ true)
      → hand_out chrono store clock queue runner_id found s ≡ (ok none, t)
      → (k : ℕ) (j : JobInfo V) → a.queued k ≡ some queue
      → a.jobs k ≡ some j
      → is_ready (clock 0) j ≡ false
  unfolding hand_out
  nobody_ready queue runner_id a s t none v f ready h = f.1
  nobody_ready queue runner_id a s t (some job) v f ready h =
      let fit : admits clock queue job ≡ true =
        admitted queue job a v (f.0) (f.1) (ready job refl) in
      absurd (start-ne-none runner_id (run (clock 2) job) s t (rw fit at h))

  -- On a store that obeys the laws and fetches ready jobs only, a request that answers nothing met no
  -- job of its queue that was ready, if the store is sound and valid and time does not go back.
  pub request_job-none_ready :
      (queue : String) (runner_id : ℕ) (s t : S)
      → FetchesReady store
      → IsSound s
      → IsValid (view s)
      → clock 0 ≤ clock 1
      → request_job chrono store clock queue runner_id s ≡ (ok none, t)
      → (k : ℕ) (j : JobInfo V) → (view s).queued k ≡ some queue
      → (view s).jobs k ≡ some j
      → is_ready (clock 0) j ≡ false
  unfolding request_job
  request_job-none_ready queue runner_id s t ready sound v le h =
      let (found, s₁, p₁, h₁) =
        >>=-eq-ok (store.fetch_job_from_queue (clock 0) queue)
          (hand_out chrono store clock queue runner_id) s t none h in
      let (n, more, f) = laws.fetch_job_from_queue (clock 0) queue s s₁ found sound v.keyed p₁ in
      nobody_ready queue runner_id (issue n (view s)) s₁ t found (issue-IsValid (view s) v n more) f
        (λ job e. is_ready_later job (clock 0) (clock 1) le (
          ready (clock 0) queue job s s₁
            (subst (λ o. store.fetch_job_from_queue (clock 0) queue s ≡ (ok o, s₁)) e p₁)))
        h₁
