-- ===== src/Storage/Race.antt =====
-- The retry of `return_job` (jobs-core/src/storage.rs) in one server thread, and a request in another:
-- the thread that retries queues the job first and saves it as pending second. The operations of a store
-- are the steps, and the request runs between these two.
use backjob.Common.{
  ℕ, String, ◌≡◌, ◌≢◌, refl, sym, subst, ap, ◌∙◌, true, false, Bool, Option, none, some, arith,
  ◌==◌, ◌+◌, ◌^◌, ◌<◌, nat_eq, Bool-cases, inl, inr, beq_iff, beq_refl,
}
use backjob.Outcome.{ok, end_of, pure, or_panic, or_panic-eq-ok, >>=-eq-ok, ◌>>◌}
use backjob.Chrono.{Chrono, Clock, later}
use backjob.Job.{running, pending, is_failure, compare, should_requeue}
use backjob.JobInfo.{JobInfo, is_pending, is_ready, fail, needs_retry}
use backjob.JobInfo.Retry.{id-needs_retry}
use backjob.Stats
use backjob.Storage.Trait.{Storage, request_job, return_job, retry_or_fail, requeue}
use backjob.Storage.Spec.{
  Spec, Laws, IsKeyed, HandedOut, Waits, admits, enqueue, dequeue, issue, put, tally,
}
use backjob.Storage.Valid.{IsValid}
use backjob.Storage.Refines.{request_job-Spec}

module _ {V : Type 0} (clock : Clock) (queue : String) (id : ℕ) (old : JobInfo V) (a : Spec V)
    (keyed : IsKeyed a) (stored : a.jobs id ≡ some old) (busy : old.status ≡ running)
    (ready : is_ready (clock 0) old ≡ true) (alone : (k : ℕ) → a.queued k ≢ some queue) where
  -- The job is the only one in the queue after it was queued.
  only :
      (job : JobInfo V) (n : ℕ)
      → Waits queue job (issue n (enqueue queue id a))
      → (job.id ≡ id) × (job ≡ old)
  only job n (kept, waits) = elim (Bool-cases (id == job.id)) [
    | inl hit ↦
        let same : id ≡ job.id = (beq_iff id job.id).0 hit in
        let mine : a.jobs id ≡ some job = subst (λ k. a.jobs k ≡ some job) (sym same) kept in
        (sym same, cc)
    | inr miss ↦ absurd (alone job.id (rw miss at waits))
  ]

  unfit : admits clock queue old ≡ false
  unfolding is_pending
  unfit = ground (arith, busy)

  -- The request answers nothing, and takes the job out of the queue.
  dropped :
      (o : Option (JobInfo V)) (b : Spec V)
      → HandedOut clock queue o (enqueue queue id a) b
      → (n : ℕ) × (o ≡ none) × (b ≡ dequeue id (issue n (enqueue queue id a)))
  dropped none b (n, le, inl (same, nobody)) =
      let here : (enqueue queue id a).queued id ≡ some queue = rw (beq_refl id) refl in
      let early = nobody id old here stored in absurd (cc)
  dropped none b (n, le, inr (job, w, t, e)) =
      let (own, _) = only job n w in
      (n, refl, e ∙ ap (λ k. dequeue k (issue n (enqueue queue id a))) own)
  dropped (some started) b (n, le, (job, w, t, r, e)) =
      let (_, same) = only job n w in
      let fit : admits clock queue old ≡ true = subst (λ j. admits clock queue j ≡ true) same t in
      let no_ = unfit in absurd (cc)

module _ {S E V : Type 0} {store : Storage S E V} {view : S → Spec V} {IsSound : S → Type 0}
    (laws : Laws store view IsSound) (chrono : Chrono) (clock : Clock) where
  -- A request between the two steps of a retry.
  saved_late :
      (late : Clock) (queue : String) (runner_id id : ℕ) (old counted : JobInfo V)
      (s s₁ s₂ s₃ t : S) (o : Option (JobInfo V))
      → IsSound s
      → IsValid (view s)
      → (view s).jobs id ≡ some old
      → old.status ≡ running
      → is_ready (clock 0) old ≡ true
      → ((k : ℕ) → (view s).queued k ≢ some queue)
      → counted.id ≡ id
      → store.queue_job queue id s ≡ (ok tt, s₁)
      → request_job chrono store clock queue runner_id s₁ ≡ (ok o, s₂)
      → store.save_job counted s₂ ≡ (ok tt, s₃)
      → store.update_stats late Stats.retry_job s₃ ≡ (ok tt, t)
      → (o ≡ none) × ((view t).jobs id ≡ some counted) × ((view t).queued id ≡ none)
  saved_late late queue runner_id id old counted s s₁ s₂ s₃ t o sound v stored busy ready alone same
        p₁ p₂ p₃ p₄ =
      let e₁ : view s₁ ≡ enqueue queue id (view s) = laws.queue_job queue id s s₁ p₁ in
      let sound₁ : IsSound s₁ = subst IsSound (end_of p₁) (laws.keeps.queue_job queue id s sound) in
      let keyed₁ : IsKeyed (view s₁) = subst IsKeyed (sym e₁) v.keyed in
      let out : HandedOut clock queue o (enqueue queue id (view s)) (view s₂) =
        subst (λ a. HandedOut clock queue o a (view s₂)) e₁
          (request_job-Spec laws chrono clock queue runner_id s₁ s₂ o sound₁ keyed₁ p₂) in
      let (n, none_, e₂) =
        dropped clock queue id old (view s) v.keyed stored busy ready alone o (view s₂) out in
      let e₄ : view t
          ≡ tally Stats.retry_job late
              (put counted (dequeue id (issue n (enqueue queue id (view s))))) =
        laws.update_stats late Stats.retry_job s₃ t p₄
        ∙ ap (tally Stats.retry_job late) (laws.save_job counted s₂ s₃ p₃ ∙ ap (put counted) e₂) in
      (
        none_,
        ap (λ (a : Spec V). a.jobs id) e₄ ∙ rw ((beq_iff counted.id id).1 same) refl,
        ap (λ (a : Spec V). a.queued id) e₄ ∙ rw (beq_refl id) refl,
      )

-- What a failure whose limit allows one more retry is answered.
granted :
    {V : Type 0} (chrono : Chrono) (clock : Clock) (old j : JobInfo V) (again : Bool)
    → old.retry_count + 1 < 2 ^ 32
    → should_requeue (compare old.max_retries (old.retry_count + 1)) ≡ true
    → needs_retry chrono clock old ≡ some (again, j)
    → (again ≡ true) × (j.status ≡ pending) × (j.retry_count ≡ old.retry_count + 1)
unfolding needs_retry
granted chrono clock old j again fits more answer = (ground arith, ground arith, ground arith)

module _ {S E V : Type 0} (chrono : Chrono) (store : Storage S E V) where
  -- The store as a thread meets it if another thread requests a job of `queue` right after each job that
  -- this one queues.
  abbrev pub interrupted : Clock → String → ℕ → Storage S E V
  interrupted clock queue runner_id = record store {
    queue_job = λ own id. do
      store.queue_job own id
      request_job chrono store clock queue runner_id
      pure tt;
  }

module _ {S E V : Type 0} {store : Storage S E V} {view : S → Spec V} {IsSound : S → Type 0}
    (laws : Laws store view IsSound) (chrono : Chrono) (clock other : Clock) where
  -- A retry that another thread interrupts.
  requeued_late :
      (runner_id id : ℕ) (old counted : JobInfo V) (s u : S)
      → IsSound s
      → IsValid (view s)
      → (view s).jobs id ≡ some old
      → old.status ≡ running
      → is_ready (other 0) old ≡ true
      → ((k : ℕ) → (view s).queued k ≢ some old.queue)
      → counted.id ≡ id
      → counted.queue ≡ old.queue
      → requeue chrono (interrupted chrono store other old.queue runner_id) clock counted id s
        ≡ (ok tt, u)
      → ((view u).jobs id ≡ some counted) × ((view u).queued id ≡ none)
  unfolding requeue
  requeued_late runner_id id old counted s u sound v stored busy ready alone own same_queue h =
      let met = interrupted chrono store other old.queue runner_id in
      let (_, s₂, p₂, q₃) = >>=-eq-ok (met.queue_job counted.queue id) _ s u tt h in
      let (_, s₁, p₁, r₁) = >>=-eq-ok (store.queue_job counted.queue id) _ s s₂ tt p₂ in
      let (o, x, asked, r₂) =
        >>=-eq-ok (request_job chrono store other old.queue runner_id) _ s₁ s₂ tt r₁ in
      let (_, s₃, p₃, p₄) = >>=-eq-ok (store.save_job counted) _ s₂ u tt q₃ in
      let (_, is_saved, gone) =
        saved_late laws chrono other (later 3 clock) old.queue runner_id id old counted s s₁ x s₃ u
          o sound v stored busy ready alone own
          (subst (λ q. store.queue_job q id s ≡ (ok tt, s₁)) same_queue p₁) asked
          (subst (λ z. store.save_job counted z ≡ (ok tt, s₃)) (sym (end_of r₂)) p₃) p₄ in
      (is_saved, gone)

  -- On any store that obeys the laws, from a sound, valid state: if a running job, which is stored and
  -- in whose queue nothing waits, fails, its limit allows one more retry, no count wraps, and a request
  -- for a job of its queue comes in another thread right after the return queued it, at a time at
  -- which it is ready, and all these calls succeed, then the job is stored as pending with one more
  -- failure, and waits in no queue.
  pub retry_race :
      (runner_id id : ℕ) (old : JobInfo V) (s u : S)
      → IsSound s
      → IsValid (view s)
      → (view s).jobs id ≡ some old
      → old.status ≡ running
      → is_ready (other 0) old ≡ true
      → ((k : ℕ) → (view s).queued k ≢ some old.queue)
      → old.retry_count + 1 < 2 ^ 32
      → should_requeue (compare old.max_retries (old.retry_count + 1)) ≡ true
      → return_job chrono (interrupted chrono store other old.queue runner_id) clock (fail id) s
        ≡ (ok tt, u)
      → (j : JobInfo V) × ((view u).jobs id ≡ some j)
        × (j.status ≡ pending)
        × (j.retry_count ≡ old.retry_count + 1)
        × ((view u).queued id ≡ none)
  unfolding return_job retry_or_fail is_failure
  retry_race runner_id id old s u sound v stored busy ready alone fits more h =
      let met = interrupted chrono store other old.queue runner_id in
      let (found, s₀, p₀, q₀) = >>=-eq-ok (store.fetch_job id) _ s u tt h in
      let (is_old, same) = laws.fetch_job id s s₀ found p₀ in
      let q : retry_or_fail chrono met clock id (some old) s₀ ≡ (ok tt, u) =
        subst (λ o. retry_or_fail chrono met clock id o s₀ ≡ (ok tt, u)) (is_old ∙ stored) q₀ in
      let (answer, w, p, q₁) = >>=-eq-ok (or_panic (needs_retry chrono clock old)) _ s₀ u tt q in
      let (known, kept) = or_panic-eq-ok {E = E} (needs_retry chrono clock old) s₀ w answer p in
      let (goes_on, waits_, once) = granted chrono clock old answer.1 answer.0 fits more known in
      let (own, same_queue) = id-needs_retry chrono clock old answer.0 answer.1 known in
      let q₂ : requeue chrono met clock answer.1 id w ≡ (ok tt, u) = rw goes_on at q₁ in
      let unchanged : view w ≡ view s = ap view kept ∙ same in
      let (is_saved, gone) =
        requeued_late runner_id id old answer.1 w u
          (subst IsSound (end_of p₀ ∙ sym kept) (laws.keeps.fetch_job id s sound))
          (subst IsValid (sym unchanged) v) (ap (λ (a : Spec V). a.jobs id) unchanged ∙ stored) busy
          ready
          (subst (λ (a : Spec V). (k : ℕ) → a.queued k ≢ some old.queue) (sym unchanged) alone)
          (own ∙ v.keyed id old stored) same_queue q₂ in
      (answer.1, is_saved, waits_, once, gone)
