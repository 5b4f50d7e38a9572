-- ===== src/Storage/Refines.antt =====
-- The provided methods of the trait `Storage` (jobs-core/src/storage.rs) as changes of the abstract
-- store, for every store that obeys the laws.
use backjob.Common.{
  ℕ, ◌+◌, ◌^◌, ◌≤◌, ◌<◌, String, ◌≡◌, refl, sym, ap, subst, ◌∙◌, inl, inr, Bool, true, false,
  Option, none, some, Bool-cases, beq_refl, nat_eq, if◌then◌else◌,
}
use backjob.Outcome.{ok, pure, or_panic, or_panic-eq-ok, >>=-eq-ok, ◌>>=◌}
use backjob.Chrono.{Chrono, Clock, later}
use backjob.Job.{JobResult, success, failure, missing_processor, is_failure, is_missing_processor}
use backjob.JobInfo.{JobInfo, NewJobInfo, ReturnJobInfo, with_id, run, set_pending, needs_retry}
use backjob.Stats
use backjob.Storage.Trait.{
  Storage, new_job, start, hand_out, request_job, requeue, finish, retry_or_fail, put_back,
  return_job,
}
use backjob.Storage.Spec.{
  Spec, Laws, IsKeyed, Fetches, Hands, HandedOut, Retried, PutBack, Returned, admits, issue, put,
  enqueue, forget, tally, requeued,
}

module _ {S E V : Type 0} {store : Storage S E V} {view : S → Spec V} {IsSound : S → Type 0}
    (laws : Laws store view IsSound) (chrono : Chrono) (clock : Clock) where
  -- A new job gets an identifier above all others, and is stored, queued and counted under it.
  pub new_job-Spec :
      (new : NewJobInfo V) (s t : S) (id : ℕ)
      → (view s).next_id + 1 < 2 ^ 64
      → new_job chrono store clock new s ≡ (ok id, t)
      → ((view s).next_id ≤ id)
        × (n : ℕ) × (id < n)
        × (view t
            ≡ tally Stats.new_job
                (later 1 clock)
                (enqueue new.queue id (put (with_id (clock 0) id new) (issue n (view s)))))
  unfolding new_job with_id
  new_job-Spec new s t id room h =
      let (i, s₁, p₁, h₁) = >>=-eq-ok store.generate_id _ s t id h in
      let (x₂, s₂, p₂, h₂) = >>=-eq-ok (store.save_job (with_id (clock 0) i new)) _ s₁ t id h₁ in
      let (x₃, s₃, p₃, h₃) = >>=-eq-ok (store.queue_job new.queue i) _ s₂ t id h₂ in
      let (x₄, s₄, p₄, h₄) =
        >>=-eq-ok (store.update_stats (later 1 clock) Stats.new_job) _ s₃ t id h₃ in
      let e : i ≡ id = cc in
      let et : s₄ ≡ t = cc in
      let (fresh, n, lt, v₁) = laws.generate_id s s₁ i room p₁ in
      let v₂ =
        laws.save_job (with_id (clock 0) i new) s₁ s₂ p₂ ∙ ap (put (with_id (clock 0) i new)) v₁ in
      let v₃ = laws.queue_job new.queue i s₂ s₃ p₃ ∙ ap (enqueue new.queue i) v₂ in
      let v₄ =
        laws.update_stats (later 1 clock) Stats.new_job s₃ s₄ p₄
        ∙ ap (tally Stats.new_job (later 1 clock)) v₃ in
      subst
        (λ k.
          ((view s).next_id ≤ k)
          × (n : ℕ) × (k < n)
          × (view t
              ≡ tally Stats.new_job (later 1 clock)
                  (enqueue new.queue k (put (with_id (clock 0) k new) (issue n (view s))))))
        e (fresh, n, lt, ap view (sym et) ∙ v₄)

  start-Spec :
      (runner_id : ℕ) (started : JobInfo V) (s t : S) (o : Option (JobInfo V))
      → (view s).queued started.id ≡ none
      → start chrono store clock runner_id started s ≡ (ok o, t)
      → (o ≡ some started) × (view t ≡ tally Stats.run_job (later 3 clock) (put started (view s)))
  unfolding start
  start-Spec runner_id started s t o free h =
      let (x₁, s₁, p₁, h₁) = >>=-eq-ok (store.run_job started.id runner_id) _ s t o h in
      let (x₂, s₂, p₂, h₂) = >>=-eq-ok (store.save_job started) _ s₁ t o h₁ in
      let (x₃, s₃, p₃, h₃) =
        >>=-eq-ok (store.update_stats (later 3 clock) Stats.run_job) _ s₂ t o h₂ in
      let e : o ≡ some started = cc in
      let et : t ≡ s₃ = cc in
      let v₁ = laws.run_job started.id runner_id s s₁ free p₁ in
      let v₂ = laws.save_job started s₁ s₂ p₂ ∙ ap (put started) v₁ in
      (
        e,
        rw et (
            laws.update_stats (later 3 clock) Stats.run_job s₂ s₃ p₃
            ∙ ap (tally Stats.run_job (later 3 clock)) v₂),
      )

  requeue-Spec :
      (job : JobInfo V) (id : ℕ) (s t : S)
      → requeue chrono store clock job id s ≡ (ok tt, t)
      → view t ≡ requeued clock id job (view s)
  unfolding requeue
  requeue-Spec job id s t h =
      let (x₁, s₁, p₁, h₁) = >>=-eq-ok (store.queue_job job.queue id) _ s t tt h in
      let (x₂, s₂, p₂, h₂) = >>=-eq-ok (store.save_job job) _ s₁ t tt h₁ in
      let v₂ = laws.save_job job s₁ s₂ p₂ ∙ ap (put job) (laws.queue_job job.queue id s s₁ p₁) in
      laws.update_stats (later 3 clock) Stats.retry_job s₂ t h₂
      ∙ ap (tally Stats.retry_job (later 3 clock)) v₂

  finish-Spec :
      (count : backjob.Stats.Stats → backjob.Stats.Stats) (id : ℕ) (s t : S)
      → finish chrono store clock count id s ≡ (ok tt, t)
      → view t ≡ tally count (later 3 clock) (forget id (view s))
  unfolding finish
  finish-Spec count id s t h =
      let (x₁, s₁, p₁, h₁) = >>=-eq-ok (store.delete_job id) _ s t tt h in
      laws.update_stats (later 3 clock) count s₁ t h₁
      ∙ ap (tally count (later 3 clock)) (laws.delete_job id s s₁ p₁)

  hand_out-Spec :
      (queue : String) (runner_id : ℕ) (r : Spec V) (s t : S) (found o : Option (JobInfo V))
      → Fetches (clock 0) queue found r (view s)
      → hand_out chrono store clock queue runner_id found s ≡ (ok o, t)
      → Hands clock queue o r (view t)
  unfolding hand_out run
  hand_out-Spec queue runner_id r s t none o f h =
      let e : o ≡ none = cc in let et : t ≡ s = cc in rw (e, et) (inl f)
  hand_out-Spec queue runner_id r s t (some job) o f h =
      elim (Bool-cases (admits clock queue job)) [
        | inl yes_ ↦
            let q : start chrono store clock runner_id (run (clock 2) job) s ≡ (ok o, t) =
              rw yes_ at h in
            let free : (view s).queued job.id ≡ none = rw (f.2, beq_refl job.id) in
            let (e, v) = start-Spec runner_id (run (clock 2) job) s t o free q in
            rw e (
              job,
              (f.0, f.1),
              yes_,
              refl,
              v ∙ ap (λ a. tally Stats.run_job (later 3 clock) (put (run (clock 2) job) a)) f.2,
            )
        | inr no_ ↦
            let q : pure {E = E} none s ≡ (ok o, t) = rw no_ at h in
            let e : o ≡ none = cc in
            let et : t ≡ s = cc in rw (e, et) (inr (job, (f.0, f.1), no_, f.2))
      ]

  -- In a sound store that keeps jobs under their identifiers, a request answers nothing and leaves the
  -- store as it was, or loses an unfit job from its queue, or hands out a job that waited in the queue and was fit, now marked as running.
  pub request_job-Spec :
      (queue : String) (runner_id : ℕ) (s t : S) (o : Option (JobInfo V))
      → IsSound s
      → IsKeyed (view s)
      → request_job chrono store clock queue runner_id s ≡ (ok o, t)
      → HandedOut clock queue o (view s) (view t)
  unfolding request_job
  request_job-Spec queue runner_id s t o sound keyed h =
      let (found, s₁, p₁, h₁) =
        >>=-eq-ok (store.fetch_job_from_queue (clock 0) queue)
          (hand_out chrono store clock queue runner_id) s t o h in
      let (n, le, f) = laws.fetch_job_from_queue (clock 0) queue s s₁ found sound keyed p₁ in
      (n, le, hand_out-Spec queue runner_id (issue n (view s)) s₁ t found o f h₁)

  retried_or_failed :
      (id : ℕ) (s t : S) (again : Bool) (counted : JobInfo V)
      → (if again
            then requeue chrono store clock counted id
            else finish chrono store clock (Stats.fail_job chrono (clock 5)) id)
          s
        ≡ (ok tt, t)
      → view t ≡ (
          if again
          then requeued clock id counted (view s)
          else tally (Stats.fail_job chrono (clock 5)) (later 3 clock) (forget id (view s)))
  retried_or_failed id s t true counted h = requeue-Spec counted id s t h
  retried_or_failed id s t false counted h = finish-Spec (Stats.fail_job chrono (clock 5)) id s t h

  retry_or_fail-Spec :
      (id : ℕ) (s t : S) (o : Option (JobInfo V))
      → retry_or_fail chrono store clock id o s ≡ (ok tt, t)
      → Retried chrono clock id o (view s) (view t)
  unfolding retry_or_fail
  retry_or_fail-Spec id s t none h =
      ap view (ap (λ (x : backjob.Outcome.Outcome E (Unit {0}) × S). x.1) (sym h))
  retry_or_fail-Spec id s t (some job) h =
      let (answer, s₁, p₁, h₁) = >>=-eq-ok (or_panic (needs_retry chrono clock job)) _ s t tt h in
      let (p, es) = or_panic-eq-ok {E = E} (needs_retry chrono clock job) s s₁ answer p₁ in
      (answer.0, answer.1, p, retried_or_failed id s t answer.0 answer.1 (rw es at h₁))

  put_back-Spec :
      (id : ℕ) (s t : S) (o : Option (JobInfo V))
      → put_back chrono store clock id o s ≡ (ok tt, t)
      → PutBack chrono clock id o (view s) (view t)
  unfolding put_back
  put_back-Spec id s t none h =
      ap view (ap (λ (x : backjob.Outcome.Outcome E (Unit {0}) × S). x.1) (sym h))
  put_back-Spec id s t (some job) h = requeue-Spec (set_pending (clock 0) job) id s t h

  by_result :
      (id : ℕ) (result : JobResult) (s t : S)
      → return_job chrono store clock (record { id = id; result = result }) s ≡ (ok tt, t)
      → Returned chrono clock id result (view s) (view t)
  unfolding return_job is_failure is_missing_processor
  by_result id success s t h = finish-Spec (Stats.complete_job chrono (clock 5)) id s t h
  by_result id failure s t h =
      let (found, s₁, p₁, h₁) = >>=-eq-ok (store.fetch_job id) _ s t tt h in
      let (e, v) = laws.fetch_job id s s₁ found p₁ in
      subst (λ o. Retried chrono clock id o (view s) (view t)) e
        (subst (λ a. Retried chrono clock id found a (view t)) v
          (retry_or_fail-Spec id s₁ t found h₁))
  by_result id missing_processor s t h =
      let (found, s₁, p₁, h₁) = >>=-eq-ok (store.fetch_job id) _ s t tt h in
      let (e, v) = laws.fetch_job id s s₁ found p₁ in
      subst (λ o. PutBack chrono clock id o (view s) (view t)) e
        (subst (λ a. PutBack chrono clock id found a (view t)) v (put_back-Spec id s₁ t found h₁))

  -- A returned job is done with and forgotten, put back into its queue, or left alone if it is not
  -- stored.
  pub return_job-Spec :
      (returned : ReturnJobInfo) (s t : S)
      → return_job chrono store clock returned s ≡ (ok tt, t)
      → Returned chrono clock returned.id returned.result (view s) (view t)
  return_job-Spec returned s t h = by_result returned.id returned.result s t h
