-- ===== src/Memory/Requests.antt =====
-- jobs-core/src/storage.rs, `memory_storage` under the methods of the trait: which calls succeed,
-- and what a request finds.
use backjob.Common.{
  ℕ, String, ◌≡◌, ◌≢◌, refl, sym, subst, ap, ◌∙◌, true, false, Option, none, some, List, [], ◌∷◌,
  All, Bool-cases, arith, Option-cases, beq_iff, beq_refl, inl, inr, ◌==◌, nat_eq, string_eq,
}
use mathlib.Core.List.{Memᴰ}
use backjob.Common.HashMap.{HashMap, Iteration, get-empty}
use backjob.Outcome.{ok, end_of}
use backjob.Chrono.{Chrono, Clock}
use backjob.Job.{pending}
use backjob.JobInfo.{JobInfo, run, is_pending, is_ready, is_in_queue}
use backjob.Storage.Trait.{request_job, hand_out, start}
use backjob.Storage.Spec.{Spec, admits, dequeue}
use backjob.Storage.Valid.{IsValid, dequeue-IsValid}
use backjob.Storage.Delivery.{Event, NotReturned, NotHanded}
use backjob.Storage.Calls.{Calls, away-NotHanded}
use backjob.Memory.{
  Inner, new, save_job, first_match, drop_from_queue, fetch_job_from_queue, run_job, update_stats,
  storage,
}
use backjob.Memory.View.{view, view-dequeue, storage-Laws, first_match-some, first_match-none}

-- A new store is valid.
pub new-IsValid : {V : Type 0} (clock : Clock) → IsValid (view (new {V = V} clock))
unfolding new
new-IsValid {V} clock = record {
  keyed = λ k j h. let e = get-empty {V = JobInfo V} k in absurd (cc);
  known = λ k j h. let e = get-empty {V = JobInfo V} k in absurd (cc);
  waiting = λ k queue h. let e = get-empty {V = String} k in absurd (cc);
}

module _ {V : Type 0} (order : Iteration ℕ String) (chrono : Chrono) (clock : Clock) where
  -- If a job waits in the queue, the walk finds one that does.
  found :
      (queue : String) (s : Inner V) (k : ℕ)
      → IsValid (view s)
      → (view s).queued k ≡ some queue
      → (job : JobInfo V) × (first_match queue s.jobs (order.iter s.queues) ≡ some job)
        × ((view s).jobs job.id ≡ some job)
        × ((view s).queued job.id ≡ some queue)
  found queue s k v queued =
      let (j, stored, _, _) = v.waiting k queue queued in
      elim (Option-cases (first_match queue s.jobs (order.iter s.queues))) [
        | inl e ↦
            let gone =
              first_match-none queue s.jobs (order.iter s.queues) k e
                (order.complete k queue s.queues queued) in
            absurd (cc)
        | inr (job, e) ↦
            let (i, m, at_i) = first_match-some queue s.jobs (order.iter s.queues) job e in
            let same : i ≡ job.id = sym (v.keyed i job at_i) in
            (
              job,
              e,
              subst (λ n. (view s).jobs n ≡ some job) same at_i,
              subst (λ n. (view s).queued n ≡ some queue) same (order.sound i queue s.queues m),
            )
      ]

  -- A waiting job passes the test of the method if it is ready.
  admits-is_ready :
      (queue : String) (s : Inner V) (job : JobInfo V)
      → IsValid (view s)
      → (view s).jobs job.id ≡ some job
      → (view s).queued job.id ≡ some queue
      → admits clock queue job ≡ is_ready (clock 1) job
  unfolding is_pending is_in_queue
  admits-is_ready queue s job v stored queued =
      let (j, p, q, r) = v.waiting job.id queue queued in
      let same : j ≡ job = cc in
      let mine : (job.queue == queue) ≡ true =
        (beq_iff job.queue queue).1 (subst (λ (i : JobInfo V). i.queue ≡ queue) same r) in
      let idle = subst (λ (i : JobInfo V). i.status ≡ pending) same q in ground (arith, mine, idle)

  request_found :
      (queue : String) (runner_id : ℕ) (s : Inner V) (job : JobInfo V)
      → first_match queue s.jobs (order.iter s.queues) ≡ some job
      → request_job chrono (storage order) clock queue runner_id s
        ≡ hand_out chrono
            (storage order)
            clock
            queue
            runner_id
            (some job)
            (drop_from_queue (some job) s)
  unfolding request_job fetch_job_from_queue
  request_found queue runner_id s job e =
      ap (λ m. hand_out chrono (storage order) clock queue runner_id m (drop_from_queue m s)) e

  nothing_matches :
      (queue : String) (jobs : HashMap ℕ (JobInfo V)) (l : List (ℕ × String))
      → ((k : ℕ) (q : String) → Memᴰ (k, q) l → q ≢ queue)
      → first_match queue jobs l ≡ none
  unfolding first_match
  nothing_matches queue jobs [] others = refl
  nothing_matches queue jobs ((k, q) ∷ l) others = elim (Bool-cases (q == queue)) [
    | inl hit ↦ absurd (others k q (Memᴰ.head refl) ((beq_iff q queue).0 hit))
    | inr miss ↦ rw miss (nothing_matches queue jobs l (λ i r m. others i r (Memᴰ.tail m)))
  ]

  -- A request for a queue in which nothing waits answers nothing and leaves the store.
  pub request_job-idle :
      (queue : String) (runner_id : ℕ) (s : Inner V)
      → ((k : ℕ) → (view s).queued k ≢ some queue)
      → request_job chrono (storage order) clock queue runner_id s ≡ (ok none, s)
  unfolding request_job fetch_job_from_queue hand_out drop_from_queue
  request_job-idle queue runner_id s idle =
      let e =
        nothing_matches queue s.jobs (order.iter s.queues)
          (λ k q m h. idle k (order.sound k q s.queues m ∙ ap some h)) in
      ap (λ m. hand_out chrono (storage order) clock queue runner_id m (drop_from_queue m s)) e

  -- In a valid store, if every job that waits in the queue is ready, and one waits, a request
  -- finds a job that waited there.
  pub request_job-finds :
      (queue : String) (runner_id k : ℕ) (s : Inner V)
      → IsValid (view s)
      → (view s).queued k ≡ some queue
      → ((i : ℕ) (j : JobInfo V)
          → (view s).queued i ≡ some queue
          → (view s).jobs i ≡ some j
          → is_ready (clock 1) j ≡ true)
      → (job : JobInfo V) × (t : Inner V) × ((view s).queued job.id ≡ some queue)
        × (request_job chrono (storage order) clock queue runner_id s ≡ (ok (some job), t))
  unfolding hand_out start run run_job save_job update_stats
  request_job-finds queue runner_id k s v queued ready =
      let (job, e, stored, waits) = found queue s k v queued in
      let fit : admits clock queue job ≡ true =
        admits-is_ready queue s job v stored waits ∙ ready job.id job waits stored in
      (
        run (clock 2) job,
        (start chrono (storage order) clock runner_id (run (clock 2) job)
            (drop_from_queue (some job) s)).1,
        waits,
        request_found queue runner_id s job e ∙ rw fit refl,
      )

  -- A request that meets a job which is not ready takes it out of its queue, and answers nothing.
  request_unready :
      (queue : String) (runner_id id : ℕ) (job : JobInfo V) (s : Inner V)
      → IsValid (view s)
      → (view s).jobs id ≡ some job
      → (view s).queued id ≡ some queue
      → is_ready (clock 1) job ≡ false
      → ((k : ℕ) → (view s).queued k ≡ some queue → k ≡ id)
      → (request_job chrono (storage order) clock queue runner_id s
          ≡ (ok none, drop_from_queue (some job) s))
        × (job.id ≡ id)
  unfolding hand_out
  request_unready queue runner_id id job s v stored queued early alone =
      let (met, e, at_met, waits) = found queue s id v queued in
      let same : met.id ≡ id = alone met.id waits in
      let stored' : (view s).jobs id ≡ some met =
        subst (λ k. (view s).jobs k ≡ some met) same at_met in
      let one : met ≡ job = cc in
      let unfit : admits clock queue met ≡ false =
        admits-is_ready queue s met v at_met waits
        ∙ subst (λ j. is_ready (clock 1) j ≡ false) (sym one) early in
      (
        request_found queue runner_id s met e
            ∙ rw unfit (ap (λ (j : JobInfo V). (ok none, drop_from_queue (some j) s)) one),
        subst (λ (j : JobInfo V). j.id ≡ id) one same,
      )

  -- In a valid store, a job that waits alone in its queue and is not ready leaves the queue at the first request,
  -- which answers nothing, and stays stored; and no later request hands it out, whatever is called, before it is
  -- returned.
  pub unready_job_lost :
      (queue : String) (runner_id id : ℕ) (job : JobInfo V) (s t u : Inner V)
      (o : Option (JobInfo V)) {events : List Event}
      → IsValid (view s)
      → (view s).jobs id ≡ some job
      → (view s).queued id ≡ some queue
      → is_ready (clock 1) job ≡ false
      → ((k : ℕ) → (view s).queued k ≡ some queue → k ≡ id)
      → request_job chrono (storage order) clock queue runner_id s ≡ (ok o, t)
      → Calls chrono (storage order) view t events u
      → All (NotReturned id) events
      → (o ≡ none)
        × ((view t).jobs id ≡ some job)
        × ((view t).queued id ≡ none)
        × All (NotHanded id) events
  unready_job_lost queue runner_id id job s t u o {events} v stored queued early alone h calls
        kept =
      let (r, same) = request_unready queue runner_id id job s v stored queued early alone in
      let none_ : o ≡ none = cc in
      let left : drop_from_queue (some job) s ≡ t = end_of (sym r ∙ h) in
      let after_ : view t ≡ dequeue id (view s) =
        ap view (sym left) ∙ view-dequeue job s ∙ ap (λ k. dequeue k (view s)) same in
      let kept_job : (view t).jobs id ≡ some job = ap (λ (a : Spec V). a.jobs id) after_ ∙ stored in
      let gone : (view t).queued id ≡ none =
        ap (λ (a : Spec V). a.queued id) after_ ∙ rw (beq_refl id) refl in
      (
        none_,
        kept_job,
        gone,
        away-NotHanded (storage-Laws order) id tt
            (subst IsValid (sym after_) (dequeue-IsValid (view s) v id))
            (record { job = job; stored = kept_job; not_queued = gone }) calls kept,
      )
