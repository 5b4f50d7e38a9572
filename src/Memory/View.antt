-- ===== src/Memory/View.antt =====
-- jobs-core/src/storage.rs, `memory_storage`: the store in memory obeys the laws of a store.
use backjob.Common.{
  ℕ, ◌+◌, ◌^◌, ◌%◌, ◌≤◌, ◌<◌, String, ◌≡◌, refl, sym, subst, ◌∙◌, ap, ap₂, fun_ext, Option, none,
  some, List, [], ◌∷◌, arith, ◌==◌, nat_eq, string_eq, Bool-cases, Option-cases, inl, inr, beq_iff,
}
use mathlib.Core.List.{Memᴰ}
use backjob.Common.HashMap.{HashMap, Iteration, get, get-insert, get-remove}
use backjob.Common.Lists.{mem-cons_cases}
use backjob.Outcome.{ok, end_of}
use backjob.JobInfo.{JobInfo}
use backjob.Storage.Spec.{
  Spec, Laws, IsKeyed, Fetches, Fetched, put, enqueue, dequeue, forget, issue, tally,
}
use backjob.Memory.{
  Inner, generate_id, save_job, fetch_job, first_match, drop_from_queue, fetch_job_from_queue,
  queue_job, run_job, delete_job, get_stats, update_stats, storage,
}

module _ {V : Type 0} where
  -- What can be seen of the store. The statistics are always there, so the clock is not read.
  abbrev pub view : Inner V → Spec V
  view inner = record {
    jobs = λ k. get k inner.jobs;
    queued = λ k. get k inner.queues;
    next_id = inner.count;
    stats = λ clock. inner.stats;
  }

  view-save_job : (job : JobInfo V) (s : Inner V) → view (save_job job s).1 ≡ put job (view s)
  unfolding save_job
  view-save_job job s =
      ap (λ f. record (view s) { jobs = f }) (fun_ext λ k. get-insert job.id k job s.jobs)

  view-queue_job :
      (queue : String) (id : ℕ) (s : Inner V)
      → view (queue_job queue id s).1 ≡ enqueue queue id (view s)
  unfolding queue_job
  view-queue_job queue id s =
      ap (λ f. record (view s) { queued = f }) (fun_ext λ k. get-insert id k queue s.queues)

  pub view-dequeue :
      (j : JobInfo V) (s : Inner V) → view (drop_from_queue (some j) s) ≡ dequeue j.id (view s)
  unfolding drop_from_queue
  view-dequeue j s =
      ap (λ f. record (view s) { queued = f }) (fun_ext λ k. get-remove j.id k s.queues)

  view-delete_job : (id : ℕ) (s : Inner V) → view (delete_job id s).1 ≡ forget id (view s)
  unfolding delete_job
  view-delete_job id s =
      ap₂ (λ f g. record (view s) { jobs = f; queued = g }) (fun_ext λ k. get-remove id k s.jobs)
        (fun_ext λ k. get-remove id k s.queues)

module _ {V : Type 0} (queue : String) (jobs : HashMap ℕ (JobInfo V)) where
  -- A match is a stored job under an entry of the queue.
  pub first_match-some :
      (l : List (ℕ × String)) (j : JobInfo V)
      → first_match queue jobs l ≡ some j
      → (k : ℕ) × Memᴰ (k, queue) l × (get k jobs ≡ some j)
  unfolding first_match
  first_match-some [] j h = absurd (ground arith)
  first_match-some ((k, q) ∷ rest) j h = elim (Bool-cases (q == queue)) [
    | inl mine ↦ elim (Option-cases (get k jobs)) [
      | inl gone ↦ let (i, m, e) = first_match-some rest j (ground arith) in (i, Memᴰ.tail m, e)
      | inr (j', stored) ↦ (k, Memᴰ.head (ground (arith, beq_iff q queue)), ground arith)
    ]
    | inr other ↦ let (i, m, e) = first_match-some rest j (ground arith) in (i, Memᴰ.tail m, e)
  ]

  -- Without a match no entry of the queue has a stored job.
  pub first_match-none :
      (l : List (ℕ × String)) (k : ℕ)
      → first_match queue jobs l ≡ none
      → Memᴰ (k, queue) l
      → get k jobs ≡ none
  unfolding first_match
  first_match-none [] k h m = elim m [ ]
  first_match-none ((i, q) ∷ rest) k h m = elim (mem-cons_cases m) [
    | inl p ↦ ground (arith, beq_iff q queue)
    | inr later ↦ first_match-none rest k (ground arith) later
  ]

module _ {V : Type 0} (order : Iteration ℕ String) where
  fetched :
      (now : ℕ) (queue : String) (s : Inner V) (o : Option (JobInfo V))
      → IsKeyed (view s)
      → first_match queue s.jobs (order.iter s.queues) ≡ o
      → Fetches now queue o (view s) (view (drop_from_queue o s))
  unfolding drop_from_queue
  fetched now queue s none keyed h = (
    refl,
    λ k j queued stored.
        let gone =
          first_match-none queue s.jobs (order.iter s.queues) k h
            (order.complete k queue s.queues queued) in
        absurd (cc),
  )
  fetched now queue s (some j) keyed h =
      let (k, m, stored) = first_match-some queue s.jobs (order.iter s.queues) j h in
      let same : k ≡ j.id = sym (keyed k j stored) in
      (
        subst (λ i. get i s.jobs ≡ some j) same stored,
        subst (λ i. get i s.queues ≡ some queue) same (order.sound k queue s.queues m),
        view-dequeue j s,
      )

  issued :
      (s t : Inner V) (id : ℕ)
      → s.count + 1 < 2 ^ 64
      → generate_id s ≡ (ok id, t)
      → (s.count ≤ id) × (n : ℕ) × (id < n) × (view t ≡ issue n (view s))
  unfolding generate_id
  issued s t id room h =
      let same : s.count ≡ id = cc in
      let wraps : (s.count + 1) % 2 ^ 64 ≡ s.count + 1 = omega arith in
      (
        omega (arith, same),
        s.count + 1,
        omega (arith, same),
        subst (λ u. view u ≡ issue (s.count + 1) (view s)) (end_of h)
            (ap (λ n. issue n (view s)) wraps),
      )

  taken :
      (now : ℕ) (queue : String) (s t : Inner V) (o : Option (JobInfo V))
      → IsKeyed (view s)
      → fetch_job_from_queue order queue s ≡ (ok o, t)
      → Fetched now queue o (view s) (view t)
  unfolding fetch_job_from_queue
  taken now queue s t o keyed h =
      let found : first_match queue s.jobs (order.iter s.queues) ≡ o = cc in
      (
        s.count,
        omega arith,
        subst (λ u. Fetches now queue o (view s) (view u))
            (ap (λ m. drop_from_queue m s) (sym found) ∙ end_of h)
            (fetched now queue s o keyed found),
      )

  -- The store in memory obeys the laws, in whatever order its maps are walked.
  pub storage-Laws : Laws (storage {V = V} order) view (λ _. Unit {0})
  unfolding generate_id fetch_job run_job get_stats update_stats save_job queue_job delete_job
  storage-Laws = record {
    keeps = record {
      generate_id = λ s h. tt;
      save_job = λ job s h. tt;
      fetch_job = λ id s h. tt;
      fetch_job_from_queue = λ now queue s h. tt;
      queue_job = λ queue id s h. tt;
      run_job = λ id runner_id s h. tt;
      delete_job = λ id s h. tt;
      update_stats = λ clock f s h. tt;
    };
    generate_id = λ s t id room h. issued s t id room h;
    save_job = λ job s t h. subst (λ u. view u ≡ put job (view s)) (end_of h) (view-save_job job s);
    fetch_job = λ id s t o h. (cc, subst (λ u. view u ≡ view s) (end_of h) refl);
    fetch_job_from_queue = λ now queue s t o sound keyed h. taken now queue s t o keyed h;
    queue_job = λ queue id s t h.
        subst (λ u. view u ≡ enqueue queue id (view s)) (end_of h) (view-queue_job queue id s);
    run_job = λ id runner_id s t free h. subst (λ u. view u ≡ view s) (end_of h) refl;
    delete_job =
        λ id s t h. subst (λ u. view u ≡ forget id (view s)) (end_of h) (view-delete_job id s);
    get_stats = λ clock s x h. cc;
    update_stats = λ clock f s t h. subst (λ u. view u ≡ tally f clock (view s)) (end_of h) refl;
  }
