-- ===== src/Storage/Delivery.antt =====
-- Who gets a job, over any history of the methods of the trait `Storage`
-- (jobs-core/src/storage.rs).
use backjob.Common.{
  ℕ, ◌≤◌, ◌<◌, String, ◌≡◌, ◌≢◌, refl, subst, sym, ap, ◌∙◌, inl, inr, true, false, Option, none,
  some, List, [], ◌∷◌, All, arith, nat_eq,
}
use backjob.Chrono.{Chrono, Clock, later}
use backjob.Job.{JobResult, success, failure, missing_processor}
use backjob.JobInfo.{JobInfo, NewJobInfo, with_id, run, set_pending}
use backjob.JobInfo.Retry.{id-needs_retry}
use backjob.Stats
use backjob.Storage.Spec.{Spec, HandedOut, Retried, PutBack, Returned, issue, put, enqueue, tally}
use backjob.Storage.Valid.{IsValid, created-IsValid, HandedOut-IsValid, Returned-IsValid}

-- What a call of a method does that others can see.
pub data Event : Type 0 where
  created : ℕ → Event
  refused : Event
  handed : ℕ → Event
  returned : ℕ → Event

-- One call, on the abstract store.
pub data Step {V : Type 0} (chrono : Chrono) (a b : Spec V) : Event → Type 0 where
  creates :
      (clock : Clock) (new : NewJobInfo V) (id n : ℕ)
      → a.next_id ≤ id
      → id < n
      → b
        ≡ tally Stats.new_job
            (later 1 clock)
            (enqueue new.queue id (put (with_id (clock 0) id new) (issue n a)))
      → Step chrono a b (created id)
  refuses :
      (clock : Clock) (queue : String) → HandedOut clock queue none a b → Step chrono a b refused
  hands :
      (clock : Clock) (queue : String) (job : JobInfo V) (id : ℕ)
      → job.id ≡ id
      → HandedOut clock queue (some job) a b
      → Step chrono a b (handed id)
  returns :
      (clock : Clock) (id : ℕ) (result : JobResult)
      → Returned chrono clock id result a b
      → Step chrono a b (returned id)

-- A history of calls, the first one first.
pub data History {V : Type 0} (chrono : Chrono) : Spec V → List Event → Spec V → Type 0 where
  start : {a : Spec V} → History chrono a [] a
  next :
      {a b c : Spec V} {events : List Event} (e : Event)
      → Step chrono a b e
      → History chrono b events c
      → History chrono a (e ∷ events) c

-- The job is stored, and waits in no queue.
pub record IsAway {V : Type 0} (id : ℕ) (a : Spec V) : Type 0 where
  pub job : JobInfo V
  pub stored : a.jobs id ≡ some job
  pub not_queued : a.queued id ≡ none

-- What may happen besides the return of job `id`, and besides its being handed out.
abbrev pub NotReturned : ℕ → Event → Type 0
NotReturned id e = e ≢ returned id

abbrev pub NotHanded : ℕ → Event → Type 0
NotHanded id e = e ≢ handed id

module _ {V : Type 0} (chrono : Chrono) where
  -- Every call keeps the invariant.
  pub Step-IsValid : {a b : Spec V} {e : Event} → IsValid a → Step chrono a b e → IsValid b
  Step-IsValid {a} v (creates clock new id n fresh lt p) =
      subst IsValid (sym p) (created-IsValid a v clock new id n fresh lt)
  Step-IsValid {a} {b} v (refuses clock queue h) = HandedOut-IsValid a v clock queue none b h
  Step-IsValid {a} {b} v (hands clock queue job id e h) =
      HandedOut-IsValid a v clock queue (some job) b h
  Step-IsValid {a} {b} v (returns clock id result h) =
      Returned-IsValid a v chrono clock id result b h

  away-NotHanded :
      (a b : Spec V) (id : ℕ) (clock : Clock) (queue : String) (job : JobInfo V)
      → IsAway id a
      → HandedOut clock queue (some job) a b
      → job.id ≢ id
  unfolding run
  away-NotHanded a b id clock queue job away (_, _, (old, w, _, r, _)) same =
      let queued =
        subst (λ k. a.queued k ≡ some queue) (ap (λ (j : JobInfo V). j.id) (sym r) ∙ same) (w.1) in
      let gone = away.not_queued in cc

  Retried-elsewhere :
      (a b : Spec V) (id i : ℕ) (clock : Clock) (o : Option (JobInfo V))
      → IsValid a
      → a.jobs i ≡ o
      → i ≢ id
      → Retried chrono clock i o a b
      → (b.jobs id ≡ a.jobs id) × (b.queued id ≡ a.queued id)
  Retried-elsewhere a b id i clock none v stored ne h = rw h (refl, refl)
  Retried-elsewhere a b id i clock (some job) v stored ne (true, counted, p, e) =
      rw e (
        ground (arith, v.keyed i job, id-needs_retry chrono clock job true counted p),
        ground arith,
      )
  Retried-elsewhere a b id i clock (some job) v stored ne (false, counted, p, e) =
      rw e (ground arith, ground arith)

  PutBack-elsewhere :
      (a b : Spec V) (id i : ℕ) (clock : Clock) (o : Option (JobInfo V))
      → IsValid a
      → a.jobs i ≡ o
      → i ≢ id
      → PutBack chrono clock i o a b
      → (b.jobs id ≡ a.jobs id) × (b.queued id ≡ a.queued id)
  unfolding set_pending
  PutBack-elsewhere a b id i clock none v stored ne h = rw h (refl, refl)
  PutBack-elsewhere a b id i clock (some job) v stored ne h =
      rw h (ground (arith, v.keyed i job), ground arith)

  -- A return leaves every other job where it was.
  pub Returned-elsewhere :
      (a b : Spec V) (id i : ℕ) (clock : Clock) (result : JobResult)
      → IsValid a
      → i ≢ id
      → Returned chrono clock i result a b
      → (b.jobs id ≡ a.jobs id) × (b.queued id ≡ a.queued id)
  Returned-elsewhere a b id i clock success v ne h = rw h (ground arith, ground arith)
  Returned-elsewhere a b id i clock failure v ne h = Retried-elsewhere a b id i clock _ v refl ne h
  Returned-elsewhere a b id i clock missing_processor v ne h =
      PutBack-elsewhere a b id i clock _ v refl ne h

  -- A job that is away stays away until it is returned.
  Step-IsAway :
      {a b : Spec V} {e : Event} (id : ℕ)
      → IsValid a
      → IsAway id a
      → e ≢ returned id
      → Step chrono a b e
      → IsAway id b
  unfolding with_id
  Step-IsAway {a} id v w ne (creates clock new i n fresh lt p) = record {
    job = w.job;
    stored = rw p (ground (arith, v.known id w.job));
    not_queued = rw p (ground (arith, v.known id w.job));
  }
  Step-IsAway {a} id v w ne (refuses clock queue (_, _, inl h)) =
      subst (IsAway id) (sym h.0)
        (record { job = w.job; stored = w.stored; not_queued = w.not_queued })
  Step-IsAway {a} id v w ne (refuses clock queue (_, _, inr h)) = record {
    job = w.job;
    stored = rw (h.3) (w.stored);
    not_queued = rw (h.3) (ground arith);
  }
  Step-IsAway {a} {b} id v w ne (hands clock queue job i e h) =
      let other = away-NotHanded a b id clock queue job w h in
      record {
        job = w.job;
        stored = rw (h.2.4) (ground (arith, other));
        not_queued = rw (h.2.4) (ground arith);
      }
  Step-IsAway {a} {b} id v w ne (returns clock i result h) =
      let same = Returned-elsewhere a b id i clock result v (λ e. ne (ap returned e)) h in
      record { job = w.job; stored = same.0 ∙ w.stored; not_queued = same.1 ∙ w.not_queued }

  -- A job that was handed out is away.
  pub handed-IsAway : {a b : Spec V} (id : ℕ) → Step chrono a b (handed id) → IsAway id b
  unfolding run
  handed-IsAway {a} {b} id (hands clock queue job i e h) = record {
    job = job;
    stored = rw (h.2.4) (ground (arith, e));
    not_queued = rw (h.2.4) (ground (arith, e, ap (λ (j : JobInfo V). j.id) (h.2.3)));
  }

  Step-NotHanded :
      {a b : Spec V} {e : Event} (id : ℕ) → IsAway id a → Step chrono a b e → NotHanded id e
  Step-NotHanded id w (creates clock new i n fresh lt p) = λ q. cc
  Step-NotHanded id w (refuses clock queue h) = λ q. cc
  Step-NotHanded {a} {b} id w (hands clock queue job i e h) =
      λ q. let same : i ≡ id = cc in away-NotHanded a b id clock queue job w h (e ∙ same)
  Step-NotHanded id w (returns clock i result h) = λ q. cc

  -- A job that is away is not handed out before it is returned, by whatever calls.
  pub away_until_returned :
      {a c : Spec V} {events : List Event} (id : ℕ)
      → IsValid a
      → IsAway id a
      → History chrono a events c
      → All (NotReturned id) events
      → All (NotHanded id) events
  away_until_returned id v w start kept = tt
  away_until_returned id v w (next e step rest) kept = (
    Step-NotHanded id w step,
    away_until_returned id (Step-IsValid v step) (Step-IsAway id v w (kept.0) step) rest (kept.1),
  )

  pub History-IsValid :
      {a c : Spec V} {events : List Event} → IsValid a → History chrono a events c → IsValid c
  History-IsValid v start = v
  History-IsValid v (next e step rest) = History-IsValid (Step-IsValid v step) rest
