-- ===== src/Storage/Valid.antt =====
-- The invariant of the abstract store that the methods of the trait `Storage`
-- (jobs-core/src/storage.rs) keep.
use backjob.Common.{
  ℕ, ◌≤◌, ◌<◌, String, ◌≡◌, refl, subst, sym, ◌∙◌, inl, inr, true, false, Option, none, some, arith,
  ◌==◌, nat_eq, Bool-cases,
}
use backjob.Chrono.{Chrono, Clock, later}
use backjob.Job.{JobResult, success, failure, missing_processor, pending}
use backjob.JobInfo.{JobInfo, NewJobInfo, with_id, run, set_pending}
use backjob.JobInfo.Retry.{id-needs_retry, status-needs_retry}
use backjob.Stats
use backjob.Storage.Spec.{
  Spec, Hands, HandedOut, Retried, PutBack, Returned, issue, put, enqueue, dequeue, forget, tally,
  requeued,
}

-- Every job is stored under its own identifier, below the bound; and what waits in a queue is a
-- stored job that is pending and belongs to that queue.
pub record IsValid {V : Type 0} (a : Spec V) : Type 0 where
  pub keyed : (k : ℕ) (j : JobInfo V) → a.jobs k ≡ some j → j.id ≡ k
  pub known : (k : ℕ) (j : JobInfo V) → a.jobs k ≡ some j → k < a.next_id
  pub waiting :
      (k : ℕ) (queue : String)
      → a.queued k ≡ some queue
      → (j : JobInfo V) × (a.jobs k ≡ some j) × (j.status ≡ pending) × (j.queue ≡ queue)

module _ {V : Type 0} (a : Spec V) (v : IsValid a) where
  -- A queued job that takes the place of the one stored under its identifier.
  requeued-IsValid :
      (clock : Clock) (id : ℕ) (old job : JobInfo V)
      → a.jobs id ≡ some old
      → job.id ≡ id
      → job.status ≡ pending
      → IsValid (requeued clock id job a)
  requeued-IsValid clock id old job stored same fresh = record {
    keyed = λ k j h. ground (arith, v.keyed k j);
    known = λ k j h. ground (arith, v.known k j, v.known id old);
    waiting = λ k queue h. elim (Bool-cases (id == k)) [
      | inl hit ↦ (job, ground arith, fresh, ground arith)
      | inr miss ↦ let (j, p, q, r) = v.waiting k queue (ground arith) in (j, ground arith, q, r)
    ];
  }

  forget-IsValid :
      (f : backjob.Stats.Stats → backjob.Stats.Stats) (clock : Clock) (id : ℕ)
      → IsValid (tally f clock (forget id a))
  forget-IsValid f clock id = record {
    keyed = λ k j h. ground (arith, v.keyed k j);
    known = λ k j h. ground (arith, v.known k j);
    waiting =
        λ k queue h. let (j, p, q, r) = v.waiting k queue (ground arith) in (j, ground arith, q, r);
  }

  pub dequeue-IsValid : (id : ℕ) → IsValid (dequeue id a)
  dequeue-IsValid id = record {
    keyed = v.keyed;
    known = v.known;
    waiting = λ k queue h. v.waiting k queue (ground arith);
  }

  -- Creating a job keeps the invariant.
  pub created-IsValid :
      (clock : Clock) (new : NewJobInfo V) (id n : ℕ)
      → a.next_id ≤ id
      → id < n
      → IsValid (
          tally Stats.new_job
            (later 1 clock)
            (enqueue new.queue id (put (with_id (clock 0) id new) (issue n a))))
  unfolding with_id
  created-IsValid clock new id n fresh lt = record {
    keyed = λ k j h. ground (arith, v.keyed k j);
    known = λ k j h. ground (arith, v.known k j);
    waiting = λ k queue h. elim (Bool-cases (id == k)) [
      | inl hit ↦ (with_id (clock 0) id new, ground arith, refl, ground arith)
      | inr miss ↦ let (j, p, q, r) = v.waiting k queue (ground arith) in (j, ground arith, q, r)
    ];
  }

  started-IsValid :
      (clock : Clock) (job : JobInfo V)
      → a.jobs job.id ≡ some job
      → IsValid (tally Stats.run_job (later 3 clock) (put (run (clock 2) job) (dequeue job.id a)))
  unfolding run
  started-IsValid clock job stored = record {
    keyed = λ k j h. ground (arith, v.keyed k j);
    known = λ k j h. ground (arith, v.known k j, v.known job.id job);
    waiting =
        λ k queue h. let (j, p, q, r) = v.waiting k queue (ground arith) in (j, ground arith, q, r);
  }

  Hands-IsValid :
      (clock : Clock) (queue : String) (o : Option (JobInfo V)) (b : Spec V)
      → Hands clock queue o a b
      → IsValid b
  Hands-IsValid clock queue none b (inl h) = subst IsValid (sym h.0) v
  Hands-IsValid clock queue none b (inr (job, w, t, e)) =
      subst IsValid (sym e) (dequeue-IsValid job.id)
  Hands-IsValid clock queue (some started) b (job, w, t, r, e) =
      subst IsValid (sym e) (rw r (started-IsValid clock job w.0))

  pub issue-IsValid : (n : ℕ) → a.next_id ≤ n → IsValid (issue n a)
  issue-IsValid n le = record {
    keyed = v.keyed;
    known = λ k j h. omega (arith, v.known k j h);
    waiting = v.waiting;
  }

  Retried-IsValid :
      (chrono : Chrono) (clock : Clock) (id : ℕ) (o : Option (JobInfo V)) (b : Spec V)
      → a.jobs id ≡ o
      → Retried chrono clock id o a b
      → IsValid b
  Retried-IsValid chrono clock id none b stored h = subst IsValid (sym h) v
  Retried-IsValid chrono clock id (some job) b stored (true, counted, p, e) =
      subst IsValid (sym e) (
        requeued-IsValid clock id job counted stored
          ((id-needs_retry chrono clock job true counted p).0 ∙ v.keyed id job stored)
          (status-needs_retry chrono clock job true counted p refl))
  Retried-IsValid chrono clock id (some job) b stored (false, counted, p, e) =
      subst IsValid (sym e) (forget-IsValid (Stats.fail_job chrono (clock 5)) (later 3 clock) id)

  PutBack-IsValid :
      (chrono : Chrono) (clock : Clock) (id : ℕ) (o : Option (JobInfo V)) (b : Spec V)
      → a.jobs id ≡ o
      → PutBack chrono clock id o a b
      → IsValid b
  unfolding set_pending
  PutBack-IsValid chrono clock id none b stored h = subst IsValid (sym h) v
  PutBack-IsValid chrono clock id (some job) b stored h = subst IsValid (sym h) (
      requeued-IsValid clock id job (set_pending (clock 0) job) stored (v.keyed id job stored) refl)

  -- A return keeps the invariant.
  pub Returned-IsValid :
      (chrono : Chrono) (clock : Clock) (id : ℕ) (result : JobResult) (b : Spec V)
      → Returned chrono clock id result a b
      → IsValid b
  Returned-IsValid chrono clock id success b h =
      subst IsValid (sym h)
        (forget-IsValid (Stats.complete_job chrono (clock 5)) (later 3 clock) id)
  Returned-IsValid chrono clock id failure b h = Retried-IsValid chrono clock id _ b refl h
  Returned-IsValid chrono clock id missing_processor b h =
      PutBack-IsValid chrono clock id _ b refl h

-- A request keeps the invariant.
pub HandedOut-IsValid :
    {V : Type 0} (a : Spec V)
    → IsValid a
    → (clock : Clock) (queue : String) (o : Option (JobInfo V)) (b : Spec V)
    → HandedOut clock queue o a b
    → IsValid b
HandedOut-IsValid a v clock queue o b (n, le, h) =
    Hands-IsValid (issue n a) (issue-IsValid a v n le) clock queue o b h
