-- ===== src/Storage/Complete.antt =====
-- The trait `Storage` (jobs-core/src/storage.rs) on a store that fetches ready jobs only: no job that is
-- to run is left outside its queue.
use backjob.Common.{
  ℕ, ◌≤◌, String, ◌≡◌, ◌≢◌, ◌⊎◌, refl, sym, subst, ◌∙◌, inl, inr, true, false, Option, none, some,
  List, arith, ◌==◌, nat_eq, Bool-cases,
}
use backjob.Chrono.{Chrono, Clock, later}
use backjob.Job.{JobResult, success, failure, missing_processor, running}
use backjob.JobInfo.{JobInfo, NewJobInfo, with_id, run, set_pending}
use backjob.JobInfo.Retry.{id-needs_retry}
use backjob.Stats
use backjob.Storage.Trait.{Storage}
use backjob.Storage.Spec.{
  Spec, Laws, Hands, Retried, PutBack, Returned, issue, put, enqueue, dequeue, forget, tally,
  requeued,
}
use backjob.Storage.Valid.{IsValid}
use backjob.Storage.Delivery.{Event, Step, creates, refuses, hands, returns, Step-IsValid}
use backjob.Storage.Ready.{FetchesReady, request_job-none}
use backjob.Storage.Calls.{
  Call, news, finds_nothing, finds, gives_back, Calls, done, after, Call-Step, Call-IsSound,
}

-- Every stored job is being run, or waits in its queue.
abbrev pub IsComplete : {V : Type 0} → Spec V → Type 0
IsComplete {V} a =
    (k : ℕ) (j : JobInfo V) → a.jobs k ≡ some j → (j.status ≡ running) ⊎ (a.queued k ≡ some j.queue)

module _ {V : Type 0} (a : Spec V) (c : IsComplete a) where
  created-IsComplete :
      (clock : Clock) (new : NewJobInfo V) (id n : ℕ)
      → IsComplete (
          tally Stats.new_job
            (later 1 clock)
            (enqueue new.queue id (put (with_id (clock 0) id new) (issue n a))))
  unfolding with_id
  created-IsComplete clock new id n k j h = elim (Bool-cases (id == k)) [
    | inl hit ↦ inr (ground arith)
    | inr miss ↦ elim (c k j (ground arith)) [ inl r ↦ inl r | inr q ↦ inr (ground arith) ]
  ]

  started-IsComplete :
      (clock : Clock) (job : JobInfo V)
      → IsComplete
          (tally Stats.run_job (later 3 clock) (put (run (clock 2) job) (dequeue job.id a)))
  unfolding run
  started-IsComplete clock job k j h = elim (Bool-cases (job.id == k)) [
    | inl hit ↦ inl (ground arith)
    | inr miss ↦ elim (c k j (ground arith)) [ inl r ↦ inl r | inr q ↦ inr (ground arith) ]
  ]

  requeued-IsComplete :
      (clock : Clock) (id : ℕ) (job : JobInfo V)
      → job.id ≡ id
      → IsComplete (requeued clock id job a)
  requeued-IsComplete clock id job same k j h = elim (Bool-cases (id == k)) [
    | inl hit ↦ inr (ground arith)
    | inr miss ↦ elim (c k j (ground arith)) [ inl r ↦ inl r | inr q ↦ inr (ground arith) ]
  ]

  forget-IsComplete :
      (f : Stats.Stats → Stats.Stats) (clock : Clock) (id : ℕ)
      → IsComplete (tally f clock (forget id a))
  forget-IsComplete f clock id k j h = elim (c k j (ground arith)) [
    | inl r ↦ inl r
    | inr q ↦ inr (ground arith)
  ]

module _ {V : Type 0} (a : Spec V) (v : IsValid a) (c : IsComplete a) where
  Retried-IsComplete :
      (chrono : Chrono) (clock : Clock) (id : ℕ) (o : Option (JobInfo V)) (b : Spec V)
      → a.jobs id ≡ o
      → Retried chrono clock id o a b
      → IsComplete b
  Retried-IsComplete chrono clock id none b stored h = subst IsComplete (sym h) c
  Retried-IsComplete chrono clock id (some job) b stored (true, counted, p, e) =
      subst IsComplete (sym e) (
        requeued-IsComplete a c clock id counted
          ((id-needs_retry chrono clock job true counted p).0 ∙ v.keyed id job stored))
  Retried-IsComplete chrono clock id (some job) b stored (false, counted, p, e) =
      subst IsComplete (sym e)
        (forget-IsComplete a c (Stats.fail_job chrono (clock 5)) (later 3 clock) id)

  PutBack-IsComplete :
      (chrono : Chrono) (clock : Clock) (id : ℕ) (o : Option (JobInfo V)) (b : Spec V)
      → a.jobs id ≡ o
      → PutBack chrono clock id o a b
      → IsComplete b
  unfolding set_pending
  PutBack-IsComplete chrono clock id none b stored h = subst IsComplete (sym h) c
  PutBack-IsComplete chrono clock id (some job) b stored h =
      subst IsComplete (sym h)
        (requeued-IsComplete a c clock id (set_pending (clock 0) job) (v.keyed id job stored))

  Returned-IsComplete :
      (chrono : Chrono) (clock : Clock) (id : ℕ) (result : JobResult) (b : Spec V)
      → Returned chrono clock id result a b
      → IsComplete b
  Returned-IsComplete chrono clock id success b h =
      subst IsComplete (sym h)
        (forget-IsComplete a c (Stats.complete_job chrono (clock 5)) (later 3 clock) id)
  Returned-IsComplete chrono clock id failure b h = Retried-IsComplete chrono clock id _ b refl h
  Returned-IsComplete chrono clock id missing_processor b h =
      PutBack-IsComplete chrono clock id _ b refl h

Hands-IsComplete :
    {V : Type 0} (a : Spec V)
    → IsComplete a
    → (clock : Clock) (queue : String) (started : JobInfo V) (b : Spec V)
    → Hands clock queue (some started) a b
    → IsComplete b
Hands-IsComplete a c clock queue started b (job, w, t, r, e) =
    subst IsComplete (sym e) (rw r (started-IsComplete a c clock job))

-- Time does not go back between the first two readings of a call's clock, if the call finds nothing.
abbrev pub Onward :
    {S E V : Type 0} {chrono : Chrono} {store : Storage S E V} {view : S → Spec V} {s t : S}
    {e : Event}
    → Call chrono store view s t e
    → Type 0
Onward (news clock new id room h) = Unit {0}
Onward (finds_nothing clock queue runner_id h) = clock 0 ≤ clock 1
Onward (finds clock queue runner_id job id e h) = Unit {0}
Onward (gives_back clock r id e h) = Unit {0}

abbrev pub AllOnward :
    {S E V : Type 0} {chrono : Chrono} {store : Storage S E V} {view : S → Spec V} {s t : S}
    {events : List Event}
    → Calls chrono store view s events t
    → Type 0
AllOnward done = Unit {0}
AllOnward (after e call rest) = Onward call × AllOnward rest

Step-IsComplete :
    {V : Type 0} {chrono : Chrono} {a b : Spec V} {e : Event}
    → e ≢ Event.refused
    → IsValid a
    → IsComplete a
    → Step chrono a b e
    → IsComplete b
Step-IsComplete {a = a} ne v c (creates clock new id n fresh lt p) =
    subst IsComplete (sym p) (created-IsComplete a c clock new id n)
Step-IsComplete ne v c (refuses clock queue h) = absurd (ne refl)
Step-IsComplete {a = a} {b} ne v c (hands clock queue job id e (n, _, h)) =
    Hands-IsComplete (issue n a) c clock queue job b h
Step-IsComplete {chrono = chrono} {a} {b} ne v c (returns clock id result h) =
    Returned-IsComplete a v c chrono clock id result b h

module _ {S E V : Type 0} {chrono : Chrono} {store : Storage S E V} {view : S → Spec V}
    {IsSound : S → Type 0} (laws : Laws store view IsSound) (ready : FetchesReady store) where
  Call-IsComplete :
      {s t : S} {e : Event}
      → IsSound s
      → IsValid (view s)
      → IsComplete (view s)
      → (call : Call chrono store view s t e) → Onward call
      → IsComplete (view t)
  Call-IsComplete sound v c (news clock new id room h) on =
      Step-IsComplete (λ q. cc) v c (Call-Step laws sound v (news clock new id room h))
  Call-IsComplete {s} {t} sound v c (finds_nothing clock queue runner_id h) on =
      let (n, same) = request_job-none laws chrono clock queue runner_id s t ready sound v on h in
      subst IsComplete (sym same) c
  Call-IsComplete sound v c (finds clock queue runner_id job id e h) on =
      Step-IsComplete (λ q. cc) v c
        (Call-Step laws sound v (finds clock queue runner_id job id e h))
  Call-IsComplete sound v c (gives_back clock r id e h) on =
      Step-IsComplete (λ q. cc) v c (Call-Step laws sound v (gives_back clock r id e h))

  -- On a store that obeys the laws and fetches ready jobs only, every history of successful calls from a
  -- sound and valid store keeps each stored job where it is run or waits in its queue, if time does not
  -- go back in a call that finds nothing: no job is lost.
  pub Calls-IsComplete :
      {s t : S} {events : List Event}
      → IsSound s
      → IsValid (view s)
      → IsComplete (view s)
      → (calls : Calls chrono store view s events t) → AllOnward calls
      → IsComplete (view t)
  Calls-IsComplete sound v c done on = c
  Calls-IsComplete sound v c (after e call rest) on =
      Calls-IsComplete (Call-IsSound laws sound call)
        (Step-IsValid chrono v (Call-Step laws sound v call))
        (Call-IsComplete sound v c call (on.0)) rest (on.1)
