-- ===== src/Sled/Total/Methods.antt =====
-- jobs-sled/src/lib.rs, `lock_queue`, over a database that works: the lock is taken and given back, and
-- so the methods of the store on disk return.
use backjob.Common.{
  ℕ, suc, String, ◌≡◌, refl, sym, ap, ◌∙◌, Option, none, some, ◌⊎◌, inl, inr, ◌==◌, string_eq,
  Bool-cases, beq_iff, subst,
}
use backjob.Outcome.{Outcome, ok, panic, Exec, pure, continue, ◌>>◌}
use backjob.Chrono.{Chrono, Clock}
use backjob.JobInfo.{NewJobInfo, ReturnJobInfo}
use backjob.Storage.Trait.{new_job, request_job, return_job}
use backjob.Storage.Total.{
  Goes, Arrives, IsTotal, FailsLate, new_job-Goes, request_job-Goes, return_job-Goes,
}
use backjob.Storage.Reliable.{IsReliable, IsTotal-IsReliable}
use backjob.Sled.{Error, Result, Database, Json}
use backjob.Sled.Tree.{and_then}
use backjob.Sled.Lawful.{IsDatabase, IsJson}
use backjob.Sled.Working.{Works, updated}
use backjob.Sled.Lock.{holder}
use backjob.Sled.Total.{Writes, IsFree, on_lock-goes}
use backjob.Sled.Total.Operations.{
  Fits, Good, Held, generate_id-Goes, save_job-Goes, fetch_job-reads, fetch_ready-Goes,
  queue_job-Goes, run_job-Goes, delete_job-Goes, update_stats-Goes,
}
use backjob.Sled.Store.{
  SledStorage, done, on_lock, taken, spin, acquire, unlock, release, lock_queue, fetch_ready,
  fetch_job_from_queue, storage,
}

module _ {T D B X V : Type 0} (db : Database T D B X) (content : T → String → Option B)
    (bound : D → ℕ) (laws : IsDatabase db content bound) (json : Json V B) (reads : IsJson json)
    (works : Works db) (writes : Writes json) where
  abbrev Free : T → Type 0
  Free = IsFree db content bound laws json reads works

  abbrev OnlyHeld : String → T → Type 0
  OnlyHeld = Held db content bound laws json reads works writes

  -- A free lock is taken in the first round, and the others stay free.
  acquires :
      (fuel id : ℕ) (queue : String) (t : T)
      → Free t
      → (o : Unit {0}) × (u : T) × (acquire db json (suc fuel) queue id t ≡ (ok o, u))
        × OnlyHeld queue u
  unfolding acquire
  acquires fuel id queue t free =
      let (u, e, now, others) =
        updated db content bound laws works json.number queue (taken db json id) t
          (λ b h. let nothing = free queue in absurd (cc)) in
      let nobody : holder db content bound laws json t queue ≡ none = rw (free queue) refl in
      let (b, w) = reads.number_writes id in
      let written : content u queue ≡ some b =
        now ∙ ap (λ x. and_then (taken db json id x) json.number.to_value) nobody ∙ w in
      (
        tt,
        u,
        ap (spin db json (acquire db json fuel queue id)) e
            ∙ ap (λ (x : Option ℕ). spin db json (acquire db json fuel queue id) (inr x, u)) nobody,
        (
          λ c h. (id, reads.number id c (w ∙ sym written ∙ h)),
          λ other ne. others other ne ∙ free other,
        ),
      )

  -- The lock is given back, and then all are free.
  unlocks :
      (queue : String) (t : T)
      → OnlyHeld queue t
      → (o : Unit {0}) × (u : T) × (unlock db json queue t ≡ (ok o, u)) × Free u
  unfolding unlock
  unlocks queue t (readable, free) =
      let (u, e, now, others) =
        updated db content bound laws works json.number queue (λ _. none) t readable in
      (
        tt,
        u,
        ap (λ (x : Result (Error X) (Option ℕ) × T). (done x.0, x.1)) e,
        λ other. elim (Bool-cases (queue == other)) [
          | inl hit ↦ subst (λ q. content u q ≡ none) ((beq_iff queue other).0 hit) now
          | inr miss ↦ others other miss ∙ free other miss
        ],
      )

  lock_queue-Goes :
      {A : Type 0} (fuel : ℕ) (queue : String) (f : Exec (SledStorage T D) (Error X) A)
      → Goes (Fits db content bound laws json reads works writes (OnlyHeld queue)) f
      → Goes
          (Good db content bound laws json reads works writes)
          (lock_queue db json (suc fuel) queue f)
  unfolding lock_queue release
  lock_queue-Goes {A} fuel queue f goes s r =
      let (id, s₁, e₁, r₁) =
        generate_id-Goes db content bound laws json reads works writes Free s r in
      let (_, s₂, e₂, r₂) =
        on_lock-goes db content bound laws json reads works (acquire db json (suc fuel) queue id)
          (acquires fuel id queue) s₁ r₁ in
      let (a, s₃, e₃, r₃) = goes s₂ r₂ in
      let (_, s₄, e₄, r₄) =
        on_lock-goes db content bound laws json reads works (unlock db json queue) (unlocks queue)
          s₃ r₃ in
      let last : Exec (SledStorage T D) (Error X) A = λ v. release db json queue (f v).0 (f v).1 in
      (
        a,
        s₄,
        ap
              (λ (x : Outcome (Error X) ℕ × SledStorage T D).
                continue x.0 (λ n. on_lock (acquire db json (suc fuel) queue n) >> last) x.1)
              e₁
            ∙ ap
                (λ (x : Outcome (Error X) (Unit {0}) × SledStorage T D).
                  continue x.0 (λ _. last) x.1)
                e₂
            ∙ ap (λ (x : Outcome (Error X) A × SledStorage T D). release db json queue x.0 x.1) e₃
            ∙ ap
                (λ (x : Outcome (Error X) (Unit {0}) × SledStorage T D).
                  continue x.0 (λ _. pure a) x.1)
                e₄,
        r₄,
      )

  pub storage-IsTotal :
      (fuel : ℕ)
      → IsTotal (storage db json (suc fuel)) (Good db content bound laws json reads works writes)
  unfolding fetch_job_from_queue
  storage-IsTotal fuel = record {
    generate_id = generate_id-Goes db content bound laws json reads works writes Free;
    save_job = save_job-Goes db content bound laws json reads works writes Free;
    fetch_job = fetch_job-reads db content bound laws json reads works writes Free;
    fetch_job_from_queue = λ now queue.
        lock_queue-Goes fuel queue (fetch_ready db json now queue) (
          fetch_ready-Goes db content bound laws json reads works writes (OnlyHeld queue) now
            queue);
    queue_job = queue_job-Goes db content bound laws json reads works writes Free;
    run_job = run_job-Goes db content bound laws json reads works writes Free;
    delete_job = delete_job-Goes db content bound laws json reads works writes Free;
    update_stats = update_stats-Goes db content bound laws json reads works writes Free;
  }

  -- On disk, from a state in which all values can be read and no lock is held, if the database works
  -- and JSON can be written of every job and text: every method returns with a result, without an error
  -- and within one round of waiting for a lock, and leaves such a state again, but for one case: a
  -- return panics and leaves the store as it was only if it is the failure of a job that is found, whose
  -- limit allows one more retry and whose backoff cannot be added to the reading.
  pub sled_methods-Arrive :
      (chrono : Chrono) (clock : Clock) (fuel : ℕ) (new : NewJobInfo V) (queue : String)
      (runner_id : ℕ) (r : ReturnJobInfo) (s : SledStorage T D)
      → Good db content bound laws json reads works writes s
      → (let store = storage db json (suc fuel) in
          let good = Good db content bound laws json reads works writes in
          Arrives good (new_job chrono store clock new) s
          × Arrives good (request_job chrono store clock queue runner_id) s
          × (Arrives good (return_job chrono store clock r) s
              ⊎ ((return_job chrono store clock r s ≡ (panic, s))
                  × FailsLate (storage-IsTotal fuel) chrono clock r s)))
  sled_methods-Arrive chrono clock fuel new queue runner_id r s good = (
    new_job-Goes (storage-IsTotal fuel) chrono clock new s good,
    request_job-Goes (storage-IsTotal fuel) chrono clock queue runner_id s good,
    return_job-Goes (storage-IsTotal fuel) chrono clock r s good,
  )

  -- The store on disk is reliable.
  pub sled_storage-IsReliable :
      (chrono : Chrono) (fuel : ℕ)
      → IsReliable chrono
          (storage db json (suc fuel))
          (Good db content bound laws json reads works writes)
  sled_storage-IsReliable chrono fuel = IsTotal-IsReliable chrono (storage-IsTotal fuel)
