-- ===== src/Sled/Lock/Free.antt =====
-- jobs-sled/src/lib.rs, `lock_queue`: a queue whose lock is free.
use backjob.Common.{ℕ, suc, String, ◌≡◌, refl, sym, subst, ap, ◌∙◌, Option, none, some, inr, arith}
use backjob.Outcome.{Outcome, ok, Exec, continue, ◌>>◌, pure}
use backjob.JobInfo.{JobInfo}
use backjob.Storage.Spec.{IsKeyed}
use backjob.Sled.{Error, Result, Database, Json}
use backjob.Sled.Key.{job_key}
use backjob.Sled.Tree.{decoded, del, iter}
use backjob.Sled.Lawful.{IsDatabase, IsJson, read}
use backjob.Sled.Walk.{first_ready-some, entry_of_item}
use backjob.Sled.Sound.{IsSound}
use backjob.Sled.View.{view}
use backjob.Sled.Store.{
  SledStorage, on_lock, lift, done, acquire, unlock, release, lock_queue, first_ready, take_out,
  fetch_ready, fetch_job_from_queue,
}
use backjob.Sled.Working.{Works}
use backjob.Sled.Lock.{holder, updated, acquire-free, numbered}

module _ {T D B X V : Type 0} (db : Database T D B X) (content : T → String → Option B)
    (bound : D → ℕ) (laws : IsDatabase db content bound) (json : Json V B) (reads : IsJson json)
    (works : Works db) where
  -- A job that was found is taken out of its queue.
  taken_out :
      (now : ℕ) (queue : String) (s : SledStorage T D) (found : Option (JobInfo V))
      → IsSound db content bound laws json s
      → IsKeyed (view db content bound laws json reads s)
      → first_ready db json queue now s.jobinfo (iter db json.text s.queue) ≡ found
      → (u : SledStorage T D) × (take_out db json found s ≡ (ok found, u)) × (u.lock ≡ s.lock)
  unfolding take_out iter del decoded
  taken_out now queue s none sound keyed met = (s, refl, refl)
  taken_out now queue s (some job) sound keyed met =
      let (key, m, stored, _) =
        first_ready-some db content bound laws json queue now s.jobinfo (iter db json.text s.queue)
          job met in
      let (b, entry, readable) = entry_of_item db json.text key queue (db.iter s.queue) m in
      let inside : content s.queue key ≡ some b = laws.iter_sound key b s.queue entry in
      let (n, same) = sound key b inside in
      let own : job.id ≡ n =
        keyed n job
          (subst (λ k. read db content bound laws json.job s.jobinfo k ≡ some job) same stored) in
      let at : content s.queue (job_key job.id) ≡ some b =
        subst (λ k. content s.queue k ≡ some b) (same ∙ ap job_key (sym own)) inside in
      let (o, u, e) = works.del (job_key job.id) s.queue in
      let (was, _) = laws.del_at (job_key job.id) s.queue u o e in
      let answer : decoded db json.text (db.del (job_key job.id) s.queue).0 ≡ inr (some queue) =
        ap (λ x. decoded db json.text x.0) e
        ∙ ap (λ (x : Option B). decoded db json.text (inr x)) (was ∙ at)
        ∙ rw (readable, decoded) refl in
      (
        record s { queue = (db.del (job_key job.id) s.queue).1 },
        ap
            (λ (r : Result (Error X) (Option String)).
              continue (lift r) (λ _. pure (some job))
                (record s { queue = (db.del (job_key job.id) s.queue).1 }))
            answer,
        refl,
      )

  -- The lock is given back after a success.
  released :
      (queue : String) (o : Option (JobInfo V)) (id : ℕ) (s : SledStorage T D)
      → holder db content bound laws json s.lock queue ≡ some id
      → (t : SledStorage T D) × (release db json queue (ok o) s ≡ (ok o, t))
        × (content t.lock queue ≡ none)
  unfolding release unlock
  released queue o id s held =
      let (u, e, now) =
        updated db content bound laws json reads works queue (λ _. none) s.lock
          (λ b at. (id, ground arith)) in
      (
        record s { lock = u },
        ap
            (λ (x : Result (Error X) (Option ℕ) × T).
              continue (done x.0) (λ _. pure o) (record s { lock = x.1 }))
            e,
        now,
      )

  -- If the lock of a queue is free and the database works, a fetch from the queue returns with its
  -- first round of fuel, and the lock is free again.
  pub fetch_job_from_queue-free :
      (fuel now : ℕ) (queue : String) (s : SledStorage T D)
      → IsSound db content bound laws json s
      → IsKeyed (view db content bound laws json reads s)
      → content s.lock queue ≡ none
      → (o : Option (JobInfo V)) × (t : SledStorage T D) × (fetch_job_from_queue db json
            (suc fuel)
            now
            queue
            s
          ≡ (ok o, t))
        × (content t.lock queue ≡ none)
  unfolding fetch_job_from_queue lock_queue fetch_ready
  fetch_job_from_queue-free fuel now queue s sound keyed free =
      let (id, d, e) = numbered db content bound laws json reads works s in
      let (l, a, held) =
        acquire-free db content bound laws json reads works fuel id queue s.lock free in
      let found = first_ready db json queue now s.jobinfo (iter db json.text s.queue) in
      let (u, ran, kept) =
        taken_out now queue (record s { db = d; lock = l }) found sound keyed refl in
      let (t, r, gone) =
        released queue found id u
          (ap (λ m. holder db content bound laws json m queue) kept ∙ held) in
      let last : Exec (SledStorage T D) (Error X) (Option (JobInfo V)) = λ v.
        release db json queue (fetch_ready db json now queue v).0
          (fetch_ready db json now queue v).1 in
      (
        found,
        t,
        ap
              (λ (x : Outcome (Error X) ℕ × SledStorage T D).
                continue x.0 (λ n. on_lock (acquire db json (suc fuel) queue n) >> last) x.1)
              e
            ∙ ap
                (λ (x : Outcome (Error X) (Unit {0}) × T).
                  continue x.0 (λ _. last) (record s { db = d; lock = x.1 }))
                a
            ∙ ap
                (λ (x : Outcome (Error X) (Option (JobInfo V)) × SledStorage T D).
                  release db json queue x.0 x.1)
                ran
            ∙ r,
        gone,
      )
