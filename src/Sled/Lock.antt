-- ===== src/Sled/Lock.antt =====
-- jobs-sled/src/lib.rs, `lock_queue`: when the loop ends, and when it does not.
pub mod Held
pub mod Free
use backjob.Common.{
  ℕ, zero, suc, String, ◌≡◌, refl, sym, subst, ap, ◌∙◌, Option, none, some, inl, inr, arith,
  Option-cases,
}
use backjob.Outcome.{Outcome, ok, err, panic, Exec, continue, ◌>>◌, pure}
use backjob.Chrono.{Chrono, Clock}
use backjob.Storage.Trait.{request_job, hand_out}
use backjob.JobInfo.{JobInfo}
use backjob.Storage.Spec.{IsKeyed}
use backjob.Sled.{Error, Result, Database, Json}
use backjob.Sled.Key.{job_key}
use backjob.Sled.Tree.{and_then, decoded, del, fetch_and_update, on_bytes, iter}
use backjob.Sled.Lawful.{IsDatabase, IsJson, read}
use backjob.Sled.Working
use backjob.Sled.Working.{Works}
use backjob.Sled.Walk.{first_ready-some, entry_of_item}
use backjob.Sled.Sound.{IsSound}
use backjob.Sled.View.{view}
use backjob.Sled.Store.{
  SledStorage, taken, on_lock, lift, done, storage, spin, acquire, unlock, release, lock_queue,
  generate_id, first_ready, take_out, fetch_ready, fetch_job_from_queue,
}

module _ {T D B X V : Type 0} (db : Database T D B X) (content : T → String → Option B)
    (bound : D → ℕ) (laws : IsDatabase db content bound) (json : Json V B) where
  -- The number that holds the lock of a queue, if there is one.
  abbrev pub holder : T → String → Option ℕ
  holder t queue = read db content bound laws json.number t queue

module _ {T D B X V : Type 0} (db : Database T D B X) (content : T → String → Option B)
    (bound : D → ℕ) (laws : IsDatabase db content bound) (json : Json V B) (reads : IsJson json)
    (works : Works db) where
  -- An update of the lock's entry answers with what is read there, and leaves what is made of it.
  pub updated :
      (queue : String) (f : Option ℕ → Option ℕ) (t : T)
      → ((b : B) → content t queue ≡ some b → (n : ℕ) × (json.number.from_value b ≡ some n))
      → (u : T) × (fetch_and_update db json.number queue f t
          ≡ (inr (holder db content bound laws json t queue), u))
        × (content u queue
            ≡ and_then (f (holder db content bound laws json t queue)) json.number.to_value)
  updated queue f t readable =
      let (u, e, now, _) =
        Working.updated db content bound laws works json.number queue f t readable in
      (u, e, now)

  -- A free lock is taken in the first round.
  pub acquire-free :
      (fuel id : ℕ) (queue : String) (t : T)
      → content t queue ≡ none
      → (u : T) × (acquire db json (suc fuel) queue id t ≡ (ok tt, u))
        × (holder db content bound laws json u queue ≡ some id)
  unfolding acquire
  acquire-free fuel id queue t free =
      let (u, e, now) = updated queue (taken db json id) t (λ b held. absurd (cc)) in
      let (b, w) = reads.number_writes id in
      let nobody : holder db content bound laws json t queue ≡ none = rw free refl in
      let written : content u queue ≡ some b =
        now ∙ ap (λ x. and_then (taken db json id x) json.number.to_value) nobody ∙ w in
      (
        u,
        ap (spin db json (acquire db json fuel queue id)) e
            ∙ ap (λ (x : Option ℕ). spin db json (acquire db json fuel queue id) (inr x, u)) nobody,
        ap (λ (x : Option B). and_then x json.number.from_value) written ∙ reads.number id b w,
      )

  -- A lock that somebody holds is never taken: no fuel is enough.
  pub acquire-held :
      (fuel id other : ℕ) (queue : String) (t : T)
      → holder db content bound laws json t queue ≡ some other
      → (acquire db json fuel queue id t).0 ≡ panic
  unfolding acquire
  acquire-held zero id other queue t held = refl
  acquire-held (suc fuel) id other queue t held =
      let (u, e, now) = updated queue (taken db json id) t (λ b at. (other, ground arith)) in
      let (b, w) = reads.number_writes other in
      let written : content u queue ≡ some b =
        now ∙ ap (λ x. and_then (taken db json id x) json.number.to_value) held ∙ w in
      let still : holder db content bound laws json u queue ≡ some other =
        ap (λ (x : Option B). and_then x json.number.from_value) written ∙ reads.number other b w in
      ap (λ x. (spin db json (acquire db json fuel queue id) x).0) e
      ∙ ap (λ (x : Option ℕ). (spin db json (acquire db json fuel queue id) (inr x, u)).0) held
      ∙ acquire-held fuel id other queue u still

  -- The identifier that `lock_queue` begins with is given.
  pub numbered :
      (s : SledStorage T D)
      → (id : ℕ) × (d : D) × (generate_id db json s ≡ (ok id, record s { db = d }))
  unfolding generate_id
  numbered s =
      let (id, d, e) = works.generate_id s.db in
      (
        id,
        d,
        ap
            (λ (x : Result X ℕ × D). (
              elim x.0 as (λ _. Outcome (Error X) ℕ) [ inl f ↦ err (Error.sled f) | inr n ↦ ok n ],
              record s { db = x.1 },
            ))
            e,
      )
