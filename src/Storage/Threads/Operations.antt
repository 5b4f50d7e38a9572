-- ===== src/Storage/Threads/Operations.antt =====
-- jobs-core/src/storage.rs: every operation of a thread that runs a method of the trait `Storage`, on a
-- store that obeys the laws, moves a job from one place to another at most.
use backjob.Common.{
  ℕ, ◌+◌, ◌^◌, ◌≤◌, ◌<◌, String, ◌≡◌, ◌⊎◌, refl, sym, subst, ap, ◌∙◌, inl, inr, Bool, true, false,
  Option, none, some, nat_eq, if◌then◌else◌, arith, Bool-cases, beq_refl,
}
use backjob.Outcome.{ok, end_of, Exec, pure, or_panic, or_panic-eq-ok, ◌>>=◌, ◌>>◌, >>=-eq-ok}
use backjob.Chrono.{Chrono, Clock, later}
use backjob.JobInfo.{JobInfo, NewJobInfo, with_id, run, set_pending, needs_retry}
use backjob.Stats
use backjob.Storage.Trait.{Storage}
use backjob.Storage.Spec.{Spec, Laws, IsKeyed, Fetched, admits}
use backjob.Storage.Threads.{
  Thread, creates, saves_new, queues_new, counts_new, looks, takes, saves_started, counts_started,
  reads_failed, reads_missing, deletes, counts_deleted, requeues, saves_again, counts_again, Answer,
  created, refused, handed, returned, decides, retries, puts_back, advance,
}
use backjob.Storage.Threads.Shared.{HasRoom, operate}
use backjob.Storage.Threads.Tokens.{
  one, holds, left, queued_times, waits, Moved, creates-Moved, put-Moved, stays-Moved, tally-Moved,
  enqueue-Moved, forget-Moved, fetched-Moved, issue-Moved,
}

-- An operation, and then a step that is settled.
module _ {S E A B : Type 0} where
  ends_with :
      (m : Exec S E A) (y x : B) (s u : S)
      → (m >>= (λ _. pure y)) s ≡ (ok x, u)
      → (a : A) × (m s ≡ (ok a, u)) × (y ≡ x)
  ends_with m y x s u h =
      let (a, w, p, q) = >>=-eq-ok m (λ _. pure y) s u x h in
      let same : w ≡ u = cc in (a, subst (λ z. m s ≡ (ok a, z)) same p, cc)

nowhere : (o : Option String) → queued_times o ≡ 0 → o ≡ none
nowhere none e = refl
nowhere (some q) e = absurd (omega (arith, e))

module _ {V : Type 0} where
  settle :
      (t : Thread V) {y x : Thread V ⊎ Answer V} {a b c : Spec V}
      → y ≡ x
      → c ≡ b
      → Moved t y a b
      → Moved t x a c
  settle t {y} {x} {a} {b} {c} e v m =
      subst (λ z. Moved t z a c) e (subst (λ z. Moved t y a z) (sym v) m)

  -- What is in hand is in no queue.
  in_hand :
      (t : Thread V) (id : ℕ) (a : Spec V)
      → holds id t ≡ 1
      → holds id t + waits id a ≤ 1
      → a.queued id ≡ none
  in_hand t id a held most = nowhere (a.queued id) (omega (arith, held, most))

module _ {S E V : Type 0} {store : Storage S E V} {view : S → Spec V} {IsSound : S → Type 0}
    (laws : Laws store view IsSound) (chrono : Chrono) (s u : S) (sound : IsSound s)
    (keyed : IsKeyed (view s)) where
  abbrev pub Done : Thread V → Thread V ⊎ Answer V → Type 0
  Done t x = IsSound u × Moved t x (view s) (view u)

  creates-Done :
      (clock : Clock) (new : NewJobInfo V) (x : Thread V ⊎ Answer V)
      → (view s).next_id + 1 < 2 ^ 64
      → operate chrono store view (creates clock new) s ≡ (ok x, u)
      → Done (creates clock new) x
  unfolding advance
  creates-Done clock new x room h =
      let (id, w, p, q) = >>=-eq-ok store.generate_id _ s u x h in
      let same : w ≡ u = cc in
      let p' : store.generate_id s ≡ (ok id, u) =
        subst (λ z. store.generate_id s ≡ (ok id, z)) same p in
      let (fresh, n, lt, v) = laws.generate_id s u id room p' in
      let e : inl (saves_new clock (with_id (clock 0) id new) id) ≡ x = cc in
      (
        subst IsSound (end_of p') (laws.keeps.generate_id s sound),
        settle (creates clock new) e v (creates-Moved (view s) keyed clock new id n fresh lt),
      )

  save-Done :
      (t y : Thread V) (job : JobInfo V) (x : Thread V ⊎ Answer V)
      → ((id : ℕ) → holds id y ≤ holds id t)
      → (store.save_job job >> pure (inl y)) s ≡ (ok x, u)
      → Done t x
  save-Done t y job x le h =
      let (_, p, e) = ends_with (store.save_job job) (inl y) x s u h in
      (
        subst IsSound (end_of p) (laws.keeps.save_job job s sound),
        settle t e (laws.save_job job s u p) (put-Moved (view s) keyed t (inl y) job le),
      )

  queue-Done :
      (t y : Thread V) (queue : String) (i : ℕ) (x : Thread V ⊎ Answer V)
      → ((id : ℕ) → holds id t ≡ one i id)
      → ((id : ℕ) → holds id y ≡ 0)
      → (store.queue_job queue i >> pure (inl y)) s ≡ (ok x, u)
      → Done t x
  queue-Done t y queue i x had gone h =
      let (_, p, e) = ends_with (store.queue_job queue i) (inl y) x s u h in
      (
        subst IsSound (end_of p) (laws.keeps.queue_job queue i s sound),
        settle t e (laws.queue_job queue i s u p)
            (enqueue-Moved (view s) keyed t (inl y) queue i had gone),
      )

  count-Done :
      (t : Thread V) (y : Answer V) (clock : Clock) (f : Stats.Stats → Stats.Stats)
      (x : Thread V ⊎ Answer V)
      → ((id : ℕ) → left id (inr y) ≤ holds id t)
      → (store.update_stats clock f >> pure (inr y)) s ≡ (ok x, u)
      → Done t x
  count-Done t y clock f x le h =
      let (_, p, e) = ends_with (store.update_stats clock f) (inr y) x s u h in
      (
        subst IsSound (end_of p) (laws.keeps.update_stats clock f s sound),
        settle t e (laws.update_stats clock f s u p)
            (tally-Moved (view s) keyed t (inr y) f clock le),
      )

  deletes-Done :
      (clock : Clock) (count : Stats.Stats → Stats.Stats) (i : ℕ) (x : Thread V ⊎ Answer V)
      → operate chrono store view (deletes clock count i) s ≡ (ok x, u)
      → Done (deletes clock count i) x
  unfolding advance
  deletes-Done clock count i x h =
      let t : Thread V = deletes clock count i in
      let y : Thread V ⊎ Answer V = inl (counts_deleted clock count) in
      let (_, p, e) = ends_with (store.delete_job i) y x s u h in
      (
        subst IsSound (end_of p) (laws.keeps.delete_job i s sound),
        settle t e (laws.delete_job i s u p) (forget-Moved (view s) keyed t y i (λ k. refl)),
      )

  takes-Done :
      (clock : Clock) (runner_id : ℕ) (started : JobInfo V) (x : Thread V ⊎ Answer V)
      → (one started.id started.id + waits started.id (view s) ≤ 1)
      → operate chrono store view (takes clock runner_id started) s ≡ (ok x, u)
      → Done (takes clock runner_id started) x
  unfolding advance
  takes-Done clock runner_id started x most h =
      let t : Thread V = takes clock runner_id started in
      let y : Thread V ⊎ Answer V = inl (saves_started clock started) in
      let mine : holds started.id t ≡ 1 = rw (beq_refl started.id) refl in
      let free = in_hand t started.id (view s) mine most in
      let (_, p, e) = ends_with (store.run_job started.id runner_id) y x s u h in
      (
        subst IsSound (end_of p) (laws.keeps.run_job started.id runner_id s sound),
        settle t e (laws.run_job started.id runner_id s u free p)
            (stays-Moved (view s) keyed t y (λ k. omega arith)),
      )

  -- A stored job is read.
  reads-Done :
      (t : Thread V) (i : ℕ) (f : Option (JobInfo V) → Exec S E (Thread V ⊎ Answer V))
      (x : Thread V ⊎ Answer V)
      → ((o : Option (JobInfo V)) (w : S)
          → f o w ≡ (ok x, u)
          → (w ≡ u) × ((id : ℕ) → left id x ≤ holds id t))
      → (store.fetch_job i >>= f) s ≡ (ok x, u)
      → Done t x
  reads-Done t i f x next h =
      let (o, w, p, q) = >>=-eq-ok (store.fetch_job i) f s u x h in
      let (same, le) = next o w q in
      let (_, v) = laws.fetch_job i s w o p in
      (
        subst IsSound (end_of p ∙ same) (laws.keeps.fetch_job i s sound),
        settle t refl (ap view (sym same) ∙ v) (stays-Moved (view s) keyed t x le),
      )

  retried :
      (clock : Clock) (i : ℕ) (x : Thread V ⊎ Answer V) (w : S) (again : Bool) (counted : JobInfo V)
      → (if again
            then pure {E = E} (inl (requeues clock counted i))
            else pure (inl (deletes clock (Stats.fail_job chrono (clock 5)) i)))
          w
        ≡ (ok x, u)
      → (w ≡ u) × ((id : ℕ) → left id x ≤ one i id)
  retried clock i x w true counted h =
      let e : x ≡ inl (requeues clock counted i) = cc in (cc, λ id. rw e (omega arith))
  retried clock i x w false counted h =
      let e : x ≡ inl (deletes clock (Stats.fail_job chrono (clock 5)) i) = cc in
      (cc, λ id. rw e (omega arith))

  retries_lem :
      (clock : Clock) (i : ℕ) (x : Thread V ⊎ Answer V) (o : Option (JobInfo V)) (w : S)
      → retries chrono store (λ t. pure (inl t)) (λ a. pure (inr a)) clock i o w ≡ (ok x, u)
      → (w ≡ u) × ((id : ℕ) → left id x ≤ one i id)
  unfolding retries
  retries_lem clock i x none w h = let e : x ≡ inr returned = cc in (cc, λ id. rw e (omega arith))
  retries_lem clock i x (some job) w h =
      let (answer, w₁, p, q) = >>=-eq-ok (or_panic (needs_retry chrono clock job)) _ w u x h in
      let (_, same) = or_panic-eq-ok {E = E} (needs_retry chrono clock job) w w₁ answer p in
      let (still, le) = retried clock i x w₁ answer.0 answer.1 q in (sym same ∙ still, le)

  puts_back_lem :
      (clock : Clock) (i : ℕ) (x : Thread V ⊎ Answer V) (o : Option (JobInfo V)) (w : S)
      → puts_back chrono store (λ t. pure (inl t)) (λ a. pure (inr a)) clock i o w ≡ (ok x, u)
      → (w ≡ u) × ((id : ℕ) → left id x ≤ one i id)
  unfolding puts_back
  puts_back_lem clock i x none w h = let e : x ≡ inr returned = cc in (cc, λ id. rw e (omega arith))
  puts_back_lem clock i x (some job) w h =
      let e : x ≡ inl (requeues clock (set_pending (clock 0) job) i) = cc in
      (cc, λ id. rw e (omega arith))

  decides_lem :
      (clock : Clock) (queue : String) (runner_id : ℕ) (x : Thread V ⊎ Answer V) (w : S)
      (job : JobInfo V)
      → decides chrono store
          (λ t. pure (inl t))
          (λ a. pure (inr a))
          clock
          queue
          runner_id
          (some job)
          w
        ≡ (ok x, u)
      → (w ≡ u) × ((id : ℕ) → left id x ≤ one job.id id)
  unfolding decides run
  decides_lem clock queue runner_id x w job h = elim (Bool-cases (admits clock queue job)) [
    | inl fit ↦
        let q : pure {E = E} (inl (takes clock runner_id (run (clock 2) job))) w ≡ (ok x, u) =
          rw fit at h in
        let e : x ≡ inl (takes clock runner_id (run (clock 2) job)) = cc in
        (cc, λ id. rw e (omega arith))
    | inr unfit ↦
        let q : pure {E = E} (inr refused) w ≡ (ok x, u) = rw unfit at h in
        let e : x ≡ inr refused = cc in (cc, λ id. rw e (omega arith))
  ]

  looked :
      (clock : Clock) (queue : String) (runner_id : ℕ) (x : Thread V ⊎ Answer V) (w : S)
      (o : Option (JobInfo V))
      → Fetched (clock 0) queue o (view s) (view w)
      → decides chrono store (λ t. pure (inl t)) (λ a. pure (inr a)) clock queue runner_id o w
        ≡ (ok x, u)
      → (w ≡ u) × Moved (looks clock queue runner_id) x (view s) (view u)
  unfolding decides
  looked clock queue runner_id x w none (n, le, (same, _)) h =
      let e : inr refused ≡ x = cc in
      let still : w ≡ u = cc in
      (
        still,
        settle (looks clock queue runner_id) e (ap view (sym still) ∙ same)
            (issue-Moved (view s) keyed clock queue runner_id n le),
      )
  looked clock queue runner_id x w (some job) (n, le, (kept, waited, same)) h =
      let (still, most) = decides_lem clock queue runner_id x w job h in
      (
        still,
        settle (looks clock queue runner_id) refl (ap view (sym still) ∙ same)
            (fetched-Moved (view s) keyed clock queue runner_id job x n le waited most),
      )

  looks-Done :
      (clock : Clock) (queue : String) (runner_id : ℕ) (x : Thread V ⊎ Answer V)
      → operate chrono store view (looks clock queue runner_id) s ≡ (ok x, u)
      → Done (looks clock queue runner_id) x
  unfolding advance
  looks-Done clock queue runner_id x h =
      let (o, w, p, q) = >>=-eq-ok (store.fetch_job_from_queue (clock 0) queue) _ s u x h in
      let found = laws.fetch_job_from_queue (clock 0) queue s w o sound keyed p in
      let (still, m) = looked clock queue runner_id x w o found q in
      (
        subst IsSound (end_of p ∙ still) (laws.keeps.fetch_job_from_queue (clock 0) queue s sound),
        m,
      )

  -- An operation that succeeds keeps the store sound, and moves a job at most.
  pub operate-Done :
      (t : Thread V) (x : Thread V ⊎ Answer V)
      → HasRoom (view s) t
      → ((id : ℕ) → holds id t + waits id (view s) ≤ 1)
      → operate chrono store view t s ≡ (ok x, u)
      → Done t x
  unfolding advance
  operate-Done (creates clock new) x room most h = creates-Done clock new x room h
  operate-Done (saves_new clock job i) x _ most h =
      save-Done (saves_new clock job i) (queues_new clock job.queue i) job x (λ k. omega arith) h
  operate-Done (queues_new clock queue i) x _ most h =
      queue-Done (queues_new clock queue i) (counts_new clock i) queue i x (λ k. refl) (λ k. refl) h
  operate-Done (counts_new clock i) x _ most h =
      count-Done (counts_new clock i) (created i) (later 1 clock) Stats.new_job x (λ k. omega arith)
        h
  operate-Done (looks clock queue runner_id) x _ most h = looks-Done clock queue runner_id x h
  operate-Done (takes clock runner_id job) x _ most h =
      takes-Done clock runner_id job x (most job.id) h
  operate-Done (saves_started clock job) x _ most h =
      save-Done (saves_started clock job) (counts_started clock job) job x (λ k. omega arith) h
  operate-Done (counts_started clock job) x _ most h =
      count-Done (counts_started clock job) (handed job) (later 3 clock) Stats.run_job x
        (λ k. omega arith) h
  operate-Done (reads_failed clock i) x _ most h =
      reads-Done (reads_failed clock i) i _ x (retries_lem clock i x) h
  operate-Done (reads_missing clock i) x _ most h =
      reads-Done (reads_missing clock i) i _ x (puts_back_lem clock i x) h
  operate-Done (deletes clock count i) x _ most h = deletes-Done clock count i x h
  operate-Done (counts_deleted clock count) x _ most h =
      count-Done (counts_deleted clock count) returned (later 3 clock) count x (λ k. omega arith) h
  operate-Done (requeues clock job i) x _ most h =
      queue-Done (requeues clock job i) (saves_again clock job) job.queue i x (λ k. refl)
        (λ k. refl) h
  operate-Done (saves_again clock job) x _ most h =
      save-Done (saves_again clock job) (counts_again clock) job x (λ k. omega arith) h
  operate-Done (counts_again clock) x _ most h =
      count-Done (counts_again clock) returned (later 3 clock) Stats.retry_job x (λ k. omega arith)
        h
