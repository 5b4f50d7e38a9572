-- ===== src/Pool/Life.antt =====
-- jobs-actix/src/lib.rs, server.rs and worker.rs over jobs-core: one round in the life of a job, from
-- `QueueHandle::queue` over the server, a worker and the user's function back to the store in memory.
pub mod Left
use backjob.Common.{
  ℕ, ◌+◌, ◌%◌, ◌^◌, ◌<◌, String, ◌≡◌, ◌≢◌, ◌⊎◌, refl, sym, subst, ap, ◌∙◌, Bool, true, false,
  Option, none, some, List, [], ◌∷◌, ◌++◌, string_eq, nat_eq, arith, Bool-cases, Option-cases, inl,
  inr, if◌then◌else◌, ◌==◌, beq_refl, beq_iff,
}
use backjob.Common.HashMap.{Iteration, get}
use backjob.Outcome.{Outcome, ok}
use backjob.Chrono.{Chrono, Clock, later, as_i64}
use backjob.Job.{JobResult, success, failure, pending, compare, should_requeue}
use backjob.JobInfo.{
  backoff_secs, JobInfo, NewJobInfo, ReturnJobInfo, with_id, run, is_unscheduled, needs_retry, pass,
  fail,
}
use backjob.JobInfo.Retry.{Adds, id-needs_retry, status-needs_retry}
use backjob.Stats.{fail_job}
use backjob.Storage.Trait.{new_job, request_job, return_job}
use backjob.Storage.Spec.{Spec, Returned, Retried, issue, put, tally, dequeue, forget, requeued}
use backjob.Storage.Valid.{IsValid}
use backjob.Storage.Total.{Arrives, FailsLate, return_job-Goes}
use backjob.Storage.Refines.{request_job-Spec, return_job-Spec}
use backjob.Processor.{Future, item, error, Serde, RoundTrips, Job, Processor}
use backjob.Processor
use backjob.ProcessorMap.{ProcessorMap, register_processor, process_job}
use backjob.ProcessorMap.Dispatch.{process_job-answer, process_job-new_job}
use backjob.Memory.{Inner, Never, fetch_job, storage}
use backjob.Memory.View.{view, storage-Laws}
use backjob.Memory.Total.{storage-IsTotal}
use backjob.Actix.{ActixStorage, storage_wrapper, map_err}
use backjob.Server.{
  Worker, Server, Message, waiting, send, with_entry, handle_new_job, handle_returning_job, handle,
}
use backjob.Server
use backjob.Server.Handing.{stored, stored-IsValid, stored-queued, stored-jobs, handle_new_job-asks}
use backjob.Workers.{LocalWorker, handle_process_job}
use backjob.Pool.{queue}
use backjob.Pool.Life.Left.{answer_of, Ends, Returned-Ends}

-- A new job as it is started.
abbrev pub first_run : {V : Type 0} → Clock → ℕ → NewJobInfo V → JobInfo V
first_run clock id new = run (clock 5) (with_id (clock 0) id new)

module _ {V : Type 0} (order : Iteration ℕ String) (chrono : Chrono) (clock : Clock)
    (new : NewJobInfo V) (s : Inner V) (room : s.count + 1 < 2 ^ 64)
    (alone : (k : ℕ) → (view s).queued k ≢ some new.queue) where
  only :
      (job : JobInfo V)
      → (view (stored order chrono clock new s)).queued job.id ≡ some new.queue
      → (view (stored order chrono clock new s)).jobs job.id ≡ some job
      → job ≡ with_id (clock 0) s.count new
  only job q h =
      let q' = sym (stored-queued order chrono clock new s room job.id) ∙ q in
      let h' = sym (stored-jobs order chrono clock new s room job.id) ∙ h in
      elim (Bool-cases (s.count == job.id)) [
        | inl hit ↦ let same : some (with_id (clock 0) s.count new) ≡ some job = rw hit at h' in cc
        | inr miss ↦ absurd (alone job.id (rw miss at q'))
      ]

  -- If nothing else waits in the queue, a request right after the new job answers with that job, which
  -- is stored as it was started.
  request_job-new :
      (runner_id : ℕ) (job : JobInfo V) (u : Inner V)
      → IsValid (view s)
      → request_job chrono
          (storage order)
          (later 3 clock)
          new.queue
          runner_id
          (stored order chrono clock new s)
        ≡ (ok (some job), u)
      → (job ≡ first_run clock s.count new)
        × ((view u).jobs s.count ≡ some (first_run clock s.count new))
  unfolding run with_id
  request_job-new runner_id job u v h =
      let (n, _, (old, (kept, waits), _, started, e)) =
        request_job-Spec (storage-Laws order) chrono (later 3 clock) new.queue runner_id
          (stored order chrono clock new s) u (some job) tt
          (stored-IsValid order chrono clock new s v room).keyed h in
      let same : old ≡ with_id (clock 0) s.count new = only old waits kept in
      let is_first : job ≡ first_run clock s.count new = started ∙ ap (run (clock 5)) same in
      let own : job.id ≡ s.count = ap (λ (j : JobInfo V). j.id) is_first in
      (
        is_first,
        ap (λ (a : Spec V). a.jobs s.count) e
            ∙ rw ((beq_iff job.id s.count).1 own) (ap some is_first),
      )

-- What is fetched is what is stored.
fetched :
    {V : Type 0} (id : ℕ) (old sent : JobInfo V) (u : Inner V)
    → (view u).jobs id ≡ some sent
    → fetch_job id u ≡ (ok (some old), u)
    → old ≡ sent
unfolding fetch_job
fetched id old sent u kept h = cc

-- The handle, a server, a worker and the user's function.
module _ {J V State Cause : Type 0} (serde : Serde J V) (jobs : Job J State Cause)
    (p : Processor) where
  pub queued_is :
      (job : J) (new : NewJobInfo V)
      → queue serde jobs p job ≡ some (Message.new_job new)
      → Processor.new_job serde jobs p job ≡ some new
  unfolding queue Processor.new_job
  queued_is job new h = elim (Option-cases (serde.to_value job)) [
    | inl e ↦ absurd (ground arith)
    | inr (v, e) ↦ ground arith
  ]

  unscheduled :
      (job : J) (new : NewJobInfo V)
      → Processor.new_job serde jobs p job ≡ some new
      → is_unscheduled new ≡ true
  unfolding Processor.new_job is_unscheduled
  unscheduled job new made = ground arith

  -- On a worker with the job's processor, a job is worked on as it was made.
  process_job-first_run :
      (pm : ProcessorMap V State Cause) (n : ℕ) (clock : Clock) (id : ℕ) (job : J)
      (new : NewJobInfo V)
      → RoundTrips serde
      → get p.name pm.inner ≡ some (Processor.process serde jobs)
      → Processor.new_job serde jobs p job ≡ some new
      → process_job pm n (first_run clock id new) ≡ answer_of (jobs.run job (pm.state_fn n)) id
  unfolding process_job run
  process_job-first_run pm n clock id job new trips registered made =
      process_job-new_job serde jobs p job pm n (clock 0) id new trips registered made

-- An answer of a failure is that of a function that came to an error.
failed_by :
    {E : Type 0} (future : Future (Unit {0}) E) (id : ℕ)
    → (answer_of future id).result ≡ failure
    → (e : E) × (future ≡ error e)
failed_by (item a) id h = absurd (cc)
failed_by (error e) id h = (e, refl)

module _ {J V State Cause F : Type 0} (serde : Serde J V) (jobs : Job J State Cause) (p : Processor)
    (order : Iteration ℕ String) (chrono : Chrono) (from : Never → F) where
  abbrev actix : ActixStorage (Inner V) F V
  actix = storage_wrapper from chrono (storage order)

  returns :
      (late : Clock) (r : ReturnJobInfo) (t : Server (Inner V) V)
      → ¬ FailsLate (storage-IsTotal order) chrono late r t.storage
      → (u : Server (Inner V) V) × (handle_returning_job actix late r t ≡ (ok tt, u))
        × Returned chrono late r.id r.result (view t.storage) (view u.storage)
  unfolding handle_returning_job
  returns late r t early =
      let (_, v, e, _) : Arrives (λ _. Unit {0}) (return_job chrono (storage order) late r)
          t.storage =
        elim (return_job-Goes (storage-IsTotal order) chrono late r t.storage tt) [
          | inl done ↦ done
          | inr (_, over) ↦ absurd (early over)
        ] in
      (
        record t { storage = v },
        ap
            (λ (x : Outcome Never (Unit {0}) × Inner V).
              (map_err from x.0, record t { storage = x.1 }))
            e,
        return_job-Spec (storage-Laws order) chrono late r t.storage v e,
      )

  -- The return of a first run does not panic, if the sum that its failure makes can be made.
  never_late :
      (clock late : Clock) (id n : ℕ) (job : J) (new : NewJobInfo V)
      (pm : ProcessorMap V State Cause) (s : Inner V)
      → process_job pm n (first_run clock id new) ≡ answer_of (jobs.run job (pm.state_fn n)) id
      → (view s).jobs id ≡ some (first_run clock id new)
      → ((e : Cause)
          → jobs.run job (pm.state_fn n) ≡ error e
          → should_requeue (compare new.max_retries 1) ≡ true
          → Adds chrono late new.backoff_strategy 1)
      → ¬ FailsLate
          (storage-IsTotal order)
          chrono
          late
          (process_job pm n (first_run clock id new))
          s
  unfolding run with_id
  never_late clock late id n job new pm s answer kept adds (lost, (old, stored, (more, none_))) =
      let (x, ran) =
        failed_by (jobs.run job (pm.state_fn n)) id
          (ap (λ (q : ReturnJobInfo). q.result) (sym answer) ∙ lost) in
      let same : old ≡ first_run clock id new = fetched id old (first_run clock id new) s kept (
        subst (λ k. fetch_job k s ≡ (ok (some old), s))
          (process_job-answer pm n (first_run clock id new)).0 stored) in
      let (sum, added) = adds x ran (
        subst
          (λ (j : JobInfo V).
            should_requeue (compare j.max_retries ((j.retry_count + 1) % 2 ^ 32)) ≡ true)
          same more) in
      let over =
        subst
          (λ (j : JobInfo V).
            chrono.add_seconds (late 2)
              (as_i64 (backoff_secs j.backoff_strategy ((j.retry_count + 1) % 2 ^ 32)))
            ≡ none)
          same none_ in
      absurd (cc)

  -- Over a valid store in memory with identifiers left, if JSON reads back what it writes: a job that
  -- the handle queues, in whose queue nothing else waits and for which a worker waits whose processors
  -- have the job's one under its name, and whose first backoff can be added to the reading if the user's
  -- function fails and the limit allows a retry, is sent to the worker
  -- that waited longest; and the message with which that worker answers it is handled with success,
  -- and leaves nothing of the job if the user's function went well. If it failed, the job is back in its
  -- queue, pending and counted once, if its limit allows a retry, and gone if not.
  pub queue-Ends :
      (job : J) (new : NewJobInfo V) (worker : Worker) (rest : List Worker) (s : Server (Inner V) V)
      (walk : Iteration String (List Worker)) (clocks lates : ℕ → Clock) (n : ℕ)
      (actor : LocalWorker V State Cause)
      → RoundTrips serde
      → ((e : Cause)
          → jobs.run job (actor.processors.state_fn n) ≡ error e
          → should_requeue (compare new.max_retries 1) ≡ true
          → Adds chrono (lates 0) new.backoff_strategy 1)
      → queue serde jobs p job ≡ some (Message.new_job new)
      → IsValid (view s.storage)
      → s.storage.count + 1 < 2 ^ 64
      → waiting new.queue s ≡ worker ∷ rest
      → ((k : ℕ) → (view s.storage).queued k ≢ some new.queue)
      → get p.name actor.processors.inner ≡ some (Processor.process serde jobs)
      → (let sent = first_run (clocks 0) s.storage.count new in
          (t : Server (Inner V) V) × (u : Server (Inner V) V) × (handle actix walk clocks
              (Message.new_job new)
              s
            ≡ (ok tt, t))
          × (t.sent ≡ s.sent ++ (worker, sent) ∷ [])
          × (handle actix walk lates
                (Message.returning_job (handle_process_job worker.addr n sent actor).0)
                t
              ≡ (ok tt, u))
          × Ends (jobs.run job (actor.processors.state_fn n)) sent (view u.storage))
  unfolding handle handle_process_job run with_id
  queue-Ends job new worker rest s walk clocks lates n actor trips adds queued v room were alone
        registered =
      let sent = first_run (clocks 0) s.storage.count new in
      let made = queued_is serde jobs p job new queued in
      let (started, u₁, asked, handled) =
        handle_new_job-asks order chrono (clocks 0) new from worker rest s v room
          (unscheduled serde jobs p job new made) were (λ i j q. absurd (alone i q)) in
      let (same, kept) =
        request_job-new order chrono (clocks 0) new s.storage room alone worker.id started u₁ v
          asked in
      let answer : process_job actor.processors n sent
          ≡ answer_of (jobs.run job (actor.processors.state_fn n)) s.storage.count =
        process_job-first_run serde jobs p actor.processors n (clocks 0) s.storage.count job new
          trips registered made in
      let t = send worker sent (with_entry new.queue rest u₁ s) in
      let r = process_job actor.processors n sent in
      let early =
        never_late (clocks 0) (lates 0) s.storage.count n job new actor.processors u₁ answer kept
          adds in
      let (u, handled', e) = returns (lates 0) r t early in
      (
        t,
        u,
        handled ∙ ap (λ j. (ok tt, send worker j (with_entry new.queue rest u₁ s))) same,
        refl,
        handled',
        Returned-Ends chrono (lates 0) (jobs.run job (actor.processors.state_fn n)) sent (view u₁)
            (view u.storage) kept refl
            (subst
              (λ (q : ReturnJobInfo).
                Returned chrono (lates 0) q.id q.result (view u₁) (view u.storage))
              answer e),
      )
