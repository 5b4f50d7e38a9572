-- ===== src/Storage/Spec.antt =====
-- The abstract store behind the trait `Storage` of jobs-core/src/storage.rs: what can be seen of a
-- store, the change that each operation stands for, and the laws that a store has to obey.
use backjob.Common.{
  ℕ, ◌+◌, ◌^◌, ◌≤◌, ◌<◌, String, ◌≡◌, ◌⊎◌, Bool, true, false, ◌&&◌, Option, none, some, ◌==◌,
  nat_eq, if◌then◌else◌,
}
use backjob.Outcome.{Exec, ok}
use backjob.Chrono.{Chrono, Clock, later}
use backjob.Job.{JobResult, success, failure, missing_processor}
use backjob.JobInfo.{JobInfo, is_pending, is_ready, is_in_queue, run, set_pending, needs_retry}
use backjob.Stats
use backjob.Stats.{Stats}
use backjob.Storage.Trait.{Storage}

-- The stored jobs, the queue that each job waits in, a bound on the identifiers given out, and
-- what `get_stats` answers.
pub record Spec (V : Type 0) : Type 0 where
  pub jobs : ℕ → Option (JobInfo V)
  pub queued : ℕ → Option String
  pub next_id : ℕ
  pub stats : Clock → Stats

abbrev pub update {ℓ} : {A : Type ℓ} → ℕ → A → (ℕ → A) → ℕ → A
update i a f k = if i == k then a else f k

module _ {V : Type 0} where
  abbrev pub issue : ℕ → Spec V → Spec V
  issue n a = record a { next_id = n }

  abbrev pub put : JobInfo V → Spec V → Spec V
  put job a = record a { jobs = update job.id (some job) a.jobs }

  abbrev pub enqueue : String → ℕ → Spec V → Spec V
  enqueue queue id a = record a { queued = update id (some queue) a.queued }

  abbrev pub dequeue : ℕ → Spec V → Spec V
  dequeue id a = record a { queued = update id none a.queued }

  abbrev pub forget : ℕ → Spec V → Spec V
  forget id a = record a { jobs = update id none a.jobs; queued = update id none a.queued }

  abbrev pub tally : (Stats → Stats) → Clock → Spec V → Spec V
  tally f clock a = record a { stats = λ _. f (a.stats clock) }

  -- Every job is stored under its own identifier.
  abbrev pub IsKeyed : Spec V → Type 0
  IsKeyed a = (k : ℕ) (j : JobInfo V) → a.jobs k ≡ some j → j.id ≡ k

  abbrev pub Fetches : ℕ → String → Option (JobInfo V) → Spec V → Spec V → Type 0
  Fetches now queue none a b =
      (b ≡ a)
      × ((k : ℕ) (j : JobInfo V)
          → a.queued k ≡ some queue
          → a.jobs k ≡ some j
          → is_ready now j ≡ false)
  Fetches now queue (some j) a b =
      (a.jobs j.id ≡ some j) × (a.queued j.id ≡ some queue) × (b ≡ dequeue j.id a)

  -- What a fetch from a queue may answer: a job that waits in the queue, which leaves it, or
  -- nothing, and then no job in the queue is ready. Identifiers may be used up on the way.
  abbrev pub Fetched : ℕ → String → Option (JobInfo V) → Spec V → Spec V → Type 0
  Fetched now queue o a b = (n : ℕ) × (a.next_id ≤ n) × Fetches now queue o (issue n a) b

-- What `request_job` may do: a fetched job is started if it passes the test of the method, and if
-- not it stays stored, outside its queue.
module _ {V : Type 0} where
  abbrev pub admits : Clock → String → JobInfo V → Bool
  admits clock queue job = is_pending job && is_ready (clock 1) job && is_in_queue queue job

  abbrev pub Waits : String → JobInfo V → Spec V → Type 0
  Waits queue job a = (a.jobs job.id ≡ some job) × (a.queued job.id ≡ some queue)

  abbrev pub Hands : Clock → String → Option (JobInfo V) → Spec V → Spec V → Type 0
  Hands clock queue none a b =
      ((b ≡ a)
        × ((k : ℕ) (j : JobInfo V)
            → a.queued k ≡ some queue
            → a.jobs k ≡ some j
            → is_ready (clock 0) j ≡ false))
      ⊎ ((job : JobInfo V) × Waits queue job a
          × (admits clock queue job ≡ false)
          × (b ≡ dequeue job.id a))
  Hands clock queue (some started) a b =
      (job : JobInfo V) × Waits queue job a
      × (admits clock queue job ≡ true)
      × (started ≡ run (clock 2) job)
      × (b ≡ tally Stats.run_job (later 3 clock) (put started (dequeue job.id a)))

  abbrev pub HandedOut : Clock → String → Option (JobInfo V) → Spec V → Spec V → Type 0
  HandedOut clock queue o a b = (n : ℕ) × (a.next_id ≤ n) × Hands clock queue o (issue n a) b

  -- A job that goes back to its queue.
  abbrev pub requeued : Clock → ℕ → JobInfo V → Spec V → Spec V
  requeued clock id job a = tally Stats.retry_job (later 3 clock) (put job (enqueue job.queue id a))

-- What `return_job` does.
module _ {V : Type 0} (chrono : Chrono) (clock : Clock) where
  abbrev pub Retried : ℕ → Option (JobInfo V) → Spec V → Spec V → Type 0
  Retried id none a b = b ≡ a
  Retried id (some job) a b =
      (again : Bool) × (counted : JobInfo V) × (needs_retry chrono clock job
        ≡ some (again, counted))
      × (b ≡ (
          if again
          then requeued clock id counted a
          else tally (Stats.fail_job chrono (clock 5)) (later 3 clock) (forget id a)))

  abbrev pub PutBack : ℕ → Option (JobInfo V) → Spec V → Spec V → Type 0
  PutBack id none a b = b ≡ a
  PutBack id (some job) a b = b ≡ requeued clock id (set_pending (clock 0) job) a

  abbrev pub Returned : ℕ → JobResult → Spec V → Spec V → Type 0
  Returned id success a b =
      b ≡ tally (Stats.complete_job chrono (clock 5)) (later 3 clock) (forget id a)
  Returned id failure a b = Retried id (a.jobs id) a b
  Returned id missing_processor a b = PutBack id (a.jobs id) a b

-- What a store keeps of itself, whatever an operation on it answers.
abbrev pub Preserves : {S E A : Type 0} → (S → Type 0) → Exec S E A → Type 0
Preserves {S} IsSound m = (s : S) → IsSound s → IsSound (m s).1

module _ {S E V : Type 0} (store : Storage S E V) (IsSound : S → Type 0) where
  pub record Keeps : Type 0 where
    pub generate_id : Preserves IsSound store.generate_id
    pub save_job : (job : JobInfo V) → Preserves IsSound (store.save_job job)
    pub fetch_job : (id : ℕ) → Preserves IsSound (store.fetch_job id)
    pub fetch_job_from_queue :
        (now : ℕ) (queue : String) → Preserves IsSound (store.fetch_job_from_queue now queue)
    pub queue_job : (queue : String) (id : ℕ) → Preserves IsSound (store.queue_job queue id)
    pub run_job : (id runner_id : ℕ) → Preserves IsSound (store.run_job id runner_id)
    pub delete_job : (id : ℕ) → Preserves IsSound (store.delete_job id)
    pub update_stats :
        (clock : Clock) (f : Stats → Stats) → Preserves IsSound (store.update_stats clock f)

-- The laws: of an operation that succeeds, not that it does.
module _ {S E V : Type 0} (store : Storage S E V) (view : S → Spec V) (IsSound : S → Type 0) where
  pub record Laws : Type 0 where
    pub keeps : Keeps store IsSound
    pub generate_id :
        (s t : S) (id : ℕ)
        → (view s).next_id + 1 < 2 ^ 64
        → store.generate_id s ≡ (ok id, t)
        → ((view s).next_id ≤ id) × (n : ℕ) × (id < n) × (view t ≡ issue n (view s))
    pub save_job :
        (job : JobInfo V) (s t : S) → store.save_job job s ≡ (ok tt, t) → view t ≡ put job (view s)
    pub fetch_job :
        (id : ℕ) (s t : S) (o : Option (JobInfo V))
        → store.fetch_job id s ≡ (ok o, t)
        → (o ≡ (view s).jobs id) × (view t ≡ view s)
    pub fetch_job_from_queue :
        (now : ℕ) (queue : String) (s t : S) (o : Option (JobInfo V))
        → IsSound s
        → IsKeyed (view s)
        → store.fetch_job_from_queue now queue s ≡ (ok o, t)
        → Fetched now queue o (view s) (view t)
    pub queue_job :
        (queue : String) (id : ℕ) (s t : S)
        → store.queue_job queue id s ≡ (ok tt, t)
        → view t ≡ enqueue queue id (view s)
    pub run_job :
        (id runner_id : ℕ) (s t : S)
        → (view s).queued id ≡ none
        → store.run_job id runner_id s ≡ (ok tt, t)
        → view t ≡ view s
    pub delete_job :
        (id : ℕ) (s t : S) → store.delete_job id s ≡ (ok tt, t) → view t ≡ forget id (view s)
    pub get_stats :
        (clock : Clock) (s : S) (x : Stats)
        → store.get_stats clock s ≡ ok x
        → x ≡ (view s).stats clock
    pub update_stats :
        (clock : Clock) (f : Stats → Stats) (s t : S)
        → store.update_stats clock f s ≡ (ok tt, t)
        → view t ≡ tally f clock (view s)
