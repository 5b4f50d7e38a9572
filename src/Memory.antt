-- ===== src/Memory.antt =====
-- jobs-core/src/storage.rs, `memory_storage`: the store over hash maps, whose operations cannot
-- fail. Each takes the lock of the store for its whole body. `run_job` is about `worker_ids`, which
-- nothing reads back.
pub mod View
pub mod Requests
pub mod Total
use backjob.Common.{
  ℕ, ◌+◌, ◌^◌, ◌%◌, String, Option, none, some, List, [], ◌∷◌, ◌==◌, nat_eq, string_eq,
  if◌then◌else◌,
}
use backjob.Common.HashMap
use backjob.Common.HashMap.{HashMap, Iteration, get, insert, remove}
use backjob.Outcome.{Outcome, Exec, ok}
use backjob.Chrono.{Clock}
use backjob.JobInfo.{JobInfo}
use backjob.Stats
use backjob.Stats.{Stats}
use backjob.Storage.Trait.{Storage}

-- The error type without values.
pub data Never : Type 0 where

pub record Inner (V : Type 0) : Type 0 where
  pub count : ℕ
  pub jobs : HashMap ℕ (JobInfo V)
  pub queues : HashMap ℕ String
  pub worker_ids : HashMap ℕ ℕ
  pub worker_ids_inverse : HashMap ℕ ℕ
  pub stats : Stats

module _ {V : Type 0} where
  -- `Storage::new`
  unfoldable pub new : Clock → Inner V
  new clock = record {
    count = 0;
    jobs = HashMap.empty;
    queues = HashMap.empty;
    worker_ids = HashMap.empty;
    worker_ids_inverse = HashMap.empty;
    stats = Stats.default clock;
  }

  -- `wrapping_add`
  unfoldable pub generate_id : Exec (Inner V) Never ℕ
  generate_id inner = (ok inner.count, record inner { count = (inner.count + 1) % 2 ^ 64 })

  unfoldable pub save_job : JobInfo V → Exec (Inner V) Never (Unit {0})
  save_job job inner = (ok tt, record inner { jobs = insert job.id job inner.jobs })

  unfoldable pub fetch_job : ℕ → Exec (Inner V) Never (Option (JobInfo V))
  fetch_job id inner = (ok (get id inner.jobs), inner)

  -- The first entry of the walk that is of the queue and has a stored job.
  unfoldable pub first_match :
      String → HashMap ℕ (JobInfo V) → List (ℕ × String) → Option (JobInfo V)
  first_match queue jobs [] = none
  first_match queue jobs ((k, q) ∷ rest) =
      let others = first_match queue jobs rest in
      if q == queue then elim (get k jobs) [ some j ↦ some j | none ↦ others ] else others

  unfoldable pub drop_from_queue : Option (JobInfo V) → Inner V → Inner V
  drop_from_queue none inner = inner
  drop_from_queue (some j) inner = record inner { queues = remove j.id inner.queues }

  -- The walk over `queues` is in the order of `order`.
  unfoldable pub fetch_job_from_queue :
      Iteration ℕ String → String → Exec (Inner V) Never (Option (JobInfo V))
  unfolding first_match drop_from_queue
  fetch_job_from_queue order queue inner =
      let j = first_match queue inner.jobs (order.iter inner.queues) in
      (ok j, drop_from_queue j inner)

  unfoldable pub queue_job : String → ℕ → Exec (Inner V) Never (Unit {0})
  queue_job queue id inner = (ok tt, record inner { queues = insert id queue inner.queues })

  unfoldable pub run_job : ℕ → ℕ → Exec (Inner V) Never (Unit {0})
  run_job id worker_id inner = (
    ok tt,
    record inner {
      worker_ids = insert id worker_id inner.worker_ids;
      worker_ids_inverse = insert worker_id id inner.worker_ids_inverse;
    },
  )

  unfoldable pub delete_job : ℕ → Exec (Inner V) Never (Unit {0})
  delete_job id inner = (
    ok tt,
    record inner {
      jobs = remove id inner.jobs;
      queues = remove id inner.queues;
      worker_ids = remove id inner.worker_ids;
      worker_ids_inverse = elim (get id inner.worker_ids) [
        | none ↦ inner.worker_ids_inverse
        | some worker_id ↦ remove worker_id inner.worker_ids_inverse
      ];
    },
  )

  unfoldable pub get_stats : Inner V → Outcome Never Stats
  get_stats inner = ok inner.stats

  unfoldable pub update_stats : (Stats → Stats) → Exec (Inner V) Never (Unit {0})
  update_stats f inner = (ok tt, record inner { stats = f inner.stats })

  abbrev pub storage : Iteration ℕ String → Storage (Inner V) Never V
  storage order = record {
    generate_id = generate_id;
    save_job = save_job;
    fetch_job = fetch_job;
    fetch_job_from_queue = λ now. fetch_job_from_queue order;
    queue_job = queue_job;
    run_job = run_job;
    delete_job = delete_job;
    get_stats = λ clock. get_stats;
    update_stats = λ clock. update_stats;
  }
