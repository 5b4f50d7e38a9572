-- ===== src/Workers.antt =====
-- jobs-actix/src/lib.rs, `WorkerConfig`, and jobs-actix/src/worker.rs: which workers are started,
-- and what a worker does with a job. The program's map of queues is a `BTreeMap`, which is walked
-- in the order of its keys.
pub mod Numbers
pub mod Started
use backjob.Common.{
  ℕ, zero, suc, ◌+◌, ◌^◌, ◌%◌, String, Option, none, some, List, [], ◌∷◌, ◌++◌, map, string_eq,
}
use backjob.Common.HashMap
use backjob.Common.HashMap.{HashMap, Iteration, insert}
use backjob.JobInfo.{JobInfo, ReturnJobInfo}
use backjob.Processor.{Processor}
use backjob.ProcessorMap
use backjob.ProcessorMap.{ProcessorMap, ProcessFn, register_processor, process_job}
use backjob.Server.{Worker}

pub record WorkerConfig (V State Cause : Type 0) : Type 0 where
  pub processors : ProcessorMap V State Cause
  pub queues : HashMap String ℕ

-- `LocalWorker`, without the address of the server.
pub record LocalWorker (V State Cause : Type 0) : Type 0 where
  pub id : ℕ
  pub queue : String
  pub processors : ProcessorMap V State Cause

module _ {V State Cause : Type 0} where
  unfoldable pub new : (ℕ → State) → WorkerConfig V State Cause
  unfolding ProcessorMap.new
  new state_fn = record { processors = ProcessorMap.new state_fn; queues = HashMap.empty }

  -- Every queue starts with four workers.
  unfoldable pub register :
      Processor → ProcessFn V State Cause → WorkerConfig V State Cause → WorkerConfig V State Cause
  register p process config = record {
    processors = register_processor p.name process config.processors;
    queues = insert p.queue 4 config.queues;
  }

  unfoldable pub set_processor_count :
      String → ℕ → WorkerConfig V State Cause → WorkerConfig V State Cause
  set_processor_count queue count config = record config {
    queues = insert queue count config.queues;
  }

  -- `(0..count).for_each`, from the `i`-th worker of the queue on. Numbers are 64 bits wide.
  unfoldable pub start_queue :
      ProcessorMap V State Cause → ℕ → String → ℕ → ℕ → List (LocalWorker V State Cause)
  start_queue processors acc queue i zero = []
  start_queue processors acc queue i (suc left) =
      record { id = ((acc + i) % 2 ^ 64 + 1000) % 2 ^ 64; queue = queue; processors = processors }
      ∷ start_queue processors acc queue (i + 1) left

  -- The `fold` over the queues.
  unfoldable pub start_queues :
      ProcessorMap V State Cause → ℕ → List (String × ℕ) → List (LocalWorker V State Cause)
  unfolding start_queue
  start_queues processors acc [] = []
  start_queues processors acc ((queue, count) ∷ rest) =
      start_queue processors acc queue 0 count
      ++ start_queues processors ((acc + count) % 2 ^ 64) rest

  unfoldable pub start :
      Iteration String ℕ → WorkerConfig V State Cause → List (LocalWorker V State Cause)
  unfolding start_queues
  start order config = start_queues config.processors 0 (order.iter config.queues)

  -- The same fold; each worker is started in the arbiter.
  unfoldable pub start_in_arbiter :
      {Arbiter : Type 0}
      → Arbiter
      → Iteration String ℕ
      → WorkerConfig V State Cause
      → List (Arbiter × LocalWorker V State Cause)
  unfolding start_queues
  start_in_arbiter arbiter order config =
      map (λ worker. (arbiter, worker))
        (start_queues config.processors 0 (order.iter config.queues))

  -- The handle of the worker whose actor has this address, which it sends with `RequestJob` when it
  -- starts and after each job.
  unfoldable pub handle_of : ℕ → LocalWorker V State Cause → Worker
  handle_of addr worker = record { addr = addr; id = worker.id; queue = worker.queue }

  -- The messages that a worker sends for a job, the `n`-th that its processors are called for:
  -- what became of the job, and then the request for another one.
  unfoldable pub handle_process_job :
      ℕ → ℕ → JobInfo V → LocalWorker V State Cause → ReturnJobInfo × Worker
  unfolding handle_of
  handle_process_job addr n job worker =
      (process_job worker.processors n job, handle_of addr worker)
