-- ===== src/Workers/Started.antt =====
-- jobs-actix/src/lib.rs, `WorkerConfig::start`: which queues the workers serve, and how.
use backjob.Common.{
  ℕ, zero, suc, ◌+◌, ◌^◌, ◌%◌, ◌≡◌, refl, some, String, List, [], ◌∷◌, All, All-append, string_eq,
}
use mathlib.Core.List.{Memᴰ}
use backjob.Common.HashMap.{HashMap, Iteration, get}
use backjob.ProcessorMap.{ProcessorMap}
use backjob.Workers.{WorkerConfig, LocalWorker, start_queue, start_queues, start}

module _ {V State Cause : Type 0} (processors : ProcessorMap V State Cause)
    (queues : HashMap String ℕ) where
  -- The worker has these processors and serves one of these queues.
  abbrev pub Serves : LocalWorker V State Cause → Type 0
  Serves worker =
      (worker.processors ≡ processors) × (count : ℕ) × (get worker.queue queues ≡ some count)

  start_queue-Serves :
      (acc : ℕ) (queue : String) (i left count : ℕ)
      → get queue queues ≡ some count
      → All Serves (start_queue processors acc queue i left)
  unfolding start_queue
  start_queue-Serves acc queue i zero count h = tt
  start_queue-Serves acc queue i (suc left) count h =
      ((refl, count, h), start_queue-Serves acc queue (i + 1) left count h)

  start_queues-Serves :
      (acc : ℕ) (l : List (String × ℕ))
      → ((queue : String) (count : ℕ) → Memᴰ (queue, count) l → get queue queues ≡ some count)
      → All Serves (start_queues processors acc l)
  unfolding start_queues
  start_queues-Serves acc [] known = tt
  start_queues-Serves acc ((queue, count) ∷ rest) known =
      All-append Serves (start_queue processors acc queue 0 count)
        (start_queues processors ((acc + count) % 2 ^ 64) rest)
        (start_queue-Serves acc queue 0 count count (known queue count (Memᴰ.head refl)))
        (start_queues-Serves ((acc + count) % 2 ^ 64) rest (λ q n m. known q n (Memᴰ.tail m)))

-- Every worker that is started has the processors of the configuration and serves one of its queues.
pub start-Serves :
    {V State Cause : Type 0} (order : Iteration String ℕ) (config : WorkerConfig V State Cause)
    → All (Serves config.processors config.queues) (start order config)
unfolding start
start-Serves order config =
    start_queues-Serves config.processors config.queues 0 (order.iter config.queues)
      (λ queue count m. order.sound queue count config.queues m)
