-- ===== src/Workers/Numbers.antt =====
-- jobs-actix/src/lib.rs, `WorkerConfig::start`: the numbers of the workers.
use backjob.Common.{
  ℕ, zero, suc, ◌+◌, ◌^◌, ◌%◌, ◌≤◌, ◌≡◌, refl, ap, ap₂, ◌∙◌, String, List, [], ◌∷◌, ◌++◌, map,
  string_eq, arith,
}
use mathlib.Core.List.{map-append}
use backjob.Common.HashMap.{Iteration}
use backjob.ProcessorMap.{ProcessorMap}
use backjob.Workers.{WorkerConfig, LocalWorker, start_queue, start_queues, start}

-- `n` numbers from `first` on.
abbrev pub count_up : ℕ → ℕ → List ℕ
count_up first zero = []
count_up first (suc n) = first ∷ count_up (first + 1) n

count_up-append :
    (first m n : ℕ) → count_up first m ++ count_up (first + m) n ≡ count_up first (m + n)
count_up-append first zero n = ap₂ count_up (omega arith) (omega arith)
count_up-append first (suc m) n =
    let from : first + suc m ≡ first + 1 + m = omega arith in
    let all : suc (m + n) ≡ suc m + n = omega arith in
    ap (λ k. first ∷ (count_up (first + 1) m ++ count_up k n)) from
    ∙ ap (◌∷◌ first) (count_up-append (first + 1) m n)
    ∙ ap (count_up first) all

-- The workers of all queues.
abbrev pub total : List (String × ℕ) → ℕ
total [] = 0
total ((_, count) ∷ rest) = count + total rest

module _ {V State Cause : Type 0} (processors : ProcessorMap V State Cause) where
  ids-start_queue :
      (acc : ℕ) (queue : String) (i left : ℕ)
      → acc + i + left + 1000 ≤ 2 ^ 64
      → map (λ (w : LocalWorker V State Cause). w.id) (start_queue processors acc queue i left)
        ≡ count_up (acc + i + 1000) left
  unfolding start_queue
  ids-start_queue acc queue i zero fits = refl
  ids-start_queue acc queue i (suc left) fits = ap₂ ◌∷◌ (omega arith) (
      ids-start_queue acc queue (i + 1) left (omega arith)
      ∙ ap (λ n. count_up n left) (omega arith))

  ids-start_queues :
      (acc : ℕ) (queues : List (String × ℕ))
      → acc + total queues + 1000 ≤ 2 ^ 64
      → map (λ (w : LocalWorker V State Cause). w.id) (start_queues processors acc queues)
        ≡ count_up (acc + 1000) (total queues)
  unfolding start_queues
  ids-start_queues acc [] fits = refl
  ids-start_queues acc ((queue, count) ∷ rest) fits =
      let next : (acc + count) % 2 ^ 64 ≡ acc + count = omega arith in
      map-append _ _ _
      ∙ ap₂ ◌++◌
          (ids-start_queue acc queue 0 count (omega arith)
            ∙ ap (λ n. count_up n count) (omega arith))
          (ap (λ a. map (λ (w : LocalWorker V State Cause). w.id) (start_queues processors a rest))
              next
            ∙ ids-start_queues (acc + count) rest (omega arith)
            ∙ ap (λ n. count_up n (total rest)) (omega arith))
      ∙ count_up-append (acc + 1000) count (total rest)

-- The workers that a configuration starts are numbered from 1000 on, without a gap, as many as the
-- counts of its queues add up to, if that does not leave the 64 bits of a number.
pub ids-start :
    {V State Cause : Type 0} (order : Iteration String ℕ) (config : WorkerConfig V State Cause)
    → total (order.iter config.queues) + 1000 ≤ 2 ^ 64
    → map (λ (w : LocalWorker V State Cause). w.id) (start order config)
      ≡ count_up 1000 (total (order.iter config.queues))
unfolding start
ids-start order config fits =
    ids-start_queues config.processors 0 (order.iter config.queues) (omega arith)
