-- ===== src/JobInfo/Retry.antt =====
-- jobs-core/src/job_info.rs and `MaxRetries::compare`: how often a failing job is retried, and when.
use backjob.Common.{
  ℕ, zero, suc, ◌+◌, ◌%◌, ◌^◌, ◌≤◌, ◌<◌, ◌≡◌, refl, ◌↔◌, Bool, true, false, Option, none, some,
  arith, Option-cases, Bool-cases, ◌⊎◌, inl, inr, subst,
}
use backjob.Chrono.{Chrono, Clock, AddsForward, pos, as_i64}
use backjob.Job.{
  Backoff, MaxRetries, should_requeue, linear, exponential, infinite, count, pending, compare,
}
use backjob.JobInfo.{JobInfo, NewJobInfo, with_id, is_ready, backoff_secs, needs_retry}

-- The job after a failure that is retried at `time`, and after one that is not.
module _ {V : Type 0} where
  abbrev pub retried : Clock → ℕ → JobInfo V → JobInfo V
  retried clock time job = record job {
    status = pending;
    retry_count = job.retry_count + 1;
    next_queue = some time;
    updated_at = clock 1;
  }

  abbrev pub given_up : Clock → JobInfo V → JobInfo V
  given_up clock job = record job { retry_count = job.retry_count + 1; updated_at = clock 0 }

module _ {V : Type 0} (chrono : Chrono) (clock : Clock) (job : JobInfo V) (b : Bool) (j : JobInfo V)
    (answer : needs_retry chrono clock job ≡ some (b, j)) where
  pub id-needs_retry : (j.id ≡ job.id) × (j.queue ≡ job.queue)
  unfolding needs_retry
  id-needs_retry = ground arith

  pub status-needs_retry : b ≡ true → j.status ≡ pending
  unfolding needs_retry
  status-needs_retry granted = ground arith

-- The seconds that the strategy means the job to wait after its n-th failure.
abbrev pub wait : Backoff → ℕ → ℕ
wait (linear secs) n = secs
wait (exponential base) n = base ^ n

as_i64_lem : (n : ℕ) → n < 2 ^ 63 → as_i64 n ≡ pos n
unfolding as_i64
as_i64_lem n h = ground arith

backoff_secs_lem : (b : Backoff) (n : ℕ) → wait b n < 2 ^ 63 → backoff_secs b n ≡ wait b n
unfolding backoff_secs
backoff_secs_lem (linear secs) n h = refl
backoff_secs_lem (exponential base) n h = omega arith

module _ {V : Type 0} (chrono : Chrono) (clock : Clock) (job : JobInfo V) where
  needs_retry_count :
      (n : ℕ)
      → job.max_retries ≡ count n
      → job.retry_count + 1 < 2 ^ 32
      → n < job.retry_count + 1
      → needs_retry chrono clock job ≡ some (false, given_up clock job)
  unfolding needs_retry
  needs_retry_count n m fits spent = ground arith

  needs_retry_scheduled :
      (time : ℕ)
      → job.retry_count + 1 < 2 ^ 32
      → wait job.backoff_strategy (job.retry_count + 1) < 2 ^ 63
      → should_requeue (compare job.max_retries (job.retry_count + 1)) ≡ true
      → chrono.add_seconds (clock 2) (pos (wait job.backoff_strategy (job.retry_count + 1)))
        ≡ some time
      → needs_retry chrono clock job ≡ some (true, retried clock time job)
  unfolding needs_retry
  needs_retry_scheduled time fits small more sum = ground (
    arith,
    as_i64_lem (wait job.backoff_strategy (job.retry_count + 1)),
    backoff_secs_lem job.backoff_strategy (job.retry_count + 1),
  )

  pub needs_retry_panics :
      job.retry_count + 1 < 2 ^ 32
      → wait job.backoff_strategy (job.retry_count + 1) < 2 ^ 63
      → should_requeue (compare job.max_retries (job.retry_count + 1)) ≡ true
      → chrono.add_seconds (clock 2) (pos (wait job.backoff_strategy (job.retry_count + 1))) ≡ none
      → needs_retry chrono clock job ≡ none
  unfolding needs_retry
  needs_retry_panics fits small more sum = ground (
    arith,
    as_i64_lem (wait job.backoff_strategy (job.retry_count + 1)),
    backoff_secs_lem job.backoff_strategy (job.retry_count + 1),
  )

-- The retries that a limit allows after `n` failures.
abbrev pub Allows : MaxRetries → ℕ → Type 0
Allows infinite n = Unit {0}
Allows (count limit) n = n ≤ limit

Allows-iff : (m : MaxRetries) (n : ℕ) → (should_requeue (compare m n) ≡ true) ↔ Allows m n
unfolding compare should_requeue
Allows-iff infinite n = (λ _. tt, λ _. refl)
Allows-iff (count limit) n = (λ h. ground arith, λ h. ground arith)

module _ {V : Type 0} (chrono : Chrono) (clock : Clock) (job : JobInfo V) (b : Bool) (j : JobInfo V)
    (fits : job.retry_count + 1 < 2 ^ 32)
    (answer : needs_retry chrono clock job ≡ some (b, j)) where
  -- An answer, if none of the numbers wraps, is yes exactly if the limit allows one more retry.
  pub needs_retry-Allows : (b ≡ true) ↔ Allows job.max_retries (job.retry_count + 1)
  unfolding needs_retry
  needs_retry-Allows = ground (arith, Allows-iff job.max_retries (job.retry_count + 1))

  needs_retry-requeue :
      b ≡ true → should_requeue (compare job.max_retries (job.retry_count + 1)) ≡ true
  unfolding needs_retry
  needs_retry-requeue granted = ground arith

  -- A granted retry is due the strategy's number of seconds after the failure, by the clock that
  -- the failure read, and the job is not ready at any time up to that reading, if these seconds
  -- fit an `i64` and adding seconds never goes back in time.
  pub needs_retry-waits :
      AddsForward chrono
      → wait job.backoff_strategy (job.retry_count + 1) < 2 ^ 63
      → b ≡ true
      → (t : ℕ) → t ≤ clock 2
      → (time : ℕ) × (chrono.add_seconds
            (clock 2)
            (pos (wait job.backoff_strategy (job.retry_count + 1)))
          ≡ some time)
        × (j ≡ retried clock time job)
        × (is_ready t j ≡ false)
  unfolding is_ready
  needs_retry-waits forward small granted t le =
      elim (Option-cases (chrono.add_seconds (clock 2) (pos secs))) [
        | inl e ↦
            absurd (ground (arith, more, needs_retry_panics chrono clock job fits small more e))
        | inr (time, e) ↦
            (time, e, changed time e, ground (arith, changed time e, forward (clock 2) secs time e))
      ]
    where
      secs : ℕ
      secs = wait job.backoff_strategy (job.retry_count + 1)

      more : should_requeue (compare job.max_retries (job.retry_count + 1)) ≡ true
      more = needs_retry-requeue granted

      changed :
          (time : ℕ)
          → chrono.add_seconds (clock 2) (pos secs) ≡ some time
          → j ≡ retried clock time job
      changed time e = ground (arith, needs_retry_scheduled chrono clock job time fits small more e)

-- The sum can be made that a failure makes for its retry: the reading after it and the backoff of the
-- n-th failure.
abbrev pub Adds : Chrono → Clock → Backoff → ℕ → Type 0
Adds chrono clock b n =
    (time : ℕ) × (chrono.add_seconds (clock 2) (as_i64 (backoff_secs b n)) ≡ some time)

module _ {V : Type 0} (chrono : Chrono) where
  -- The number of retries that a job is granted which fails each time, its n-th failure at the
  -- readings `clocks n`. `none`: a panic, or more failures than the fuel.
  abbrev pub grants : ℕ → (ℕ → Clock) → JobInfo V → Option ℕ
  grants zero clocks job = none
  grants (suc fuel) clocks job = elim (needs_retry chrono (clocks 0) job) [
    | none ↦ none
    | some (b, j) ↦ elim b [
      | false ↦ some 0
      | true ↦ elim (grants fuel (λ n. clocks (suc n)) j) [ none ↦ none | some k ↦ some (suc k) ]
    ]
  ]

  needs_retry_granted :
      (clock : Clock) (job : JobInfo V) (n : ℕ)
      → Adds chrono clock job.backoff_strategy (job.retry_count + 1)
      → job.max_retries ≡ count n
      → job.retry_count + 1 ≤ n
      → n + 1 < 2 ^ 32
      → (time : ℕ) × (needs_retry chrono clock job ≡ some (true, retried clock time job))
  unfolding needs_retry
  needs_retry_granted clock job n sum m le fits = (sum.0, ground (arith, sum.1))

  grants_from :
      (fuel k : ℕ) (clocks : ℕ → Clock) (job : JobInfo V)
      → ((i : ℕ) → i < k → Adds chrono (clocks i) job.backoff_strategy (job.retry_count + (i + 1)))
      → job.max_retries ≡ count (job.retry_count + k)
      → job.retry_count + k + 1 < 2 ^ 32
      → k < fuel
      → grants fuel clocks job ≡ some k
  grants_from zero k clocks job sums m fits lt = elim lt [ ]
  grants_from (suc fuel) zero clocks job sums m fits lt =
      rw
        (
          needs_retry_count chrono (clocks 0) job (job.retry_count + 0) m (omega arith)
              (omega arith),
          grants,
        )
        refl
  grants_from (suc fuel) (suc k) clocks job sums m fits lt =
      let g =
        needs_retry_granted (clocks 0) job (job.retry_count + suc k) (sums 0 (omega arith)) m
          (omega arith) (omega arith) in
      let rest =
        grants_from fuel k (λ n. clocks (suc n)) (retried (clocks 0) g.0 job)
          (λ i lt.
            subst (Adds chrono (clocks (suc i)) job.backoff_strategy) (omega arith)
              (sums (suc i) (omega arith)))
          (ground arith) (omega arith) (omega arith) in
      rw (g.1, grants) (ground (arith, rest))

  -- A new job with a limit of n retries that fails each time is granted exactly n retries, at
  -- whatever readings it fails, if the limit is less than 2^32 - 1 and each of the first n failures
  -- can add its backoff to its reading.
  pub grants-with_id :
      (n now id : ℕ) (clocks : ℕ → Clock) (new : NewJobInfo V)
      → ((k : ℕ) → k < n → Adds chrono (clocks k) new.backoff_strategy (k + 1))
      → new.max_retries ≡ count n
      → n + 1 < 2 ^ 32
      → grants (suc n) clocks (with_id now id new) ≡ some n
  unfolding with_id
  grants-with_id n now id clocks new sums m fits =
      grants_from (suc n) n clocks (with_id now id new)
        (λ k lt. subst (Adds chrono (clocks k) new.backoff_strategy) (omega arith) (sums k lt))
        (ground arith) (omega arith) (omega arith)

module _ {V : Type 0} (chrono : Chrono) (clock : Clock) (job : JobInfo V) where
  -- A failure of the job is retried, and its backoff cannot be added to the reading.
  abbrev pub Overruns : Type 0
  Overruns =
      (should_requeue (compare job.max_retries ((job.retry_count + 1) % 2 ^ 32)) ≡ true)
      × (chrono.add_seconds (clock 2)
            (as_i64 (backoff_secs job.backoff_strategy ((job.retry_count + 1) % 2 ^ 32)))
          ≡ none)

  -- A failure is answered, unless it overruns.
  pub needs_retry-total :
      ((b : Bool) × (j : JobInfo V) × (needs_retry chrono clock job ≡ some (b, j)))
      ⊎ (Overruns × (needs_retry chrono clock job ≡ none))
  unfolding needs_retry
  needs_retry-total = elim (Option-cases (needs_retry chrono clock job)) [
    | inl e ↦ inr (
      elim (Bool-cases (should_requeue (compare job.max_retries count_))) [
        | inl more ↦ elim (Option-cases (chrono.add_seconds (clock 2) (as_i64 secs))) [
          | inl over ↦ (more, over)
          | inr (time, sum) ↦ absurd (ground arith)
        ]
        | inr spent ↦ absurd (ground arith)
      ],
      e,
    )
    | inr (x, e) ↦ inl (x.0, x.1, e)
  ]
    where
      count_ : ℕ
      count_ = (job.retry_count + 1) % 2 ^ 32

      secs : ℕ
      secs = backoff_secs job.backoff_strategy count_
