-- ===== src/Samples/Jobs.antt =====
-- The theorems on jobs and statistics at concrete inputs.
use backjob.Common.{
  ℕ, ◌+◌, ◌^◌, ◌≤◌, ◌≡◌, ◌↔◌, refl, String, true, false, some, ◌==◌, nat_eq, arith, if◌then◌else◌,
  subst,
}
use backjob.Chrono.{pos, as_i64}
use backjob.Job.{pending, exponential, count, compare}
use backjob.JobInfo.{JobInfo, with_id, needs_retry, is_ready, backoff_secs}
use backjob.JobInfo.Retry.{grants, grants-with_id, needs_retry-waits, retried, Adds}
use backjob.Stats.{JobStat, Stats}
use backjob.Stats
use backjob.Stats.Counters.{IsNested, increment-IsNested, increment-by_numbers, total, total-moves}
use backjob.Samples.Data.{chrono, forward, clock, clocks, resize}

abbrev fresh : JobInfo String
fresh = record {
  id = 0;
  processor = "resize";
  queue = "images";
  args = "{}";
  status = pending;
  retry_count = 0;
  max_retries = count 1;
  backoff_strategy = exponential 2;
  next_queue = backjob.Common.none;
  updated_at = 900;
}

fresh_fails : needs_retry chrono clock fresh ≡ some (true, retried clock 1004 fresh)
unfolding needs_retry compare
fresh_fails = refl

first-Adds : Adds chrono (clocks 0) resize.backoff_strategy 1
unfolding backoff_secs as_i64
first-Adds = (_, refl)

grants-with_id_example : grants chrono 2 clocks (with_id 900 0 resize) ≡ some 1
grants-with_id_example =
    grants-with_id chrono 1 900 0 clocks resize
      (λ k lt.
        let first : 0 ≡ k = omega arith in
        subst (λ i. Adds chrono (clocks i) resize.backoff_strategy (i + 1)) first first-Adds)
      refl (omega arith)

needs_retry-waits_example :
    (time : ℕ) × (chrono.add_seconds 1002 (pos 2) ≡ some time)
    × (retried clock 1004 fresh ≡ retried clock time fresh)
    × (is_ready 1002 (retried clock 1004 fresh) ≡ false)
needs_retry-waits_example =
    needs_retry-waits chrono clock fresh true (retried clock 1004 fresh) (omega arith) fresh_fails
      forward (omega arith) refl 1002 (omega arith)

-- Updated in the second hour of the first day.
abbrev counters : JobStat
counters = record { this_hour = 3; today = 5; this_month = 5; all_time = 9; updated_at = 4000 }

counters-IsNested : IsNested counters
counters-IsNested = record { hour_le = omega arith; day_le = omega arith; month_le = omega arith }

increment-IsNested_example : IsNested (Stats.increment chrono 90000 counters)
increment-IsNested_example =
    increment-IsNested chrono 90000 counters counters-IsNested (omega arith)

increment-by_numbers_example :
    Stats.increment chrono 90000 counters
    ≡ record { this_hour = 1; today = 1; this_month = 6; all_time = 10; updated_at = 90000 }
increment-by_numbers_example =
    increment-by_numbers chrono 90000 counters counters-IsNested (omega arith)

abbrev stats : Stats
stats = record { pending = 1; running = 0; dead = counters; complete = counters }

total-moves_example :
    (total (Stats.new_job stats) ≡ 20)
    × (total (Stats.run_job stats) ≡ 19)
    × (total (Stats.retry_job stats) ≡ 20)
    × (total (Stats.fail_job chrono 90000 stats) ≡ 20)
    × (total (Stats.complete_job chrono 90000 stats) ≡ 20)
total-moves_example = total-moves chrono 90000 stats (omega arith)
