-- ===== src/Stats/Counters.antt =====
-- jobs-core/src/stats.rs: what the counters count.
use backjob.Common.{ℕ, ◌+◌, ◌^◌, ◌≤◌, ◌<◌, ◌≡◌, Bool, ◌&&◌, ◌==◌, nat_eq, if◌then◌else◌, arith}
use backjob.Chrono.{Chrono}
use backjob.Stats.{JobStat, Stats, increment, new_job, run_job, retry_job, fail_job, complete_job}

-- A shorter period never counts more than a longer one.
pub record IsNested (s : JobStat) : Type 0 where
  pub hour_le : s.this_hour ≤ s.today
  pub day_le : s.today ≤ s.this_month
  pub month_le : s.this_month ≤ s.all_time

module _ (chrono : Chrono) (now : ℕ) (s : JobStat) where
  -- An increment keeps the periods nested, if the counter of all time does not overflow.
  pub increment-IsNested : IsNested s → s.all_time + 1 < 2 ^ 64 → IsNested (increment chrono now s)
  unfolding increment
  increment-IsNested v fits = ground arith

  abbrev pub same_month_number : Bool
  same_month_number = chrono.month now == chrono.month s.updated_at

  abbrev pub same_day_number : Bool
  same_day_number = same_month_number && chrono.day now == chrono.day s.updated_at

  abbrev pub same_hour_number : Bool
  same_hour_number = same_day_number && chrono.hour now == chrono.hour s.updated_at

  -- The counter of the month goes on if the number of the month is that of the last update, whatever
  -- the years are, the counter of the day if besides the number of the day is, and that of the hour if
  -- besides the number of the hour is; else each starts again at one. This is so on nested counters
  -- whose counter of all time does not overflow.
  pub increment-by_numbers :
      IsNested s
      → s.all_time + 1 < 2 ^ 64
      → (increment chrono now s) ≡ record {
        this_hour = (if same_hour_number then s.this_hour else 0) + 1;
        today = (if same_day_number then s.today else 0) + 1;
        this_month = (if same_month_number then s.this_month else 0) + 1;
        all_time = s.all_time + 1;
        updated_at = now;
      }
  unfolding increment
  increment-by_numbers v fits = ground arith

-- All jobs that were ever created.
abbrev pub total : Stats → ℕ
total s = s.pending + s.running + s.dead.all_time + s.complete.all_time

module _ (chrono : Chrono) (now : ℕ) (s : Stats) (fits : total s + 1 < 2 ^ 64) where
  -- A new job adds one to the total. Every later change of a job keeps the total, except where
  -- the counter that it should lower is already zero: then the total grows by one. This is so if
  -- the total of the new jobs does not reach 2^64.
  pub total-moves :
      (total (new_job s) ≡ total s + 1)
      × (total (run_job s) ≡ total s + (if s.pending == 0 then 1 else 0))
      × (total (retry_job s) ≡ total s + (if s.running == 0 then 1 else 0))
      × (total (fail_job chrono now s) ≡ total s + (if s.running == 0 then 1 else 0))
      × (total (complete_job chrono now s) ≡ total s + (if s.running == 0 then 1 else 0))
  unfolding new_job run_job retry_job fail_job complete_job
  total-moves = (ground arith, ground arith, ground arith, ground arith, ground arith)
