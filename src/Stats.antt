-- ===== src/Stats.antt =====
-- jobs-core/src/stats.rs: counters of jobs, in all and by calendar period. A `usize` wraps at 2^64
-- in a release build.
pub mod Counters
use backjob.Common.{ℕ, ◌+◌, ◌-◌, ◌^◌, ◌%◌, ltb, ◌==◌, nat_eq, not, if◌then◌else◌}
use backjob.Chrono.{Chrono, Clock}

pub record JobStat : Type 0 where
  pub this_hour : ℕ
  pub today : ℕ
  pub this_month : ℕ
  pub all_time : ℕ
  pub updated_at : ℕ

pub record Stats : Type 0 where
  pub pending : ℕ
  pub running : ℕ
  pub dead : JobStat
  pub complete : JobStat

unfoldable pub next_hour : JobStat → JobStat
next_hour s = record s { this_hour = 0 }

unfoldable pub next_day : JobStat → JobStat
unfolding next_hour
next_day s = record (next_hour s) { today = 0 }

unfoldable pub next_month : JobStat → JobStat
unfolding next_day
next_month s = record (next_day s) { this_month = 0 }

-- `x += 1` on a `usize`
unfoldable pub add_one : ℕ → ℕ
add_one n = (n + 1) % 2 ^ 64

-- `if x > 0 { x -= 1; }`
unfoldable pub drop_one : ℕ → ℕ
drop_one n = if ltb 0 n then n - 1 else n

module _ (chrono : Chrono) where
  open chrono use {month, day, hour}

  unfoldable pub tick : ℕ → JobStat → JobStat
  unfolding next_hour next_day next_month
  tick now s =
      let turned =
        if not (month now == month s.updated_at)
        then next_month s
        else if not (day now == day s.updated_at)
        then next_day s
        else if not (hour now == hour s.updated_at)
        then next_hour s
        else s in
      record turned { updated_at = now }

  unfoldable pub increment : ℕ → JobStat → JobStat
  unfolding tick add_one
  increment now s =
      let t = tick now s in
      record t {
        this_hour = add_one t.this_hour;
        today = add_one t.today;
        this_month = add_one t.this_month;
        all_time = add_one t.all_time;
      }

  unfoldable pub fail_job : ℕ → Stats → Stats
  unfolding drop_one increment
  fail_job now s = record s { running = drop_one s.running; dead = increment now s.dead }

  unfoldable pub complete_job : ℕ → Stats → Stats
  unfolding drop_one increment
  complete_job now s = record s {
    running = drop_one s.running;
    complete = increment now s.complete;
  }

-- `JobStat::default`
unfoldable pub zero_stat : ℕ → JobStat
zero_stat now = record { this_hour = 0; today = 0; this_month = 0; all_time = 0; updated_at = now }

-- `Stats::default` reads the clock once for each `JobStat`.
unfoldable pub default : Clock → Stats
unfolding zero_stat
default clock = record {
  pending = 0;
  running = 0;
  dead = zero_stat (clock 0);
  complete = zero_stat (clock 1);
}

unfoldable pub new_job : Stats → Stats
unfolding add_one
new_job s = record s { pending = add_one s.pending }

unfoldable pub run_job : Stats → Stats
unfolding add_one drop_one
run_job s = record s { pending = drop_one s.pending; running = add_one s.running }

unfoldable pub retry_job : Stats → Stats
unfolding add_one drop_one
retry_job s = record s { pending = add_one s.pending; running = drop_one s.running }
