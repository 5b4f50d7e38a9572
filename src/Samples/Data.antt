-- ===== src/Samples/Data.antt =====
-- A calendar that cannot make durations of more than 2^63 - 1 milliseconds, a clock and a job of one
-- retry.
use backjob.Common.{
  ℕ, ◌+◌, ◌-◌, ◌*◌, ◌/◌, ◌%◌, String, Option, none, some, arith, ltb, if◌then◌else◌,
}
use backjob.Chrono.{Chrono, Clock, ℤ, pos, negsuc, AddsForward}
use backjob.Job.{exponential, count}
use backjob.JobInfo.{NewJobInfo}
use backjob.Storage.Overflow.{longest, SecondsAreLimited}

abbrev plus : ℕ → ℤ → Option ℕ
plus t (pos n) = if ltb longest n then none else some (t + n)
plus t (negsuc n) = if ltb longest n then none else some (t - n - 1)

abbrev pub chrono : Chrono
chrono = record {
  month = λ t. t / 2592000 % 12;
  day = λ t. t / 86400 % 30;
  hour = λ t. t / 3600 % 24;
  add_seconds = plus;
}

pub forward : AddsForward chrono
forward t n u h = ground arith

pub limited : SecondsAreLimited chrono
limited t n h = ground arith

abbrev pub clock : Clock
clock n = 1000 + n

abbrev pub clocks : ℕ → Clock
clocks n k = 1000 + 100 * n + k

abbrev pub resize : NewJobInfo String
resize = record {
  processor = "resize";
  queue = "images";
  args = "{}";
  max_retries = count 1;
  backoff_strategy = exponential 2;
  next_queue = none;
}
