-- ===== src/Samples/Processors.antt =====
-- The theorems on processors, at a job that is its text.
use backjob.Common.{ℕ, ◌≡◌, refl, String, true, false, none, some, string_eq, nat_eq}
use backjob.Common.HashMap
use backjob.Common.HashMap.{get, insert, remove}
use backjob.Job.{linear, count}
use backjob.JobInfo.{NewJobInfo, new, pass, schedule, with_id, is_ready, is_unscheduled}
use backjob.Processor.{
  Future, item, error, Serde, RoundTrips, Job, Processor, new_job, new_scheduled_job,
}
use backjob.Processor
use backjob.ProcessorMap.{ProcessorMap, ProcessFn, process_job, process, register_processor}
use backjob.ProcessorMap
use backjob.ProcessorMap.Dispatch.{process_job-new_job, is_ready-new_scheduled_job}

-- A job is its text, which JSON carries as it is.
abbrev pub serde : Serde String String
serde = record { to_value = some; from_value = some }

pub serde-RoundTrips : RoundTrips serde
serde-RoundTrips j v h = cc

abbrev pub jobs : Job String ℕ String
jobs = record {
  run = λ j state. item tt;
  queue = λ j. none;
  max_retries = λ j. none;
  backoff_strategy = λ j. none;
}

abbrev pub processor : Processor
processor = record {
  name = "resize";
  queue = "images";
  max_retries = count 1;
  backoff_strategy = linear 5;
}

abbrev pub step : ProcessFn String ℕ String
step args state = item tt

abbrev no_processors : ProcessorMap String ℕ String
no_processors = ProcessorMap.new (λ n. n)

abbrev pub made : NewJobInfo String
made = new "resize" "images" "cat" (count 1) (linear 5)

made_by : new_job serde jobs processor "cat" ≡ some made
unfolding new_job new
made_by = refl

planned_by : new_scheduled_job serde jobs processor "cat" 5000 ≡ some (schedule 5000 made)
unfolding new_scheduled_job new_job new schedule
planned_by = refl

-- A later registration under another name stands before it.
abbrev two_processors : ProcessorMap String ℕ String
two_processors =
    register_processor "crop" (Processor.process serde jobs)
      (register_processor "resize" (Processor.process serde jobs) no_processors)

resize_registered : get "resize" two_processors.inner ≡ some (Processor.process serde jobs)
unfolding register_processor get insert remove HashMap.empty ProcessorMap.new
resize_registered = refl

process_job-new_job_example : process_job two_processors 3 (with_id 1000 0 made) ≡ pass 0
unfolding register_processor ProcessorMap.new
process_job-new_job_example =
    process_job-new_job serde jobs processor "cat" two_processors 3 1000 0 made serde-RoundTrips
      resize_registered made_by

is_ready-new_scheduled_job_example :
    (is_unscheduled made ≡ true)
    × (is_ready 4000 (with_id 1000 0 made) ≡ true)
    × (is_unscheduled (schedule 5000 made) ≡ false)
    × (is_ready 4000 (with_id 1000 0 (schedule 5000 made)) ≡ false)
is_ready-new_scheduled_job_example =
    is_ready-new_scheduled_job serde jobs processor "cat" 1000 0 5000 4000 made (schedule 5000 made)
      made_by planned_by
