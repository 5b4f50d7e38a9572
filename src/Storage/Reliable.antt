-- ===== src/Storage/Reliable.antt =====
-- jobs-core/src/storage.rs: a store whose methods return, but for returns that panic and leave the
-- store as it was.
use backjob.Common.{ℕ, String, ◌≡◌, ◌⊎◌, inl, inr}
use backjob.Outcome.{Exec, ok, panic}
use backjob.Chrono.{Chrono, Clock}
use backjob.JobInfo.{NewJobInfo, ReturnJobInfo}
use backjob.Storage.Trait
use backjob.Storage.Trait.{Storage}
use backjob.Storage.Total.{Goes, Arrives, IsTotal, new_job-Goes, request_job-Goes, return_job-Goes}

-- The call returns, without an error and without a panic.
abbrev pub Succeeds : {S E A : Type 0} → Exec S E A → S → Type 0
Succeeds {S} {E} {A} m s = (a : A) × (t : S) × (m s ≡ (ok a, t))

-- On a good state new jobs and requests succeed and leave a good state. So does a return, or it panics
-- and leaves the store as it was.
pub record IsReliable {S E V : Type 0} (chrono : Chrono) (store : Storage S E V) (Good : S → Type 0)
    : Type 0 where
  pub new_job :
      (clock : Clock) (new : NewJobInfo V) → Goes Good (Trait.new_job chrono store clock new)
  pub request_job :
      (clock : Clock) (queue : String) (runner_id : ℕ)
      → Goes Good (Trait.request_job chrono store clock queue runner_id)
  pub return_job :
      (clock : Clock) (r : ReturnJobInfo) (s : S)
      → Good s
      → Arrives Good (Trait.return_job chrono store clock r) s
        ⊎ (Trait.return_job chrono store clock r s ≡ (panic, s))

-- A store whose operations never fail is reliable.
pub IsTotal-IsReliable :
    {S E V : Type 0} {store : Storage S E V} {Good : S → Type 0} (chrono : Chrono)
    → IsTotal store Good
    → IsReliable chrono store Good
IsTotal-IsReliable chrono total = record {
  new_job = new_job-Goes total chrono;
  request_job = request_job-Goes total chrono;
  return_job = λ clock r s good. elim (return_job-Goes total chrono clock r s good) [
    | inl done ↦ inl done
    | inr (stuck, _) ↦ inr stuck
  ];
}
