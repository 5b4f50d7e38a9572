-- ===== src/Storage/Calls.antt =====
-- Histories of calls of the trait's methods (jobs-core/src/storage.rs) on a store that obeys the
-- laws. Each method runs to its end before the next one begins, and succeeds.
use backjob.Common.{ℕ, ◌+◌, ◌^◌, ◌<◌, String, ◌≡◌, subst, none, some, List, [], ◌∷◌, All}
use backjob.Outcome.{ok, end_of}
use backjob.Chrono.{Chrono, Clock}
use backjob.JobInfo.{JobInfo, NewJobInfo, ReturnJobInfo}
use backjob.Storage.Trait.{Storage, new_job, request_job, return_job}
use backjob.Storage.Spec.{Spec, Laws, Returned}
use backjob.Storage.Refines.{new_job-Spec, request_job-Spec, return_job-Spec}
use backjob.Storage.Sound.{new_job-Preserves, request_job-Preserves, return_job-Preserves}
use backjob.Storage.Valid.{IsValid}
use backjob.Storage.Delivery.{
  Event, created, refused, handed, returned, Step, creates, refuses, hands, returns, History, start,
  next, IsAway, NotReturned, NotHanded, Step-IsValid, handed-IsAway, away_until_returned,
  History-IsValid,
}

module _ {S E V : Type 0} (chrono : Chrono) (store : Storage S E V) (view : S → Spec V) where
  -- One call, and what it shows. A new job is created while there are identifiers left.
  pub data Call (s t : S) : Event → Type 0 where
    news :
        (clock : Clock) (new : NewJobInfo V) (id : ℕ)
        → (view s).next_id + 1 < 2 ^ 64
        → new_job chrono store clock new s ≡ (ok id, t)
        → Call s t (created id)
    finds_nothing :
        (clock : Clock) (queue : String) (runner_id : ℕ)
        → request_job chrono store clock queue runner_id s ≡ (ok none, t)
        → Call s t refused
    finds :
        (clock : Clock) (queue : String) (runner_id : ℕ) (job : JobInfo V) (id : ℕ)
        → job.id ≡ id
        → request_job chrono store clock queue runner_id s ≡ (ok (some job), t)
        → Call s t (handed id)
    gives_back :
        (clock : Clock) (r : ReturnJobInfo) (id : ℕ)
        → r.id ≡ id
        → return_job chrono store clock r s ≡ (ok tt, t)
        → Call s t (returned id)

  pub data Calls : S → List Event → S → Type 0 where
    done : {s : S} → Calls s [] s
    after :
        {s t u : S} {events : List Event} (e : Event)
        → Call s t e
        → Calls t events u
        → Calls s (e ∷ events) u

module _ {S E V : Type 0} {chrono : Chrono} {store : Storage S E V} {view : S → Spec V}
    {IsSound : S → Type 0} (laws : Laws store view IsSound) where
  -- A call on the store is a step of the abstract store.
  pub Call-Step :
      {s t : S} {e : Event}
      → IsSound s
      → IsValid (view s)
      → Call chrono store view s t e
      → Step chrono (view s) (view t) e
  Call-Step {s} {t} sound v (news clock new id room h) =
      let (fresh, n, lt, p) = new_job-Spec laws chrono clock new s t id room h in
      creates clock new id n fresh lt p
  Call-Step {s} {t} sound v (finds_nothing clock queue runner_id h) =
      refuses clock queue
        (request_job-Spec laws chrono clock queue runner_id s t none sound v.keyed h)
  Call-Step {s} {t} sound v (finds clock queue runner_id job id e h) =
      hands clock queue job id e
        (request_job-Spec laws chrono clock queue runner_id s t (some job) sound v.keyed h)
  Call-Step {s} {t} sound v (gives_back clock r id e h) = returns clock id r.result (
      subst (λ i. Returned chrono clock i r.result (view s) (view t)) e
        (return_job-Spec laws chrono clock r s t h))

  -- A call keeps the store sound.
  pub Call-IsSound : {s t : S} {e : Event} → IsSound s → Call chrono store view s t e → IsSound t
  Call-IsSound {s} sound (news clock new id room h) =
      subst IsSound (end_of h) (new_job-Preserves laws.keeps chrono clock new s sound)
  Call-IsSound {s} sound (finds_nothing clock queue runner_id h) =
      subst IsSound (end_of h)
        (request_job-Preserves laws.keeps chrono clock queue runner_id s sound)
  Call-IsSound {s} sound (finds clock queue runner_id job id e h) =
      subst IsSound (end_of h)
        (request_job-Preserves laws.keeps chrono clock queue runner_id s sound)
  Call-IsSound {s} sound (gives_back clock r id e h) =
      subst IsSound (end_of h) (return_job-Preserves laws.keeps chrono clock r s sound)

  pub Calls-IsSound :
      {s t : S} {events : List Event} → IsSound s → Calls chrono store view s events t → IsSound t
  Calls-IsSound sound done = sound
  Calls-IsSound sound (after e call rest) = Calls-IsSound (Call-IsSound sound call) rest

  Calls-History :
      {s t : S} {events : List Event}
      → IsSound s
      → IsValid (view s)
      → Calls chrono store view s events t
      → History chrono (view s) events (view t)
  Calls-History sound v done = start
  Calls-History sound v (after e call rest) =
      let step = Call-Step sound v call in
      next e step (Calls-History (Call-IsSound sound call) (Step-IsValid chrono v step) rest)

  -- Whatever is called on a sound store that obeys the laws, the jobs stay under their own identifiers,
  -- and what waits in a queue stays a stored, pending job of that queue.
  pub Calls-IsValid :
      {s t : S} {events : List Event}
      → IsSound s
      → IsValid (view s)
      → Calls chrono store view s events t
      → IsValid (view t)
  Calls-IsValid sound v calls = History-IsValid chrono v (Calls-History sound v calls)

  -- In a sound store that obeys the laws, a job that is stored and waits in no queue is not handed
  -- out before it is returned.
  pub away-NotHanded :
      {s t : S} {events : List Event} (id : ℕ)
      → IsSound s
      → IsValid (view s)
      → IsAway id (view s)
      → Calls chrono store view s events t
      → All (NotReturned id) events
      → All (NotHanded id) events
  away-NotHanded id sound v w calls kept =
      away_until_returned chrono id v w (Calls-History sound v calls) kept

  -- In a sound and valid store that obeys the laws, a job that a request handed out is not handed
  -- out a second time before it is returned, whatever is called in between.
  pub handed_once :
      {s t u : S} {events : List Event} (id : ℕ)
      → IsSound s
      → IsValid (view s)
      → Call chrono store view s t (handed id)
      → Calls chrono store view t events u
      → All (NotReturned id) events
      → All (NotHanded id) events
  handed_once id sound v call calls kept =
      let step = Call-Step sound v call in
      away-NotHanded id (Call-IsSound sound call) (Step-IsValid chrono v step)
        (handed-IsAway chrono id step) calls kept
