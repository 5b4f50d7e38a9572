-- ===== src/Storage/Threads/Shared.antt =====
-- jobs-core/src/storage.rs: threads that run the methods of the trait `Storage` over one store. Between
-- two operations of one thread the others may run any of theirs.
use backjob.Common.{ℕ, ◌+◌, ◌^◌, ◌<◌, ◌≡◌, ◌⊎◌, String, inl, inr, List, [], ◌∷◌, ◌++◌}
use backjob.Outcome.{ok, Exec, pure}
use backjob.Chrono.{Chrono, Clock}
use backjob.JobInfo.{NewJobInfo, ReturnJobInfo}
use backjob.Storage.Trait.{Storage}
use backjob.Storage.Spec.{Spec}
use backjob.Storage.Threads.{
  Thread, creates, looks, Answer, created, refused, handed, returned, returning, advance,
}

-- The threads that are in a method, and the jobs that were handed out and have not been returned.
pub record Shared (S V : Type 0) : Type 0 where
  pub storage : S
  pub threads : List (Thread V)
  pub away : List ℕ

-- The job that an answer hands out.
abbrev pub handed_ids : {V : Type 0} → Answer V → List ℕ
handed_ids (handed job) = job.id ∷ []
handed_ids (created _) = []
handed_ids refused = []
handed_ids returned = []

-- There is an identifier left for a new job.
abbrev pub HasRoom : {V : Type 0} → Spec V → Thread V → Type 0
HasRoom a (creates _ _) = a.next_id + 1 < 2 ^ 64
HasRoom a _ = Unit {0}

module _ {S E V : Type 0} (chrono : Chrono) (store : Storage S E V) (view : S → Spec V) where
  abbrev pub operate : Thread V → Exec S E (Thread V ⊎ Answer V)
  operate = advance chrono store (λ t. pure (inl t)) (λ a. pure (inr a))

  -- A method begins, or a thread runs its next operation, which succeeds. A job is returned once after
  -- it was handed out.
  pub data Move : Shared S V → Shared S V → Type 0 where
    begins_new :
        (s : S) (threads : List (Thread V)) (away : List ℕ) (clock : Clock) (new : NewJobInfo V)
        → Move
            (record { storage = s; threads = threads; away = away })
            (record { storage = s; threads = creates clock new ∷ threads; away = away })
    begins_request :
        (s : S) (threads : List (Thread V)) (away : List ℕ) (clock : Clock) (queue : String)
        (runner_id : ℕ)
        → Move
            (record { storage = s; threads = threads; away = away })
            (record { storage = s; threads = looks clock queue runner_id ∷ threads; away = away })
    begins_return :
        (s : S) (threads : List (Thread V)) (before behind : List ℕ) (clock : Clock)
        (r : ReturnJobInfo)
        → Move
            (record { storage = s; threads = threads; away = before ++ r.id ∷ behind })
            (record {
              storage = s;
              threads = returning chrono store clock r ∷ threads;
              away = before ++ behind;
            })
    goes_on :
        (s u : S) (before behind : List (Thread V)) (away : List ℕ) (thread next : Thread V)
        → HasRoom (view s) thread
        → operate thread s ≡ (ok (inl next), u)
        → Move
            (record { storage = s; threads = before ++ thread ∷ behind; away = away })
            (record { storage = u; threads = before ++ next ∷ behind; away = away })
    answers :
        (s u : S) (before behind : List (Thread V)) (away : List ℕ) (thread : Thread V)
        (answer : Answer V)
        → HasRoom (view s) thread
        → operate thread s ≡ (ok (inr answer), u)
        → Move
            (record { storage = s; threads = before ++ thread ∷ behind; away = away })
            (record { storage = u; threads = before ++ behind; away = away ++ handed_ids answer })

  pub data Moves (p : Shared S V) : Shared S V → Type 0 where
    begin : Moves p p
    move : {q r : Shared S V} → Moves p q → Move q r → Moves p r
